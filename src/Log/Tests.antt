-- ===== src/Log/Tests.antt =====
-- Concrete runs of the history of requests.
use codex_auth_broker.Prelude.{All, List, [], arith, refl, replicate, ℕ, ◌++◌, ◌∷◌, ◌≡◌, ◌≤◌, ◌⊎◌}
use codex_auth_broker.Log.{
  Entry, RequestLogStore, clear_entries, collect_request_log_entries, keep_entries, keep_entry,
  ordered, restore_entries, sanitize_broker_user, snapshot_requests, store_entry, without_controls,
}
use codex_auth_broker.Log.Store.{
  GivesNewId, Grows, IsKept, adds, clears, history_in_order, no_step, one_more,
}
use codex_auth_broker.Redact.{
  count_char, elem, every, fields_from, is_digit, is_jwt, is_token, is_token_char, join,
  redact_token_like_text, redact_word, replace_first, trim_left_set, trim_set,
}
use codex_auth_broker.Log.Collect.{collect_request_log_entries-latest, latest}
use codex_auth_broker.Prelude.Text.{Bytes, beq, cut_prefix, is_space, trim_space}

abbrev entry : ℕ → Entry ℕ
entry n = record { id = n; rest = n }

abbrev file : List (Entry ℕ)
file = entry 1 ∷ entry 2 ∷ entry 3 ∷ entry 4 ∷ entry 5 ∷ []

kept_run : collect_request_log_entries 3 file ≡ (entry 3 ∷ entry 4 ∷ entry 5 ∷ [], 5)
unfolding collect_request_log_entries ordered keep_entries keep_entry
kept_run = refl

collect_request_log_entries-latest_example :
    let (entries, max_id) = collect_request_log_entries 3 file in
    (entries ≡ latest 3 file) × All (λ e. e.id ≤ max_id) file
collect_request_log_entries-latest_example = collect_request_log_entries-latest 3 file (omega arith)

-- A token that the length limit cuts is not taken for one any more: 60 bytes of it are kept.
abbrev cut_token : Bytes
cut_token = replicate 67 b'.' ++ (32 ∷ replicate 61 b'a')

cut_token_run : sanitize_broker_user cut_token ≡ replicate 67 b'.' ++ (32 ∷ replicate 60 b'a')
unfolding sanitize_broker_user redact_token_like_text join fields_from trim_space without_controls
    beq redact_word is_jwt count_char trim_set trim_left_set elem is_token every is_token_char
    is_digit replace_first cut_prefix is_space
cut_token_run = refl

abbrev old : List (Entry ℕ)
old = entry 3 ∷ entry 4 ∷ entry 5 ∷ []

abbrev restored : RequestLogStore ℕ
restored = restore_entries (record { limit = 2; next_id = 0; entries = [] }) old 5

abbrev added : RequestLogStore ℕ
added = store_entry restored 9

snapshot_run : snapshot_requests added 0 ≡ (record { id = 6; rest = 9 } ∷ entry 5 ∷ [])
unfolding snapshot_requests store_entry restore_entries
snapshot_run = refl

old-Grows : Grows 0 5 old
old-Grows = (omega arith, (omega arith, (omega arith, omega arith)))

history_in_order_example :
    IsKept added × (((clear_entries added).limit ≡ 0) ⊎ GivesNewId added (clear_entries added) 7)
history_in_order_example =
    history_in_order 2 5 old old-Grows (one_more no_step (adds 9)) (one_more no_step clears) 7
