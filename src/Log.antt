-- ===== src/Log.antt =====
-- requests.go and persist.go, the history of requests: the bounded store of recent entries, the
-- reading of a log file into a ring, and the user a client names. An entry is its id and the rest,
-- which the store does not look into.
pub mod Collect
pub mod Store
pub mod File
mod Tests
use codex_auth_broker.Redact.{redact_token_like_text}
use codex_auth_broker.Prelude.{
  List, [], drop, if◌then◌else◌, length, ltb, set, take, ℕ, ◌++◌, ◌+◌, ◌-◌, ◌==◌, ◌||◌, ◌∷◌,
}
use codex_auth_broker.Prelude.Text.{Bytes, trim_space}
use mathlib.Core.List.{reverse}

abbrev pub max_broker_user_len : ℕ
max_broker_user_len = 128

unfoldable pub without_controls : Bytes → Bytes
without_controls [] = []
without_controls (c ∷ s) =
    let rest = without_controls s in if ltb c 0x20 || c == 0x7F then rest else c ∷ rest

unfoldable pub sanitize_broker_user : Bytes → Bytes
sanitize_broker_user value =
    let v = trim_space (without_controls value) in
    redact_token_like_text
      (if ltb max_broker_user_len (length v) then take max_broker_user_len v else v)

pub record Entry {ℓ} (A : Type ℓ) : Type ℓ where
  pub id : ℕ
  pub rest : A

-- What `collectRequestLogEntries` keeps while it scans.
pub record Ring {ℓ} (A : Type ℓ) : Type ℓ where
  pub entries : List (Entry A)
  pub max_id : ℕ
  pub next : ℕ

module _ {ℓ} {A : Type ℓ} where
  abbrev pub empty_ring : Ring A
  empty_ring = record { entries = []; max_id = 0; next = 0 }

  -- The function that is called for each entry. With the limit 0 the source fails here.
  unfoldable pub keep_entry : ℕ → Ring A → Entry A → Ring A
  keep_entry limit r e =
      let max_id = if ltb r.max_id e.id then e.id else r.max_id in
      if ltb (length r.entries) limit
      then record r { entries = r.entries ++ (e ∷ []); max_id = max_id }
      else record {
        entries = set r.entries r.next e;
        max_id = max_id;
        next = if r.next + 1 == limit then 0 else r.next + 1;
      }

  unfoldable pub keep_entries : ℕ → Ring A → List (Entry A) → Ring A
  keep_entries limit r [] = r
  keep_entries limit r (e ∷ es) = keep_entries limit (keep_entry limit r e) es

  -- `ordered`: the ring from its oldest entry on.
  unfoldable pub ordered : Ring A → List (Entry A)
  ordered r = if ltb 0 r.next then drop r.next r.entries ++ take r.next r.entries else r.entries

  -- The entries of the file that are kept, and the greatest id.
  unfoldable pub collect_request_log_entries : ℕ → List (Entry A) → List (Entry A) × ℕ
  collect_request_log_entries limit scanned =
      let r = keep_entries limit empty_ring scanned in (ordered r, r.max_id)

-- `requestLogStore`, of which the log file is left out.
pub record RequestLogStore {ℓ} (A : Type ℓ) : Type ℓ where
  pub limit : ℕ
  pub next_id : ℕ
  pub entries : List (Entry A)

module _ {ℓ} {A : Type ℓ} where
  -- The part of `add` under the lock, for an entry that has been sanitized and priced.
  unfoldable pub store_entry : RequestLogStore A → A → RequestLogStore A
  store_entry s rest =
      let entries = s.entries ++ (record { id = s.next_id + 1; rest = rest } ∷ []) in
      if s.limit == 0
      then s
      else record s { next_id = s.next_id + 1; entries = drop (length entries - s.limit) entries }

  -- The part of `restore` under the lock, for entries that have been sanitized and priced.
  unfoldable pub restore_entries : RequestLogStore A → List (Entry A) → ℕ → RequestLogStore A
  restore_entries s entries max_id = if s.limit == 0 || length entries == 0 then s else record s {
    entries = s.entries ++ drop (length entries - s.limit) entries;
    next_id = if ltb s.next_id max_id then max_id else s.next_id;
  }

  -- The loop of `snapshot`: the newest entries first. A limit of the source that is not positive is
  -- 0.
  unfoldable pub snapshot_requests : RequestLogStore A → ℕ → List (Entry A)
  snapshot_requests s limit =
      let n = if limit == 0 || ltb (length s.entries) limit then length s.entries else limit in
      take n (reverse s.entries)

  -- `clear`, when the file could be cleared.
  unfoldable pub clear_entries : RequestLogStore A → RequestLogStore A
  clear_entries s = record s { entries = [] }
