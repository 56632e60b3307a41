-- ===== src/Log/File/Compact.antt =====
-- persist.go, `compact`: the size of a file that was compacted, and which of its entries it keeps.
use codex_auth_broker.Log.File.{
  Faults, Keeping, LogError, LogFile, compact, compact_kept, concat_lines, drop_oldest,
  encode_failed, fails, keep, keep_entries, keep_entry, keep_extra, keeps_nothing, newline,
  nothing_fits, read_failed, replace_failed, replace_with, scan_request_log_reader, stat_failed,
  tail_of, total,
}
use codex_auth_broker.Prelude.{
  Bool, Bool-cases, List, Option, Option-cases, [], ap, append-nil, append_assoc, arith, false,
  if◌then◌else◌, inl, inr, length, length-append, ltb, map, none, not, refl, some, sym, true, ℕ,
  ◌&&◌, ◌++◌, ◌-◌, ◌/◌, ◌∙◌, ◌∷◌, ◌≡◌, ◌≤◌,
}
use codex_auth_broker.Prelude.Text.{Bytes}

length-concat_lines : (lines : List Bytes) → length (concat_lines lines) ≡ total lines
unfolding total
length-concat_lines [] = refl
length-concat_lines (line ∷ lines) =
    omega (arith, length-append line (concat_lines lines), length-concat_lines lines)

total-nothing : (n : ℕ) → total [] ≤ n
unfolding total
total-nothing n = omega arith

-- One round of dropping, in front of a line that stays.
drop_oldest-cons :
    (target : ℕ) (a line : Bytes) (lines : List Bytes)
    → drop_oldest target (a ∷ (lines ++ (line ∷ []))) ≡ (
        if ltb target (total (a ∷ (lines ++ (line ∷ []))))
        then drop_oldest target (lines ++ (line ∷ []))
        else a ∷ (lines ++ (line ∷ [])))
unfolding drop_oldest
drop_oldest-cons target a line [] = refl
drop_oldest-cons target a line (b ∷ lines) = refl

Bounded-if :
    (target bound n : ℕ) (x y : List Bytes)
    → target ≤ bound
    → total y ≡ n
    → total x ≤ bound
    → total (if ltb target n then x else y) ≤ bound
Bounded-if target bound n x y ht e hx = elim (Bool-cases (ltb target n)) [
  | inl over ↦ rw over hx
  | inr within ↦ rw within (ground (arith, within, e, ht))
]

drop_oldest-Bounded :
    (target bound : ℕ) (lines : List Bytes) (line : Bytes)
    → target ≤ bound
    → length line ≤ bound
    → total (drop_oldest target (lines ++ (line ∷ []))) ≤ bound
unfolding total drop_oldest
drop_oldest-Bounded target bound [] line ht hl = omega (arith, hl)
drop_oldest-Bounded target bound (a ∷ lines) line ht hl =
    rw (drop_oldest-cons target a line lines) (
      Bounded-if target bound _ (drop_oldest target (lines ++ (line ∷ [])))
        (a ∷ (lines ++ (line ∷ []))) ht refl (drop_oldest-Bounded target bound lines line ht hl))

-- The lines that are left are the last ones, and one at least.
abbrev Ends : List Bytes → List Bytes → Type 0
Ends kept lines = ((dropped : List Bytes) × (dropped ++ kept ≡ lines)) × (kept ≡ [] → lines ≡ [])

drop_oldest-Ends : (target : ℕ) (lines : List Bytes) → Ends (drop_oldest target lines) lines
unfolding drop_oldest
drop_oldest-Ends target [] = (([], refl), λ e. e)
drop_oldest-Ends target (line ∷ []) = (([], refl), λ e. e)
drop_oldest-Ends target (line ∷ (next ∷ lines)) =
    elim (Bool-cases (ltb target (total (line ∷ next ∷ lines)))) [
      | inl over ↦
          let ((dropped, same), rest) = drop_oldest-Ends target (next ∷ lines) in
          rw (over, drop_oldest)
            ((line ∷ dropped, ap (λ ls. line ∷ ls) same), λ e. ground (arith, rest e))
      | inr within ↦ rw (within, drop_oldest) (([], refl), λ e. e)
    ]

Ends-next :
    (target : ℕ) (kept lines : List Bytes) (line : Bytes)
    → Ends kept lines
    → Ends (drop_oldest target (kept ++ (line ∷ []))) (lines ++ (line ∷ []))
Ends-next target kept lines line ((dropped, same), some_left) =
    let ((more, same'), left) = drop_oldest-Ends target (kept ++ (line ∷ [])) in
    (
      (
        dropped ++ more,
        append_assoc dropped more _
            ∙ ap (λ ls. dropped ++ ls) same'
            ∙ sym (append_assoc dropped kept (line ∷ []))
            ∙ ap (λ ls. ls ++ (line ∷ [])) same,
      ),
      λ e. absurd (append_line kept line (left e)),
    )
  where
    append_line : (ls : List Bytes) (l : Bytes) → ¬ (ls ++ (l ∷ []) ≡ [])
    append_line [] l e = ground (arith, e)
    append_line (x ∷ ls) l e = ground (arith, e)

-- What is kept of lines that could all be encoded: the last of them, within the limit.
abbrev Kept : ℕ → Keeping → List Bytes → Type 0
Kept bound k lines = k.encode_error ≡ none → (total k.kept ≤ bound) × Ends k.kept lines

keep-Kept :
    (bound : ℕ) (k : Keeping) (lines : List Bytes) (line : Bytes)
    → Kept bound k lines
    → Kept bound (keep bound k line) (lines ++ (line ∷ []))
unfolding keep
keep-Kept bound k lines line h = elim (Bool-cases (ltb bound (length line))) [
  | inl large ↦ rw (large, keep) λ e. ground (arith, e)
  | inr fits ↦
      rw (fits, keep)
        λ e.
          let (_, ends) = h e in
          (
            drop_oldest-Bounded (bound - bound / 4) bound k.kept line (omega arith)
                (ground (arith, fits)),
            Ends-next (bound - bound / 4) k.kept lines line ends,
          )
]

abbrev pub line_from : Option Bytes → Bytes
line_from none = []
line_from (some encoded) = encoded ++ (newline ∷ [])

module _ {A : Type 0} (parse : Bytes → Option A) (marshal : A → Option Bytes) where
  -- The line of an entry that can be encoded.
  abbrev pub line_of : A → Bytes
  line_of a = line_from (marshal a)

  keep_entry-Kept :
      (bound : ℕ) (k : Keeping) (lines : List Bytes) (a : A)
      → Kept bound k lines
      → Kept bound (keep_entry parse marshal bound k a) (lines ++ (line_of a ∷ []))
  unfolding keep_entry
  keep_entry-Kept bound k lines a h = at (marshal a)
    where
      at :
          (o : Option Bytes)
          → Kept bound
              (elim o [
                | none ↦ record k { encode_error = some encode_failed }
                | some encoded ↦ keep bound k (encoded ++ (newline ∷ []))
              ])
              (lines ++ (line_from o ∷ []))
      at none = λ e. ground (arith, e)
      at (some encoded) = keep-Kept bound k lines (encoded ++ (newline ∷ [])) h

  keep_entries-Kept :
      (bound : ℕ) (k : Keeping) (lines : List Bytes) (entries : List A)
      → Kept bound k lines
      → Kept bound (keep_entries parse marshal bound k entries) (lines ++ map line_of entries)
  unfolding keep_entries
  keep_entries-Kept bound k lines [] h = rw (append-nil lines) h
  keep_entries-Kept bound k lines (a ∷ entries) h =
      rw (sym (append_assoc lines (line_of a ∷ []) (map line_of entries))) (
        keep_entries-Kept bound (keep_entry parse marshal bound k a) (lines ++ (line_of a ∷ []))
          entries (keep_entry-Kept bound k lines a h))

  -- The lines that a compaction may keep.
  abbrev pub lines_with : LogFile → Option Bytes → List Bytes
  lines_with f extra =
      map line_of (scan_request_log_reader parse (tail_of f.max_bytes f.content))
      ++ elim extra [ none ↦ [] | some line ↦ line ∷ [] ]

  keep_extra-Kept :
      (bound : ℕ) (k : Keeping) (lines : List Bytes) (extra : Option Bytes)
      → Kept bound k lines
      → Kept bound
          (keep_extra bound k extra)
          (lines ++ elim extra [ none ↦ [] | some line ↦ line ∷ [] ])
  unfolding keep_extra
  keep_extra-Kept bound k lines none h = rw (append-nil lines) h
  keep_extra-Kept bound k lines (some line) h = keep-Kept bound k lines line h

  -- What a compaction does to a file: a replaced file has the last lines of those that may be kept,
  -- one at least if there is one, within the limit; and it is the old file if it was not renamed.
  pub record IsCompacted (renamed : Bool) (f : LogFile) (extra : Option Bytes)
      (r : LogFile × Option LogError) : Type 0 where
    pub replaced :
        r.1 ≡ none
        → (kept : List Bytes) × (r.0.content ≡ concat_lines kept)
          × (length r.0.content ≤ f.max_bytes)
          × Ends kept (lines_with f extra)
    pub as_it_was : renamed ≡ false → r.0.content ≡ f.content

  failed :
      (faults : Faults) (f : LogFile) (extra : Option Bytes) (e : LogError)
      → IsCompacted faults.renamed f extra (fails f e)
  failed faults f extra e = record { replaced = λ x. ground (arith, x); as_it_was = λ x. refl }

  IsCompacted-if :
      (faults : Faults) (f : LogFile) (extra : Option Bytes) (b : Bool) (e : LogError)
      (r : LogFile × Option LogError)
      → IsCompacted faults.renamed f extra r
      → IsCompacted faults.renamed f extra (if b then fails f e else r)
  IsCompacted-if faults f extra true e r h = failed faults f extra e
  IsCompacted-if faults f extra false e r h = h

  replace_with-IsCompacted :
      (faults : Faults) (f : LogFile) (extra : Option Bytes) (kept : List Bytes)
      → (total kept ≤ f.max_bytes) × Ends kept (lines_with f extra)
      → IsCompacted faults.renamed f extra (replace_with faults f kept)
  unfolding replace_with
  replace_with-IsCompacted faults f extra kept (small, ends) = at faults.renamed faults.replace_ok
    where
      at :
          (renamed ok : Bool)
          → let g = if renamed then record f { content = concat_lines kept } else f in
            IsCompacted renamed f extra
              (if renamed && ok then (g, none) else fails g replace_failed)
      at true true = record {
        replaced = λ e. (kept, refl, rw (length-concat_lines kept) small, ends);
        as_it_was = λ e. ground (arith, e);
      }
      at true false = record {
        replaced = λ e. ground (arith, e);
        as_it_was = λ e. ground (arith, e);
      }
      at false ok = record { replaced = λ e. ground (arith, e); as_it_was = λ e. refl }

  compact_kept-IsCompacted :
      (faults : Faults) (f : LogFile) (extra : Option Bytes) (k : Keeping)
      → Kept f.max_bytes k (lines_with f extra)
      → IsCompacted faults.renamed f extra (compact_kept faults f extra k)
  unfolding compact_kept
  compact_kept-IsCompacted faults f extra k h = elim (Option-cases k.encode_error) [
    | inl e ↦
        rw (e, compact_kept)
          (IsCompacted-if faults f extra _ nothing_fits _
            (replace_with-IsCompacted faults f extra k.kept (h e)))
    | inr (x, e) ↦ rw (e, compact_kept) (failed faults f extra x)
  ]

  -- Compacting a file: if it succeeds, the file has at most as many bytes as its limit, and its
  -- lines are the last of the lines of the entries that were read and the line that is added, in
  -- their order, with the last of them kept in any case. If the file was not renamed, it is as it
  -- was.
  pub compact-IsCompacted :
      (faults : Faults) (f : LogFile) (extra : Option Bytes)
      → IsCompacted faults.renamed f extra (compact parse marshal faults f extra)
  unfolding compact
  compact-IsCompacted faults f extra =
      IsCompacted-if faults f extra (not faults.stat_ok) stat_failed _ (
        IsCompacted-if faults f extra (not faults.read_ok) read_failed _ (
          compact_kept-IsCompacted faults f extra _ (
            keep_extra-Kept f.max_bytes _ _ extra (
              keep_entries-Kept f.max_bytes keeps_nothing []
                (scan_request_log_reader parse (tail_of f.max_bytes f.content))
                (λ e. (total-nothing f.max_bytes, (([], refl), λ x. refl)))))))
