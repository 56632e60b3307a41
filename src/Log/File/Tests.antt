-- ===== src/Log/File/Tests.antt =====
-- persist.go, the log file on concrete inputs: an interrupted line is taken off, a line without its
-- newline is kept, a write is cut short, and compaction keeps the newest entries.
use codex_auth_broker.Log.File.Compact.{IsCompacted, compact-IsCompacted}
use codex_auth_broker.Sse.{trim_cr}
use codex_auth_broker.Log.File.{
  Faults, LogFile, after_newline, append_entry, compact, compact_kept, drop_oldest, entry_of, keep,
  keep_entries, keep_entry, keep_extra, last_newline, repair_from, repair_tail, replace_with,
  scan_from, search_back, tail_of, total, write_bytes, write_failed, write_line,
}
use codex_auth_broker.Log.File.Tail.{line_start, search_back-line_start}
use codex_auth_broker.Log.File.Scan.{IsCodec}
use codex_auth_broker.Log.File.History.{Logs, append_entry-Logs}
use codex_auth_broker.Redact.{elem}
use codex_auth_broker.Prelude.{
  Option, [], ap, arith, false, if◌then◌else◌, inl, inr, none, refl, some, true, ℕ, ◌==◌, ◌||◌, ◌∷◌,
  ◌≡◌, ◌≢◌, ◌⊎◌,
}
use codex_auth_broker.Prelude.Text.{Bytes, codes}

-- There are two entries, which a line with an `x` or a `y` stands for.
unfoldable parse : Bytes → Option ℕ
parse s = if elem b'x' s then some 1 else if elem b'y' s then some 2 else none

unfoldable marshal : ℕ → Option Bytes
marshal n = if n == 1 then some (codes "x") else if n == 2 then some (codes "y") else none

abbrev no_faults : Faults
no_faults = record {
  opened = true;
  stat_ok = true;
  read_ok = true;
  truncate_ok = true;
  seek_ok = true;
  written = 2;
  write_ok = true;
  rollback_ok = true;
  renamed = true;
  replace_ok = true;
}

abbrev file : Bytes → LogFile
file content = record { content = content; max_bytes = 0; warned = false }

-- The line `{` was interrupted.
interrupted :
    append_entry parse marshal no_faults 1 (file (codes "x\ny\n{"))
    ≡ (record { content = codes "x\ny\nx\n"; max_bytes = 0; warned = true }, none)
unfolding append_entry marshal repair_tail repair_from last_newline search_back parse elem
    write_line write_bytes compact tail_of after_newline keep_entry keep_entries keep_extra
    compact_kept replace_with scan_from entry_of trim_cr keep drop_oldest total
interrupted = refl

-- The line `y` lacks its newline.
unterminated :
    append_entry parse marshal (record no_faults { written = 3 }) 1 (file (codes "x\ny"))
    ≡ (file (codes "x\ny\nx\n"), none)
unfolding append_entry marshal repair_tail repair_from last_newline search_back parse elem
    write_line write_bytes compact tail_of after_newline keep_entry keep_entries keep_extra
    compact_kept replace_with scan_from entry_of trim_cr keep drop_oldest total
unterminated = refl

cut_short :
    append_entry parse marshal
      (record no_faults { written = 1; write_ok = false })
      1
      (file (codes "y\n"))
    ≡ (record { content = codes "y\n"; max_bytes = 0; warned = true }, some write_failed)
unfolding append_entry marshal repair_tail repair_from last_newline search_back parse elem
    write_line write_bytes compact tail_of after_newline keep_entry keep_entries keep_extra
    compact_kept replace_with scan_from entry_of trim_cr keep drop_oldest total
cut_short = refl

-- With a limit of 8 bytes, 6 are kept.
compacted :
    append_entry parse marshal no_faults 2
      (record { content = codes "x\nx\nx\ny\n"; max_bytes = 8; warned = false })
    ≡ (record { content = codes "x\ny\ny\n"; max_bytes = 8; warned = false }, none)
unfolding append_entry marshal repair_tail repair_from last_newline search_back parse elem
    write_line write_bytes compact tail_of after_newline keep_entry keep_entries keep_extra
    compact_kept replace_with scan_from entry_of trim_cr keep drop_oldest total
compacted = refl

elem-trim_cr : (c : ℕ) (s : Bytes) → c ≢ 13 → elem c (trim_cr s) ≡ elem c s
unfolding elem trim_cr
elem-trim_cr c [] ne = refl
elem-trim_cr c (d ∷ []) ne = ground arith
elem-trim_cr c (d ∷ (e ∷ s)) ne = ap (◌||◌ (c == d)) (elem-trim_cr c (e ∷ s) ne)

letter_of :
    (a : ℕ) (s : Bytes)
    → marshal a ≡ some s
    → ((a ≡ 1) × (s ≡ codes "x")) ⊎ ((a ≡ 2) × (s ≡ codes "y"))
unfolding marshal
letter_of a s m = ground (arith, m)

letters-IsCodec : IsCodec parse marshal
unfolding parse marshal elem last_newline
letters-IsCodec = record {
  one_line = λ a s m. elim (letter_of a s m) [ inl (e, t) ↦ rw t refl | inr (e, t) ↦ rw t refl ];
  decodes =
      λ a s m. elim (letter_of a s m) [ inl (e, t) ↦ rw (e, t) refl | inr (e, t) ↦ rw (e, t) refl ];
  nothing = refl;
  blank = λ s.
      rw
        (elem-trim_cr b'x' s (λ e. ground (arith, e)), elem-trim_cr b'y' s (λ e. ground (arith, e)))
        refl;
}

append_entry-Logs_example :
    Logs parse marshal letters-IsCodec
      (file (codes "x\ny\n{"))
      1
      (append_entry parse marshal no_faults 1 (file (codes "x\ny\n{")))
unfolding marshal
append_entry-Logs_example =
    append_entry-Logs parse marshal letters-IsCodec no_faults (file (codes "x\ny\n{")) 1 (codes "x")
      refl (omega arith) (inl refl)

search_back-line_start_example : search_back 9 (codes "x\ny\n{") 5 ≡ line_start (codes "x\ny\n{")
search_back-line_start_example =
    search_back-line_start 9 (codes "x\ny\n{") 5 (omega arith) (omega arith)

compact-IsCompacted_example :
    IsCompacted parse marshal true
      (record { content = codes "x\nx\nx\ny\n"; max_bytes = 8; warned = false })
      (some (codes "y\n"))
      (compact parse marshal no_faults
        (record { content = codes "x\nx\nx\ny\n"; max_bytes = 8; warned = false })
        (some (codes "y\n")))
compact-IsCompacted_example =
    compact-IsCompacted parse marshal no_faults
      (record { content = codes "x\nx\nx\ny\n"; max_bytes = 8; warned = false })
      (some (codes "y\n"))
