-- ===== src/Log/File.antt =====
-- persist.go, the log file of requests: how an entry is appended, an interrupted line is taken off
-- first, and the file is compacted. The file is its bytes; which system calls fail, and how much a
-- write wrote, are arguments, and so are the encoding and decoding of entries.
pub mod Tail
pub mod Scan
pub mod Append
pub mod History
pub mod Compact
mod Tests
use codex_auth_broker.Sse.{extra, trim_cr}
use codex_auth_broker.Prelude.{
  Bool, List, Option, [], drop, false, if◌then◌else◌, leb, length, ltb, none, not, some, suc, take,
  true, zero, ℕ, ◌&&◌, ◌*◌, ◌++◌, ◌+◌, ◌-◌, ◌/◌, ◌==◌, ◌||◌, ◌∷◌,
}
use codex_auth_broker.Prelude.Text.{Bytes, is_some}

abbrev pub newline : ℕ
newline = 10

-- A file of requests: `maxBytes`, where 0 is no limit, and whether the warning is latched.
pub record LogFile : Type 0 where
  pub content : Bytes
  pub max_bytes : ℕ
  pub warned : Bool

pub data LogError : Type 0 where
  unavailable encode_failed too_large stat_failed read_failed truncate_failed seek_failed : LogError
  write_failed rollback_failed nothing_fits replace_failed : LogError

-- What the system does while one entry is appended: a write ends after so many bytes, with or
-- without an error; a replacement may fail before or after the file was renamed.
pub record Faults : Type 0 where
  pub opened : Bool
  pub stat_ok : Bool
  pub read_ok : Bool
  pub truncate_ok : Bool
  pub seek_ok : Bool
  pub written : ℕ
  pub write_ok : Bool
  pub rollback_ok : Bool
  pub renamed : Bool
  pub replace_ok : Bool

abbrev pub block_bytes : ℕ
block_bytes = 64 * 1024

abbrev pub max_entry_bytes : ℕ
max_entry_bytes = 1024 * 1024

-- The place of the last newline in a chunk.
unfoldable pub last_newline : Bytes → Option ℕ
last_newline [] = none
last_newline (c ∷ s) =
    let later = last_newline s in
    elim later [ some i ↦ some (suc i) | none ↦ if c == newline then some 0 else none ]

-- The loop `search`: in each round the block in front of `end`. A round that finds no newline moves
-- `end` by a byte at least, so as many rounds as there are bytes are enough.
unfoldable pub search_back : ℕ → Bytes → ℕ → ℕ
search_back zero content end = 0
search_back (suc rounds) content end =
    let start = end - block_bytes in
    elim (last_newline (drop start (take end content))) [
      | some i ↦ start + i + 1
      | none ↦ if end == 0 then 0 else search_back rounds content start
    ]

abbrev pub ends_line : Bytes → Bool
ends_line content = elim (last_newline content) [ some i ↦ i + 1 == length content | none ↦ false ]

-- `ReadLine` cuts a carriage return in front of the newline off.
abbrev pub cut_return : Bytes → Bytes
cut_return line = trim_cr line

abbrev pub with_separator : Bool → Bytes → Bytes
with_separator needs_newline line = if needs_newline then newline ∷ line else line

pub data Repaired : Type 0 where
  repaired : LogFile → (needs_newline : Bool) → Repaired
  unrepaired : LogFile → LogError → Repaired

module _ {ℓ} {A : Type ℓ} (parse : Bytes → Option A) where
  abbrev pub is_entry : Bytes → Bool
  is_entry tail = leb (length tail) max_entry_bytes && is_some (parse tail)

  -- The part of `repairTail` behind the search.
  unfoldable pub repair_from : Faults → LogFile → ℕ → Repaired
  repair_from faults f tail_start =
      if is_entry (drop tail_start f.content)
      then repaired f true
      else if not faults.truncate_ok
      then unrepaired f truncate_failed
      else repaired (record f { content = take tail_start f.content; warned = true }) false

  unfoldable pub repair_tail : Faults → LogFile → Repaired
  repair_tail faults f =
      if not faults.stat_ok
      then unrepaired f stat_failed
      else if length f.content == 0
      then repaired f false
      else if not faults.read_ok
      then unrepaired f read_failed
      else if ends_line f.content
      then repaired f false
      else repair_from faults f (search_back (length f.content) f.content (length f.content))

  -- The entry of a line, if it has one.
  unfoldable pub entry_of : Bytes → List A
  entry_of line =
      if length line == 0 || ltb max_entry_bytes (length line)
      then []
      else elim (parse line) [ some a ↦ a ∷ [] | none ↦ [] ]

  -- `scanRequestLogReader`: `line` is what was read of the line so far.
  unfoldable pub scan_from : Bytes → Bytes → List A
  scan_from line [] = entry_of line
  scan_from line (c ∷ s) =
      let next = scan_from [] s in
      let on = scan_from (line ++ (c ∷ [])) s in
      if c == newline then entry_of (cut_return line) ++ next else on

  abbrev pub scan_request_log_reader : Bytes → List A
  scan_request_log_reader content = scan_from [] content

-- `keep` of compaction: the lines kept so far and the next one; the oldest are dropped while the
-- size is over the target and another one is left.
unfoldable pub total : List Bytes → ℕ
total [] = 0
total (line ∷ lines) = length line + total lines

unfoldable pub drop_oldest : ℕ → List Bytes → List Bytes
drop_oldest target [] = []
drop_oldest target (line ∷ []) = line ∷ []
drop_oldest target (line ∷ (next ∷ lines)) =
    let fewer = drop_oldest target (next ∷ lines) in
    if ltb target (total (line ∷ next ∷ lines)) then fewer else line ∷ next ∷ lines

-- The variables that `keep` sets.
pub record Keeping : Type 0 where
  pub kept : List Bytes
  pub encode_error : Option LogError

unfoldable pub keep : ℕ → Keeping → Bytes → Keeping
keep max_bytes k line =
    if ltb max_bytes (length line)
    then record k { encode_error = some too_large }
    else record k { kept = drop_oldest (max_bytes - max_bytes / 4) (k.kept ++ (line ∷ [])) }

-- `requestLogTailReader`: the last bytes of the file up to the limit, from the start of a line on.
unfoldable pub after_newline : Bytes → Bytes
after_newline [] = []
after_newline (c ∷ s) = let rest = after_newline s in if c == newline then s else rest

unfoldable pub tail_of : ℕ → Bytes → Bytes
tail_of max_bytes content =
    let start = if max_bytes == 0 then 0 else length content - max_bytes in
    let rest = drop start content in
    if start == 0 || ends_line (take start content) then rest else after_newline rest

abbrev pub concat_lines : List Bytes → Bytes
concat_lines [] = []
concat_lines (line ∷ lines) = line ++ concat_lines lines

-- `append` sets the warning when it fails, also where a call of it does.
abbrev pub fails : LogFile → LogError → LogFile × Option LogError
fails f e = (record f { warned = true }, some e)

-- The write itself, and its rollback.
unfoldable pub write_bytes : Faults → LogFile → Bytes → LogFile × Option LogError
write_bytes faults f bytes =
    if faults.write_ok && faults.written == length bytes
    then (record f { content = f.content ++ bytes }, none)
    else if faults.rollback_ok
    then fails f write_failed
    else fails (record f { content = f.content ++ take faults.written bytes }) rollback_failed

unfoldable pub keep_extra : ℕ → Keeping → Option Bytes → Keeping
keep_extra max_bytes k none = k
keep_extra max_bytes k (some line) = keep max_bytes k line

unfoldable pub replace_with : Faults → LogFile → List Bytes → LogFile × Option LogError
replace_with faults f lines =
    let g = if faults.renamed then record f { content = concat_lines lines } else f in
    if faults.renamed && faults.replace_ok then (g, none) else fails g replace_failed

-- What follows once the lines are kept.
unfoldable pub compact_kept : Faults → LogFile → Option Bytes → Keeping → LogFile × Option LogError
compact_kept faults f extra k = elim k.encode_error [
  | some e ↦ fails f e
  | none ↦
      if length k.kept == 0 && not (length f.content == 0) && not (is_some extra)
      then fails f nothing_fits
      else replace_with faults f k.kept
]

abbrev pub keeps_nothing : Keeping
keeps_nothing = record { kept = []; encode_error = none }

module _ {ℓ} {A : Type ℓ} (parse : Bytes → Option A) (marshal : A → Option Bytes) where
  unfoldable pub keep_entry : ℕ → Keeping → A → Keeping
  keep_entry max_bytes k a = elim (marshal a) [
    | none ↦ record k { encode_error = some encode_failed }
    | some encoded ↦ keep max_bytes k (encoded ++ (newline ∷ []))
  ]

  unfoldable pub keep_entries : ℕ → Keeping → List A → Keeping
  keep_entries max_bytes k [] = k
  keep_entries max_bytes k (a ∷ rest) = keep_entries max_bytes (keep_entry max_bytes k a) rest

  -- `compact`, with the line to add, if there is one.
  unfoldable pub compact : Faults → LogFile → Option Bytes → LogFile × Option LogError
  compact faults f extra =
      let entries = scan_request_log_reader parse (tail_of f.max_bytes f.content) in
      if not faults.stat_ok
      then fails f stat_failed
      else if not faults.read_ok
      then fails f read_failed
      else compact_kept faults f extra
          (keep_extra f.max_bytes (keep_entries f.max_bytes keeps_nothing entries) extra)

  unfoldable pub write_line : Faults → Bytes → Repaired → LogFile × Option LogError
  write_line faults line (unrepaired f e) = fails f e
  write_line faults line (repaired f needs_newline) =
      let bytes = with_separator needs_newline line in
      if not faults.seek_ok
      then fails f seek_failed
      else if not (f.max_bytes == 0) && ltb f.max_bytes (length f.content + length bytes)
      then compact faults f (some line)
      else write_bytes faults f bytes

  -- `append` of an entry that has been sanitized.
  unfoldable pub append_entry : Faults → A → LogFile → LogFile × Option LogError
  append_entry faults a f = elim (marshal a) [
    | none ↦ if faults.opened then fails f encode_failed else fails f unavailable
    | some encoded ↦
        let line = encoded ++ (newline ∷ []) in
        if not faults.opened
        then fails f unavailable
        else if not (f.max_bytes == 0) && ltb f.max_bytes (length line)
        then fails f too_large
        else write_line faults line (repair_tail parse faults f)
  ]

-- `clear`: truncating, seeking and syncing may fail, the last two with an empty file.
unfoldable pub clear_file : Faults → LogFile → LogFile × Option LogError
clear_file faults f =
    if not faults.opened
    then (f, some unavailable)
    else if not faults.truncate_ok
    then (f, some truncate_failed)
    else if not faults.seek_ok
    then (record f { content = [] }, some seek_failed)
    else if not faults.write_ok
    then (record f { content = [] }, some write_failed)
    else (record f { content = []; warned = false }, none)
