-- ===== src/Redact.antt =====
-- util.go and proxy.go, what is kept of texts that may carry credentials: token-like words, and the
-- upstream headers that go to logs and clients. UTF-8 and character classes are arguments.
pub mod Trim
pub mod Words
pub mod Headers
pub mod Bounds
mod Tests
use mathlib.Core.List.{map, reverse}
use codex_auth_broker.Prelude.{
  Bool, List, [], false, if◌then◌else◌, leb, length, ltb, none, some, true, ℕ, ◌&&◌, ◌++◌, ◌+◌,
  ◌==◌, ◌||◌, ◌∷◌,
}
use codex_auth_broker.Prelude.Text.{Bytes, beq, codes, cut_prefix, is_space}

-- strings.Fields
unfoldable pub fields_from : Bytes → Bytes → List Bytes
fields_from word [] = if beq word [] then [] else word ∷ []
fields_from word (c ∷ s) =
    let at_end = fields_from [] s in
    let on = fields_from (word ++ (c ∷ [])) s in
    if is_space c then (if beq word [] then at_end else word ∷ at_end) else on

abbrev pub fields : Bytes → List Bytes
fields s = fields_from [] s

-- strings.Join with a blank.
unfoldable pub join : List Bytes → Bytes
join [] = []
join (w ∷ []) = w
join (w ∷ (v ∷ ws)) = w ++ (32 ∷ join (v ∷ ws))

unfoldable pub elem : ℕ → Bytes → Bool
elem c [] = false
elem c (d ∷ ds) = c == d || elem c ds

-- The double quote and the other characters that `strings.Trim` takes off a word.
abbrev pub cutset : Bytes
cutset = 34 ∷ codes "'.,;:()[]{}<>"

unfoldable pub trim_left_set : Bytes → Bytes
trim_left_set [] = []
trim_left_set (c ∷ s) = if elem c cutset then trim_left_set s else c ∷ s

unfoldable pub trim_set : Bytes → Bytes
trim_set s = reverse (trim_left_set (reverse (trim_left_set s)))

-- strings.Count of one character.
unfoldable pub count_char : ℕ → Bytes → ℕ
count_char c [] = 0
count_char c (d ∷ s) = (if d == c then 1 else 0) + count_char c s

-- strings.Replace of the first occurrence of a text that is not empty.
unfoldable pub replace_first : Bytes → Bytes → Bytes → Bytes
replace_first old new [] = []
replace_first old new (c ∷ s) =
    let later = replace_first old new s in
    elim (cut_prefix old (c ∷ s)) [ some rest ↦ new ++ rest | none ↦ c ∷ later ]

unfoldable pub is_digit : ℕ → Bool
is_digit c = leb b'0' c && leb c b'9'

unfoldable pub is_token_char : ℕ → Bool
is_token_char c =
    elem c (codes "-_.~+/=")
    || is_digit c
    || (leb b'A' c && leb c b'Z')
    || (leb b'a' c && leb c b'z')

-- No character of the text fails the test: `strings.IndexFunc` gives -1.
unfoldable pub every : (ℕ → Bool) → Bytes → Bool
every test [] = true
every test (c ∷ s) = test c && every test s

unfoldable pub is_jwt : Bytes → Bool
is_jwt trimmed = count_char b'.' trimmed == 2 && ltb 40 (length trimmed)

unfoldable pub is_token : Bytes → Bool
is_token trimmed = ltb 60 (length trimmed) && every is_token_char trimmed

unfoldable pub redact_word : Bytes → Bytes
redact_word field =
    let trimmed = trim_set field in
    if is_jwt trimmed
    then replace_first trimmed (codes "[redacted-jwt]") field
    else if is_token trimmed
    then replace_first trimmed (codes "[redacted-token]") field
    else field

unfoldable pub redact_token_like_text : Bytes → Bytes
redact_token_like_text value = join (map redact_word (fields value))
