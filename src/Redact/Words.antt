-- ===== src/Redact/Words.antt =====
-- `redactTokenLikeText` of util.go: which words it leaves.
use codex_auth_broker.Redact.{
  count_char, elem, every, fields, fields_from, is_jwt, is_token, join, redact_token_like_text,
  redact_word, replace_first, trim_set,
}
use codex_auth_broker.Redact.Trim.{
  Trims, every-append, every-append_left, every-append_right, is_cut, replace_first-Trims,
  trim_set-Trims, trim_set-core, trim_set-head,
}
use codex_auth_broker.Prelude.{
  All, Bool, Bool-cases, List, [], ap, append-nil, append_assoc, arith, false, inl, inr, map, not,
  refl, sym, true, ℕ, ◌++◌, ◌∙◌, ◌∷◌, ◌≡◌, ◌≢◌, ◌⊎◌,
}
use codex_auth_broker.Prelude.Text.{Bytes, beq, beq-ne, beq_iff, codes, is_space}

-- What a word is without quotes, brackets and punctuation around it looks like no credential.
abbrev pub IsHarmless : Bytes → Type 0
IsHarmless word = (is_jwt (trim_set word) ≡ false) × (is_token (trim_set word) ≡ false)

-- A mark is a word in brackets, of which trimming leaves the word.
trim_set-mark :
    (pre post core : Bytes) (a z : ℕ)
    → every is_cut pre ≡ true
    → every is_cut post ≡ true
    → is_cut a ≡ false
    → is_cut z ≡ false
    → trim_set (pre ++ (91 ∷ ((a ∷ core) ++ (z ∷ (93 ∷ post))))) ≡ (a ∷ core) ++ (z ∷ [])
unfolding every
trim_set-mark pre post core a z hpre hpost ha hz =
    ap trim_set (sym (append_assoc pre (91 ∷ []) ((a ∷ core) ++ (z ∷ (93 ∷ post)))))
    ∙ trim_set-core (pre ++ (91 ∷ [])) (93 ∷ post) core a z
        (every-append is_cut pre (91 ∷ []) hpre opening) closing ha hz
  where
    opening : every is_cut (91 ∷ []) ≡ true
    opening = unfold elem in refl

    closing : every is_cut (93 ∷ post) ≡ true
    closing = unfold elem in hpost

jwt_mark-IsHarmless :
    (pre post : Bytes)
    → every is_cut pre ≡ true
    → every is_cut post ≡ true
    → IsHarmless (pre ++ (codes "[redacted-jwt]" ++ post))
unfolding is_jwt is_token count_char elem
jwt_mark-IsHarmless pre post hpre hpost =
    rw (trim_set-mark pre post (codes "edacted-jw") b'r' b't' hpre hpost refl refl) (refl, refl)

token_mark-IsHarmless :
    (pre post : Bytes)
    → every is_cut pre ≡ true
    → every is_cut post ≡ true
    → IsHarmless (pre ++ (codes "[redacted-token]" ++ post))
unfolding is_jwt is_token count_char elem
token_mark-IsHarmless pre post hpre hpost =
    rw (trim_set-mark pre post (codes "edacted-toke") b'r' b'n' hpre hpost refl refl) (refl, refl)

is_jwt-nil : is_jwt [] ≡ false
unfolding is_jwt count_char
is_jwt-nil = refl

is_token-nil : is_token [] ≡ false
unfolding is_token
is_token-nil = refl

-- What `redactTokenLikeText` does to a word: it leaves it, or puts a mark for what trimming leaves.
abbrev Redacts : Bytes → Bytes → Type 0
Redacts word out =
    (out ≡ word)
    ⊎ ((pre : Bytes) × (post : Bytes) × (mark : Bytes) × (word ≡ pre ++ (trim_set word ++ post))
        × (out ≡ pre ++ (mark ++ post))
        × ((mark ≡ codes "[redacted-jwt]") ⊎ (mark ≡ codes "[redacted-token]")))

redact_word-Redacts :
    (word : Bytes) → IsHarmless (redact_word word) × Redacts word (redact_word word)
unfolding redact_word
redact_word-Redacts word = go (trim_set word) refl (trim_set-Trims word)
  where
    marked :
        (c : ℕ) (r : Bytes)
        → trim_set word ≡ c ∷ r
        → (pre post : Bytes) → word ≡ pre ++ (trim_set word ++ post)
        → every is_cut pre ≡ true
        → (new : Bytes) → replace_first (trim_set word) new word ≡ pre ++ (new ++ post)
    marked c r is_t pre post split hpre new =
        let split' : word ≡ pre ++ ((c ∷ r) ++ post) =
          split ∙ ap (λ (x : Bytes). pre ++ (x ++ post)) is_t in
        ap (λ (x : Bytes). replace_first x new word) is_t
        ∙ ap (replace_first (c ∷ r) new) split'
        ∙ replace_first-Trims pre post new c r hpre (trim_set-head word c r is_t)

    go :
        (t : Bytes)
        → trim_set word ≡ t
        → Trims word
        → IsHarmless (redact_word word) × Redacts word (redact_word word)
    go [] is_t _ =
        rw (is_t, is_jwt-nil, is_token-nil)
          ((ap is_jwt is_t ∙ is_jwt-nil, ap is_token is_t ∙ is_token-nil), inl refl)
    go (c ∷ r) is_t (pre, post, split, hpre, hpost) =
        let at = marked c r is_t pre post split hpre in
        elim (Bool-cases (is_jwt (trim_set word))) [
          | inl jwt ↦
              rw (jwt, at (codes "[redacted-jwt]"))
                (
                  jwt_mark-IsHarmless pre post hpre hpost,
                  inr (pre, post, codes "[redacted-jwt]", split, refl, inl refl),
                )
          | inr other ↦ elim (Bool-cases (is_token (trim_set word))) [
            | inl token ↦
                rw (other, token, at (codes "[redacted-token]"))
                  (
                    token_mark-IsHarmless pre post hpre hpost,
                    inr (pre, post, codes "[redacted-token]", split, refl, inr refl),
                  )
            | inr short ↦ rw (other, short) ((other, short), inl refl)
          ]
        ]

-- A word as `strings.Fields` gives it: not empty, and without white space.
abbrev pub IsWord : Bytes → Type 0
IsWord w = (w ≢ []) × (every (λ c. not (is_space c)) w ≡ true)

fields_from-words :
    (word s : Bytes) → every (λ c. not (is_space c)) word ≡ true → All IsWord (fields_from word s)
unfolding fields_from
fields_from-words word [] h = elim (Bool-cases (beq word [])) [
  | inl none_yet ↦ rw none_yet tt
  | inr some_yet ↦ rw some_yet ((beq-ne word [] some_yet, h), tt)
]
fields_from-words word (c ∷ s) h = elim (Bool-cases (is_space c)) [
  | inl space ↦ elim (Bool-cases (beq word [])) [
    | inl none_yet ↦ rw (space, none_yet) (fields_from-words [] s nothing)
    | inr some_yet ↦
        rw (space, some_yet) ((beq-ne word [] some_yet, h), fields_from-words [] s nothing)
  ]
  | inr letter ↦
      rw letter
        (fields_from-words (word ++ (c ∷ [])) s (every-append _ word (c ∷ []) h (single letter)))
]
  where
    nothing : every (λ x. not (is_space x)) [] ≡ true
    nothing = unfold every in refl

    single : is_space c ≡ false → every (λ x. not (is_space x)) (c ∷ []) ≡ true
    single e = unfold every in ground arith

-- Reading a word to its end.
fields_from-word :
    (word w s : Bytes)
    → every (λ c. not (is_space c)) w ≡ true
    → fields_from word (w ++ s) ≡ fields_from (word ++ w) s
unfolding fields_from every
fields_from-word word [] s h = ap (λ (x : Bytes). fields_from x s) (sym (append-nil word))
fields_from-word word (c ∷ w) s h =
    let letter : is_space c ≡ false = ground arith in
    rw letter (
      fields_from-word (word ++ (c ∷ [])) w s (ground arith)
      ∙ ap (λ (x : Bytes). fields_from x s) (append_assoc word (c ∷ []) w))

-- A word that ends.
fields_from-end : (w : Bytes) → w ≢ [] → fields_from w [] ≡ w ∷ []
unfolding fields_from
fields_from-end w full = elim (Bool-cases (beq w [])) [
  | inl empty ↦ absurd (full ((beq_iff w []).0 empty))
  | inr some_yet ↦ rw some_yet refl
]

fields_from-blank : (w s : Bytes) → w ≢ [] → fields_from w (32 ∷ s) ≡ w ∷ fields s
unfolding fields_from is_space
fields_from-blank w s full = elim (Bool-cases (beq w [])) [
  | inl empty ↦ absurd (full ((beq_iff w []).0 empty))
  | inr some_yet ↦ rw some_yet refl
]

fields-nil : fields [] ≡ []
unfolding fields_from beq
fields-nil = refl

fields-join : (ws : List Bytes) → All IsWord ws → fields (join ws) ≡ ws
unfolding join
fields-join [] h = fields-nil
fields-join (w ∷ []) h =
    ap fields (sym (append-nil w)) ∙ fields_from-word [] w [] h.0.1 ∙ fields_from-end w h.0.0
fields-join (w ∷ (v ∷ ws)) h =
    fields_from-word [] w (32 ∷ join (v ∷ ws)) h.0.1
    ∙ fields_from-blank w (join (v ∷ ws)) h.0.0
    ∙ ap (◌∷◌ w) (fields-join (v ∷ ws) h.1)

append-full : (pre mark post : Bytes) → mark ≢ [] → pre ++ (mark ++ post) ≢ []
append-full [] [] post full e = full refl
append-full [] (c ∷ mark) post full e = cc
append-full (d ∷ pre) mark post full e = cc

mark-IsWord :
    (mark : Bytes)
    → (mark ≡ codes "[redacted-jwt]") ⊎ (mark ≡ codes "[redacted-token]")
    → IsWord mark
unfolding every is_space
mark-IsWord mark (inl e) = rw e ((λ k. cc), refl)
mark-IsWord mark (inr e) = rw e ((λ k. cc), refl)

redact_word-IsWord : (w : Bytes) → IsWord w → IsWord (redact_word w)
redact_word-IsWord w (full, solid) = elim (redact_word-Redacts w).1 [
  | inl kept ↦ rw kept (full, solid)
  | inr (pre, post, mark, split, is_out, is_mark) ↦
      let (mark_full, mark_solid) = mark-IsWord mark is_mark in
      let whole = rw split at solid in
      let rest = every-append_right letters pre _ whole in
      rw is_out (
        append-full pre mark post mark_full,
        every-append letters pre (mark ++ post) (every-append_left letters pre _ whole) (
            every-append letters mark post mark_solid
              (every-append_right letters (trim_set w) post rest)),
      )
]
  where
    letters : ℕ → Bool
    letters c = not (is_space c)

All-map :
    (P Q : Bytes → Type 0) (f : Bytes → Bytes) (ws : List Bytes)
    → ((w : Bytes) → P w → Q (f w))
    → All P ws
    → All Q (map f ws)
All-map P Q f [] step h = tt
All-map P Q f (w ∷ ws) step h = (step w h.0, All-map P Q f ws step h.1)

-- No word of the text that `redactTokenLikeText` gives is, without the quotes, brackets and
-- punctuation around it, a text of more than 40 bytes with two dots, or one of more than 60 bytes
-- of the alphabet of tokens; its words are those of the given text, in order, each kept or replaced
-- by itself.
pub redact_token_like_text-IsHarmless :
    (value : Bytes)
    → All IsHarmless (fields (redact_token_like_text value))
      × (fields (redact_token_like_text value) ≡ map redact_word (fields value))
unfolding redact_token_like_text
redact_token_like_text-IsHarmless value =
    let words = fields_from-words [] value (unfold every in refl) in
    let same =
      fields-join (map redact_word (fields value))
        (All-map IsWord IsWord redact_word (fields value) redact_word-IsWord words) in
    rw same (
      All-map IsWord IsHarmless redact_word (fields value) (λ w h. (redact_word-Redacts w).0) words,
      refl,
    )
