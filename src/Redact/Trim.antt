-- ===== src/Redact/Trim.antt =====
-- Trimming a word, and replacing what is left by a mark (util.go).
use codex_auth_broker.Redact.{cutset, elem, every, replace_first, trim_left_set, trim_set}
use codex_auth_broker.Prelude.{
  Bool, Bool-cases, [], ap, append_assoc, arith, false, inr, none, refl, some, sym, true, ℕ, ◌++◌,
  ◌==◌, ◌∙◌, ◌∷◌, ◌≡◌, inl,
}
use codex_auth_broker.Prelude.Text.{Bytes, cut_prefix, cut_prefix-append}
use mathlib.Core.List.{reverse, reverse-append, reverse-cons, reverse-reverse}

abbrev pub is_cut : ℕ → Bool
is_cut c = elem c cutset

pub every-append :
    (test : ℕ → Bool) (s t : Bytes)
    → every test s ≡ true
    → every test t ≡ true
    → every test (s ++ t) ≡ true
unfolding every
every-append test [] t hs ht = ht
every-append test (c ∷ s) t hs ht = ground (arith, every-append test s t)

pub every-append_left :
    (test : ℕ → Bool) (s t : Bytes) → every test (s ++ t) ≡ true → every test s ≡ true
unfolding every
every-append_left test [] t h = refl
every-append_left test (c ∷ s) t h = ground (arith, every-append_left test s t)

pub every-append_right :
    (test : ℕ → Bool) (s t : Bytes) → every test (s ++ t) ≡ true → every test t ≡ true
unfolding every
every-append_right test [] t h = h
every-append_right test (c ∷ s) t h = every-append_right test s t (ground arith)

every-reverse : (test : ℕ → Bool) (s : Bytes) → every test s ≡ true → every test (reverse s) ≡ true
every-reverse test [] h = h
every-reverse test (c ∷ s) h = rw (reverse-cons c s) (
    every-append test (reverse s) (c ∷ [])
      (every-reverse test s (every-append_right test (c ∷ []) s h))
      (every-append_left test (c ∷ []) s h))

-- What is trimmed off the left.
trim_left_set-split :
    (s : Bytes) → (pre : Bytes) × (s ≡ pre ++ trim_left_set s) × (every is_cut pre ≡ true)
unfolding trim_left_set every
trim_left_set-split [] = ([], refl, refl)
trim_left_set-split (c ∷ s) = elim (Bool-cases (elem c cutset)) [
  | inl cut ↦
      let (pre, same, all_cut) = trim_left_set-split s in
      rw cut (c ∷ pre, ap (◌∷◌ c) same, ground arith)
  | inr kept ↦ rw kept ([], refl, refl)
]

trim_left_set-head : (s : Bytes) (c : ℕ) (r : Bytes) → trim_left_set s ≡ c ∷ r → is_cut c ≡ false
unfolding trim_left_set
trim_left_set-head [] c r h = cc
trim_left_set-head (d ∷ s) c r h = ground (arith, trim_left_set-head s c r)

trim_left_set-append :
    (pre : Bytes) (c : ℕ) (s : Bytes)
    → every is_cut pre ≡ true
    → is_cut c ≡ false
    → trim_left_set (pre ++ (c ∷ s)) ≡ c ∷ s
unfolding trim_left_set every
trim_left_set-append [] c s h k = ground arith
trim_left_set-append (d ∷ pre) c s h k = ground (arith, trim_left_set-append pre c s)

-- A word is what is trimmed off its two sides, around what is left.
abbrev pub Trims : Bytes → Type 0
Trims s =
    (pre : Bytes) × (post : Bytes) × (s ≡ pre ++ (trim_set s ++ post))
    × (every is_cut pre ≡ true)
    × (every is_cut post ≡ true)

pub trim_set-Trims : (s : Bytes) → Trims s
unfolding trim_set
trim_set-Trims s =
    let (pre, left, pre_cut) = trim_left_set-split s in
    let u = trim_left_set s in
    let (post, right, post_cut) = trim_left_set-split (reverse u) in
    let rest : u ≡ reverse (trim_left_set (reverse u)) ++ reverse post =
      sym (reverse-reverse u)
      ∙ ap reverse right
      ∙ reverse-append post (trim_left_set (reverse u)) in
    (
      pre,
      reverse post,
      left ∙ ap (λ (x : Bytes). pre ++ x) rest,
      pre_cut,
      every-reverse is_cut post post_cut,
    )

-- What is left begins with a character that is kept.
pub trim_set-head : (s : Bytes) (c : ℕ) (r : Bytes) → trim_set s ≡ c ∷ r → is_cut c ≡ false
unfolding trim_set
trim_set-head s c r h =
    let u = trim_left_set s in
    let (post, right, post_cut) = trim_left_set-split (reverse u) in
    let rest : u ≡ reverse (trim_left_set (reverse u)) ++ reverse post =
      sym (reverse-reverse u)
      ∙ ap reverse right
      ∙ reverse-append post (trim_left_set (reverse u)) in
    trim_left_set-head s c (r ++ reverse post) (rest ∙ ap (λ (x : Bytes). x ++ reverse post) h)

replace_first-hit :
    (old new : Bytes) (c : ℕ) (s rest : Bytes)
    → cut_prefix old (c ∷ s) ≡ some rest
    → replace_first old new (c ∷ s) ≡ new ++ rest
unfolding replace_first
replace_first-hit old new c s rest h = rw (h, replace_first) refl

replace_first-miss :
    (old new : Bytes) (c : ℕ) (s : Bytes)
    → cut_prefix old (c ∷ s) ≡ none
    → replace_first old new (c ∷ s) ≡ c ∷ replace_first old new s
unfolding replace_first
replace_first-miss old new c s h = rw (h, replace_first) refl

cut_prefix-cut :
    (c d : ℕ) (r s : Bytes) → is_cut c ≡ false → is_cut d ≡ true → cut_prefix (c ∷ r) (d ∷ s) ≡ none
unfolding cut_prefix
cut_prefix-cut c d r s h k = elim (Bool-cases (c == d)) [
  | inl same ↦ let e : c ≡ d = ground arith in cc
  | inr other ↦ rw other refl
]

-- The first occurrence of what is left is where the trimming found it.
pub replace_first-Trims :
    (pre post new : Bytes) (c : ℕ) (r : Bytes)
    → every is_cut pre ≡ true
    → is_cut c ≡ false
    → replace_first (c ∷ r) new (pre ++ ((c ∷ r) ++ post)) ≡ pre ++ (new ++ post)
unfolding every
replace_first-Trims [] post new c r h k =
    replace_first-hit (c ∷ r) new c (r ++ post) post (cut_prefix-append (c ∷ r) post)
replace_first-Trims (d ∷ pre) post new c r h k =
    replace_first-miss (c ∷ r) new d (pre ++ ((c ∷ r) ++ post))
      (cut_prefix-cut c d r _ k (ground arith))
    ∙ ap (◌∷◌ d) (replace_first-Trims pre post new c r (ground arith) k)

-- Trimming takes cut characters off both sides of a core that begins and ends with others.
pub trim_set-core :
    (pre post core : Bytes) (a z : ℕ)
    → every is_cut pre ≡ true
    → every is_cut post ≡ true
    → is_cut a ≡ false
    → is_cut z ≡ false
    → trim_set (pre ++ ((a ∷ core) ++ (z ∷ post))) ≡ (a ∷ core) ++ (z ∷ [])
unfolding trim_set
trim_set-core pre post core a z hpre hpost ha hz =
    ap (λ (x : Bytes). reverse (trim_left_set (reverse x))) left
    ∙ ap (λ (x : Bytes). reverse (trim_left_set x)) turned
    ∙ ap reverse (
        trim_left_set-append (reverse post) z (reverse (a ∷ core)) (every-reverse is_cut post hpost)
          hz)
    ∙ reverse-cons z (reverse (a ∷ core))
    ∙ ap (λ (x : Bytes). x ++ (z ∷ [])) (reverse-reverse (a ∷ core))
  where
    left : trim_left_set (pre ++ ((a ∷ core) ++ (z ∷ post))) ≡ (a ∷ core) ++ (z ∷ post)
    left = trim_left_set-append pre a (core ++ (z ∷ post)) hpre ha

    turned : reverse ((a ∷ core) ++ (z ∷ post)) ≡ reverse post ++ (z ∷ reverse (a ∷ core))
    turned =
        reverse-append (a ∷ core) (z ∷ post)
        ∙ ap (λ (x : Bytes). x ++ reverse (a ∷ core)) (reverse-cons z post)
        ∙ append_assoc (reverse post) (z ∷ []) (reverse (a ∷ core))
