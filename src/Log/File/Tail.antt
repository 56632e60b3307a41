-- ===== src/Log/File/Tail.antt =====
-- persist.go, `repairTail`: the search for the last line ends, and finds it.
use codex_auth_broker.Log.File.{block_bytes, last_newline, search_back}
use codex_auth_broker.Prelude.{
  Bool-cases, Option-cases, [], ap, arith, drop, inl, inr, length, length-take, none, refl, some,
  suc, sym, take, take-append-drop, zero, ℕ, ◌++◌, ◌+◌, ◌-◌, ◌==◌, ◌∙◌, ◌∷◌, ◌≡◌, ◌≤◌,
}
use codex_auth_broker.Prelude.Text.{Bytes}

-- Where the last line of a text starts: behind its last newline, or in front.
unfoldable pub line_start : Bytes → ℕ
line_start content = elim (last_newline content) [ some i ↦ i + 1 | none ↦ 0 ]

-- The last newline of two texts is the second's, if that has one.
last_newline-behind :
    (a b : Bytes) (i : ℕ) → last_newline b ≡ some i → last_newline (a ++ b) ≡ some (length a + i)
unfolding last_newline
last_newline-behind [] b i h = ground (arith, h)
last_newline-behind (c ∷ a) b i h = ground (arith, last_newline-behind a b i h)

last_newline-front : (a b : Bytes) → last_newline b ≡ none → last_newline (a ++ b) ≡ last_newline a
unfolding last_newline
last_newline-front [] b h = h
last_newline-front (c ∷ a) b h = ground (arith, last_newline-front a b h)

take-take :
    (content : Bytes) (start end : ℕ)
    → start ≤ end
    → take start (take end content) ≡ take start content
take-take content zero end h = refl
take-take [] (suc start) zero h = refl
take-take [] (suc start) (suc end) h = refl
take-take (c ∷ content) (suc start) zero h = absurd (ground arith)
take-take (c ∷ content) (suc start) (suc end) h =
    ap (◌∷◌ c) (take-take content start end (omega arith))

-- The block in front of a place, and what is in front of the block.
block_split :
    (content : Bytes) (start end : ℕ)
    → start ≤ end
    → take end content ≡ take start content ++ drop start (take end content)
block_split content start end h =
    sym (take-append-drop start (take end content))
    ∙ ap (λ front. front ++ drop start (take end content)) (take-take content start end h)

length-take_of : (content : Bytes) (n : ℕ) → n ≤ length content → length (take n content) ≡ n
length-take_of content n h = omega (arith, length-take n content)

-- The search ends after at most as many rounds as there are bytes in front of the place, and finds
-- the start of the last line there, whatever the rounds beyond that.
pub search_back-line_start :
    (rounds : ℕ) (content : Bytes) (end : ℕ)
    → end ≤ rounds
    → end ≤ length content
    → search_back rounds content end ≡ line_start (take end content)
unfolding search_back line_start last_newline
search_back-line_start zero content end few short =
    let none_left : end ≡ 0 = omega arith in rw none_left refl
search_back-line_start (suc rounds) content end few short =
    let start = end - block_bytes in
    elim (Option-cases (last_newline (drop start (take end content)))) [
      | inr (i, found) ↦
          let whole : last_newline (take end content) ≡ some (start + i) =
            ap last_newline (block_split content start end (omega arith))
            ∙ last_newline-behind (take start content) (drop start (take end content)) i found
            ∙ ap (λ n. some (n + i)) (length-take_of content start (omega arith)) in
          rw (found, search_back, whole, line_start) refl
      | inl none_found ↦
          let whole : last_newline (take end content) ≡ last_newline (take start content) =
            ap last_newline (block_split content start end (omega arith))
            ∙ last_newline-front (take start content) (drop start (take end content)) none_found in
          elim (Bool-cases (end == 0)) [
            | inl e ↦ let none_left : end ≡ 0 = ground (arith, e) in rw none_left refl
            | inr e ↦
                let later =
                  search_back-line_start rounds content start (ground (arith, e)) (omega arith) in
                rw (none_found, search_back, e, whole, line_start) later
          ]
    ]
