-- ===== src/Sse/Chunks.antt =====
-- sse.go: how the upstream bytes are cut into chunks makes no difference.
use codex_auth_broker.Sse.{
  ConsumeError, Fed, Framer, and_then, exceeds_limit, fed, feed, feed_from, finish, flush_line,
  fresh, read_failed, read_from, read_sse, stopped, take_piece, outcome,
}
use codex_auth_broker.Sse.Bounds.{IsBounded, Keeps, feed-Keeps, flush_line-Keeps}
use codex_auth_broker.Prelude.{
  Bool, Bool-cases, List, Option, ap, append-nil, append_assoc, arith, false, if◌then◌else◌, inl,
  inr, length, length-append, ltb, refl, sym, true, ℕ, ◌++◌, ◌+◌, ◌==◌, ◌∙◌, ◌∷◌, ◌≡◌, [],
}
use codex_auth_broker.Prelude.Text.{Bytes}

-- All the bytes of a list of chunks.
abbrev pub concat : List Bytes → Bytes
concat [] = []
concat (chunk ∷ chunks) = chunk ++ concat chunks

module _ {C : Type 0} (consume : C → Bytes → C × Option ConsumeError) where
  with_line : Framer → Bytes → Framer
  with_line f piece = record f { line = f.line ++ piece }

  and_then_assoc :
      (r : Fed C) (k l : Framer → C → Fed C)
      → and_then (and_then r k) l ≡ and_then r (λ g d. and_then (k g d) l)
  and_then_assoc (fed g c) k l = refl
  and_then_assoc (stopped e c) k l = refl

  -- Continuations that agree on bounded framers.
  and_then_cong :
      (limit : ℕ) (r : Fed C) (k l : Framer → C → Fed C)
      → Keeps limit r
      → ((g : Framer) (d : C) → g.limit ≡ limit → IsBounded g → k g d ≡ l g d)
      → and_then r k ≡ and_then r l
  and_then_cong limit (fed g c) k l h same = same g c h.0 h.1
  and_then_cong limit (stopped e c) k l h same = refl

  over : Framer → Bytes → Bool
  over f piece = ltb f.limit (length f.line + length f.event + length piece)

  with_line-IsBounded :
      (f : Framer) (piece : Bytes) → over f piece ≡ false → IsBounded (with_line f piece)
  unfolding over with_line
  with_line-IsBounded f piece e = rw (length-append f.line piece) (ground arith)

  -- The two ways through `take_piece`.
  take_piece-over :
      (f : Framer) (c : C) (piece : Bytes) (next : Framer → C → Fed C)
      → over f piece ≡ true
      → take_piece consume f c piece next ≡ stopped exceeds_limit c
  unfolding over
  take_piece-over f c piece next e = rw e

  take_piece-fits :
      (f : Framer) (c : C) (piece : Bytes) (next : Framer → C → Fed C)
      → over f piece ≡ false
      → take_piece consume f c piece next ≡ next (with_line f piece) c
  unfolding over with_line
  take_piece-fits f c piece next e = rw e

  with_line-nil : (f : Framer) → with_line f [] ≡ f
  unfolding with_line
  with_line-nil f = λ i. record f { line = append-nil f.line i }

  with_line-append : (f : Framer) (a b : Bytes) → with_line (with_line f a) b ≡ with_line f (a ++ b)
  unfolding with_line
  with_line-append f a b = λ i. record f { line = append_assoc f.line a b i }

  take_piece-nil :
      (f : Framer) (c : C) (next : Framer → C → Fed C)
      → IsBounded f
      → take_piece consume f c [] next ≡ next f c
  take_piece-nil f c next b =
      take_piece-fits f c [] next (unfold over in ground arith)
      ∙ ap (λ (g : Framer). next g c) (with_line-nil f)

  over-append : (f : Framer) (a b : Bytes) → over f a ≡ true → over f (a ++ b) ≡ true
  unfolding over
  over-append f a b e = ground (arith, length-append a b)

  over-with_line : (f : Framer) (a b : Bytes) → over (with_line f a) b ≡ over f (a ++ b)
  unfolding over with_line
  over-with_line f a b =
      let e : length (f.line ++ a) + length f.event + length b
          ≡ length f.line + length f.event + length (a ++ b) =
        omega (arith, length-append f.line a, length-append a b) in
      rw e

  -- What comes behind a piece: the rest of the chunk, or first the end of its line.
  abbrev onwards : Bytes → Framer → C → Fed C
  onwards chunk g d = feed_from consume g d [] chunk

  abbrev line_end : Bytes → Framer → C → Fed C
  line_end chunk g d = and_then (flush_line consume g d) (onwards chunk)

  take_piece_cases :
      (f : Framer) (c : C) (piece : Bytes) (next next' : Framer → C → Fed C)
      → (over f piece ≡ false → next (with_line f piece) c ≡ next' (with_line f piece) c)
      → take_piece consume f c piece next ≡ take_piece consume f c piece next'
  take_piece_cases f c piece next next' h = elim (Bool-cases (over f piece)) [
    | inl o ↦ take_piece-over f c piece next o ∙ sym (take_piece-over f c piece next' o)
    | inr o ↦ take_piece-fits f c piece next o ∙ h o ∙ sym (take_piece-fits f c piece next' o)
  ]

  -- A piece may be taken in two parts.
  take_piece_twice :
      (f : Framer) (c : C) (a b : Bytes) (next : Framer → C → Fed C)
      → take_piece consume f c (a ++ b) next
        ≡ take_piece consume f c a (λ g d. take_piece consume g d b next)
  take_piece_twice f c a b next = elim (Bool-cases (over f a)) [
    | inl o ↦
        take_piece-over f c (a ++ b) next (over-append f a b o)
        ∙ sym (take_piece-over f c a (λ g d. take_piece consume g d b next) o)
    | inr o ↦ elim (Bool-cases (over f (a ++ b))) [
      | inl long ↦
          take_piece-over f c (a ++ b) next long
          ∙ sym (take_piece-over (with_line f a) c b next (over-with_line f a b ∙ long))
          ∙ sym (take_piece-fits f c a (λ g d. take_piece consume g d b next) o)
      | inr short ↦
          take_piece-fits f c (a ++ b) next short
          ∙ ap (λ (g : Framer). next g c) (sym (with_line-append f a b))
          ∙ sym (take_piece-fits (with_line f a) c b next (over-with_line f a b ∙ short))
          ∙ sym (take_piece-fits f c a (λ g d. take_piece consume g d b next) o)
    ]
  ]

  -- The bytes of a piece may as well go to the line at once.
  take_piece-feed_from :
      (chunk piece : Bytes) (f : Framer) (c : C)
      → IsBounded f
      → feed_from consume f c piece chunk ≡ take_piece consume f c piece (onwards chunk)
  unfolding feed_from
  take_piece-feed_from [] [] f c b = sym (take_piece-nil f c fed b)
  take_piece-feed_from [] (p ∷ piece) f c b = refl
  take_piece-feed_from (x ∷ chunk) piece f c b = elim (Bool-cases (x == b'\n')) [
    | inl e ↦
        rw (e, feed_from)
          (take_piece_cases f c piece (line_end chunk)
            (λ g d. take_piece consume g d [] (line_end chunk))
            λ o. sym (
              take_piece-nil (with_line f piece) c (line_end chunk)
                (with_line-IsBounded f piece o)))
    | inr e ↦
        rw (e, feed_from)
          (take_piece-feed_from chunk (piece ++ (x ∷ [])) f c b
            ∙ take_piece_twice f c piece (x ∷ []) (onwards chunk)
            ∙ take_piece_cases f c piece (λ g d. take_piece consume g d (x ∷ []) (onwards chunk))
                (λ g d. feed_from consume g d (x ∷ []) chunk)
                λ o. sym (
                  take_piece-feed_from chunk (x ∷ []) (with_line f piece) c
                    (with_line-IsBounded f piece o)))
  ]

  and_then-take_piece :
      (f : Framer) (c : C) (piece : Bytes) (next k : Framer → C → Fed C)
      → and_then (take_piece consume f c piece next) k
        ≡ take_piece consume f c piece (λ g d. and_then (next g d) k)
  and_then-take_piece f c piece next k = elim (Bool-cases (over f piece)) [
    | inl o ↦
        ap (λ r. and_then r k) (take_piece-over f c piece next o)
        ∙ sym (take_piece-over f c piece (λ g d. and_then (next g d) k) o)
    | inr o ↦
        ap (λ r. and_then r k) (take_piece-fits f c piece next o)
        ∙ sym (take_piece-fits f c piece (λ g d. and_then (next g d) k) o)
  ]

  feed_from-append :
      (a b piece : Bytes) (f : Framer) (c : C)
      → IsBounded f
      → feed_from consume f c piece (a ++ b) ≡ and_then (feed_from consume f c piece a) (onwards b)
  unfolding feed_from
  feed_from-append [] b [] f c h = refl
  feed_from-append [] b (p ∷ piece) f c h =
      take_piece-feed_from b (p ∷ piece) f c h
      ∙ sym (and_then-take_piece f c (p ∷ piece) fed (onwards b))
  feed_from-append (x ∷ a) b piece f c h = elim (Bool-cases (x == b'\n')) [
    | inl e ↦
        rw (e, feed_from)
          (take_piece_cases f c piece (line_end (a ++ b))
              (λ g d. and_then (line_end a g d) (onwards b))
              (λ o.
                let g = with_line f piece in
                and_then_cong g.limit (flush_line consume g c) (onwards (a ++ b))
                  (λ g' d. and_then (onwards a g' d) (onwards b))
                  (flush_line-Keeps consume g c (with_line-IsBounded f piece o))
                  (λ g' d _ bounded. feed_from-append a b [] g' d bounded)
                ∙ sym (and_then_assoc (flush_line consume g c) (onwards a) (onwards b)))
            ∙ sym (and_then-take_piece f c piece (line_end a) (onwards b)))
    | inr e ↦ rw (e, feed_from) (feed_from-append a b (piece ++ (x ∷ [])) f c h)
  ]

  -- Feeding two chunks one after the other is feeding them as one, errors included.
  pub feed-append :
      (f : Framer) (c : C) (a b : Bytes)
      → IsBounded f
      → feed consume f c (a ++ b) ≡ and_then (feed consume f c a) (λ g d. feed consume g d b)
  unfolding feed
  feed-append f c a b h = feed_from-append a b [] f c h

  abbrev at_end : Bool → Framer → C → Fed C
  at_end eof f c = if eof then finish consume f c else stopped read_failed c

  read_from-concat :
      (chunks : List Bytes) (eof : Bool) (f : Framer) (c : C)
      → IsBounded f
      → read_from consume f c chunks eof ≡ and_then (feed consume f c (concat chunks)) (at_end eof)
  unfolding read_from
  read_from-concat [] eof f c h =
      let e : feed consume f c [] ≡ fed f c = unfold feed feed_from in refl in rw e
  read_from-concat (chunk ∷ chunks) eof f c h =
      and_then_cong f.limit (feed consume f c chunk) (λ g d. read_from consume g d chunks eof)
        (λ g d. and_then (feed consume g d (concat chunks)) (at_end eof))
        (feed-Keeps consume f c chunk h) (λ g d _ bounded. read_from-concat chunks eof g d bounded)
      ∙ sym (
          and_then_assoc (feed consume f c chunk) (λ g d. feed consume g d (concat chunks))
            (at_end eof))
      ∙ ap (λ r. and_then r (at_end eof)) (sym (feed-append f c chunk (concat chunks) h))

  -- What `readSSE` returns and what its consumer sees depend on the bytes of the stream only, and
  -- not on how the reader cuts them into chunks.
  pub read_sse-chunks :
      (limit : ℕ) (chunks chunks' : List Bytes) (eof : Bool) (c : C)
      → concat chunks ≡ concat chunks'
      → read_sse consume limit chunks eof c ≡ read_sse consume limit chunks' eof c
  unfolding read_sse
  read_sse-chunks limit chunks chunks' eof c same = ap (outcome consume) (
      read_from-concat chunks eof (fresh consume limit) c (omega arith)
      ∙ ap (λ bytes. and_then (feed consume (fresh consume limit) c bytes) (at_end eof)) same
      ∙ sym (read_from-concat chunks' eof (fresh consume limit) c (omega arith)))
