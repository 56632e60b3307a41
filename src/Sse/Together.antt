-- ===== src/Sse/Together.antt =====
-- sse.go: two consumers of one stream. As long as neither answers, they are given the same events.
use mathlib.Core.Path.{subst}
use codex_auth_broker.Sse.{
  ConsumeError, Fed, Framer, and_then, consumer, exceeds_limit, extra, fed, feed_from, finish,
  flush_event, flush_line, flush_text, stopped, take_piece, trim_blank, trim_cr, data_field,
}
use codex_auth_broker.Prelude.{
  Bool, Bool-cases, Option, Option-cases, [], false, if◌then◌else◌, inl, inr, length, ltb, none,
  not, refl, some, true, ◌++◌, ◌+◌, ◌==◌, ◌∷◌, ◌≡◌,
}
use codex_auth_broker.Prelude.Text.{Bytes, cut_prefix}

-- If the first consumer goes on, so does the second, and the states are related.
abbrev pub BothGo :
    {C D : Type 0} → (C → D → Type 0) → C × Option ConsumeError → D × Option ConsumeError → Type 0
BothGo R (c, none) (d, none) = R c d
BothGo R (c, none) (d, some e) = ⊥
BothGo R (c, some e) answer = Unit {0}

-- The same of what is left of a framer, which is then the same one.
abbrev pub Together : {C D : Type 0} → (C → D → Type 0) → Fed C → Fed D → Type 0
Together R (fed f c) (fed g d) = (f ≡ g) × R c d
Together R (fed f c) (stopped e d) = ⊥
Together R (stopped e c) r = Unit {0}

module _ {C D : Type 0} (consume : C → Bytes → C × Option ConsumeError)
    (consume' : D → Bytes → D × Option ConsumeError) (R : C → D → Type 0)
    (step : (c : C) (d : D) (bytes : Bytes)
      → R c d
      → BothGo R (consume c bytes) (consume' d bytes)) where
  Together-and_then :
      (r : Fed C) (s : Fed D) (k : Framer → C → Fed C) (k' : Framer → D → Fed D)
      → Together R r s
      → ((f : Framer) (c : C) (d : D) → R c d → Together R (k f c) (k' f d))
      → Together R (and_then r k) (and_then s k')
  Together-and_then (fed f c) (fed g d) k k' (same, h) next =
      subst (λ x. Together R (k f c) (k' x d)) same (next f c d h)
  Together-and_then (fed f c) (stopped e d) k k' h next = absurd h
  Together-and_then (stopped e c) s k k' h next = tt

  Together-if :
      (b : Bool) (x y : Fed C) (x' y' : Fed D)
      → Together R x x'
      → Together R y y'
      → Together R (if b then x else y) (if b then x' else y')
  Together-if true x y x' y' h i = h
  Together-if false x y x' y' h i = i

  Together-flush_event :
      (f : Framer) (c : C) (d : D)
      → R c d
      → Together R (flush_event consume f c) (flush_event consume' f d)
  unfolding flush_event
  Together-flush_event f c d h =
      Together-if (not f.has_data) (fed f c) _ (fed f d) _ (refl, h)
        (answered (consume c f.event) (consume' d f.event) (step c d f.event h))
    where
      answered :
          (a : C × Option ConsumeError) (b : D × Option ConsumeError)
          → BothGo R a b
          → Together R
              (elim a.1 [
                | none ↦ fed (record f { event = []; has_data = false }) a.0
                | some e ↦ stopped (codex_auth_broker.Sse.consumer e) a.0
              ])
              (elim b.1 [
                | none ↦ fed (record f { event = []; has_data = false }) b.0
                | some e ↦ stopped (codex_auth_broker.Sse.consumer e) b.0
              ])
      answered (x, none) (y, none) go = (refl, go)
      answered (x, none) (y, some e) go = absurd go
      answered (x, some e) b go = tt

  Together-flush_text :
      (f : Framer) (line : Bytes) (c : C) (d : D)
      → R c d
      → Together R (flush_text consume f line c) (flush_text consume' f line d)
  unfolding flush_text
  Together-flush_text f [] c d h = Together-flush_event (record f { line = [] }) c d h
  Together-flush_text f (b ∷ line) c d h = elim (Option-cases (cut_prefix data_field (b ∷ line))) [
    | inl e ↦ rw (e, flush_text) (refl, h)
    | inr (rest, e) ↦
        rw (e, flush_text)
          (Together-if (ltb f.limit (length f.event + extra f.has_data (trim_blank rest)))
            (stopped exceeds_limit c) (fed _ c) (stopped exceeds_limit d) (fed _ d) tt (refl, h))
  ]

  Together-flush_line :
      (f : Framer) (c : C) (d : D)
      → R c d
      → Together R (flush_line consume f c) (flush_line consume' f d)
  unfolding flush_line
  Together-flush_line f c d h = Together-flush_text f (trim_cr f.line) c d h

  Together-take_piece :
      (f : Framer) (c : C) (d : D) (piece : Bytes) (k : Framer → C → Fed C)
      (k' : Framer → D → Fed D)
      → R c d
      → ((g : Framer) (x : C) (y : D) → R x y → Together R (k g x) (k' g y))
      → Together R (take_piece consume f c piece k) (take_piece consume' f d piece k')
  Together-take_piece f c d piece k k' h next =
      Together-if (ltb f.limit (length f.line + length f.event + length piece))
        (stopped exceeds_limit c) (k (record f { line = f.line ++ piece }) c)
        (stopped exceeds_limit d) (k' (record f { line = f.line ++ piece }) d) tt
        (next (record f { line = f.line ++ piece }) c d h)

  pub Together-feed_from :
      (f : Framer) (c : C) (d : D) (piece chunk : Bytes)
      → R c d
      → Together R (feed_from consume f c piece chunk) (feed_from consume' f d piece chunk)
  unfolding feed_from
  Together-feed_from f c d [] [] h = (refl, h)
  Together-feed_from f c d (b ∷ piece) [] h =
      Together-take_piece f c d (b ∷ piece) fed fed h (λ g x y r. (refl, r))
  Together-feed_from f c d piece (b ∷ chunk) h = elim (Bool-cases (b == b'\n')) [
    | inl e ↦
        rw (e, feed_from)
          (Together-take_piece f c d piece _ _ h λ g x y r.
            Together-and_then (flush_line consume g x) (flush_line consume' g y) _ _
              (Together-flush_line g x y r)
              (λ g' x' y' r'. Together-feed_from g' x' y' [] chunk r'))
    | inr e ↦ rw (e, feed_from) (Together-feed_from f c d (piece ++ (b ∷ [])) chunk h)
  ]

  pub Together-finish :
      (f : Framer) (c : C) (d : D) → R c d → Together R (finish consume f c) (finish consume' f d)
  unfolding finish
  Together-finish f c d h = at_line f.line
    where
      at_line :
          (line : Bytes)
          → Together R
              (elim line [
                | [] ↦ flush_event consume f c
                | b ∷ rest ↦ and_then (flush_line consume f c) (flush_event consume)
              ])
              (elim line [
                | [] ↦ flush_event consume' f d
                | b ∷ rest ↦ and_then (flush_line consume' f d) (flush_event consume')
              ])
      at_line [] = Together-flush_event f c d h
      at_line (b ∷ rest) =
          Together-and_then (flush_line consume f c) (flush_line consume' f d) _ _
            (Together-flush_line f c d h) Together-flush_event
