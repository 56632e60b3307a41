-- ===== src/Sse/Bounds.antt =====
-- The memory bound of sse.go: line and event together stay within the limit, and so does every
-- event that the consumer sees.
use mathlib.Core.Path.{subst}
use codex_auth_broker.Sse.{
  ConsumeError, Fed, Framer, add_line, and_then, exceeds_limit, extra, fed, feed, feed_from,
  flush_event, flush_line, flush_text, stopped, take_piece, trim_blank, trim_cr, data_field,
}
use codex_auth_broker.Prelude.{
  Bool, Bool-cases, Option, Option-cases, [], arith, false, if◌then◌else◌, inl, inr, length,
  length-append, ltb, refl, true, ℕ, ◌++◌, ◌+◌, ◌==◌, ◌∷◌, ◌≡◌, ◌≤◌,
}
use codex_auth_broker.Prelude.Text.{Bytes, cut_prefix}

abbrev pub IsBounded : Framer → Type 0
IsBounded f = length f.line + length f.event ≤ f.limit

-- A result whose framer has this limit and keeps it.
abbrev pub Keeps : {C : Type 0} → ℕ → Fed C → Type 0
Keeps limit (fed g c) = (g.limit ≡ limit) × IsBounded g
Keeps limit (stopped e c) = Unit

pub and_then-Keeps :
    {C : Type 0} (limit : ℕ) (r : Fed C) (k : Framer → C → Fed C)
    → Keeps limit r
    → ((g : Framer) (c : C) → g.limit ≡ limit → IsBounded g → Keeps limit (k g c))
    → Keeps limit (and_then r k)
and_then-Keeps limit (fed g c) k h next = next g c h.0 h.1
and_then-Keeps limit (stopped e c) k h next = tt

pub length-add_line :
    (b : Bool) (event value : Bytes)
    → length (add_line b event value) ≡ length event + extra b value
length-add_line true event value = omega (arith, length-append event (b'\n' ∷ value))
length-add_line false event value = length-append event value

module _ {C : Type 0} (consume : C → Bytes → C × Option ConsumeError) where
  flush_event-Keeps : (f : Framer) (c : C) → IsBounded f → Keeps f.limit (flush_event consume f c)
  unfolding flush_event
  flush_event-Keeps f c b = ground arith

  flush_text-Keeps :
      (f : Framer) (line : Bytes) (c : C)
      → IsBounded f
      → Keeps f.limit (flush_text consume f line c)
  unfolding flush_text
  flush_text-Keeps f [] c b = flush_event-Keeps (record f { line = [] }) c (omega arith)
  flush_text-Keeps f (x ∷ line) c b = elim (Option-cases (cut_prefix data_field (x ∷ line))) [
    | inl e ↦ rw (e, flush_text) (refl, omega arith)
    | inr (rest, e) ↦ rw (e, flush_text) (value_of (trim_blank rest))
  ]
    where
      value_of :
          (value : Bytes)
          → Keeps f.limit (
              if ltb f.limit (length f.event + extra f.has_data value)
              then stopped exceeds_limit c
              else fed
                  (record f {
                    line = [];
                    event = add_line f.has_data f.event value;
                    has_data = true;
                  })
                  c)
      value_of value = elim (Bool-cases (ltb f.limit (length f.event + extra f.has_data value))) [
        | inl e ↦ rw e tt
        | inr e ↦ rw e (refl, fits e)
      ]
        where
          fits :
              ltb f.limit (length f.event + extra f.has_data value) ≡ false
              → 0 + length (add_line f.has_data f.event value) ≤ f.limit
          fits e = rw (length-add_line f.has_data f.event value) (ground arith)

  pub flush_line-Keeps : (f : Framer) (c : C) → IsBounded f → Keeps f.limit (flush_line consume f c)
  unfolding flush_line
  flush_line-Keeps f c b = flush_text-Keeps f (trim_cr f.line) c b

  pub take_piece-Keeps :
      (limit : ℕ) (f : Framer) (c : C) (piece : Bytes) (next : Framer → C → Fed C)
      → f.limit ≡ limit
      → ((g : Framer) (d : C) → g.limit ≡ limit → IsBounded g → Keeps limit (next g d))
      → Keeps limit (take_piece consume f c piece next)
  take_piece-Keeps limit f c piece next l h =
      elim (Bool-cases (ltb f.limit (length f.line + length f.event + length piece))) [
        | inl e ↦ rw e tt
        | inr e ↦
            let room : length (f.line ++ piece) + length f.event ≤ f.limit =
              rw (length-append f.line piece) (ground arith) in
            rw e (h (record f { line = f.line ++ piece }) c l room)
      ]

  feed_from-Keeps :
      (limit : ℕ) (chunk : Bytes) (f : Framer) (c : C) (piece : Bytes)
      → f.limit ≡ limit
      → IsBounded f
      → Keeps limit (feed_from consume f c piece chunk)
  unfolding feed_from
  feed_from-Keeps limit [] f c [] l b = (l, b)
  feed_from-Keeps limit [] f c (p ∷ piece) l b =
      take_piece-Keeps limit f c (p ∷ piece) fed l (λ g d l' b'. (l', b'))
  feed_from-Keeps limit (x ∷ chunk) f c piece l b = elim (Bool-cases (x == b'\n')) [
    | inl e ↦
        rw (e, feed_from)
          (take_piece-Keeps limit f c piece _ l λ g d l' b'.
            and_then-Keeps limit _ _
              (subst (λ n. Keeps n (flush_line consume g d)) l' (flush_line-Keeps g d b'))
              (λ h e' l'' b''. feed_from-Keeps limit chunk h e' [] l'' b''))
    | inr e ↦ rw (e, feed_from) (feed_from-Keeps limit chunk f c (piece ++ (x ∷ [])) l b)
  ]

  -- A framer that holds at most its limit, line and event together, still does after any chunk.
  pub feed-Keeps :
      (f : Framer) (c : C) (chunk : Bytes) → IsBounded f → Keeps f.limit (feed consume f c chunk)
  unfolding feed
  feed-Keeps f c chunk b = feed_from-Keeps f.limit chunk f c [] refl b
