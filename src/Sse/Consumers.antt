-- ===== src/Sse/Consumers.antt =====
-- sse.go: what a consumer keeps true over a whole stream, and what holds where it stops.
use codex_auth_broker.Sse.{
  ConsumeError, Fed, Framer, SseError, add_line, and_then, complete, consumer, exceeds_limit, extra,
  fed, feed, feed_from, finish, flush_event, flush_line, flush_text, fresh, outcome, read_failed,
  read_from, read_sse, rejected, stopped, take_piece, trim_blank, trim_cr, data_field,
}
use codex_auth_broker.Prelude.{
  Bool, Bool-cases, List, Option, Option-cases, [], arith, false, if◌then◌else◌, inl, inr, length,
  ltb, none, some, true, ℕ, ◌++◌, ◌+◌, ◌==◌, ◌∷◌, ◌⊎◌,
}
use codex_auth_broker.Prelude.Text.{Bytes, cut_prefix}

-- `P` holds of a state that goes on, `Q` of one that came with an answer of the consumer.
abbrev pub Answers :
    {C : Type 0} → (C → Type 0) → (C → ConsumeError → Type 0) → C × Option ConsumeError → Type 0
Answers P Q (c, none) = P c
Answers P Q (c, some e) = Q c e

abbrev pub Holds : {C : Type 0} → (C → Type 0) → (C → ConsumeError → Type 0) → Fed C → Type 0
Holds P Q (fed f c) = P c
Holds P Q (stopped (consumer e) c) = Q c e
Holds P Q (stopped exceeds_limit c) = P c
Holds P Q (stopped read_failed c) = P c

-- The same of what `readSSE` returns.
abbrev pub Returns :
    {C : Type 0} → (C → Type 0) → (C → ConsumeError → Type 0) → C × Option SseError → Type 0
Returns P Q (c, none) = P c ⊎ Q c complete
Returns P Q (c, some (consumer complete)) = ⊥
Returns P Q (c, some (consumer (rejected m))) = Q c (rejected m)
Returns P Q (c, some exceeds_limit) = P c
Returns P Q (c, some read_failed) = P c

module _ {C : Type 0} (consume : C → Bytes → C × Option ConsumeError) (P : C → Type 0)
    (Q : C → ConsumeError → Type 0)
    (step : (c : C) (bytes : Bytes) → P c → Answers P Q (consume c bytes)) where
  Holds-and_then :
      (r : Fed C) (k : Framer → C → Fed C)
      → Holds P Q r
      → ((f : Framer) (c : C) → P c → Holds P Q (k f c))
      → Holds P Q (and_then r k)
  Holds-and_then (fed f c) k h next = next f c h
  Holds-and_then (stopped (consumer e) c) k h next = h
  Holds-and_then (stopped exceeds_limit c) k h next = h
  Holds-and_then (stopped read_failed c) k h next = h

  Holds-flush_event : (f : Framer) (c : C) → P c → Holds P Q (flush_event consume f c)
  unfolding flush_event
  Holds-flush_event f c p = ground (arith, step c f.event p)

  Holds-if : (b : Bool) (x y : Fed C) → Holds P Q x → Holds P Q y → Holds P Q (if b then x else y)
  Holds-if true x y hx hy = hx
  Holds-if false x y hx hy = hy

  Holds-flush_text :
      (f : Framer) (line : Bytes) (c : C) → P c → Holds P Q (flush_text consume f line c)
  unfolding flush_text
  Holds-flush_text f [] c p = Holds-flush_event (record f { line = [] }) c p
  Holds-flush_text f (b ∷ line) c p = elim (Option-cases (cut_prefix data_field (b ∷ line))) [
    | inl e ↦ rw (e, flush_text) p
    | inr (rest, e) ↦
        rw (e, flush_text)
          (Holds-if (ltb f.limit (length f.event + extra f.has_data (trim_blank rest)))
            (stopped exceeds_limit c)
            (fed
              (record f {
                line = [];
                event = add_line f.has_data f.event (trim_blank rest);
                has_data = true;
              })
              c)
            p p)
  ]

  Holds-flush_line : (f : Framer) (c : C) → P c → Holds P Q (flush_line consume f c)
  unfolding flush_line
  Holds-flush_line f c p = Holds-flush_text f (trim_cr f.line) c p

  Holds-take_piece :
      (f : Framer) (c : C) (piece : Bytes) (next : Framer → C → Fed C)
      → P c
      → ((g : Framer) (d : C) → P d → Holds P Q (next g d))
      → Holds P Q (take_piece consume f c piece next)
  Holds-take_piece f c piece next p n =
      Holds-if (ltb f.limit (length f.line + length f.event + length piece))
        (stopped exceeds_limit c) (next (record f { line = f.line ++ piece }) c) p
        (n (record f { line = f.line ++ piece }) c p)

  pub Holds-feed_from :
      (f : Framer) (c : C) (piece chunk : Bytes)
      → P c
      → Holds P Q (feed_from consume f c piece chunk)
  unfolding feed_from
  Holds-feed_from f c [] [] p = p
  Holds-feed_from f c (b ∷ piece) [] p = Holds-take_piece f c (b ∷ piece) fed p (λ g d q. q)
  Holds-feed_from f c piece (b ∷ chunk) p = elim (Bool-cases (b == b'\n')) [
    | inl e ↦
        rw (e, feed_from)
          (Holds-take_piece f c piece _ p λ g d q.
            Holds-and_then (flush_line consume g d) _ (Holds-flush_line g d q)
              (λ h x r. Holds-feed_from h x [] chunk r))
    | inr e ↦ rw (e, feed_from) (Holds-feed_from f c (piece ++ (b ∷ [])) chunk p)
  ]

  pub Holds-finish : (f : Framer) (c : C) → P c → Holds P Q (finish consume f c)
  unfolding finish
  Holds-finish f c p = at_line f.line
    where
      at_line :
          (line : Bytes)
          → Holds P Q (elim line [
            | [] ↦ flush_event consume f c
            | b ∷ rest ↦ and_then (flush_line consume f c) (flush_event consume)
          ])
      at_line [] = Holds-flush_event f c p
      at_line (b ∷ rest) =
          Holds-and_then (flush_line consume f c) _ (Holds-flush_line f c p) Holds-flush_event

  pub Holds-read_from :
      (f : Framer) (c : C) (chunks : List Bytes) (eof : Bool)
      → P c
      → Holds P Q (read_from consume f c chunks eof)
  unfolding read_from
  Holds-read_from f c [] eof p =
      Holds-if eof (finish consume f c) (stopped read_failed c) (Holds-finish f c p) p
  Holds-read_from f c (chunk ∷ chunks) eof p =
      Holds-and_then (feed consume f c chunk) _ (unfold feed in Holds-feed_from f c [] chunk p)
        (λ g d q. Holds-read_from g d chunks eof q)

  Returns-outcome : (r : Fed C) → Holds P Q r → Returns P Q (outcome consume r)
  Returns-outcome (fed f c) h = inl h
  Returns-outcome (stopped (consumer complete) c) h = inr h
  Returns-outcome (stopped (consumer (rejected m)) c) h = h
  Returns-outcome (stopped exceeds_limit c) h = h
  Returns-outcome (stopped read_failed c) h = h

  pub Returns-read_sse :
      (limit : ℕ) (chunks : List Bytes) (eof : Bool) (c : C)
      → P c
      → Returns P Q (read_sse consume limit chunks eof c)
  unfolding read_sse
  Returns-read_sse limit chunks eof c p =
      Returns-outcome _ (Holds-read_from (fresh consume limit) c chunks eof p)
