-- ===== src/Chat/Stream/Writes.antt =====
-- chat_completions.go: each method of the translator writes what the protocol of chunks allows.
use codex_auth_broker.Chat.Stream.Protocol.{
  Follows, IsCompletion, Phase, Transcript, closed, opened, says,
}
use codex_auth_broker.Relay.Loggable.{IsLoggable}
use codex_auth_broker.Chat.Stream.{
  Delta, Frame, Identity, Step, Translator, choice, chunk, identity, on_success, settle,
  write_failed,
}
use codex_auth_broker.Chat.Stream.Methods.{write_choice, write_frame}
use codex_auth_broker.Relay.{is_attribute_char}
use codex_auth_broker.Redact.{elem, every}
use codex_auth_broker.Chat.{Moment, chat_completion_id}
use codex_auth_broker.Prelude.{
  All, Bool, Bool-cases, [], arith, false, if◌then◌else◌, inl, inr, length, ltb, none, refl, some,
  true, ℕ, ◌++◌, ◌<◌, ◌∷◌, ◌≡◌, ◌⊎◌,
}
use codex_auth_broker.Prelude.Text.{Bytes, beq, cut_prefix}

-- The identity that a translator has settled on.
abbrev pub IsSettled : Translator → Type 0
IsSettled t = (now : Moment) → ((settle now t).id ≡ t.id) × ((settle now t).model ≡ t.model)

-- Nothing was sent.
pub record IsFresh (t : Translator) : Type 0 where
  pub running : t.terminal ≡ false
  pub unopened : t.role_sent ≡ false
  pub unsent : t.sent ≡ []
  pub no_tools : t.tools ≡ []
  pub none_seen : t.tool_seen ≡ false

-- The role was sent, and `n` calls.
pub record IsReady (n : ℕ) (t : Translator) : Type 0 where
  pub running : t.terminal ≡ false
  pub is_open : t.role_sent ≡ true
  pub settled : IsSettled t
  pub numbered : All (λ tool. tool.index < length t.tools) t.tools
  pub noticed : t.tool_seen ≡ ltb 0 (length t.tools)
  pub spoken : Transcript t.sent (opened (identity t) n)

abbrev pub IsOpen : Translator → Type 0
IsOpen t = IsReady (length t.tools) t

abbrev pub Runs : Translator → Type 0
Runs t = IsFresh t ⊎ IsOpen t

-- The end of a whole completion was sent.
abbrev pub IsOver : Translator → Type 0
IsOver t = (t.terminal ≡ true) × Transcript t.sent closed × IsCompletion t.sent

chat_completion_id-nil : (now : Moment) → beq (chat_completion_id now []) [] ≡ false
unfolding chat_completion_id beq cut_prefix
chat_completion_id-nil now = refl

pub settle-IsSettled : (now : Moment) (t : Translator) → IsSettled (settle now t)
unfolding settle
settle-IsSettled now t later = ground (arith, chat_completion_id-nil now)

pub identity-settle :
    (now : Moment) (t : Translator) → IsSettled t → identity (settle now t) ≡ identity t
unfolding settle
identity-settle now t h = λ i. record { id = (h now).0 i; created = t.created; model = (h now).1 i }

module _ (delivers : ℕ → Bool) where
  abbrev pub AllDelivered : Type 0
  AllDelivered = (n : ℕ) → delivers n ≡ true

  -- What was sent when a method returns an error: a transcript, which is at its end if no write
  -- failed, and the error is safe to log.
  abbrev pub Stops : Translator → Bytes → Type 0
  Stops t e = ((p : Phase) × Transcript t.sent p × (AllDelivered → p ≡ closed)) × IsLoggable e

  abbrev pub Goes : (Translator → Type 0) → Step → Type 0
  Goes R (t, none) = R t
  Goes R (t, some e) = Stops t e

  pub Goes-on_success :
      (R S : Translator → Type 0) (s : Step) (next : Translator → Step)
      → Goes R s
      → ((t : Translator) → R t → Goes S (next t))
      → Goes S (on_success s next)
  Goes-on_success R S (t, none) next h on = on t h
  Goes-on_success R S (t, some e) next h on = h

  pub Goes-if :
      (R : Translator → Type 0) (b : Bool) (x y : Step)
      → Goes R x
      → Goes R y
      → Goes R (if b then x else y)
  Goes-if R true x y hx hy = hx
  Goes-if R false x y hx hy = hy

  -- The other branch of a test that fails.
  pub Goes-else :
      (R : Translator → Type 0) (b : Bool) (x y : Step)
      → b ≡ false
      → Goes R y
      → Goes R (if b then x else y)
  Goes-else R true x y e hy = cc e
  Goes-else R false x y e hy = hy

  write_failed-IsLoggable : IsLoggable write_failed
  unfolding every is_attribute_char elem
  write_failed-IsLoggable = (refl, omega arith)

  pub Goes-write_frame :
      (R : Translator → Type 0) (f : Frame) (t : Translator) (p q : Phase)
      → Transcript t.sent p
      → Follows p f q
      → (Transcript (t.sent ++ (f ∷ [])) q → R (record t { sent = t.sent ++ (f ∷ []) }))
      → Goes R (write_frame delivers f t)
  unfolding write_frame
  Goes-write_frame R f t p q said fol go = elim (Bool-cases (delivers (length t.sent))) [
    | inl e ↦ rw e (go (says said fol))
    | inr e ↦ rw e ((p, said, λ all. cc (e, all (length t.sent))), write_failed-IsLoggable)
  ]

  -- A chunk that leads from `n` calls to those that the translator has.
  pub write_choice-Goes :
      (now : Moment) (d : Delta) (n : ℕ) (t : Translator)
      → IsReady n t
      → ((i : Identity) (tier : Bytes) (u : Bool)
          → Follows (opened i n) (chunk i tier (choice d none u)) (opened i (length t.tools)))
      → Goes IsOpen (write_choice delivers now d none t)
  unfolding write_choice settle
  write_choice-Goes now d n t h fol =
      Goes-write_frame IsOpen _ _ (opened (identity (settle now t)) n) _
        (rw (identity-settle now t h.settled) h.spoken) (fol (identity (settle now t)) _ _)
        (λ said. record {
          running = h.running;
          is_open = h.is_open;
          settled = settle-IsSettled now t;
          numbered = h.numbered;
          noticed = h.noticed;
          spoken = said;
        })
