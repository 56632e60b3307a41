-- ===== src/Chat/Stream/Protocol.antt =====
-- What a client of chat_completions.go may read on a stream: the frames of a chat completion as a
-- state machine, independent of how the translator gets at them.
use codex_auth_broker.Chat.Stream.{
  ContentKind, Frame, Identity, call, call_arguments, choice, chunk, content, done, failure,
  nothing, role, usage_only,
}
use codex_auth_broker.Chat.{UsageObject}
use codex_auth_broker.Prelude.{Bool, List, [], none, some, suc, ℕ, ◌++◌, ◌<◌, ◌∷◌, ◌≡◌, ◌⊎◌}
use codex_auth_broker.Prelude.Text.{Bytes, codes}

-- An opened stream has an identity, and a number of calls so far.
pub data Phase : Type 0 where
  fresh broken closed : Phase
  opened : Identity → ℕ → Phase
  finished counted : Identity → Phase

-- A finish reason that agrees with the number of calls.
abbrev pub IsReason : ℕ → Bytes → Type 0
IsReason calls reason =
    (reason ≡ codes "length")
    ⊎ ((reason ≡ codes "tool_calls") × (0 < calls))
    ⊎ ((reason ≡ codes "stop") × (calls ≡ 0))

-- The role comes first; all chunks have one identity; calls are numbered from 0, and arguments go to
-- a call that was announced; one chunk has the finish reason, and at most one the usage; an error
-- may take the place of what is left; the end comes once.
pub data Follows : Phase → Frame → Phase → Type 0 where
  opens :
      (i : Identity) (tier : Bytes) (u : Bool)
      → Follows fresh (chunk i tier (choice role none u)) (opened i 0)
  adds :
      (i : Identity) (n : ℕ) (tier : Bytes) (kind : ContentKind) (s : Bytes) (u : Bool)
      → Follows (opened i n) (chunk i tier (choice (content kind s) none u)) (opened i n)
  calls :
      (i : Identity) (n : ℕ) (tier id name arguments : Bytes) (u : Bool)
      → Follows
          (opened i n)
          (chunk i tier (choice (call n id name arguments) none u))
          (opened i (suc n))
  continues :
      (i : Identity) (n k : ℕ) (tier arguments : Bytes) (u : Bool)
      → k < n
      → Follows
          (opened i n)
          (chunk i tier (choice (call_arguments k arguments) none u))
          (opened i n)
  finishes :
      (i : Identity) (n : ℕ) (tier reason : Bytes) (u : Bool)
      → IsReason n reason
      → Follows (opened i n) (chunk i tier (choice nothing (some reason) u)) (finished i)
  counts :
      (i : Identity) (tier : Bytes) (o : UsageObject)
      → Follows (finished i) (chunk i tier (usage_only o)) (counted i)
  ends : (i : Identity) → Follows (finished i) done closed
  ends_counted : (i : Identity) → Follows (counted i) done closed
  breaks_fresh : (m : Bytes) → Follows fresh (failure m) broken
  breaks : (i : Identity) (n : ℕ) (m : Bytes) → Follows (opened i n) (failure m) broken
  ends_broken : Follows broken done closed

-- The frames so far, and the phase that they lead to.
pub data Transcript : List Frame → Phase → Type 0 where
  silent : Transcript [] fresh
  says :
      {fs : List Frame} {f : Frame} {p q : Phase}
      → Transcript fs p
      → Follows p f q
      → Transcript (fs ++ (f ∷ [])) q

-- A completion as a whole: the end was sent behind the finish reason, or behind the usage that
-- followed it, so that no error took the place of anything.
abbrev pub IsCompletion : List Frame → Type 0
IsCompletion fs =
    (before : List Frame) × (i : Identity) × (fs ≡ before ++ (done ∷ []))
    × (Transcript before (finished i) ⊎ Transcript before (counted i))
