-- ===== src/Limiter/System.antt =====
-- All callers of one limiter, and any interleaving of their steps (limiter.go). A caller releases
-- only a slot that it holds, as the comment on `acquire` demands and `acquireUpstreamSlot`
-- arranges.
use codex_auth_broker.Prelude.{
  All, List, Option, [], arith, get_elem?, none, refl, replicate, set, some, suc, zero, ℕ, ◌+◌, ◌∙◌,
  ◌∷◌, ◌≡◌, ◌≤◌,
}
use codex_auth_broker.Limiter.{
  Caller, Limiter, Wake, context_done, enter, holding, new_concurrency_limiter, outside, release,
  slot_free, stats, timer_fired, waiting, wake,
}
use codex_auth_broker.Prelude.Int.{pos_part, ℤ}

pub record System : Type 0 where
  pub limiter : Limiter
  pub callers : List Caller

abbrev or_same : Limiter → Option Limiter → Limiter
or_same l none = l
or_same l (some m) = m

abbrev pub entered : System → ℕ → System
entered s i = record {
  limiter = or_same s.limiter (enter (some s.limiter)).0;
  callers = set s.callers i (enter (some s.limiter)).1;
}

abbrev pub woken : System → ℕ → Wake → System
woken s i w = record {
  limiter = (wake w s.limiter).0;
  callers = set s.callers i (wake w s.limiter).1;
}

abbrev pub released : System → ℕ → System
released s i = record {
  limiter = or_same s.limiter (release (some s.limiter));
  callers = set s.callers i outside;
}

pub data Step (s : System) : System → Type 0 where
  enters : (i : ℕ) → get_elem? s.callers i ≡ some outside → Step s (entered s i)
  wakes : (i : ℕ) (w : Wake) → get_elem? s.callers i ≡ some waiting → Step s (woken s i w)
  releases : (i : ℕ) → get_elem? s.callers i ≡ some holding → Step s (released s i)

pub data Reach (s : System) : System → Type 0 where
  here : Reach s s
  next : {t u : System} → Reach s t → Step t u → Reach s u

abbrev pub is_holding : Caller → ℕ
is_holding holding = 1
is_holding _ = 0

abbrev pub is_waiting : Caller → ℕ
is_waiting waiting = 1
is_waiting _ = 0

-- How many callers a test marks.
abbrev pub total : (Caller → ℕ) → List Caller → ℕ
total f [] = 0
total f (c ∷ cs) = f c + total f cs

total-set :
    (f : Caller → ℕ) (cs : List Caller) (i : ℕ) (old new : Caller)
    → get_elem? cs i ≡ some old
    → total f (set cs i new) + f old ≡ total f cs + f new
total-set f [] i old new e = cc
total-set f (c ∷ cs) zero old new e = let same : f c ≡ f old = cc in omega arith
total-set f (c ∷ cs) (suc i) old new e = omega (arith, total-set f cs i old new e)

-- The counters count: slots in the channel are callers that hold one, `queued` is the callers that
-- wait, and the channel never holds more than its capacity.
pub record IsCounted (s : System) : Type 0 where
  pub held : s.limiter.in_flight ≡ total is_holding s.callers
  pub queued : s.limiter.queued ≡ total is_waiting s.callers
  pub within : s.limiter.in_flight ≤ s.limiter.max

pub Step-IsCounted : {s t : System} → Step s t → IsCounted s → IsCounted t
unfolding enter wake release
Step-IsCounted {s} (enters i e) v = ground (
  arith,
  total-set is_holding s.callers i outside holding e,
  total-set is_waiting s.callers i outside holding e,
  total-set is_holding s.callers i outside waiting e,
  total-set is_waiting s.callers i outside waiting e,
)
Step-IsCounted {s} (wakes i w e) v = ground (
  arith,
  total-set is_holding s.callers i waiting (wake w s.limiter).1 e,
  total-set is_waiting s.callers i waiting (wake w s.limiter).1 e,
)
Step-IsCounted {s} (releases i e) v = ground (
  arith,
  total-set is_holding s.callers i holding outside e,
  total-set is_waiting s.callers i holding outside e,
)

-- Callers that have not yet asked, over a limiter that was just built.
abbrev pub start : Limiter → ℕ → System
start l n = record { limiter = l; callers = replicate n outside }

total-outside : (f : Caller → ℕ) (n : ℕ) → f outside ≡ 0 → total f (replicate n outside) ≡ 0
total-outside f zero h = refl
total-outside f (suc n) h = omega (arith, total-outside f n h)

start-IsCounted :
    (max queue_wait : ℤ) (l : Limiter) (n : ℕ)
    → new_concurrency_limiter max queue_wait ≡ some l
    → IsCounted (start l n)
unfolding new_concurrency_limiter
start-IsCounted max queue_wait l n e =
    ground (arith, total-outside is_holding n refl, total-outside is_waiting n refl)

Reach-IsCounted : {s t : System} → IsCounted s → Reach s t → IsCounted t
Reach-IsCounted v here = v
Reach-IsCounted v (next r st) = Step-IsCounted st (Reach-IsCounted v r)

-- However the steps of any number of callers interleave, from a limiter just built the slots taken
-- are the callers that hold one, `queued` is the callers that wait, and no more slots are taken
-- than the capacity.
pub run-IsCounted :
    (max queue_wait : ℤ) (l : Limiter) (n : ℕ) {t : System}
    → new_concurrency_limiter max queue_wait ≡ some l
    → Reach (start l n) t
    → IsCounted t
run-IsCounted max queue_wait l n e r = Reach-IsCounted (start-IsCounted max queue_wait l n e) r

-- The capacity is fixed by the configuration.
Step-max : {s t : System} → Step s t → t.limiter.max ≡ s.limiter.max
unfolding enter wake release
Step-max (enters i e) = ground arith
Step-max (wakes i slot_free e) = ground arith
Step-max (wakes i timer_fired e) = ground arith
Step-max (wakes i (context_done x) e) = ground arith
Step-max (releases i e) = ground arith

Reach-max : {s t : System} → Reach s t → t.limiter.max ≡ s.limiter.max
Reach-max here = refl
Reach-max (next r st) = Step-max st ∙ Reach-max r

total-zero : (f : Caller → ℕ) (cs : List Caller) → All (λ c. f c ≡ 0) cs → total f cs ≡ 0
total-zero f [] h = refl
total-zero f (c ∷ cs) h = omega (arith, total-zero f cs h.1)

-- No slot leaks: once every caller has released its slot or was refused, the statistics show the
-- configured capacity with nothing in flight and nothing queued, and the next caller gets a slot.
pub no_slot_leaks :
    (max queue_wait : ℤ) (l : Limiter) (n : ℕ) {t : System}
    → new_concurrency_limiter max queue_wait ≡ some l
    → Reach (start l n) t
    → All (λ c. is_holding c ≡ 0) t.callers
    → All (λ c. is_waiting c ≡ 0) t.callers
    → (stats (some t.limiter) ≡ record { max_concurrent = pos_part max; in_flight = 0; queued = 0 })
      × ((enter (some t.limiter)).1 ≡ holding)
unfolding new_concurrency_limiter stats enter
no_slot_leaks max queue_wait l n {t} e r h w = ground (
  arith,
  run-IsCounted max queue_wait l n e r,
  Reach-max r,
  total-zero is_holding t.callers h,
  total-zero is_waiting t.callers w,
)
