-- ===== src/Dispatch/Verdicts.antt =====
-- What `dispatchUpstream` of proxy.go may return.
use codex_auth_broker.Dispatch.{
  Env, Response, Round, Verdict, all_cooling, attempt, dispatch_from, dispatch_upstream, failed,
  give_up, go_on, limited, rate_limited, responded, send, settle, try_account, unauthorized,
  wire_body,
}
use codex_auth_broker.Routing.{Access, build_upstream_request}
use codex_auth_broker.Failure.{DispatchFailure}
use codex_auth_broker.Accounts.{Pool, pick, size, soonest_reset}
use codex_auth_broker.Accounts.Probe.{run}
use codex_auth_broker.Prelude.Json.{Fields}
use codex_auth_broker.Prelude.{
  Bool-cases, Option, Option-cases, arith, inl, inr, ltb, none, refl, some, suc, zero, ℕ, ◌+◌, ◌==◌,
  ◌≡◌, ◌≢◌, ◌⊎◌,
}
use codex_auth_broker.Prelude.Clock.{Time}
use codex_auth_broker.Prelude.Text.{Bytes}

-- A response that is not a rate limit, or a failure that the handlers know to relay.
abbrev pub IsFailure : DispatchFailure → Type 0
IsFailure fail = (fail.status ≡ 408) ⊎ (fail.status ≡ 429) ⊎ (fail.status ≡ 502)

abbrev pub IsVerdict : Verdict → Type 0
IsVerdict (responded resp) = resp.status ≢ 429
IsVerdict (failed fail) = (fail.status ≡ 408) ⊎ (fail.status ≡ 502)
IsVerdict (limited fail) = fail.status ≡ 429
IsVerdict (unauthorized e) = Unit
IsVerdict all_cooling = Unit

settle-IsVerdict :
    (env : Env) (t : Time) (i : ℕ) (p : Pool) (a : Response ⊎ Bytes)
    → IsVerdict (settle env t i p a).1
unfolding settle rate_limited
settle-IsVerdict env t i p (inr e) = inr refl
settle-IsVerdict env t i p (inl resp) = elim (Bool-cases (resp.status == 429)) [
  | inl limit ↦ rw limit refl
  | inr other ↦ elim (Bool-cases (ltb resp.status 400)) [
    | inl good ↦ rw (other, good) (ground arith)
    | inr bad ↦ rw (other, bad) (ground arith)
  ]
]

send-IsVerdict :
    (env : Env) (r : Round) (body : Fields) (encoded : Bytes) (i : ℕ) (access : Access) (p : Pool)
    → IsVerdict (send env r body encoded i access p).1
unfolding send
send-IsVerdict env r body encoded i access p =
    elim (Option-cases (wire_body env (r.catalog i) body encoded)) [
      | inl e ↦ rw (e, send) (inr refl)
      | inr ((wire, bytes), e) ↦
          elim (Option-cases (
            build_upstream_request env.parses_url env.config bytes env.info wire env.request
              access)) [
                | inl b ↦ rw (e, b, send) (inr refl)
                | inr (req, b) ↦
                    rw (e, b, send)
                      (settle-IsVerdict env r.rl_now i (run p r.meanwhile) (r.answer i req))
              ]
    ]

try_account-IsVerdict :
    (env : Env) (r : Round) (body : Fields) (encoded : Bytes) (i : ℕ) (a : Access ⊎ Bytes)
    (p : Pool)
    → IsVerdict (try_account env r body encoded i a p).1
unfolding try_account
try_account-IsVerdict env r body encoded i (inl access) p =
    send-IsVerdict env r body encoded i access p
try_account-IsVerdict env r body encoded i (inr e) p = elim (Bool-cases r.canceled_late) [
  | inl late ↦ rw late (inl refl)
  | inr going ↦ rw going tt
]

attempt-IsVerdict :
    (env : Env) (body : Fields) (encoded : Bytes) (r : Round) (p : Pool)
    → IsVerdict (attempt env body encoded r p).1
unfolding attempt
attempt-IsVerdict env body encoded r p = elim (Bool-cases r.canceled) [
  | inl over ↦ rw over (inl refl)
  | inr going ↦ elim (Option-cases (pick (run p r.before) r.now).1) [
    | inl e ↦ rw (going, e, attempt) tt
    | inr (i, e) ↦
        rw (going, e, attempt)
          (try_account-IsVerdict env r body encoded i (r.current i) (pick (run p r.before) r.now).0)
  ]
]

-- What a caller of the loop gets.
abbrev pub Answers : Response ⊎ DispatchFailure → Type 0
Answers (inl resp) = resp.status ≢ 429
Answers (inr fail) = IsFailure fail

-- The last 429 is one.
abbrev IsLimit : Option DispatchFailure → Type 0
IsLimit none = Unit
IsLimit (some fail) = fail.status ≡ 429

give_up-IsFailure :
    (rate : Option DispatchFailure) (auth : Option Bytes) (soonest : Time)
    → IsLimit rate
    → IsFailure (give_up rate auth soonest)
unfolding give_up
give_up-IsFailure (some fail) auth soonest h = inr (inl (ground arith))
give_up-IsFailure none (some e) soonest h = inr (inr refl)
give_up-IsFailure none none soonest h = inr (inl refl)

-- Every answer of the rounds behind is one.
abbrev AllAnswer :
    (Option DispatchFailure → Option Bytes → Pool → Pool × (Response ⊎ DispatchFailure)) → Type 0
AllAnswer again =
    (rate : Option DispatchFailure) (auth : Option Bytes) (q : Pool)
    → IsLimit rate
    → Answers (again rate auth q).1

go_on-Answers :
    (again : Option DispatchFailure → Option Bytes → Pool → Pool × (Response ⊎ DispatchFailure))
    (rate : Option DispatchFailure) (auth : Option Bytes) (a : Pool × Verdict)
    → AllAnswer again
    → IsLimit rate
    → IsVerdict a.1
    → Answers (go_on again rate auth a).1
unfolding go_on
go_on-Answers again rate auth (q, responded resp) h l v = v
go_on-Answers again rate auth (q, failed fail) h l (inl late) = inl late
go_on-Answers again rate auth (q, failed fail) h l (inr bad) = inr (inr bad)
go_on-Answers again rate auth (q, limited fail) h l v = h (some fail) auth q v
go_on-Answers again rate auth (q, unauthorized e) h l v = h rate (some e) q l
go_on-Answers again rate auth (q, all_cooling) h l v =
    give_up-IsFailure rate auth (soonest_reset q) l

dispatch_from-Answers :
    (env : Env) (body : Fields) (encoded : Bytes) (rounds : ℕ → Round) (k left : ℕ)
    → AllAnswer (dispatch_from env body encoded rounds k left)
unfolding dispatch_from
dispatch_from-Answers env body encoded rounds k zero rate auth p h =
    give_up-IsFailure rate auth (soonest_reset p) h
dispatch_from-Answers env body encoded rounds k (suc left) rate auth p h =
    go_on-Answers (dispatch_from env body encoded rounds (k + 1) left) rate auth _
      (dispatch_from-Answers env body encoded rounds (k + 1) left) h
      (attempt-IsVerdict env body encoded (rounds k) p)

-- Whatever upstream, the token stores and other requests do, the failover loop returns an upstream
-- response that is no 429, which the caller may relay, or a failure of status 408, 429 or 502.
pub dispatch_upstream-Answers :
    (env : Env) (body : Fields) (encoded : Bytes) (rounds : ℕ → Round) (p : Pool)
    → Answers (dispatch_upstream env body encoded rounds p).1
unfolding dispatch_upstream
dispatch_upstream-Answers env body encoded rounds p = elim (Bool-cases (size p == 0)) [
  | inl empty ↦ rw empty (inr (inr refl))
  | inr some_account ↦
      rw some_account (dispatch_from-Answers env body encoded rounds 0 (size p) none none p tt)
]
