-- ===== src/Dispatch/Settle.antt =====
-- What one round of `dispatchUpstream` does to the pool.
use codex_auth_broker.Prelude.{
  Bool-cases, Option, Option-cases, arith, false, get_elem?, get_elem?-set_ne, get_elem?-set_self,
  inr, lt_of_get, ltb, none, refl, set, some, take, true, ℕ, ◌*◌, ◌+◌, ◌<◌, ◌==◌, ◌≡◌, ◌≢◌, ◌≤◌,
  ◌⊎◌,
}
use codex_auth_broker.Routing.{Access, UpstreamRequest, build_upstream_request}
use codex_auth_broker.Prelude.Json.{Fields}
use codex_auth_broker.Cooldown.Bounds.{Within, derive_cooldown-Within}
use codex_auth_broker.Accounts.Probe.{run}
use codex_auth_broker.Accounts.{
  Account, Pool, available, clear_at, clear_cooldown, cool, cool_at, on_account, pick,
}
use codex_auth_broker.Failure.{DispatchFailure}
use codex_auth_broker.Dispatch.{
  Env, Response, Round, Verdict, all_cooling, attempt, auth_error_cooldown, failed, header_get,
  limited, rate_limited, responded, send, settle, try_account, unauthorized, wire_body, inl,
}
use codex_auth_broker.Prelude.Clock.{Time, day, second}
use codex_auth_broker.Prelude.Text.{Bytes}

-- Account `i`, if there is one, is held back until `bound`.
abbrev pub IsBenched : ℕ → Time → Pool → Type 0
IsBenched i bound p =
    (a : Account)
    → get_elem? p.accounts i ≡ some a
    → (later : Time) → later < bound
    → available a later ≡ false

-- Account `i`, if there is one, carries no cooldown.
abbrev pub IsReleased : ℕ → Pool → Type 0
IsReleased i p =
    (a : Account) → get_elem? p.accounts i ≡ some a → (later : Time) → available a later ≡ true

on_account-at :
    (f : Account → Account) (i : ℕ) (p : Pool) (b : Account)
    → get_elem? (on_account f i p).accounts i ≡ some b
    → (a : Account) × (get_elem? p.accounts i ≡ some a) × (b ≡ f a)
on_account-at f i p b h = elim (Option-cases (get_elem? p.accounts i)) [
  | inl e ↦ let gone : get_elem? p.accounts i ≡ some b = rw (e, on_account) at h in cc
  | inr (a, e) ↦
      let placed : get_elem? (set p.accounts i (f a)) i ≡ some b = rw (e, on_account) at h in
      let there = get_elem?-set_self p.accounts i (f a) (lt_of_get p.accounts i a e) in (a, e, cc)
]

-- No other account of the pool changed.
abbrev pub KeepsOthers : ℕ → Pool → Pool → Type 0
KeepsOthers i p q =
    (q.active ≡ p.active) × ((j : ℕ) → i ≢ j → get_elem? q.accounts j ≡ get_elem? p.accounts j)

on_account-KeepsOthers :
    (f : Account → Account) (i : ℕ) (p : Pool) → KeepsOthers i p (on_account f i p)
on_account-KeepsOthers f i p = (refl, at (get_elem? p.accounts i))
  where
    at :
        (o : Option Account) (j : ℕ)
        → i ≢ j
        → get_elem? (elim o [ none ↦ p.accounts | some a ↦ set p.accounts i (f a) ]) j
          ≡ get_elem? p.accounts j
    at none j ne = refl
    at (some a) j ne = get_elem?-set_ne p.accounts i j (f a) ne

cool_at-KeepsOthers :
    (i : ℕ) (now until : Time) (p : Pool) → KeepsOthers i p (cool_at i now until p)
unfolding cool_at
cool_at-KeepsOthers i now until p = on_account-KeepsOthers (λ a. cool a now until) i p

clear_at-KeepsOthers : (i : ℕ) (p : Pool) → KeepsOthers i p (clear_at i p)
unfolding clear_at
clear_at-KeepsOthers i p = on_account-KeepsOthers clear_cooldown i p

cool_at-IsBenched :
    (i : ℕ) (now until : Time) (p : Pool) → IsBenched i until (cool_at i now until p)
unfolding cool_at cool available
cool_at-IsBenched i now until p b at later soon =
    let (a, _, is_b) = on_account-at (λ x. cool x now until) i p b at in rw is_b (ground arith)

clear_at-IsReleased : (i : ℕ) (p : Pool) → IsReleased i (clear_at i p)
unfolding clear_at clear_cooldown available
clear_at-IsReleased i p b at later =
    let (a, _, is_b) = on_account-at clear_cooldown i p b at in rw is_b (ground arith)

-- What an answer of upstream does to the pool `p` in which it came, by its status. With 429 the
-- account is benched, for at least 30 seconds after the answer and at most 8 days. Below 400 its
-- cooldown is gone, and the response is returned. A higher status is returned with the pool as it
-- is, and the transport's error is a failure.
abbrev pub Settles : Round → ℕ → Pool → Response ⊎ Bytes → Pool × Verdict → Type 0
Settles r i p (inr e) out = (fail : DispatchFailure) × (out ≡ (p, failed fail))
Settles r i p (inl resp) out =
    ((resp.status ≡ 429)
      × (fail : DispatchFailure) × (out ≡ (cool_at i r.rl_now fail.retry_after p, limited fail))
      × IsBenched i (r.rl_now + 30 * second) out.0
      × (fail.retry_after ≤ r.rl_now + 8 * day)
      × KeepsOthers i p out.0)
    ⊎ ((resp.status < 400)
        × (out ≡ (clear_at i p, responded resp))
        × IsReleased i out.0
        × KeepsOthers i p out.0)
    ⊎ ((400 ≤ resp.status) × (resp.status ≢ 429) × (out ≡ (p, responded resp)))

settle-Settles :
    (env : Env) (r : Round) (i : ℕ) (p : Pool) (a : Response ⊎ Bytes)
    → Settles r i p a (settle env r.rl_now i p a)
unfolding settle
settle-Settles env r i p (inr e) = (_, refl)
settle-Settles env r i p (inl resp) = elim (Bool-cases (resp.status == 429)) [
  | inl limit ↦ rw limit (
      inl (
        ground arith,
        rate_limited env resp r.rl_now,
        refl,
        benched,
        within.1,
        cool_at-KeepsOthers i r.rl_now _ p,
      ))
  | inr other ↦ elim (Bool-cases (ltb resp.status 400)) [
    | inl good ↦
        rw (other, good)
          (inr (inl (ground arith, refl, clear_at-IsReleased i p, clear_at-KeepsOthers i p)))
    | inr bad ↦ rw (other, bad) (inr (inr (ground arith, ground arith, refl)))
  ]
]
  where
    within : Within r.rl_now (rate_limited env resp r.rl_now).retry_after
    within =
        unfold rate_limited in
        derive_cooldown-Within env.parsers (some (header_get resp)) (take 65536 resp.body) r.rl_now

    benched :
        IsBenched i
          (r.rl_now + 30 * second)
          (cool_at i r.rl_now (rate_limited env resp r.rl_now).retry_after p)
    benched a at later soon =
        cool_at-IsBenched i r.rl_now (rate_limited env resp r.rl_now).retry_after p a at later
          (omega (arith, within.0))

module _ (env : Env) (body : Fields) (encoded : Bytes) where
  -- The request that goes out for account `i`, if its body can be encoded and it can be built.
  abbrev pub request_for : Round → ℕ → Access → Option UpstreamRequest
  request_for r i access = elim (wire_body env (r.catalog i) body encoded) [
    | none ↦ none
    | some (wire, bytes) ↦
        build_upstream_request env.parses_url env.config bytes env.info wire env.request access
  ]

  -- What a round does once `pick` has named account `i` and left the pool `q`. Without a token, it
  -- benches the account for two minutes, or fails if the request was canceled meanwhile. With a
  -- token, it fails if no request can be made, and else settles upstream's answer to that request,
  -- in the pool as others have left it.
  abbrev pub Tries : Round → ℕ → Pool → Pool × Verdict → Type 0
  Tries r i q out =
      ((e : Bytes) × (r.current i ≡ inr e)
        × (((r.canceled_late ≡ true) × (fail : DispatchFailure) × (out ≡ (q, failed fail)))
            ⊎ ((r.canceled_late ≡ false)
                × (out ≡ (cool_at i r.now (r.now + auth_error_cooldown) q, unauthorized e))
                × IsBenched i (r.now + 120 * second) out.0
                × KeepsOthers i q out.0)))
      ⊎ ((access : Access) × (r.current i ≡ inl access)
          × (((request_for r i access ≡ none) × (fail : DispatchFailure) × (out ≡ (q, failed fail)))
              ⊎ ((req : UpstreamRequest) × (request_for r i access ≡ some req)
                  × Settles r i (run q r.meanwhile) (r.answer i req) out)))

  send-Tries :
      (r : Round) (i : ℕ) (access : Access) (q : Pool)
      → r.current i ≡ inl access
      → Tries r i q (send env r body encoded i access q)
  unfolding send
  send-Tries r i access q h = elim (Option-cases (wire_body env (r.catalog i) body encoded)) [
    | inl e ↦ rw (e, send) (inr (access, h, inl (rw (e, request_for) refl, _, refl)))
    | inr ((wire, bytes), e) ↦
        elim (Option-cases (
          build_upstream_request env.parses_url env.config bytes env.info wire env.request
            access)) [
              | inl b ↦
                  rw (e, b, send) (inr (access, h, inl (rw (e, b, request_for) refl, _, refl)))
              | inr (req, b) ↦
                  rw (e, b, send)
                    (inr (
                      access,
                      h,
                      inr (
                        req,
                        rw (e, b, request_for) refl,
                        settle-Settles env r i (run q r.meanwhile) (r.answer i req),
                      ),
                    ))
            ]
  ]

  try_account-Tries :
      (r : Round) (i : ℕ) (a : Access ⊎ Bytes) (q : Pool)
      → r.current i ≡ a
      → Tries r i q (try_account env r body encoded i a q)
  unfolding try_account
  try_account-Tries r i (inl access) q h = send-Tries r i access q h
  try_account-Tries r i (inr e) q h = elim (Bool-cases r.canceled_late) [
    | inl late ↦ rw late (inl (e, h, inl (refl, _, refl)))
    | inr going ↦ rw going (
        inl (
          e,
          h,
          inr (
            refl,
            refl,
            cool_at-IsBenched i r.now (r.now + auth_error_cooldown) q,
            cool_at-KeepsOthers i r.now (r.now + auth_error_cooldown) q,
          ),
        ))
  ]

  -- One round of the failover loop, on every branch. A canceled request leaves the pool alone. With
  -- no account to pick, the round ends there. Otherwise it tries the account that `pick` names:
  -- upstream's answer of 429 holds that account back for at least 30 seconds after the answer and at
  -- most 8 days, and a token that cannot be had for two minutes; an answer below 400 is returned,
  -- with the account's cooldown gone; every other answer is returned and every failure ends the loop
  -- with the pool as the pick and other requests have left it, and no account but the one it tried
  -- is touched.
  pub attempt-Tries :
      (r : Round) (p : Pool)
      → let (q, choice) = pick (run p r.before) r.now in
        let out = attempt env body encoded r p in
        ((r.canceled ≡ true) × (fail : DispatchFailure) × (out ≡ (p, failed fail)))
        ⊎ ((r.canceled ≡ false) × (choice ≡ none) × (out ≡ (q, all_cooling)))
        ⊎ ((r.canceled ≡ false) × (i : ℕ) × (choice ≡ some i) × Tries r i q out)
  unfolding attempt
  attempt-Tries r p = elim (Bool-cases r.canceled) [
    | inl over ↦ rw over (inl (refl, _, refl))
    | inr going ↦ elim (Option-cases (pick (run p r.before) r.now).1) [
      | inl e ↦ rw (going, e, attempt) (inr (inl (refl, refl, refl)))
      | inr (i, e) ↦
          rw (going, e, attempt)
            (inr (
              inr (
                refl,
                i,
                refl,
                try_account-Tries r i (r.current i) (pick (run p r.before) r.now).0 refl,
              )))
    ]
  ]
