-- ===== src/Dispatch.antt =====
-- proxy.go, the failover loop: `dispatchUpstream`, and the failure that handlers relay. What the
-- loop waits for or asks is an argument of each round: the clock, the account's token, its catalog,
-- what upstream answers, and what other requests do to the pool meanwhile.
pub mod Verdicts
pub mod Wire
pub mod Relay
pub mod Settle
mod Tests
use codex_auth_broker.Accounts.{Pool, clear_at, cool_at, pick, size, soonest_reset}
use codex_auth_broker.Accounts.Probe.{Call, run}
use codex_auth_broker.Body.{delete_field, set_field, string_field}
use codex_auth_broker.Cooldown.{Parsers, derive_cooldown}
use codex_auth_broker.Failure.{DispatchFailure, failure}
use codex_auth_broker.Prelude.Json.{Fields, bool}
use codex_auth_broker.Redact.Headers.{Tables, diagnostic_upstream_headers, equal_fold}
use codex_auth_broker.Routing.{
  Access, ClientRequest, Config, RequestInfo, UpstreamRequest, build_upstream_request, first_value,
  upstream_headers,
}
use codex_auth_broker.Tiers.{UpstreamModel, account_supports_tier}
use codex_auth_broker.Prelude.{
  Bool, List, Option, [], if◌then◌else◌, inl, inr, ltb, none, not, some, suc, take, true, zero, ℕ,
  ◌&&◌, ◌*◌, ◌++◌, ◌+◌, ◌==◌, ◌∷◌, ◌⊎◌,
}
use codex_auth_broker.Prelude.Clock.{Time, minute}
use codex_auth_broker.Prelude.Text.{Bytes, beq, codes}

abbrev pub auth_error_cooldown : ℕ
auth_error_cooldown = 2 * minute

-- An upstream response: the body is what its reader would give.
pub record Response : Type 0 where
  pub status : ℕ
  pub header : List (Bytes × List Bytes)
  pub body : Bytes

unfoldable pub values_of : Bytes → List (Bytes × List Bytes) → List Bytes
values_of key [] = []
values_of key ((name, values) ∷ header) =
    let rest = values_of key header in if equal_fold name key then values else rest

-- `resp.Header.Get`
abbrev pub header_get : Response → Bytes → Bytes
header_get resp key = first_value (values_of key resp.header)

-- What stays the same for the whole request.
pub record Env : Type 0 where
  pub parsers : Parsers
  pub tables : Tables
  pub config : Config
  pub parses_url : Bytes → Bool
  pub is_date : Bytes → Bool
  pub marshal : Fields → Option Bytes
  pub info : RequestInfo
  pub request : ClientRequest

-- One round: what others did to the pool before it, whether the context is over at its two tests,
-- the two times, each account's token (or error) and catalog, what upstream answers an account (or
-- the transport's error), and what others do to the pool until the answer is there.
pub record Round : Type 0 where
  pub before : List Call
  pub canceled : Bool
  pub now : Time
  pub current : ℕ → Access ⊎ Bytes
  pub canceled_late : Bool
  pub catalog : ℕ → Option (List UpstreamModel)
  pub answer : ℕ → UpstreamRequest → Response ⊎ Bytes
  pub meanwhile : List Call
  pub rl_now : Time

-- How a round ends: with the response, with a failure that ends the loop, with an account benched
-- for a 429 or for a failed token, or with no account to try.
pub data Verdict : Type 0 where
  responded : Response → Verdict
  failed : DispatchFailure → Verdict
  limited : DispatchFailure → Verdict
  unauthorized : Bytes → Verdict
  all_cooling : Verdict

-- The body as it goes to an account, and its encoding.
unfoldable pub wire_body :
    Env → Option (List UpstreamModel) → Fields → Bytes → Option (Fields × Bytes)
wire_body env catalog body encoded =
    let tier = string_field body (codes "service_tier") in
    let stripped =
      set_field (codes "stream") (bool true) (delete_field (codes "service_tier") body) in
    if beq tier (codes "priority")
      && not (account_supports_tier env.is_date catalog env.info.normalized_model tier)
    then elim (env.marshal stripped) [ none ↦ none | some e ↦ some (stripped, e) ]
    else some (body, encoded)

-- The failure for a 429 response, whose body is read up to 64 KiB.
unfoldable pub rate_limited : Env → Response → Time → DispatchFailure
rate_limited env resp rl_now =
    let rl_body = take 65536 resp.body in
    let c = derive_cooldown env.parsers (some (header_get resp)) rl_body rl_now in
    record {
      status = 429;
      message = [];
      body = rl_body;
      retry_after = c.until;
      window = c.window;
      upstream_headers = diagnostic_upstream_headers env.tables resp.header;
    }

-- From the response on.
unfoldable pub settle : Env → Time → ℕ → Pool → Response ⊎ Bytes → Pool × Verdict
settle env rl_now i p (inr e) = (p, failed (failure 502 (codes "upstream request failed: " ++ e)))
settle env rl_now i p (inl resp) =
    let fail = rate_limited env resp rl_now in
    if resp.status == 429
    then (cool_at i rl_now fail.retry_after p, limited fail)
    else if ltb resp.status 400
    then (clear_at i p, responded resp)
    else (p, responded resp)

-- With an account and its token.
unfoldable pub send : Env → Round → Fields → Bytes → ℕ → Access → Pool → Pool × Verdict
send env r body encoded i access p = elim (wire_body env (r.catalog i) body encoded) [
  | none ↦ (p, failed (failure 502 (codes "encode upstream request failed")))
  | some (wire, wire_encoded) ↦
      elim (build_upstream_request env.parses_url env.config wire_encoded env.info wire env.request
        access) [
          | none ↦ (p, failed (failure 502 (codes "build upstream request failed")))
          | some req ↦ settle env r.rl_now i (run p r.meanwhile) (r.answer i req)
        ]
]

-- With an account.
unfoldable pub try_account :
    Env → Round → Fields → Bytes → ℕ → Access ⊎ Bytes → Pool → Pool × Verdict
try_account env r body encoded i (inl access) p = send env r body encoded i access p
try_account env r body encoded i (inr e) p =
    if r.canceled_late
    then (p, failed (failure 408 (codes "request canceled")))
    else (cool_at i r.now (r.now + auth_error_cooldown) p, unauthorized e)

unfoldable pub attempt : Env → Fields → Bytes → Round → Pool → Pool × Verdict
attempt env body encoded r p =
    if r.canceled
    then (p, failed (failure 408 (codes "request canceled")))
    else let (q, choice) = pick (run p r.before) r.now in
      elim choice [
        | none ↦ (q, all_cooling)
        | some i ↦ try_account env r body encoded i (r.current i) q
      ]

-- After the loop, at a last time.
unfoldable pub give_up : Option DispatchFailure → Option Bytes → Time → DispatchFailure
give_up (some fail) auth soonest =
    if soonest == 0 then fail else record fail { retry_after = soonest }
give_up none (some e) soonest = failure 502 (codes "Codex auth failed: " ++ e)
give_up none none soonest = record (failure 429 (codes "all Codex accounts are rate-limited")) {
  retry_after = soonest;
}

-- What the loop does with the end of a round; `again` are the rounds behind it.
unfoldable pub go_on :
    (Option DispatchFailure → Option Bytes → Pool → Pool × (Response ⊎ DispatchFailure))
    → Option DispatchFailure
    → Option Bytes
    → Pool × Verdict
    → Pool × (Response ⊎ DispatchFailure)
go_on again rate auth (q, responded resp) = (q, inl resp)
go_on again rate auth (q, failed fail) = (q, inr fail)
go_on again rate auth (q, limited fail) = again (some fail) auth q
go_on again rate auth (q, unauthorized e) = again rate (some e) q
go_on again rate auth (q, all_cooling) = (q, inr (give_up rate auth (soonest_reset q)))

-- The rounds that are left, with the last 429 and the last failed token.
unfoldable pub dispatch_from :
    Env
    → Fields
    → Bytes
    → (ℕ → Round)
    → ℕ
    → ℕ
    → Option DispatchFailure
    → Option Bytes
    → Pool
    → Pool × (Response ⊎ DispatchFailure)
dispatch_from env body encoded rounds k zero rate auth p =
    (p, inr (give_up rate auth (soonest_reset p)))
dispatch_from env body encoded rounds k (suc left) rate auth p =
    go_on (dispatch_from env body encoded rounds (k + 1) left) rate auth
      (attempt env body encoded (rounds k) p)

unfoldable pub dispatch_upstream :
    Env → Fields → Bytes → (ℕ → Round) → Pool → Pool × (Response ⊎ DispatchFailure)
dispatch_upstream env body encoded rounds p =
    if size p == 0
    then (p, inr (failure 502 (codes "no Codex accounts configured")))
    else dispatch_from env body encoded rounds 0 (size p) none none p
