-- ===== src/Dispatch/Tests.antt =====
-- Concrete runs of the failover loop.
use codex_auth_broker.Dispatch.{
  Env, Response, Round, all_cooling, attempt, dispatch_upstream, failed, wire_body,
}
use codex_auth_broker.Failure.{DispatchFailure, failure}
use codex_auth_broker.Body.{delete_field, get_field, set_field, string_field}
use codex_auth_broker.Tiers.{account_supports_tier, find_model, select_model}
use codex_auth_broker.Prelude.Text.{Bytes, beq, codes, trim_space}
use codex_auth_broker.Dispatch.Verdicts.{Answers, dispatch_upstream-Answers}
use codex_auth_broker.Dispatch.Settle.{Tries, attempt-Tries}
use codex_auth_broker.Dispatch.Wire.{Sends, wire_body-Sends}
use codex_auth_broker.Dispatch.Relay.{Tells, retry_after_header, retry_after_header-Tells}
use codex_auth_broker.Accounts.{Account, Pool, pick}
use codex_auth_broker.Accounts.Probe.{run}
use codex_auth_broker.Routing.{UpstreamRequest}
use codex_auth_broker.Prelude.Json.{Fields, bool, end, field, str}
use codex_auth_broker.Prelude.{
  [], false, inl, none, refl, some, suc, true, zero, ℕ, ◌*◌, ◌∷◌, ◌≡◌, ◌⊎◌,
}
use codex_auth_broker.Prelude.Clock.{second}

abbrev idle : Account
idle = record { label = codes "a"; cooldown_until = 0; next_probe = 0 }

abbrev two : Pool
two = record { accounts = idle ∷ idle ∷ []; active = 0 }

abbrev env : Env
env = record {
  parsers = record {
    parse_float = λ s. none;
    parse_http_time = λ s. none;
    parse_rfc_3339 = λ s. none;
    unmarshal = λ s. none;
  };
  tables = record {
    is_utf8 = λ s. true;
    runes = λ s. s;
    is_letter_or_number = λ c. true;
    is_float = λ s. true;
  };
  config = record {
    upstream_url = codes "https://upstream";
    upstream_originator = [];
    models_client_version = codes "1";
    version = codes "1";
  };
  parses_url = λ s. true;
  is_date = λ s. false;
  marshal = λ f. some (codes "{}");
  info = record {
    model = codes "gpt-5.5";
    normalized_model = codes "gpt-5.5";
    reasoning_effort = [];
    service_tier = codes "priority";
    stream = true;
    prompt_cache_key_set = false;
    prompt_cache_key = [];
    prompt_cache_retention_set = false;
    prompt_cache_retention = [];
    compaction_trigger = false;
  };
  request = λ k. [];
}

abbrev answer_of : ℕ → Response
answer_of status = record { status = status; header = []; body = [] }

-- Account 0 is at its limit, account 1 serves.
abbrev answer : ℕ → UpstreamRequest → Response ⊎ Bytes
answer zero req = inl (answer_of 429)
answer (suc _) req = inl (answer_of 200)

abbrev round : ℕ → Round
round k = record {
  before = [];
  canceled = false;
  now = 1000 * second;
  current = λ i. inl (record { access_token = codes "t"; account_id = codes "i" });
  canceled_late = false;
  catalog = λ i. some [];
  answer = answer;
  meanwhile = [];
  rl_now = 1000 * second;
}

abbrev body : Fields
body =
    field (codes "model") (str (codes "gpt-5.5"))
      (field (codes "service_tier") (str (codes "priority")) end)

dispatch_upstream-Answers_example : Answers (dispatch_upstream env body (codes "{}") round two).1
dispatch_upstream-Answers_example = dispatch_upstream-Answers env body (codes "{}") round two

attempt-Tries_example :
    let (q, choice) = pick (run two (round 0).before) (round 0).now in
    let out = attempt env body (codes "{}") (round 0) two in
    (((round 0).canceled ≡ true) × (fail : DispatchFailure) × (out ≡ (two, failed fail)))
    ⊎ (((round 0).canceled ≡ false) × (choice ≡ none) × (out ≡ (q, all_cooling)))
    ⊎ (((round 0).canceled ≡ false)
        × (i : ℕ) × (choice ≡ some i)
        × Tries env body (codes "{}") (round 0) i q out)
attempt-Tries_example = attempt-Tries env body (codes "{}") (round 0) two

abbrev plain : Fields
plain = field (codes "model") (str (codes "gpt-5.5")) (field (codes "stream") (bool true) end)

stripped_run : wire_body env (some []) body (codes "[]") ≡ some (plain, codes "{}")
unfolding wire_body beq string_field trim_space get_field account_supports_tier select_model
    find_model set_field delete_field
stripped_run = refl

wire_body-Sends_example :
    Sends env (some []) body (codes "[]") (wire_body env (some []) body (codes "[]"))
wire_body-Sends_example = wire_body-Sends env (some []) body (codes "[]")

abbrev far : DispatchFailure
far = record (failure 429 []) { retry_after = 9000 * second }

five_minutes : retry_after_header far (1000 * second) ≡ some 300
unfolding retry_after_header
five_minutes = refl

retry_after_header-Tells_example :
    Tells far (1000 * second) (retry_after_header far (1000 * second))
retry_after_header-Tells_example = retry_after_header-Tells far (1000 * second)
