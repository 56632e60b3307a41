-- ===== src/Routing.antt =====
-- proxy.go and websocket.go, the request that goes upstream: the routing hint, and the headers that
-- `buildUpstreamRequest` sets. A client's request is what its headers hold, by canonical name.
pub mod Hint
pub mod Client
mod Tests
use codex_auth_broker.Body.{string_field, value_or}
use codex_auth_broker.Prelude.Json.{Fields}
use codex_auth_broker.Prelude.{
  Bool, List, Option, [], false, if◌then◌else◌, leb, length, ltb, none, not, some, true, ◌&&◌, ◌++◌,
  ◌==◌, ◌||◌, ◌∷◌,
}
use codex_auth_broker.Prelude.Text.{Bytes, beq, codes, to_lower, trim_space}

-- `validCodexRoutingHintComponent`, character by character.
unfoldable pub hint_chars : Bytes → Bool
hint_chars [] = true
hint_chars (c ∷ s) = not (leb c 32 || leb 0x7F c || c == b';' || c == b'=') && hint_chars s

unfoldable pub valid_codex_routing_hint_component : Bytes → Bool
unfolding hint_chars
valid_codex_routing_hint_component value =
    not (beq value [] || ltb 256 (length value)) && hint_chars value

unfoldable pub build_codex_routing_hint : Bytes → Bytes → Bytes
unfolding valid_codex_routing_hint_component
build_codex_routing_hint model service_tier =
    let m = trim_space model in
    let t = trim_space service_tier in
    if not (valid_codex_routing_hint_component m)
      || (not (beq t []) && not (valid_codex_routing_hint_component t))
    then []
    else if beq t []
    then codes "model=" ++ m
    else codes "model=" ++ (m ++ (codes ";tier=" ++ t))

-- The values of each header, by canonical name.
abbrev pub ClientRequest : Type 0
ClientRequest = Bytes → List Bytes

-- Header.Get
abbrev pub first_value : List Bytes → Bytes
first_value [] = []
first_value (v ∷ vs) = v

-- The headers of the new request, each with the one value that was set last.
abbrev pub Headers : Type 0
Headers = List (Bytes × Bytes)

-- Header.Set
unfoldable pub set_header : Bytes → Bytes → Headers → Headers
set_header name value [] = (name, value) ∷ []
set_header name value ((n, v) ∷ hs) =
    let rest = set_header name value hs in if beq name n then (name, value) ∷ hs else (n, v) ∷ rest

unfoldable pub get_header : Bytes → Headers → Bytes
get_header name [] = []
get_header name ((n, v) ∷ hs) = let rest = get_header name hs in if beq name n then v else rest

-- `if value != "" { req.Header.Set(name, value) }`
abbrev pub set_if : Bytes → Bytes → Headers → Headers
set_if name value hs = if beq value [] then hs else set_header name value hs

-- The first header of the list that is not blank, trimmed.
unfoldable pub first_header : ClientRequest → List Bytes → Bytes
first_header r [] = []
first_header r (key ∷ keys) =
    let rest = first_header r keys in
    let value = trim_space (first_value (r key)) in if beq value [] then rest else value

-- The first field of the list that is not blank.
unfoldable pub first_field : Fields → List Bytes → Bytes
first_field body [] = []
first_field body (key ∷ keys) =
    let rest = first_field body keys in
    let value = string_field body key in if beq value [] then rest else value

unfoldable pub request_id : ClientRequest → Fields → Bytes
request_id r body =
    let from_header =
      first_header r
        (codes "x-client-request-id" ∷ codes "x-request-id" ∷ codes "session_id" ∷ []) in
    if beq from_header []
    then first_field body (
        codes "session_id"
        ∷ codes "sessionId"
        ∷ codes "conversation_id"
        ∷ codes "conversationId"
        ∷ codes "prompt_cache_key"
        ∷ [])
    else from_header

unfoldable pub client_session_id : ClientRequest → Bytes
client_session_id r = first_header r (codes "session-id" ∷ codes "session_id" ∷ [])

-- strings.Split at commas, behind the part read before.
unfoldable pub split_tokens : Bytes → Bytes → List Bytes
split_tokens part [] = part ∷ []
split_tokens part (c ∷ s) =
    let later = split_tokens [] s in
    let on = split_tokens (part ++ (c ∷ [])) s in if c == b',' then part ∷ later else on

unfoldable pub any_token : Bytes → List Bytes → Bool
any_token wanted [] = false
any_token wanted (token ∷ tokens) =
    beq (to_lower (trim_space token)) (to_lower wanted) || any_token wanted tokens

unfoldable pub header_has_token : Bytes → Bytes → Bool
header_has_token value wanted = any_token wanted (split_tokens [] value)

unfoldable pub merge_header_token : Bytes → Bytes → Bytes
merge_header_token value required =
    if header_has_token value required
    then value
    else if beq (trim_space value) []
    then required
    else value ++ (codes ", " ++ required)

-- strings.Join with a comma and a blank.
unfoldable pub join_values : List Bytes → Bytes
join_values [] = []
join_values (v ∷ []) = v
join_values (v ∷ (w ∷ vs)) = v ++ (codes ", " ++ join_values (w ∷ vs))

abbrev pub remote_compaction_feature : Bytes
remote_compaction_feature = codes "remote_compaction_v2"

unfoldable pub codex_beta_features : ClientRequest → Bool → Bytes
codex_beta_features r compaction =
    let value = join_values (r (codes "x-codex-beta-features")) in
    trim_space (if compaction then merge_header_token value remote_compaction_feature else value)

unfoldable pub set_cache_routing_headers : Headers → ClientRequest → Bytes → Headers
set_cache_routing_headers dst r prompt_cache_key =
    let id = value_or (client_session_id r) (trim_space prompt_cache_key) in
    let thread = trim_space (first_value (r (codes "thread-id"))) in
    let turn = trim_space (first_value (r (codes "x-codex-turn-state"))) in
    set_if (codes "x-codex-turn-state") turn
      (set_if (codes "thread-id") thread (set_if (codes "session-id") id dst))

-- What of the configuration and the build a request upstream depends on.
pub record Config : Type 0 where
  pub upstream_url : Bytes
  pub upstream_originator : Bytes
  pub models_client_version : Bytes
  pub version : Bytes

unfoldable pub set_client_identity : Config → Headers → Headers
set_client_identity cfg hs =
    let broker = codes "codex-auth-broker" in
    let given = trim_space cfg.upstream_originator in
    let originator = if beq given [] then broker else given in
    set_header (codes "User-Agent")
      (if beq originator broker
        then codes "codex-auth-broker/" ++ value_or cfg.version (codes "dev")
        else originator ++ (codes "/" ++ cfg.models_client_version))
      (set_header (codes "originator") originator hs)

pub record RequestInfo : Type 0 where
  pub model : Bytes
  pub normalized_model : Bytes
  pub reasoning_effort : Bytes
  pub service_tier : Bytes
  pub stream : Bool
  pub prompt_cache_key_set : Bool
  pub prompt_cache_key : Bytes
  pub prompt_cache_retention_set : Bool
  pub prompt_cache_retention : Bytes
  pub compaction_trigger : Bool

pub record Access : Type 0 where
  pub access_token : Bytes
  pub account_id : Bytes

pub record UpstreamRequest : Type 0 where
  pub url : Bytes
  pub payload : Bytes
  pub headers : Headers

-- The headers in the order in which they are set.
unfoldable pub upstream_headers : Config → RequestInfo → Fields → ClientRequest → Access → Headers
upstream_headers cfg info body r access =
    let h1 =
      set_header (codes "chatgpt-account-id") access.account_id
        (set_header (codes "Authorization") (codes "Bearer " ++ access.access_token) []) in
    let h2 =
      set_if (codes "x-codex-routing-hint")
        (build_codex_routing_hint info.normalized_model (string_field body (codes "service_tier")))
        (set_client_identity cfg h1) in
    let h3 =
      set_header (codes "Content-Type") (codes "application/json")
        (set_header (codes "OpenAI-Beta") (codes "responses=experimental") h2) in
    let h4 =
      set_header (codes "Accept")
        (if info.stream
          then codes "text/event-stream"
          else codes "application/json, text/event-stream")
        h3 in
    let h5 =
      set_if (codes "x-codex-beta-features") (codex_beta_features r info.compaction_trigger) h4 in
    set_if (codes "x-client-request-id") (request_id r body)
      (set_cache_routing_headers h5 r info.prompt_cache_key)

-- `parses` tells whether the standard library can make a request for the URL.
unfoldable pub build_upstream_request :
    (Bytes → Bool)
    → Config
    → Bytes
    → RequestInfo
    → Fields
    → ClientRequest
    → Access
    → Option UpstreamRequest
build_upstream_request parses cfg encoded info body r access =
    if parses cfg.upstream_url
    then some (record {
      url = cfg.upstream_url;
      payload = encoded;
      headers = upstream_headers cfg info body r access;
    })
    else none
