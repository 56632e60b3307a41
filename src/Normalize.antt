-- ===== src/Normalize.antt =====
-- proxy.go, `normalizeResponsesBody` and what it calls: a client's request body made acceptable to
-- upstream. The body is passed on and returned where the source changes it in place; numbers are
-- only passed on.
pub mod Params
pub mod Accepted
pub mod Roles
mod Tests
use codex_auth_broker.Body.{delete_field, get_field, set_field, string_field, value_or}
use codex_auth_broker.Models.{
  is_gpt_6_model, normalize_factory_model, normalize_reasoning_effort, normalize_service_tier,
  split_service_tier_suffix,
}
use codex_auth_broker.Prelude.Json.{
  Fields, Items, Value, arr, bool, cons, end, field, nil, obj, str,
}
use codex_auth_broker.Routing.{ClientRequest, RequestInfo, client_session_id, first_field}
use codex_auth_broker.Prelude.{
  Bool, List, Option, [], false, if◌then◌else◌, none, not, some, true, ◌&&◌, ◌||◌, ◌∷◌,
}
use codex_auth_broker.Prelude.Text.{Bytes, beq, codes, trim_space}

-- `body[key].(map[string]any)`, or a new map.
abbrev pub map_of : Option Value → Fields
map_of (some (obj fs)) = fs
map_of _ = end

-- `reasoning[key] = value` if the field is blank.
abbrev pub fill_text : Bytes → Bytes → Fields → Fields
fill_text key value fs = if beq (string_field fs key) [] then set_field key (str value) fs else fs

unfoldable pub ensure_reasoning_effort : Fields → Bytes → Fields
ensure_reasoning_effort body effort =
    set_field (codes "reasoning")
      (obj (
        fill_text (codes "summary") (codes "auto")
          (fill_text (codes "effort") effort (map_of (get_field (codes "reasoning") body)))))
      body

unfoldable pub reasoning_effort_from_body : Fields → Bytes
reasoning_effort_from_body body =
    let effort = string_field (map_of (get_field (codes "reasoning") body)) (codes "effort") in
    let normalized = normalize_reasoning_effort effort in
    if beq normalized [] then trim_space effort else normalized

-- The part of the model: the body, the model as written and as normalized, and its effort.
unfoldable pub normalize_model : Fields → Fields × Bytes × Bytes × Bytes
normalize_model body =
    let model = string_field body (codes "model") in
    let (name, tier) = split_service_tier_suffix model in
    let (normalized, effort) = normalize_factory_model name in
    let untiered =
      beq (string_field body (codes "service_tier")) []
      && beq (string_field body (codes "serviceTier")) [] in
    let b1 =
      if not (beq tier []) && untiered
      then set_field (codes "service_tier") (str tier) body
      else body in
    let b2 = set_field (codes "model") (str normalized) b1 in
    let b3 = if beq effort [] then b2 else ensure_reasoning_effort b2 effort in
    if beq model [] then (body, [], [], []) else (b3, model, normalized, effort)

unfoldable pub stable_prompt_cache_key : ClientRequest → Fields → Bytes
stable_prompt_cache_key r body =
    let from_body = first_field body (
      codes "session_id"
      ∷ codes "sessionId"
      ∷ codes "conversation_id"
      ∷ codes "conversationId"
      ∷ codes "prompt_cache_key"
      ∷ []) in
    if beq from_body [] then client_session_id r else from_body

unfoldable pub delete_all : List Bytes → Fields → Fields
delete_all [] body = body
delete_all (key ∷ keys) body = delete_all keys (delete_field key body)

abbrev pub token_params : List Bytes
token_params =
    codes "max_tokens"
    ∷ codes "max_output_tokens"
    ∷ codes "max_completion_tokens"
    ∷ codes "maxTokens"
    ∷ codes "maxOutputTokens"
    ∷ codes "maxCompletionTokens"
    ∷ codes "prompt_cache_retention"
    ∷ codes "promptCacheRetention"
    ∷ []

abbrev pub other_params : List Bytes
other_params =
    codes "promptCacheOptions"
    ∷ codes "session_id"
    ∷ codes "sessionId"
    ∷ codes "conversation_id"
    ∷ codes "conversationId"
    ∷ codes "stream_options"
    ∷ codes "streamOptions"
    ∷ codes "user"
    ∷ codes "safety_identifier"
    ∷ codes "safetyIdentifier"
    ∷ codes "logprobs"
    ∷ codes "top_logprobs"
    ∷ codes "topLogprobs"
    ∷ []

-- The field's new value where it is absent.
unfoldable pub default_field : Bytes → Value → Fields → Fields
default_field key value body = elim (get_field key body) [
  | none ↦ set_field key value body
  | some _ ↦ body
]

-- What becomes of the options of the prompt cache.
unfoldable pub cache_options : Bytes → Fields → Fields
cache_options model body =
    if not (is_gpt_6_model model)
    then delete_field (codes "prompt_cache_options") body
    else elim (get_field (codes "promptCacheOptions") body) [
      | none ↦ body
      | some options ↦ default_field (codes "prompt_cache_options") options body
    ]

unfoldable pub remove_unsupported_params : Fields → Bytes → Fields
remove_unsupported_params body model =
    delete_all other_params (cache_options model (delete_all token_params body))

-- `demoteSystemRoles`
unfoldable pub demote_system_roles : Items → Items
demote_system_roles nil = nil
demote_system_roles (cons (obj item) items) =
    cons
      (obj (
        if beq (string_field item (codes "role")) (codes "system")
        then set_field (codes "role") (str (codes "developer")) item
        else item))
      (demote_system_roles items)
demote_system_roles (cons v items) = cons v (demote_system_roles items)

-- The message that stands for an input that is a text.
abbrev pub user_message : Bytes → Value
user_message text = obj (
    field (codes "role") (str (codes "user")) (
      field (codes "content")
        (arr (
          cons
            (obj (
              field (codes "type") (str (codes "input_text"))
                (field (codes "text") (str text) end)))
            nil))
        end))

abbrev pub input_of : Option Value → Fields → Fields
input_of (some (str s)) body =
    set_field (codes "input") (arr (if beq s [] then nil else cons (user_message s) nil)) body
input_of (some (arr items)) body = set_field (codes "input") (arr (demote_system_roles items)) body
input_of _ body = body

unfoldable pub normalize_input : Fields → Fields
normalize_input body = input_of (get_field (codes "input") body) body

-- Some item of the input is an object whose field passes a test.
unfoldable pub any_item : (Fields → Bool) → Items → Bool
any_item test nil = false
any_item test (cons (obj item) items) = test item || any_item test items
any_item test (cons v items) = any_item test items

abbrev pub items_of : Option Value → Items
items_of (some (arr items)) = items
items_of _ = nil

unfoldable pub has_system_or_developer_message : Fields → Bool
has_system_or_developer_message body =
    any_item
      (λ item.
        let role = string_field item (codes "role") in
        beq role (codes "system") || beq role (codes "developer"))
      (items_of (get_field (codes "input") body))

unfoldable pub has_compaction_trigger : Fields → Bool
has_compaction_trigger body =
    any_item (λ item. beq (string_field item (codes "type")) (codes "compaction_trigger"))
      (items_of (get_field (codes "input") body))

abbrev pub default_instructions : Bytes
default_instructions = codes "You are a helpful coding assistant."

-- The defaults behind the parameters: instructions, include, text and tools.
unfoldable pub fill_defaults : Fields → Fields
fill_defaults body =
    let b1 =
      if beq (string_field body (codes "instructions")) []
        && not (has_system_or_developer_message body)
      then set_field (codes "instructions") (str default_instructions) body
      else body in
    let b2 =
      default_field (codes "include") (arr (cons (str (codes "reasoning.encrypted_content")) nil))
        b1 in
    let b3 =
      default_field (codes "text") (obj (field (codes "verbosity") (str (codes "low")) end)) b2 in
    elim (get_field (codes "tools") b3) [
      | none ↦ b3
      | some _ ↦
          default_field (codes "parallel_tool_calls") (bool true)
            (default_field (codes "tool_choice") (str (codes "auto")) b3)
    ]

abbrev pub stream_of : Option Value → Bool
stream_of (some (bool b)) = b
stream_of _ = false

-- The prompt cache key: the body, whether there is one, and the key.
unfoldable pub set_cache_key : Fields → Bytes → Bytes → Fields × Bool × Bytes
set_cache_key body stable configured =
    let current = string_field body (codes "prompt_cache_key") in
    let key = if beq stable [] then trim_space configured else stable in
    if not (beq current [])
    then (body, true, current)
    else if beq key []
    then (body, false, [])
    else (set_field (codes "prompt_cache_key") (str key) body, true, key)

unfoldable pub normalize_responses_body : Bytes → ClientRequest → Fields → Fields × RequestInfo
normalize_responses_body configured r body =
    let (b1, model, normalized, effort) = normalize_model body in
    let retention =
      value_or (string_field b1 (codes "prompt_cache_retention"))
        (string_field b1 (codes "promptCacheRetention")) in
    let (b2, tier) = normalize_service_tier b1 normalized in
    let b3 = default_field (codes "store") (bool false) b2 in
    let stable = stable_prompt_cache_key r b3 in
    let b4 = normalize_input (remove_unsupported_params b3 normalized) in
    let b5 = fill_defaults b4 in
    let (b6, key_set, key) = set_cache_key b5 stable configured in
    (
      b6,
      record {
        model = model;
        normalized_model = normalized;
        reasoning_effort = if beq effort [] then reasoning_effort_from_body b1 else effort;
        service_tier = tier;
        stream = stream_of (get_field (codes "stream") b5);
        prompt_cache_key_set = key_set;
        prompt_cache_key = key;
        prompt_cache_retention_set = not (beq retention []);
        prompt_cache_retention = retention;
        compaction_trigger = has_compaction_trigger b4;
      },
    )
