-- ===== src/Normalize/Params.antt =====
-- Which fields a body that `normalizeResponsesBody` of proxy.go returns cannot have.
use codex_auth_broker.Body.{
  delete_field, get_field, get_field-delete, get_field-delete_other, get_field-set_other, set_field,
  string_field,
}
use codex_auth_broker.Models.{is_gpt_6_model, one_of}
use codex_auth_broker.Normalize.{
  cache_options, default_field, default_instructions, delete_all, fill_defaults,
  has_system_or_developer_message, input_of, normalize_input, other_params,
  remove_unsupported_params, set_cache_key, token_params,
}
use codex_auth_broker.Prelude.Json.{Fields, Value, arr, bool, null, num, obj, str}
use codex_auth_broker.Prelude.{
  All, Bool-cases, List, Option, Option-cases, [], arith, false, if◌then◌else◌, inl, inr, none, not,
  refl, some, true, ◌&&◌, ◌∙◌, ◌∷◌, ◌≡◌, ◌≢◌, ◌⊎◌,
}
use codex_auth_broker.Prelude.Text.{Bytes, beq, beq-ne, beq_iff, codes, trim_space}

-- A key that is none of a list.
abbrev pub IsApart : Bytes → List Bytes → Type 0
IsApart key keys = All (λ k. key ≢ k) keys

pub one_of-IsApart : (key : Bytes) (keys : List Bytes) → one_of key keys ≡ false → IsApart key keys
unfolding one_of
one_of-IsApart key [] h = tt
one_of-IsApart key (k ∷ keys) h =
    (beq-ne key k (ground arith), one_of-IsApart key keys (ground arith))

-- The fields that are written behind the removal.
abbrev pub written : List Bytes
written =
    codes "input"
    ∷ codes "instructions"
    ∷ codes "include"
    ∷ codes "text"
    ∷ codes "tool_choice"
    ∷ codes "parallel_tool_calls"
    ∷ codes "prompt_cache_key"
    ∷ []

pub default_field-other :
    (key other : Bytes) (v : Value) (body : Fields)
    → key ≢ other
    → get_field key (default_field other v body) ≡ get_field key body
unfolding default_field
default_field-other key other v body ne = elim (Option-cases (get_field other body)) [
  | inl e ↦ rw (e, default_field) (get_field-set_other key other v body ne)
  | inr (w, e) ↦ rw (e, default_field) refl
]

fill_defaults-other :
    (key : Bytes) (body : Fields)
    → IsApart key written
    → get_field key (fill_defaults body) ≡ get_field key body
unfolding fill_defaults
fill_defaults-other key body (_, (ins, (inc, (text, (choice, (parallel, _)))))) =
    last _
    ∙ default_field-other key (codes "text") _ _ text
    ∙ default_field-other key (codes "include") _ _ inc
    ∙ first
  where
    first :
        get_field key (
          if beq (string_field body (codes "instructions")) []
            && not (has_system_or_developer_message body)
          then set_field (codes "instructions") (str default_instructions) body
          else body)
        ≡ get_field key body
    first =
        elim (Bool-cases (
          beq (string_field body (codes "instructions")) []
          && not (has_system_or_developer_message body))) [
            | inl bare ↦ rw bare (get_field-set_other key (codes "instructions") _ body ins)
            | inr told ↦ rw told refl
          ]

    last :
        (b : Fields)
        → get_field key (elim (get_field (codes "tools") b) [
          | none ↦ b
          | some _ ↦
              default_field
                (codes "parallel_tool_calls")
                (bool true)
                (default_field (codes "tool_choice") (str (codes "auto")) b)
        ])
          ≡ get_field key b
    last b = go (get_field (codes "tools") b)
      where
        go :
            (o : Option Value)
            → get_field key (elim o [
              | none ↦ b
              | some _ ↦
                  default_field
                    (codes "parallel_tool_calls")
                    (bool true)
                    (default_field (codes "tool_choice") (str (codes "auto")) b)
            ])
              ≡ get_field key b
        go none = refl
        go (some _) = default_field-other key _ _ _ parallel ∙ default_field-other key _ _ _ choice

input_of-other :
    (key : Bytes) (o : Option Value) (body : Fields)
    → IsApart key written
    → get_field key (input_of o body) ≡ get_field key body
input_of-other key none body h = refl
input_of-other key (some (str s)) body h = get_field-set_other key (codes "input") _ body h.0
input_of-other key (some (arr items)) body h = get_field-set_other key (codes "input") _ body h.0
input_of-other key (some null) body h = refl
input_of-other key (some (bool b)) body h = refl
input_of-other key (some (num n)) body h = refl
input_of-other key (some (obj fs)) body h = refl

set_cache_key-other :
    (key : Bytes) (body : Fields) (stable configured : Bytes)
    → IsApart key written
    → get_field key (set_cache_key body stable configured).0 ≡ get_field key body
unfolding set_cache_key
set_cache_key-other key body stable configured (_, (_, (_, (_, (_, (_, (ne, _))))))) =
    elim (Bool-cases (not (beq (string_field body (codes "prompt_cache_key")) []))) [
      | inl given ↦ rw given refl
      | inr blank ↦
          elim (Bool-cases (beq (if beq stable [] then trim_space configured else stable) [])) [
            | inl no_key ↦ rw (blank, no_key) refl
            | inr some_key ↦
                rw (blank, some_key) (get_field-set_other key (codes "prompt_cache_key") _ body ne)
          ]
    ]

-- Behind the removal, no other field changes.
pub later-other :
    (key : Bytes) (body : Fields) (stable configured : Bytes)
    → IsApart key written
    → get_field key (set_cache_key (fill_defaults (normalize_input body)) stable configured).0
      ≡ get_field key body
unfolding normalize_input
later-other key body stable configured h =
    set_cache_key-other key (fill_defaults (input_of (get_field (codes "input") body) body)) stable
      configured h
    ∙ fill_defaults-other key (input_of (get_field (codes "input") body) body) h
    ∙ input_of-other key (get_field (codes "input") body) body h

delete_all-none :
    (key : Bytes) (keys : List Bytes) (body : Fields)
    → get_field key body ≡ none
    → get_field key (delete_all keys body) ≡ none
unfolding delete_all
delete_all-none key [] body h = h
delete_all-none key (k ∷ keys) body h = elim (Bool-cases (beq key k)) [
  | inl same ↦
      let e = (beq_iff key k).0 same in
      delete_all-none key keys (delete_field k body) (rw (← e) (get_field-delete key body))
  | inr other ↦
      delete_all-none key keys (delete_field k body)
        (get_field-delete_other key k body (beq-ne key k other) ∙ h)
]

delete_all-in :
    (key : Bytes) (keys : List Bytes) (body : Fields)
    → one_of key keys ≡ true
    → get_field key (delete_all keys body) ≡ none
unfolding delete_all one_of
delete_all-in key [] body h = cc
delete_all-in key (k ∷ keys) body h = elim (Bool-cases (beq key k)) [
  | inl same ↦
      let e = (beq_iff key k).0 same in
      delete_all-none key keys (delete_field k body) (rw (← e) (get_field-delete key body))
  | inr other ↦ delete_all-in key keys (delete_field k body) (rw other at h)
]

delete_all-other :
    (key : Bytes) (keys : List Bytes) (body : Fields)
    → IsApart key keys
    → get_field key (delete_all keys body) ≡ get_field key body
unfolding delete_all
delete_all-other key [] body h = refl
delete_all-other key (k ∷ keys) body h =
    delete_all-other key keys (delete_field k body) h.1 ∙ get_field-delete_other key k body h.0

cache_options-other :
    (key model : Bytes) (body : Fields)
    → key ≢ codes "prompt_cache_options"
    → get_field key (cache_options model body) ≡ get_field key body
unfolding cache_options
cache_options-other key model body ne = elim (Bool-cases (is_gpt_6_model model)) [
  | inr other ↦ rw other (get_field-delete_other key (codes "prompt_cache_options") body ne)
  | inl gpt_6 ↦ elim (Option-cases (get_field (codes "promptCacheOptions") body)) [
    | inl e ↦ rw (gpt_6, e, cache_options) refl
    | inr (v, e) ↦
        rw (gpt_6, e, cache_options)
          (default_field-other key (codes "prompt_cache_options") v body ne)
  ]
]

pub remove_unsupported_params-in :
    (key model : Bytes) (body : Fields)
    → (one_of key token_params ≡ true) ⊎ (one_of key other_params ≡ true)
    → key ≢ codes "prompt_cache_options"
    → get_field key (remove_unsupported_params body model) ≡ none
unfolding remove_unsupported_params
remove_unsupported_params-in key model body (inr h) ne =
    delete_all-in key other_params (cache_options model (delete_all token_params body)) h
remove_unsupported_params-in key model body (inl h) ne =
    delete_all-none key other_params (cache_options model (delete_all token_params body)) (
      cache_options-other key model (delete_all token_params body) ne
      ∙ delete_all-in key token_params body h)

pub remove_unsupported_params-other :
    (key model : Bytes) (body : Fields)
    → IsApart key token_params
    → IsApart key other_params
    → key ≢ codes "prompt_cache_options"
    → get_field key (remove_unsupported_params body model) ≡ get_field key body
unfolding remove_unsupported_params
remove_unsupported_params-other key model body h k ne =
    delete_all-other key other_params (cache_options model (delete_all token_params body)) k
    ∙ cache_options-other key model (delete_all token_params body) ne
    ∙ delete_all-other key token_params body h
