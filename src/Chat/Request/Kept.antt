-- ===== src/Chat/Request/Kept.antt =====
-- chat_completions.go: the options of a chat leave the other fields of the body alone.
use mathlib.Core.Path.{subst}
use codex_auth_broker.Chat.Request.Parts.{Gives, Gives-chain, get_field-copy_keys}
use codex_auth_broker.Chat.Request.Options.{
  camel_keys, copied_keys, copy_camel_key, copy_camel_keys, copy_chat_request_fields, set_object,
  translate_reasoning, translate_text_options,
}
use codex_auth_broker.Chat.Request.Tools.{
  set_choice, set_tools, tools_of, translate_legacy_choice, translate_tool_choice,
  translate_tool_list, translate_tools,
}
use codex_auth_broker.Chat.Request.Translate.{translate_options}
use codex_auth_broker.Chat.Request.{ChatError, Tried, array_from, chain, copy_keys, got, refused}
use codex_auth_broker.Body.{get_field, get_field-set_other, set_field}
use codex_auth_broker.Prelude.Json.{Fields, Value, arr, bool, end, field, null, num, obj, str}
use codex_auth_broker.Prelude.{
  All, Bool, List, Option, Option-cases, [], arith, false, inl, inr, none, not, refl, some, true,
  ◌&&◌, ◌∙◌, ◌∷◌, ◌≡◌,
}
use codex_auth_broker.Prelude.Text.{Bytes, beq, beq_iff, codes}

-- The key is none of those that an option sets.
abbrev pub IsOther : Bytes → Type 0
IsOther key =
    All (λ other. beq key other ≡ false) copied_keys
    × All (λ pair. beq key pair.1 ≡ false) camel_keys
    × (beq key (codes "reasoning") ≡ false)
    × (beq key (codes "text") ≡ false)
    × (beq key (codes "tools") ≡ false)
    × (beq key (codes "tool_choice") ≡ false)

unfoldable pub differs : Bytes → List Bytes → Bool
differs key [] = true
differs key (other ∷ others) = not (beq key other) && differs key others

unfoldable pub differs_second : Bytes → List (Bytes × Bytes) → Bool
differs_second key [] = true
differs_second key ((camel, snake) ∷ others) = not (beq key snake) && differs_second key others

differs-All :
    (key : Bytes) (others : List Bytes)
    → differs key others ≡ true
    → All (λ other. beq key other ≡ false) others
unfolding differs
differs-All key [] h = tt
differs-All key (other ∷ others) h = (ground arith, differs-All key others (ground arith))

differs_second-All :
    (key : Bytes) (others : List (Bytes × Bytes))
    → differs_second key others ≡ true
    → All (λ pair. beq key pair.1 ≡ false) others
unfolding differs_second
differs_second-All key [] h = tt
differs_second-All key ((camel, snake) ∷ others) h =
    (ground arith, differs_second-All key others (ground arith))

-- A key is told apart by computing.
pub IsOther-of :
    (key : Bytes)
    → differs key copied_keys ≡ true
    → differs_second key camel_keys ≡ true
    → differs key (codes "reasoning" ∷ codes "text" ∷ codes "tools" ∷ codes "tool_choice" ∷ [])
      ≡ true
    → IsOther key
IsOther-of key h1 h2 h3 =
    let four = differs-All key _ h3 in
    (
      differs-All key copied_keys h1,
      differs_second-All key camel_keys h2,
      four.0,
      four.1.0,
      four.1.1.0,
      four.1.1.1.0,
    )

-- The key has the same value in the second body.
abbrev pub Kept : Bytes → Fields → Fields → Type 0
Kept key body after = get_field key after ≡ get_field key body

set_Kept :
    (key other : Bytes) (v : Value) (body : Fields)
    → beq key other ≡ false
    → Kept key body (set_field other v body)
set_Kept key other v body h =
    get_field-set_other key other v body (λ same. ground (arith, h, beq_iff key other))

set_object-Kept :
    (key other : Bytes) (fs body : Fields)
    → beq key other ≡ false
    → Kept key body (set_object other fs body)
set_object-Kept key other end body h = refl
set_object-Kept key other (field k v fs) body h = set_Kept key other (obj (field k v fs)) body h

copy_camel_key-Kept :
    (key camel snake : Bytes) (from to : Fields)
    → beq key snake ≡ false
    → Kept key to (copy_camel_key camel snake from to)
unfolding copy_camel_key
copy_camel_key-Kept key camel snake from to h = elim (Option-cases (get_field snake to)) [
  | inr (v, e) ↦ rw (e, copy_camel_key) refl
  | inl e ↦ elim (Option-cases (get_field camel from)) [
    | inl e' ↦ rw (e, copy_camel_key, e') refl
    | inr (v, e') ↦ rw (e, copy_camel_key, e') (set_Kept key snake v to h)
  ]
]

copy_camel_keys-Kept :
    (key : Bytes) (keys : List (Bytes × Bytes)) (from to : Fields)
    → All (λ pair. beq key pair.1 ≡ false) keys
    → Kept key to (copy_camel_keys keys from to)
unfolding copy_camel_keys
copy_camel_keys-Kept key [] from to h = refl
copy_camel_keys-Kept key ((camel, snake) ∷ keys) from to h =
    copy_camel_keys-Kept key keys from (copy_camel_key camel snake from to) h.1
    ∙ copy_camel_key-Kept key camel snake from to h.0

copy_fields-Kept :
    (key : Bytes) (from to : Fields) → IsOther key → Kept key to (copy_chat_request_fields from to)
unfolding copy_chat_request_fields
copy_fields-Kept key from to h =
    copy_camel_keys-Kept key camel_keys from (copy_keys copied_keys from to) h.1
    ∙ get_field-copy_keys key copied_keys from to h.0

pub Gives-unit : {E A : Type 0} (r : Tried E A) → Gives (λ a. Unit {0}) r
Gives-unit (got a) = tt
Gives-unit (refused e) = tt

got_inj : {E A : Type 0} (r : Tried E A) (b a : A) → r ≡ got b → r ≡ got a → b ≡ a
got_inj r b a e f = cc (e, f)

pub of_Gives : {E A : Type 0} (R : A → Type 0) (r : Tried E A) (a : A) → Gives R r → r ≡ got a → R a
of_Gives R (got b) a h e = subst R (got_inj (got b) b a refl e) h
of_Gives R (refused x) a h e = cc e

-- A step whose own result does not matter.
Gives-after :
    {A : Type 0} (key : Bytes) (body : Fields) (r : Tried ChatError A)
    (next : A → Tried ChatError Fields)
    → ((a : A) → Gives (Kept key body) (next a))
    → Gives (Kept key body) (chain r next)
Gives-after key body r next h =
    Gives-chain (λ a. Unit {0}) (Kept key body) r next (Gives-unit r) (λ a u. h a)

reasoning-Kept :
    (key : Bytes) (chat_body body : Fields)
    → beq key (codes "reasoning") ≡ false
    → Gives (Kept key body) (translate_reasoning chat_body body)
unfolding translate_reasoning
reasoning-Kept key chat_body body h =
    Gives-after key body _ _ (λ fs. set_object-Kept key (codes "reasoning") _ body h)

text-Kept :
    (quote : Bytes → Bytes) (key : Bytes) (chat_body body : Fields)
    → beq key (codes "text") ≡ false
    → Gives (Kept key body) (translate_text_options quote chat_body body)
unfolding translate_text_options
text-Kept quote key chat_body body h =
    Gives-after key body _ _
      λ fs. Gives-after key body _ _ (λ gs. set_object-Kept key (codes "text") gs body h)

set_tools-Kept :
    (quote : Bytes → Bytes) (legacy : Bool) (o : Option Value) (key : Bytes) (body : Fields)
    → beq key (codes "tools") ≡ false
    → Gives (Kept key body) (set_tools quote legacy o body)
unfolding set_tools
set_tools-Kept quote legacy none key body h = refl
set_tools-Kept quote legacy (some (arr vs)) key body h =
    Gives-after key body (translate_tool_list quote legacy 0 vs) _
      (λ fss. set_Kept key (codes "tools") (array_from fss) body h)
set_tools-Kept quote legacy (some null) key body h = tt
set_tools-Kept quote legacy (some (bool _)) key body h = tt
set_tools-Kept quote legacy (some (num _)) key body h = tt
set_tools-Kept quote legacy (some (str _)) key body h = tt
set_tools-Kept quote legacy (some (obj _)) key body h = tt

set_choice-Kept :
    (quote : Bytes → Bytes) (choice legacy : Option Value) (key : Bytes) (body : Fields)
    → beq key (codes "tool_choice") ≡ false
    → Gives (Kept key body) (set_choice quote choice legacy body)
unfolding set_choice
set_choice-Kept quote (some v) legacy key body h =
    Gives-after key body (translate_tool_choice quote v) _
      (λ w. set_Kept key (codes "tool_choice") w body h)
set_choice-Kept quote none (some v) key body h =
    Gives-after key body (translate_legacy_choice quote v) _
      (λ w. set_Kept key (codes "tool_choice") w body h)
set_choice-Kept quote none none key body h = refl

Kept-through :
    (key : Bytes) (a b : Fields) (r : Tried ChatError Fields)
    → Kept key a b
    → Gives (Kept key b) r
    → Gives (Kept key a) r
Kept-through key a b (got c) h k = k ∙ h
Kept-through key a b (refused e) h k = tt

pub translate_options-Kept :
    (quote : Bytes → Bytes) (key : Bytes) (chat_body body : Fields)
    → IsOther key
    → Gives (Kept key body) (translate_options quote chat_body body)
unfolding translate_options translate_tools
translate_options-Kept quote key chat_body body h =
    let copied = copy_chat_request_fields chat_body body in
    Gives-chain (Kept key body) (Kept key body) (translate_reasoning chat_body copied) _
      (Kept-through key body copied _ (copy_fields-Kept key chat_body body h)
        (reasoning-Kept key chat_body copied h.2))
      λ b1 h1.
        Gives-chain (Kept key body) (Kept key body) (translate_text_options quote chat_body b1) _
          (Kept-through key body b1 _ h1 (text-Kept quote key chat_body b1 h.3))
          λ b2 h2.
            Gives-chain (Kept key body) (Kept key body) (set_tools quote _ (tools_of chat_body) b2)
              _
              (Kept-through key body b2 _ h2
                (set_tools-Kept quote _ (tools_of chat_body) key b2 h.4))
              (λ b3 h3. Kept-through key body b3 _ h3 (set_choice-Kept quote _ _ key b3 h.5))
