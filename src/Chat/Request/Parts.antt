-- ===== src/Chat/Request/Parts.antt =====
-- chat_completions.go: what the parts are that the content of a message is translated to.
use codex_auth_broker.Chat.Request.Content.{
  PartKind, file, file_part, image_part, image_url, input_audio, other, part_as, part_error,
  part_kind, refusal, text, text_part, translate_content, translate_part, translate_parts,
}
use codex_auth_broker.Prelude.Json.{Fields, Items, Value, arr, bool, cons, nil, null, num, obj, str}
use codex_auth_broker.Usage.{detail, object_field}
use codex_auth_broker.Body.{get_field, get_field-set_other, set_field, string_field}
use codex_auth_broker.Chat.{chat_payload_string}
use codex_auth_broker.Chat.Request.{Tried, chain, copy_keys, got, object_from, refused, with_param}
use codex_auth_broker.Prelude.{
  All, Bool, List, Option, Option-cases, [], arith, false, if◌then◌else◌, inl, inr, none, refl,
  some, suc, true, ℕ, ◌∙◌, ◌∷◌, ◌≡◌, ◌≢◌,
}
use codex_auth_broker.Prelude.Text.{Bytes, beq, beq_iff, codes}

-- A part of a message: its text, or an image or a file where media is allowed.
pub data IsPart (text_type : Bytes) : Bool → Fields → Type 0 where
  texts : (media : Bool) (s : Bytes) → IsPart text_type media (text_part text_type s)
  images :
      (part : Fields) (url : Bytes)
      → get_field (codes "type") part ≡ some (str (codes "input_image"))
      → get_field (codes "image_url") part ≡ some (str url)
      → url ≢ []
      → IsPart text_type true part
  files :
      (part : Fields)
      → get_field (codes "type") part ≡ some (str (codes "input_file"))
      → IsPart text_type true part

abbrev pub AreParts : Bytes → Bool → Option (List Fields) → Type 0
AreParts text_type media none = Unit
AreParts text_type media (some parts) = All (IsPart text_type media) parts

-- What holds of a result, if there is one.
abbrev pub Gives : {E A : Type 0} → (A → Type 0) → Tried E A → Type 0
Gives R (got a) = R a
Gives R (refused e) = Unit

pub Gives-chain :
    {E A B : Type 0} (R : A → Type 0) (S : B → Type 0) (r : Tried E A) (next : A → Tried E B)
    → Gives R r
    → ((a : A) → R a → Gives S (next a))
    → Gives S (chain r next)
unfolding chain
Gives-chain R S (got a) next h on = on a h
Gives-chain R S (refused e) next h on = tt

-- The result of a test: each branch may use how it came out.
pub Gives-if :
    {E A : Type 0} (R : A → Type 0) (b : Bool) (x y : Tried E A)
    → (b ≡ true → Gives R x)
    → (b ≡ false → Gives R y)
    → Gives R (if b then x else y)
Gives-if R true x y hx hy = hx refl
Gives-if R false x y hx hy = hy refl

pub Gives-with_param :
    {A : Type 0} (R : A → Type 0) (param : Bytes) (r : Tried Bytes A)
    → Gives R r
    → Gives R (with_param param r)
Gives-with_param R param (got a) h = h
Gives-with_param R param (refused e) h = tt

pub ne_of_beq : (a : Bytes) → beq a [] ≡ false → a ≢ []
ne_of_beq a h e = ground (arith, beq_iff a [])

-- `copy_keys` leaves the other keys alone.
pub get_field-copy_keys :
    (key : Bytes) (keys : List Bytes) (from to : Fields)
    → All (λ other. beq key other ≡ false) keys
    → get_field key (copy_keys keys from to) ≡ get_field key to
unfolding copy_keys
get_field-copy_keys key [] from to h = refl
get_field-copy_keys key (k ∷ keys) from to h = elim (Option-cases (get_field k from)) [
  | inl e ↦ rw (e, copy_keys) (get_field-copy_keys key keys from to h.1)
  | inr (v, e) ↦
      rw (e, copy_keys)
        (get_field-copy_keys key keys from (set_field k v to) h.1
          ∙ get_field-set_other key k v to (λ same. ground (arith, h.0, beq_iff key k)))
]

detail_kept :
    (image : Fields) (url detail : Bytes) (b : Bool)
    → let translated =
        object_from
          ((codes "type", str (codes "input_image")) ∷ (codes "image_url", str url) ∷ []) in
      let part = if b then translated else set_field (codes "detail") (str detail) translated in
      (get_field (codes "type") part ≡ some (str (codes "input_image")))
      × (get_field (codes "image_url") part ≡ some (str url))
unfolding get_field set_field beq
detail_kept image url detail true = (refl, refl)
detail_kept image url detail false = (refl, refl)

image_part-IsPart :
    (text_type : Bytes) (n : ℕ) (o : Option Fields) → Gives (IsPart text_type true) (image_part n o)
unfolding image_part
image_part-IsPart text_type n none = tt
image_part-IsPart text_type n (some image) =
    let url = string_field image (codes "url") in
    let detail = string_field image (codes "detail") in
    let kept = detail_kept image url detail (beq detail []) in
    Gives-if (IsPart text_type true) (beq url [])
      (part_error n (codes " image_url.url is required")) _ (λ e. tt)
      (λ e. IsPart.images _ url kept.0 kept.1 (ne_of_beq url e))

file_part-IsPart :
    (text_type : Bytes) (n : ℕ) (o : Option Fields) → Gives (IsPart text_type true) (file_part n o)
unfolding file_part get_field beq
file_part-IsPart text_type n none = tt
file_part-IsPart text_type n (some source) = IsPart.files _ (
    get_field-copy_keys (codes "type") (codes "file_data" ∷ codes "file_id" ∷ codes "filename" ∷ [])
      source (object_from ((codes "type", str (codes "input_file")) ∷ []))
      (refl, (refl, (refl, tt))))

part_as-IsPart :
    (quote : Bytes → Bytes) (text_type : Bytes) (media : Bool) (n : ℕ) (kind : PartKind)
    (source : Fields)
    → Gives (IsPart text_type media) (part_as quote text_type media n kind source)
unfolding part_as
part_as-IsPart quote text_type media n text source =
    IsPart.texts media (chat_payload_string source (codes "text"))
part_as-IsPart quote text_type media n refusal source =
    IsPart.texts media (chat_payload_string source (codes "refusal"))
part_as-IsPart quote text_type true n image_url source =
    image_part-IsPart text_type n (object_field source (codes "image_url"))
part_as-IsPart quote text_type false n image_url source = tt
part_as-IsPart quote text_type true n file source =
    file_part-IsPart text_type n (object_field source (codes "file"))
part_as-IsPart quote text_type false n file source = tt
part_as-IsPart quote text_type media n input_audio source = tt
part_as-IsPart quote text_type media n other source = tt

translate_part-IsPart :
    (quote : Bytes → Bytes) (text_type : Bytes) (media : Bool) (n : ℕ) (v : Value)
    → Gives (IsPart text_type media) (translate_part quote text_type media n v)
unfolding translate_part
translate_part-IsPart quote text_type media n (obj part) =
    part_as-IsPart quote text_type media n (part_kind (string_field part (codes "type"))) part
translate_part-IsPart quote text_type media n null = tt
translate_part-IsPart quote text_type media n (bool _) = tt
translate_part-IsPart quote text_type media n (num _) = tt
translate_part-IsPart quote text_type media n (str _) = tt
translate_part-IsPart quote text_type media n (arr _) = tt

translate_parts-AreParts :
    (quote : Bytes → Bytes) (text_type : Bytes) (media : Bool) (n : ℕ) (vs : Items)
    → Gives (All (IsPart text_type media)) (translate_parts quote text_type media n vs)
unfolding translate_parts
translate_parts-AreParts quote text_type media n nil = tt
translate_parts-AreParts quote text_type media n (cons v vs) =
    Gives-chain (IsPart text_type media) (All (IsPart text_type media))
      (translate_part quote text_type media n v) _ (translate_part-IsPart quote text_type media n v)
      (λ part h.
        Gives-chain (All (IsPart text_type media)) (All (IsPart text_type media))
          (translate_parts quote text_type media (suc n) vs) _
          (translate_parts-AreParts quote text_type media (suc n) vs) (λ parts hs. (h, hs)))

-- What the content of a message is translated to.
pub translate_content-AreParts :
    (quote : Bytes → Bytes) (text_type : Bytes) (media : Bool) (o : Option Value)
    → Gives (AreParts text_type media) (translate_content quote text_type media o)
unfolding translate_content
translate_content-AreParts quote text_type media none = tt
translate_content-AreParts quote text_type media (some null) = tt
translate_content-AreParts quote text_type media (some (str s)) = (IsPart.texts media s, tt)
translate_content-AreParts quote text_type media (some (arr vs)) =
    Gives-chain (All (IsPart text_type media)) (AreParts text_type media)
      (translate_parts quote text_type media 0 vs) _
      (translate_parts-AreParts quote text_type media 0 vs) (λ parts h. h)
translate_content-AreParts quote text_type media (some (bool _)) = tt
translate_content-AreParts quote text_type media (some (num _)) = tt
translate_content-AreParts quote text_type media (some (obj _)) = tt
