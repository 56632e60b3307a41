-- ===== src/Keys/Access.antt =====
-- Who is let in: `authenticate` of keys.go for the API and the gate of dashboard.go. The request's
-- Authorization header is the empty text when absent; the cookie is an option.
use codex_auth_broker.Prelude.Text.{
  Bytes, append-cut_prefix, beq, beq-ne, beq_iff, codes, cut_prefix, cut_prefix-append, is_some,
  trim_space,
}
use codex_auth_broker.Prelude.{
  All, Bool-cases, List, Option, Option-cases, [], ap, arith, false, get_elem?, if◌then◌else◌, inl,
  inr, length, ltb, none, not, refl, some, sym, true, ℕ, ◌++◌, ◌||◌, ◌∙◌, ◌∷◌, ◌≡◌, ◌≢◌, ◌⊎◌,
}
use codex_auth_broker.Keys.{
  ClientIdentity, ClientKey, FileRead, Registry, admin, current_entries, enabled, new_registry,
  nobody, resolve_in, role_admin,
}
use codex_auth_broker.Keys.Resolve.{Resolves, accepts, resolve_in-Resolves}
use codex_auth_broker.Prelude.Clock.{Time}

abbrev pub bearer_prefix : Bytes
bearer_prefix = codes "Bearer "

unfoldable pub bearer_token : Bytes → Bytes
bearer_token header = bearer_of (cut_prefix bearer_prefix header)
  where
    bearer_of : Option Bytes → Bytes
    bearer_of none = []
    bearer_of (some rest) = trim_space rest

-- The registry of the proxy; one without keys falls back to the implicit key.
abbrev pub registry : Option Registry → Bytes → Registry
registry none api_key = new_registry api_key []
registry (some reg) api_key = reg

abbrev pub cookie_token : Option Bytes → Bytes
cookie_token none = []
cookie_token (some value) = value

-- The token of a dashboard request.
unfoldable pub presented : Bytes → Option Bytes → Bytes
presented header cookie =
    let token = bearer_token header in if beq token [] then cookie_token cookie else token

abbrev pub status_of : Option ClientIdentity → ℕ
status_of none = 401
status_of (some id) = if admin id then 200 else 403

module _ (unmarshal : Bytes → Option (List ClientKey)) where
  -- `resolve`, with the registry after it.
  unfoldable pub resolve : Registry → FileRead → Time → Bytes → Registry × Option ClientIdentity
  resolve reg file now token =
      let (reg', entries) = current_entries unmarshal reg file now in
      (reg', resolve_in entries token)

  -- `cached` is what `withClientAuthentication` has put into the request's context.
  unfoldable pub authenticate :
      Registry
      → Option (Option ClientIdentity)
      → Bytes
      → FileRead
      → Time
      → Registry × Option ClientIdentity
  authenticate reg (some result) header file now = (reg, result)
  authenticate reg none header file now =
      let token = bearer_token header in
      if not (enabled (some reg))
      then (reg, some nobody)
      else if beq token []
      then (reg, none)
      else resolve reg file now token

  unfoldable pub dashboard_auth_status :
      Registry → Bytes → Option Bytes → FileRead → Time → Registry × ℕ
  dashboard_auth_status reg header cookie file now =
      let token = presented header cookie in
      if not (enabled (some reg))
      then (reg, 200)
      else if beq token []
      then (reg, 401)
      else let (reg', id) = resolve reg file now token in (reg', status_of id)

-- The entry at some place has this key and is not disabled.
abbrev pub Holds : List ClientKey → Bytes → ClientKey → Type 0
Holds entries token e =
    (i : ℕ) × (get_elem? entries i ≡ some e) × (token ≡ e.key) × (e.disabled ≡ false)

-- What an answer of the dashboard's gate means for the entries it looked at.
abbrev pub Admits : List ClientKey → Bytes → ℕ → Type 0
Admits entries token status =
    ((status ≡ 200) × (e : ClientKey) × Holds entries token e × (e.role ≡ role_admin))
    ⊎ ((status ≡ 403) × (e : ClientKey) × Holds entries token e × (e.role ≢ role_admin))
    ⊎ ((status ≡ 401) × All (λ e. accepts token e ≡ false) entries)

status_of-Admits :
    (entries : List ClientKey) (token : Bytes) (r : Option ClientIdentity)
    → Resolves entries token r
    → Admits entries token (status_of r)
unfolding admin
status_of-Admits entries token none refused = inr (inr (refl, refused))
status_of-Admits entries token (some id) (j, e, _, at, key, live, same) =
    elim (Bool-cases (beq id.role role_admin)) [
      | inl granted ↦ rw granted (
          inl (
            refl,
            e,
            (j, at, key, live),
            (ap (λ (x : ClientIdentity). x.role) (sym same) ∙ (beq_iff _ _).0 granted),
          ))
      | inr denied ↦ rw denied (
          inr (
            inl (
              refl,
              e,
              (j, at, key, live),
              (λ a. beq-ne _ _ denied (ap (λ (x : ClientIdentity). x.role) same ∙ a)),
            )))
    ]

-- The token that a request presents: what follows `Bearer ` in its Authorization header, without
-- blanks around it, or if there is nothing there the cookie's value.
abbrev pub Presents : Bytes → Option Bytes → Bytes → Type 0
Presents header cookie token =
    ((rest : Bytes) × (header ≡ bearer_prefix ++ rest)
      × (trim_space rest ≢ [])
      × (token ≡ trim_space rest))
    ⊎ (((rest : Bytes) → header ≡ bearer_prefix ++ rest → trim_space rest ≡ [])
        × (((cookie ≡ none) × (token ≡ [])) ⊎ (cookie ≡ some token)))

bearer_token-of : (rest : Bytes) → bearer_token (bearer_prefix ++ rest) ≡ trim_space rest
unfolding bearer_token
bearer_token-of rest = rw (cut_prefix-append bearer_prefix rest) refl

bearer_token-cases :
    (header : Bytes)
    → ((rest : Bytes) × (header ≡ bearer_prefix ++ rest) × (bearer_token header ≡ trim_space rest))
      ⊎ (bearer_token header ≡ [])
unfolding bearer_token
bearer_token-cases header = elim (Option-cases (cut_prefix bearer_prefix header)) [
  | inl e ↦ inr (rw e refl)
  | inr (rest, e) ↦ inl (rest, append-cut_prefix bearer_prefix header rest e, rw e refl)
]

presented-Presents :
    (header : Bytes) (cookie : Option Bytes) → Presents header cookie (presented header cookie)
unfolding presented
presented-Presents header cookie = elim (Bool-cases (beq (bearer_token header) [])) [
  | inl bare ↦ rw bare (
      inr (
        λ rest e. sym (bearer_token-of rest) ∙ ap bearer_token (sym e) ∙ (beq_iff _ _).0 bare,
        from_cookie cookie,
      ))
  | inr given ↦ rw given (inl (from_header (bearer_token-cases header) given))
]
  where
    from_cookie :
        (c : Option Bytes) → ((c ≡ none) × (cookie_token c ≡ [])) ⊎ (c ≡ some (cookie_token c))
    from_cookie none = inl (refl, refl)
    from_cookie (some value) = inr refl

    from_header :
        ((rest : Bytes) × (header ≡ bearer_prefix ++ rest)
            × (bearer_token header ≡ trim_space rest))
          ⊎ (bearer_token header ≡ [])
        → beq (bearer_token header) [] ≡ false
        → (rest : Bytes) × (header ≡ bearer_prefix ++ rest)
          × (trim_space rest ≢ [])
          × (bearer_token header ≡ trim_space rest)
    from_header (inl (rest, e, same)) given =
        (rest, e, (λ empty. beq-ne _ _ given (same ∙ empty)), same)
    from_header (inr empty) given = absurd (beq-ne _ _ given empty)

-- No key and no file of keys is configured.
abbrev pub IsOpen : Registry → Type 0
IsOpen reg = (reg.implicit ≡ none) × (reg.path ≡ []) × (reg.entries ≡ [])

-- By what is configured.
open_from :
    (implicit : Option ClientKey) (path : Bytes) (entries : List ClientKey)
    → (is_some implicit || not (beq path []) || ltb 0 (length entries)) ≡ false
    → (implicit ≡ none) × (path ≡ []) × (entries ≡ [])
unfolding beq
open_from none [] [] h = (refl, refl, refl)
open_from none [] (e ∷ entries) h = absurd (ground (arith, h))
open_from none (c ∷ path) entries h = absurd (ground (arith, h))
open_from (some k) path entries h = absurd (ground (arith, h))

IsOpen-of : (reg : Registry) → enabled (some reg) ≡ false → IsOpen reg
unfolding enabled
IsOpen-of reg off = open_from reg.implicit reg.path reg.entries off

closed_from :
    (implicit : Option ClientKey) (path : Bytes) (entries : List ClientKey)
    → (is_some implicit || not (beq path []) || ltb 0 (length entries)) ≡ true
    → ¬ ((implicit ≡ none) × (path ≡ []) × (entries ≡ []))
unfolding beq
closed_from none [] [] h nothing = ground (arith, h)
closed_from none [] (e ∷ entries) h nothing = cc nothing.2
closed_from none (c ∷ path) entries h nothing = cc nothing.1
closed_from (some k) path entries h nothing = cc nothing.0

IsOpen-denied : (reg : Registry) → enabled (some reg) ≡ true → ¬ (IsOpen reg)
unfolding enabled
IsOpen-denied reg on = closed_from reg.implicit reg.path reg.entries on

-- The dashboard answers 200 to every request as long as neither a key nor a file of keys is
-- configured. After that, a request that presents no token, in the Authorization header or the
-- cookie, gets 401; any other gets 200 if its token is the key of an admin entry that is not
-- disabled, 403 if it is the key of another entry that is not disabled, and 401 if no entry takes
-- it.
pub dashboard_auth_status-Admits :
    (unmarshal : Bytes → Option (List ClientKey)) (reg : Registry) (header : Bytes)
    (cookie : Option Bytes) (file : FileRead) (now : Time)
    → let (reg', status) = dashboard_auth_status unmarshal reg header cookie file now in
      (IsOpen reg × (status ≡ 200))
      ⊎ (¬ (IsOpen reg)
          × (token : Bytes) × Presents header cookie token
          × (((token ≡ []) × (status ≡ 401))
              ⊎ ((token ≢ []) × Admits (current_entries unmarshal reg file now).1 token status)))
unfolding dashboard_auth_status resolve
dashboard_auth_status-Admits unmarshal reg header cookie file now =
    elim (Bool-cases (enabled (some reg))) [
      | inl on ↦ elim (Bool-cases (beq (presented header cookie) [])) [
        | inl bare ↦
            rw (on, bare)
              (inr (
                IsOpen-denied reg on,
                presented header cookie,
                presented-Presents header cookie,
                inl ((beq_iff _ _).0 bare, refl),
              ))
        | inr given ↦
            rw (on, given)
              (inr (
                IsOpen-denied reg on,
                presented header cookie,
                presented-Presents header cookie,
                inr (
                  beq-ne _ _ given,
                  status_of-Admits _ _ _ (
                      resolve_in-Resolves (current_entries unmarshal reg file now).1
                        (presented header cookie)),
                ),
              ))
      ]
      | inr off ↦ rw off (inl (IsOpen-of reg off, refl))
    ]

nil_bare : beq [] [] ≡ true
unfolding beq
nil_bare = refl

status_of-admin :
    (r : Option ClientIdentity)
    → status_of r ≡ 200
    → (id : ClientIdentity) × (r ≡ some id) × (admin id ≡ true)
status_of-admin none h = absurd (omega arith)
status_of-admin (some id) h = (id, refl, ground arith)

-- A bearer token that the dashboard admits is admitted by the API too, without a cached result, and
-- if keys are configured it is there the identity of an admin.
pub dashboard_agrees :
    (unmarshal : Bytes → Option (List ClientKey)) (reg : Registry) (header : Bytes)
    (file : FileRead) (now : Time)
    → (dashboard_auth_status unmarshal reg header none file now).1 ≡ 200
    → (id : ClientIdentity) × ((authenticate unmarshal reg none header file now).1 ≡ some id)
      × ((enabled (some reg) ≡ false) ⊎ (admin id ≡ true))
unfolding dashboard_auth_status authenticate presented
dashboard_agrees unmarshal reg header file now h = elim (Bool-cases (enabled (some reg))) [
  | inl on ↦ elim (Bool-cases (beq (bearer_token header) [])) [
    | inl bare ↦ let (id, none_is, _) = status_of-admin none (rw (on, bare, nil_bare) at h) in cc
    | inr given ↦
        let granted : status_of (resolve unmarshal reg file now (bearer_token header)).1 ≡ 200 =
          rw (on, given, given) at h in
        let (id, is_id, is_admin) = status_of-admin _ granted in
        rw (on, given) (id, is_id, inr is_admin)
  ]
  | inr off ↦ rw off (nobody, refl, inl refl)
]
