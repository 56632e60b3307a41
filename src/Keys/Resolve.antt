-- ===== src/Keys/Resolve.antt =====
-- `resolve` of keys.go: which key a token is taken for.
use codex_auth_broker.Keys.{ClientIdentity, ClientKey, identity_at, match_from, resolve_in}
use codex_auth_broker.Prelude.{
  All, Bool, Bool-cases, List, Option, [], arith, false, get_elem?, if◌then◌else◌, inl, inr, none,
  not, refl, some, suc, true, zero, ℕ, ◌&&◌, ◌+◌, ◌<◌, ◌∷◌, ◌≡◌,
}
use codex_auth_broker.Prelude.Text.{Bytes, beq, beq_iff}

-- The entry takes the token: the same key, and not disabled.
abbrev pub accepts : Bytes → ClientKey → Bool
accepts token e = beq token e.key && not e.disabled

-- The loop's result is the index `j` of the first entry that takes the token.
abbrev pub IsMatch : Bytes → List ClientKey → ℕ → Type 0
IsMatch token entries j =
    ((e : ClientKey) × (get_elem? entries j ≡ some e) × (accepts token e ≡ true))
    × ((k : ℕ) (e : ClientKey) → k < j → get_elem? entries k ≡ some e → accepts token e ≡ false)

match_from-kept :
    (token : Bytes) (entries : List ClientKey) (i j : ℕ)
    → match_from token i (some j) entries ≡ some j
unfolding match_from
match_from-kept token [] i j = refl
match_from-kept token (e ∷ entries) i j =
    let kept : (if beq token e.key && not e.disabled && not true then some i else some j) ≡ some j =
      ground arith in
    rw kept (match_from-kept token entries (i + 1) j)

-- What the loop finds from index `i` on, when it has found nothing before.
abbrev Finds : Bytes → List ClientKey → ℕ → Option ℕ → Type 0
Finds token entries i none = All (λ e. accepts token e ≡ false) entries
Finds token entries i (some j) = (k : ℕ) × (j ≡ i + k) × IsMatch token entries k

match_from-Finds :
    (token : Bytes) (entries : List ClientKey) (i : ℕ)
    → Finds token entries i (match_from token i none entries)
unfolding match_from
match_from-Finds token [] i = tt
match_from-Finds token (e ∷ entries) i = elim (Bool-cases (accepts token e)) [
  | inl hit ↦
      let now : (if beq token e.key && not e.disabled && not false then some i else none) ≡ some i =
        ground arith in
      rw now (
        rw (match_from-kept token entries (i + 1) i)
          (0, omega arith, ((e, refl, hit), λ k x lt. absurd (omega arith))))
  | inr miss ↦
      let later : (if beq token e.key && not e.disabled && not false then some i else none) ≡ none =
        ground arith in
      rw later (
        shift (match_from token (i + 1) none entries) miss (match_from-Finds token entries (i + 1)))
]
  where
    shift :
        (r : Option ℕ)
        → accepts token e ≡ false
        → Finds token entries (i + 1) r
        → Finds token (e ∷ entries) i r
    shift none miss f = (miss, f)
    shift (some j) miss (k, at, (found, earlier)) = (suc k, omega arith, (found, before))
      where
        before :
            (k' : ℕ) (x : ClientKey)
            → k' < suc k
            → get_elem? (e ∷ entries) k' ≡ some x
            → accepts token x ≡ false
        before zero x lt e' = let same : e ≡ x = cc in rw (← same) miss
        before (suc k') x lt e' = earlier k' x (omega arith) e'

-- A token is taken for the first entry, in order, that has exactly this key and is not disabled,
-- with that entry's name and role; it is refused exactly if there is no such entry.
abbrev pub Resolves : List ClientKey → Bytes → Option ClientIdentity → Type 0
Resolves entries token none = All (λ e. accepts token e ≡ false) entries
Resolves entries token (some id) =
    (j : ℕ) × (e : ClientKey) × IsMatch token entries j
    × (get_elem? entries j ≡ some e)
    × (token ≡ e.key)
    × (e.disabled ≡ false)
    × (id ≡ record { name = e.name; role = e.role })

-- `resolve` takes a token for the first entry, in order, that has exactly this key and is not
-- disabled, with that entry's name and role, and refuses it only if no entry is such.
pub resolve_in-Resolves :
    (entries : List ClientKey) (token : Bytes) → Resolves entries token (resolve_in entries token)
unfolding resolve_in
resolve_in-Resolves entries token =
    go (match_from token 0 none entries) (match_from-Finds token entries 0)
  where
    go : (r : Option ℕ) → Finds token entries 0 r → Resolves entries token (identity_at entries r)
    go none f = f
    go (some j) (k, at, ((e, here, hit), earlier)) =
        let same : j ≡ k = omega arith in
        rw (same, here)
          (
            k,
            e,
            ((e, here, hit), earlier),
            here,
            (beq_iff token e.key).0 (ground arith),
            ground arith,
            refl,
          )
