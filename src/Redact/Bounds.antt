-- ===== src/Redact/Bounds.antt =====
-- Which upstream headers `diagnosticUpstreamHeaders` of proxy.go keeps, and how much of them.
use codex_auth_broker.Redact.Headers.{
  Tables, diagnostic_header, diagnostic_upstream_headers, hop_by_hop, keep, keep_from, kept_value,
  put, redact_diagnostic_header_value, rune_end, rune_start, shorten,
}
use codex_auth_broker.Prelude.{
  All, Bool, Bool-cases, List, Option-cases, [], ap, arith, false, get_elem?, inl, inr, length, ltb,
  some, suc, sym, take, true, zero, ℕ, ◌∙◌, ◌∷◌, ◌≡◌, ◌≢◌, ◌≤◌,
}
use codex_auth_broker.Prelude.Text.{Bytes, beq, beq-ne, is_some, to_lower, trim_space}

length-take : (n : ℕ) (s : Bytes) → length (take n s) ≤ n
length-take zero s = omega arith
length-take (suc n) [] = omega arith
length-take (suc n) (c ∷ s) = omega (arith, length-take n s)

rune_end-le : (value : Bytes) (end : ℕ) → rune_end value end ≤ end
unfolding rune_end
rune_end-le value zero = omega arith
rune_end-le value (suc end) = elim (Option-cases (get_elem? value (suc end))) [
  | inl e ↦ rw (e, rune_end) (omega arith)
  | inr (b, e) ↦ elim (Bool-cases (rune_start b)) [
    | inl start ↦ rw (e, start, rune_end) (omega arith)
    | inr mid ↦ rw (e, mid, rune_end) (omega (arith, rune_end-le value end))
  ]
]

shorten-le : (value : Bytes) → length (shorten value) ≤ 256
unfolding shorten
shorten-le value = elim (Bool-cases (ltb 256 (length value))) [
  | inl long ↦
      rw long (omega (arith, length-take (rune_end value 256) value, rune_end-le value 256))
  | inr short ↦ rw short (ground arith)
]

-- A kept header: its name is on the list, no Connection header names it, its value is short.
abbrev pub IsKept : List (Bytes × List Bytes) → Bytes × Bytes → Type 0
IsKept header h =
    (is_some (diagnostic_header h.0) ≡ true) × (hop_by_hop h.0 header ≡ false) × (length h.1 ≤ 256)

abbrev pub AreNamedApart : List (Bytes × Bytes) → Type 0
AreNamedApart [] = Unit
AreNamedApart (h ∷ out) = All (λ k. k.0 ≢ h.0) out × AreNamedApart out

put-IsKept :
    (header : List (Bytes × List Bytes)) (lower value : Bytes) (out : List (Bytes × Bytes))
    → IsKept header (lower, value)
    → All (IsKept header) out
    → All (IsKept header) (put lower value out)
unfolding put
put-IsKept header lower value [] new h = (new, tt)
put-IsKept header lower value ((name, old) ∷ out) new h = elim (Bool-cases (beq name lower)) [
  | inl again ↦ rw again ((h.0.0, h.0.1, omega arith), h.1)
  | inr other ↦ rw other (h.0, put-IsKept header lower value out new h.1)
]

put-other :
    (name lower value : Bytes) (out : List (Bytes × Bytes))
    → lower ≢ name
    → All (λ k. k.0 ≢ name) out
    → All (λ k. k.0 ≢ name) (put lower value out)
unfolding put
put-other name lower value [] ne h = (ne, tt)
put-other name lower value ((x, old) ∷ out) ne h = elim (Bool-cases (beq x lower)) [
  | inl again ↦ rw again h
  | inr other ↦ rw other (h.0, put-other name lower value out ne h.1)
]

put-AreNamedApart :
    (lower value : Bytes) (out : List (Bytes × Bytes))
    → AreNamedApart out
    → AreNamedApart (put lower value out)
unfolding put
put-AreNamedApart lower value [] h = (tt, tt)
put-AreNamedApart lower value ((x, old) ∷ out) h = elim (Bool-cases (beq x lower)) [
  | inl again ↦ rw again h
  | inr other ↦ rw other (
    put-other x lower value out (λ e. beq-ne x lower other (sym e)) h.0,
    put-AreNamedApart lower value out h.1,
  )
]

kept_value-le :
    (t : Tables) (numeric : Bool) (values : List Bytes) (v : Bytes)
    → kept_value t numeric values ≡ some v
    → length v ≤ 256
unfolding kept_value
kept_value-le t numeric [] v h = cc
kept_value-le t numeric (x ∷ []) v h =
    let is_v : shorten (redact_diagnostic_header_value t (trim_space x) numeric) ≡ v =
      ground arith in
    rw (← is_v) (shorten-le (redact_diagnostic_header_value t (trim_space x) numeric))
kept_value-le t numeric (x ∷ (y ∷ values)) v h = cc

-- The headers gathered so far.
abbrev Gathered : List (Bytes × List Bytes) → List (Bytes × Bytes) → Type 0
Gathered header out = All (IsKept header) out × AreNamedApart out

keep-Gathered :
    (t : Tables) (header : List (Bytes × List Bytes)) (out : List (Bytes × Bytes)) (key : Bytes)
    (values : List Bytes)
    → Gathered header out
    → Gathered header (keep t header out key values)
unfolding keep
keep-Gathered t header out key values (kept, apart) =
    elim (Option-cases (diagnostic_header (to_lower key))) [
      | inl e ↦ rw (e, keep) (kept, apart)
      | inr (numeric, e) ↦ elim (Option-cases (kept_value t numeric values)) [
        | inl e' ↦ rw (e, e', keep) (kept, apart)
        | inr (v, e') ↦ elim (Bool-cases (hop_by_hop (to_lower key) header)) [
          | inl hop ↦ rw (e, e', hop, keep) (kept, apart)
          | inr free ↦
              rw (e, e', free, keep)
                (
                  put-IsKept header (to_lower key) v out
                      (ap is_some e, free, kept_value-le t numeric values v e') kept,
                  put-AreNamedApart (to_lower key) v out apart,
                )
        ]
      ]
    ]

keep_from-Gathered :
    (t : Tables) (header : List (Bytes × List Bytes)) (out : List (Bytes × Bytes))
    (rest : List (Bytes × List Bytes))
    → Gathered header out
    → Gathered header (keep_from t header out rest)
unfolding keep_from
keep_from-Gathered t header out [] h = h
keep_from-Gathered t header out ((key, values) ∷ rest) h =
    keep_from-Gathered t header (keep t header out key values) rest
      (keep-Gathered t header out key values h)

-- Every upstream header that is kept for logs and clients has a name of the fixed list, no
-- Connection header of the response names it, and its value has at most 256 bytes; no name is kept
-- twice. An empty result is the nil map.
pub diagnostic_upstream_headers-IsKept :
    (t : Tables) (header : List (Bytes × List Bytes)) (out : List (Bytes × Bytes))
    → diagnostic_upstream_headers t header ≡ some out
    → All (IsKept header) out × AreNamedApart out × (out ≢ [])
unfolding diagnostic_upstream_headers
diagnostic_upstream_headers-IsKept t header out h =
    let (kept, apart) = keep_from-Gathered t header [] header (tt, tt) in
    let same : keep_from t header [] header ≡ out = ground arith in
    let full : out ≢ [] = ground arith in rw (← same) (kept, apart, λ e. full (sym same ∙ e))
