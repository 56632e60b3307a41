-- ===== src/Log/Store.antt =====
-- The store of recent requests (requests.go) over any order of its operations.
use codex_auth_broker.Prelude.{
  All, Bool-cases, List, [], arith, drop, false, if◌then◌else◌, inl, inr, length, length-append,
  length-drop, ltb, refl, suc, zero, ℕ, ◌++◌, ◌+◌, ◌-◌, ◌<◌, ◌==◌, ◌||◌, ◌∷◌, ◌≡◌, ◌≢◌, ◌≤◌, ◌⊎◌,
}
use codex_auth_broker.Log.{Entry, RequestLogStore, clear_entries, restore_entries, store_entry}

module _ {ℓ} {A : Type ℓ} where
  -- The ids grow along the list, and none exceeds the bound.
  abbrev pub Grows : ℕ → ℕ → List (Entry A) → Type 0
  Grows low high [] = low ≤ high
  Grows low high (e ∷ es) = (low < e.id) × Grows e.id high es

  -- A store whose entries are within the limit and in the order of their ids.
  abbrev pub IsKept : RequestLogStore A → Type 0
  IsKept s = (length s.entries ≤ s.limit) × Grows 0 s.next_id s.entries

  pub data Step (s : RequestLogStore A) : RequestLogStore A → Type ℓ where
    adds : (rest : A) → Step s (store_entry s rest)
    clears : Step s (clear_entries s)

  pub data Run (s : RequestLogStore A) : RequestLogStore A → Type ℓ where
    no_step : Run s s
    one_more : {t u : RequestLogStore A} → Run s t → Step t u → Run s u

  Grows-le : (low high : ℕ) (es : List (Entry A)) → Grows low high es → low ≤ high
  Grows-le low high [] h = h
  Grows-le low high (e ∷ es) h = omega (arith, Grows-le e.id high es h.1, h.0)

  -- A new entry with an id beyond the bound.
  Grows-append :
      (low high new : ℕ) (es : List (Entry A)) (rest : A)
      → high < new
      → Grows low high es
      → Grows low new (es ++ (record { id = new; rest = rest } ∷ []))
  Grows-append low high new [] rest lt h = (omega arith, omega arith)
  Grows-append low high new (e ∷ es) rest lt h = (h.0, Grows-append e.id high new es rest lt h.1)

  Grows-lower :
      (low low' high : ℕ) (es : List (Entry A))
      → low' ≤ low
      → Grows low high es
      → Grows low' high es
  Grows-lower low low' high [] le h = omega arith
  Grows-lower low low' high (e ∷ es) le h = (omega (arith, h.0), h.1)

  Grows-drop :
      (n low high : ℕ) (es : List (Entry A)) → Grows low high es → Grows low high (drop n es)
  Grows-drop zero low high es h = h
  Grows-drop (suc n) low high [] h = h
  Grows-drop (suc n) low high (e ∷ es) h =
      Grows-lower e.id low high (drop n es) (omega (arith, h.0)) (Grows-drop n e.id high es h.1)

  Step-IsKept : {s t : RequestLogStore A} → Step s t → IsKept s → IsKept t
  unfolding store_entry clear_entries
  Step-IsKept {s} (adds rest) (short, order) = elim (Bool-cases (s.limit == 0)) [
    | inl off ↦ rw off (short, order)
    | inr on ↦
        let es = s.entries ++ (record { id = s.next_id + 1; rest = rest } ∷ []) in
        rw on (
          omega (arith, length-drop (length es - s.limit) es),
          Grows-drop (length es - s.limit) 0 (s.next_id + 1) es
              (Grows-append 0 s.next_id (s.next_id + 1) s.entries rest (omega arith) order),
        )
  ]
  Step-IsKept clears (short, order) = (omega arith, omega arith)

  Run-IsKept : {s t : RequestLogStore A} → IsKept s → Run s t → IsKept t
  Run-IsKept v no_step = v
  Run-IsKept v (one_more r st) = Step-IsKept st (Run-IsKept v r)

  restored-IsKept :
      (limit max_id : ℕ) (entries : List (Entry A))
      → Grows 0 max_id entries
      → IsKept
          (restore_entries (record { limit = limit; next_id = 0; entries = [] }) entries max_id)
  unfolding restore_entries
  restored-IsKept limit max_id entries order =
      elim (Bool-cases (limit == 0 || length entries == 0)) [
        | inl off ↦ rw off (omega arith, omega arith)
        | inr on ↦
            let top : (if ltb 0 max_id then max_id else 0) ≡ max_id = ground arith in
            rw (on, top)
              (
                omega (arith, length-drop (length entries - limit) entries),
                Grows-drop (length entries - limit) 0 max_id entries order,
              )
      ]

module _ {ℓ} {A : Type ℓ} where
  -- The number that a store counts up from never falls.
  Step-counts : {s t : RequestLogStore A} → Step s t → s.next_id ≤ t.next_id
  unfolding store_entry clear_entries
  Step-counts {s} (adds rest) = ground arith
  Step-counts clears = omega arith

  Run-counts : {s t : RequestLogStore A} → Run s t → s.next_id ≤ t.next_id
  Run-counts no_step = omega arith
  Run-counts (one_more r st) = omega (arith, Run-counts r, Step-counts st)

  -- All ids are below those that are given next.
  Grows-below :
      (low high new : ℕ) (es : List (Entry A))
      → high < new
      → Grows low high es
      → All (λ e. e.id < new) es
  Grows-below low high new [] lt h = tt
  Grows-below low high new (e ∷ es) lt h =
      (omega (arith, Grows-le e.id high es h.1), Grows-below e.id high new es lt h.1)

  drop-append_last :
      (n : ℕ) (es : List (Entry A)) (e : Entry A)
      → n ≤ length es
      → drop n (es ++ (e ∷ [])) ≡ drop n es ++ (e ∷ [])
  drop-append_last zero es e le = refl
  drop-append_last (suc n) [] e le = absurd (omega arith)
  drop-append_last (suc n) (x ∷ es) e le = drop-append_last n es e (omega arith)

  -- Adding to the store `u` puts an entry last whose id is above all ids of `t`.
  abbrev pub GivesNewId : RequestLogStore A → RequestLogStore A → A → Type ℓ
  GivesNewId t u rest =
      (front : List (Entry A)) × (new : ℕ) × ((store_entry u rest).entries
        ≡ front ++ (record { id = new; rest = rest } ∷ []))
      × All (λ e. e.id < new) t.entries

  store_entry-GivesNewId :
      (t u : RequestLogStore A) (rest : A)
      → u.limit ≢ 0
      → IsKept t
      → IsKept u
      → t.next_id ≤ u.next_id
      → GivesNewId t u rest
  unfolding store_entry
  store_entry-GivesNewId t u rest on (_, order) (short, _) le =
      let new : Entry A = record { id = u.next_id + 1; rest = rest } in
      let n = length (u.entries ++ (new ∷ [])) - u.limit in
      let off : (u.limit == 0) ≡ false = ground arith in
      (
        drop n u.entries,
        u.next_id + 1,
        rw off
            (drop-append_last n u.entries new (omega (arith, length-append u.entries (new ∷ [])))),
        Grows-below 0 t.next_id (u.next_id + 1) t.entries (omega arith) order,
      )

-- After a restart with the entries of a log file whose ids grow up to the greatest id that was
-- read, and whatever requests are added and however often the history is cleared, the store holds
-- at most its limit of entries, in the order of their ids, all of which are at most the number it
-- counts up from. An id is never given twice: whatever happens between two moments, a request that
-- is added at the later one, to a store that keeps any, gets an id above all ids of the earlier.
pub history_in_order {ℓ} :
    {A : Type ℓ} (limit max_id : ℕ) (entries : List (Entry A)) {t u : RequestLogStore A}
    → Grows 0 max_id entries
    → Run (restore_entries (record { limit = limit; next_id = 0; entries = [] }) entries max_id) t
    → Run t u
    → (rest : A) → IsKept t × ((u.limit ≡ 0) ⊎ GivesNewId t u rest)
history_in_order limit max_id entries {t} {u} order r later rest =
    let kept = Run-IsKept (restored-IsKept limit max_id entries order) r in
    (
      kept,
      elim (Bool-cases (u.limit == 0)) [
        | inl off ↦ inl (ground arith)
        | inr on ↦ inr (
            store_entry-GivesNewId t u rest (ground arith) kept (Run-IsKept kept later)
              (Run-counts later))
      ],
    )
