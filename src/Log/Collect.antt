-- ===== src/Log/Collect.antt =====
-- What `collectRequestLogEntries` of persist.go keeps of a log.
use codex_auth_broker.Log.{
  Entry, Ring, collect_request_log_entries, empty_ring, keep_entries, keep_entry, ordered,
}
use codex_auth_broker.Prelude.{
  All, Bool-cases, List, [], ap, append-nil, append_assoc, arith, drop, if◌then◌else◌, inl, inr,
  length, length-append, length-drop, length-set, ltb, refl, set, suc, sym, take, zero, ℕ, ◌++◌,
  ◌+◌, ◌-◌, ◌<◌, ◌==◌, ◌∙◌, ◌∷◌, ◌≡◌, ◌≤◌, min,
}

module _ {ℓ} {A : Type ℓ} where
  -- The last entries, at most `limit`.
  abbrev pub latest : ℕ → List (Entry A) → List (Entry A)
  latest limit es = drop (length es - limit) es

  -- The ring from its place on, and around.
  abbrev turned : Ring A → List (Entry A)
  turned r = drop r.next r.entries ++ take r.next r.entries

  -- The ring holds the last entries of those seen, the oldest at its place.
  abbrev Holds : ℕ → List (Entry A) → Ring A → Type ℓ
  Holds limit seen r =
      (turned r ≡ latest limit seen)
      × (length r.entries ≡ min limit (length seen))
      × ((r.next < limit) × ((length r.entries < limit) → r.next ≡ 0))

  -- Writing at a place, and going on one place.
  set-take : (xs : List (Entry A)) (n : ℕ) (e : Entry A) → take n (set xs n e) ≡ take n xs
  set-take [] zero e = refl
  set-take [] (suc n) e = refl
  set-take (x ∷ xs) zero e = refl
  set-take (x ∷ xs) (suc n) e = ap (◌∷◌ x) (set-take xs n e)

  set-drop :
      (xs : List (Entry A)) (n : ℕ) (e : Entry A) → drop (suc n) (set xs n e) ≡ drop (suc n) xs
  set-drop [] zero e = refl
  set-drop [] (suc n) e = refl
  set-drop (x ∷ xs) zero e = refl
  set-drop (x ∷ xs) (suc n) e = set-drop xs n e

  set-take-suc :
      (xs : List (Entry A)) (n : ℕ) (e : Entry A)
      → n < length xs
      → take (suc n) (set xs n e) ≡ take n xs ++ (e ∷ [])
  set-take-suc [] n e h = absurd (omega arith)
  set-take-suc (x ∷ xs) zero e h = refl
  set-take-suc (x ∷ xs) (suc n) e h = ap (◌∷◌ x) (set-take-suc xs n e (omega arith))

  drop-all : (xs : List (Entry A)) (n : ℕ) → length xs ≤ n → drop n xs ≡ []
  drop-all [] zero h = refl
  drop-all [] (suc n) h = refl
  drop-all (x ∷ xs) zero h = absurd (omega arith)
  drop-all (x ∷ xs) (suc n) h = drop-all xs n (omega arith)

  take-all : (xs : List (Entry A)) (n : ℕ) → length xs ≤ n → take n xs ≡ xs
  take-all [] zero h = refl
  take-all [] (suc n) h = refl
  take-all (x ∷ xs) zero h = absurd (omega arith)
  take-all (x ∷ xs) (suc n) h = ap (◌∷◌ x) (take-all xs n (omega arith))

  drop-append :
      (xs ys : List (Entry A)) (n : ℕ) → n ≤ length xs → drop n (xs ++ ys) ≡ drop n xs ++ ys
  drop-append xs ys zero h = refl
  drop-append [] ys (suc n) h = absurd (omega arith)
  drop-append (x ∷ xs) ys (suc n) h = drop-append xs ys n (omega arith)

  -- Dropping one more takes the first entry off what is left.
  drop-suc : (xs : List (Entry A)) (n : ℕ) → drop (suc n) xs ≡ drop 1 (drop n xs)
  drop-suc xs zero = refl
  drop-suc [] (suc n) = refl
  drop-suc (x ∷ xs) (suc n) = drop-suc xs n

  drop-one_append : (xs ys : List (Entry A)) → 0 < length xs → drop 1 (xs ++ ys) ≡ drop 1 xs ++ ys
  drop-one_append [] ys h = absurd (omega arith)
  drop-one_append (x ∷ xs) ys h = refl

  -- The entries where an entry is written over the oldest one.
  written : ℕ → Ring A → Entry A → Ring A
  written limit r e = record r {
    entries = set r.entries r.next e;
    next = if r.next + 1 == limit then 0 else r.next + 1;
  }

  turned-written :
      (limit : ℕ) (r : Ring A) (e : Entry A)
      → length r.entries ≡ limit
      → r.next < limit
      → turned (written limit r e) ≡ drop 1 (turned r) ++ (e ∷ [])
  unfolding written
  turned-written limit r e full lt = elim (Bool-cases (r.next + 1 == limit)) [
    | inl last ↦
        let at_end : length r.entries ≤ suc r.next = ground arith in
        let nothing : drop 1 (drop r.next r.entries) ≡ [] =
          sym (drop-suc r.entries r.next) ∙ drop-all r.entries (suc r.next) at_end in
        let whole : set r.entries r.next e ≡ take r.next r.entries ++ (e ∷ []) =
          sym (
            take-all (set r.entries r.next e) (suc r.next)
              (omega (arith, length-set r.entries r.next e)))
          ∙ set-take-suc r.entries r.next e (omega arith) in
        rw last (
          append-nil (set r.entries r.next e)
          ∙ whole
          ∙ ap (λ (x : List (Entry A)). (x ++ take r.next r.entries) ++ (e ∷ [])) (sym nothing)
          ∙ ap (λ (x : List (Entry A)). x ++ (e ∷ []))
              (sym (
                drop-one_append (drop r.next r.entries) (take r.next r.entries)
                  (omega (arith, length-drop r.next r.entries)))))
    | inr inner ↦
        let one_more : r.next + 1 ≡ suc r.next = omega arith in
        rw (inner, one_more)
          (ap (λ (x : List (Entry A)). x ++ take (suc r.next) (set r.entries r.next e))
              (set-drop r.entries r.next e ∙ drop-suc r.entries r.next)
            ∙ ap (λ (x : List (Entry A)). drop 1 (drop r.next r.entries) ++ x)
                (set-take-suc r.entries r.next e (omega arith))
            ∙ sym (append_assoc (drop 1 (drop r.next r.entries)) (take r.next r.entries) (e ∷ []))
            ∙ ap (λ (x : List (Entry A)). x ++ (e ∷ []))
                (sym (
                  drop-one_append (drop r.next r.entries) (take r.next r.entries)
                    (omega (arith, length-drop r.next r.entries)))))
  ]

  latest-next :
      (limit : ℕ) (seen : List (Entry A)) (e : Entry A)
      → 0 < limit
      → limit ≤ length seen
      → latest limit (seen ++ (e ∷ [])) ≡ drop 1 (latest limit seen) ++ (e ∷ [])
  latest-next limit seen e pos_limit full =
      let one_more : length (seen ++ (e ∷ [])) - limit ≡ suc (length seen - limit) =
        omega (arith, length-append seen (e ∷ [])) in
      ap (λ (n : ℕ). drop n (seen ++ (e ∷ []))) one_more
      ∙ drop-suc (seen ++ (e ∷ [])) (length seen - limit)
      ∙ ap (drop 1) (drop-append seen (e ∷ []) (length seen - limit) (omega arith))
      ∙ drop-one_append (latest limit seen) (e ∷ [])
          (omega (arith, length-drop (length seen - limit) seen))

  keep_entry-Holds :
      (limit : ℕ) (seen : List (Entry A)) (r : Ring A) (e : Entry A)
      → 0 < limit
      → Holds limit seen r
      → Holds limit (seen ++ (e ∷ [])) (keep_entry limit r e)
  unfolding keep_entry written
  keep_entry-Holds limit seen r e pos_limit (held, count, (lt, start)) =
      elim (Bool-cases (ltb (length r.entries) limit)) [
        | inl room ↦
            let room' : length r.entries < limit = ground arith in
            let zero_next : r.next ≡ 0 = start room' in
            let few : length seen - limit ≡ 0 = omega arith in
            let few' : length (seen ++ (e ∷ [])) - limit ≡ 0 =
              omega (arith, length-append seen (e ∷ [])) in
            let same : r.entries ≡ seen =
              sym (append-nil r.entries) ∙ rw (zero_next, few) at held in
            rw (room, zero_next)
              (
                append-nil (r.entries ++ (e ∷ []))
                    ∙ ap (λ (x : List (Entry A)). x ++ (e ∷ [])) same
                    ∙ ap (λ (n : ℕ). drop n (seen ++ (e ∷ []))) (sym few'),
                omega (arith, length-append r.entries (e ∷ []), length-append seen (e ∷ [])),
                (omega arith, λ _. refl),
              )
        | inr full ↦
            let is_full : length r.entries ≡ limit = ground arith in
            rw full (
              turned-written limit r e is_full lt
                  ∙ ap (λ (x : List (Entry A)). drop 1 x ++ (e ∷ [])) held
                  ∙ sym (latest-next limit seen e pos_limit (omega arith)),
              omega (arith, length-set r.entries r.next e, length-append seen (e ∷ [])),
              (ground arith, λ short. absurd (omega (arith, length-set r.entries r.next e))),
            )
      ]

  keep_entries-Holds :
      (limit : ℕ) (seen : List (Entry A)) (r : Ring A) (es : List (Entry A))
      → 0 < limit
      → Holds limit seen r
      → Holds limit (seen ++ es) (keep_entries limit r es)
  unfolding keep_entries
  keep_entries-Holds limit seen r [] pos_limit h = rw (append-nil seen) h
  keep_entries-Holds limit seen r (e ∷ es) pos_limit h = rw (sym (append_assoc seen (e ∷ []) es)) (
      keep_entries-Holds limit (seen ++ (e ∷ [])) (keep_entry limit r e) es pos_limit
        (keep_entry-Holds limit seen r e pos_limit h))

  ordered-turned : (r : Ring A) → ordered r ≡ turned r
  unfolding ordered
  ordered-turned r = elim (Bool-cases (ltb 0 r.next)) [
    | inl inside ↦ rw inside refl
    | inr start ↦
        let at_start : r.next ≡ 0 = ground arith in
        rw (start, at_start) (sym (append-nil r.entries))
  ]

  -- The greatest id so far is at least each id that was seen, and what it was before.
  keep_entries-max_id :
      (limit : ℕ) (r : Ring A) (es : List (Entry A))
      → (r.max_id ≤ (keep_entries limit r es).max_id)
        × All (λ e. e.id ≤ (keep_entries limit r es).max_id) es
  unfolding keep_entries
  keep_entries-max_id limit r [] = (omega arith, tt)
  keep_entries-max_id limit r (e ∷ es) =
      let (grows, others) = keep_entries-max_id limit (keep_entry limit r e) es in
      let (old, new) = step in (omega arith, (omega arith, others))
    where
      step : (r.max_id ≤ (keep_entry limit r e).max_id) × (e.id ≤ (keep_entry limit r e).max_id)
      step =
          unfold keep_entry in
          elim (Bool-cases (ltb (length r.entries) limit)) [
            | inl room ↦ rw room (ground arith, ground arith)
            | inr full ↦ rw full (ground arith, ground arith)
          ]

-- With a limit above zero, reading a log of any length keeps exactly its last entries, as many as
-- the limit allows, from the oldest to the newest, and returns an id that no entry of the whole log
-- exceeds, so that later entries get new ids.
pub collect_request_log_entries-latest {ℓ} :
    {A : Type ℓ} (limit : ℕ) (scanned : List (Entry A))
    → 0 < limit
    → let (entries, max_id) = collect_request_log_entries limit scanned in
      (entries ≡ latest limit scanned) × All (λ e. e.id ≤ max_id) scanned
unfolding collect_request_log_entries
collect_request_log_entries-latest limit scanned pos_limit = (
  ordered-turned (keep_entries limit empty_ring scanned)
      ∙ (keep_entries-Holds limit [] empty_ring scanned pos_limit
          (sym (drop-all [] (0 - limit) (omega arith)), omega arith, (pos_limit, λ _. refl))).0,
  (keep_entries-max_id limit empty_ring scanned).1,
)
