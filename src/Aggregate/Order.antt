-- ===== src/Aggregate/Order.antt =====
-- proxy.go, the order of gathered items: by their index, and items of one index as they came.
use codex_auth_broker.Aggregate.{IndexedItem, insert, sort_items}
use codex_auth_broker.Prelude.{
  All, Bool, Bool-cases, List, [], arith, false, if◌then◌else◌, inl, inr, refl, true, ◌&&◌, ◌∙◌,
  ◌∷◌, ◌≡◌,
}
use codex_auth_broker.Prelude.Int.{leb_ℤ, ℤ, ◌≤ℤ◌}

-- No item stands behind one of a greater index.
abbrev pub IsSorted : List IndexedItem → Type 0
IsSorted [] = Unit
IsSorted (x ∷ xs) = All (λ y. x.index ≤ℤ y.index) xs × IsSorted xs

-- The items of one index, in their order.
abbrev pub same_index : ℤ → IndexedItem → Bool
same_index k x = leb_ℤ k x.index && leb_ℤ x.index k

unfoldable pub group : ℤ → List IndexedItem → List IndexedItem
group k [] = []
group k (x ∷ xs) = let rest = group k xs in if same_index k x then x ∷ rest else rest

le_of_leb : (a b : ℤ) → leb_ℤ a b ≡ true → a ≤ℤ b
le_of_leb a b h = ground arith

le_of_not : (a b : ℤ) → leb_ℤ a b ≡ false → b ≤ℤ a
le_of_not a b h = ground arith

le_trans : (a b c : ℤ) → a ≤ℤ b → b ≤ℤ c → a ≤ℤ c
le_trans a b c h k = omega arith

insert_All :
    (k : ℤ) (x : IndexedItem) (xs : List IndexedItem)
    → k ≤ℤ x.index
    → All (λ y. k ≤ℤ y.index) xs
    → All (λ y. k ≤ℤ y.index) (insert x xs)
unfolding insert
insert_All k x [] h hs = (h, tt)
insert_All k x (y ∷ ys) h hs = elim (Bool-cases (leb_ℤ x.index y.index)) [
  | inl e ↦ rw (e, insert) (h, hs)
  | inr e ↦ rw (e, insert) (hs.0, insert_All k x ys h hs.1)
]

All_trans :
    (a b : ℤ) (xs : List IndexedItem)
    → a ≤ℤ b
    → All (λ y. b ≤ℤ y.index) xs
    → All (λ y. a ≤ℤ y.index) xs
All_trans a b [] h hs = tt
All_trans a b (x ∷ xs) h hs = (le_trans a b x.index h hs.0, All_trans a b xs h hs.1)

insert-IsSorted : (x : IndexedItem) (xs : List IndexedItem) → IsSorted xs → IsSorted (insert x xs)
unfolding insert
insert-IsSorted x [] s = (tt, tt)
insert-IsSorted x (y ∷ ys) s = elim (Bool-cases (leb_ℤ x.index y.index)) [
  | inl e ↦
      let le = le_of_leb x.index y.index e in
      rw (e, insert) ((le, All_trans x.index y.index ys le s.0), s)
  | inr e ↦
      rw (e, insert)
        (insert_All y.index x ys (le_of_not x.index y.index e) s.0, insert-IsSorted x ys s.1)
]

pub sort_items-IsSorted : (xs : List IndexedItem) → IsSorted (sort_items xs)
unfolding sort_items
sort_items-IsSorted [] = tt
sort_items-IsSorted (x ∷ xs) = insert-IsSorted x (sort_items xs) (sort_items-IsSorted xs)

-- An item goes in front of those with its index.
group-insert :
    (k : ℤ) (x : IndexedItem) (xs : List IndexedItem) → group k (insert x xs) ≡ group k (x ∷ xs)
unfolding insert group
group-insert k x [] = refl
group-insert k x (y ∷ ys) = elim (Bool-cases (leb_ℤ x.index y.index)) [
  | inl e ↦ rw (e, insert) refl
  | inr e ↦ rw (e, insert) (ground (arith, group-insert k x ys))
]

pub group-sort_items : (k : ℤ) (xs : List IndexedItem) → group k (sort_items xs) ≡ group k xs
unfolding sort_items group
group-sort_items k [] = refl
group-sort_items k (x ∷ xs) = group-insert k x (sort_items xs) ∙ rw (group-sort_items k xs) refl
