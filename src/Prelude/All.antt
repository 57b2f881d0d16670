-- ===== src/Prelude/All.antt =====
-- A predicate that holds of every element, through the list functions of the store.
use binda.Prelude.{ℕ, zero, suc, List, [], ◌∷◌, Ordering, take}
use binda.Prelude.Sort.{insert_sorted, sort_by}

abbrev pub All {ℓ κ} : {A : Type ℓ} → (A → Type κ) → List A → Type κ
All P [] = Unit
All P (x ∷ xs) = P x × All P xs

module _ {ℓ κ} {A : Type ℓ} (P : A → Type κ) where
  pub All-take : (n : ℕ) (xs : List A) → All P xs → All P (take n xs)
  All-take zero xs h = tt
  All-take (suc n) [] h = tt
  All-take (suc n) (x ∷ xs) h = (h.0, All-take n xs h.1)

  All-insert_sorted :
      (cmp : A → A → Ordering) (x : A) (ys : List A)
      → P x
      → All P ys
      → All P (insert_sorted cmp x ys)
  unfolding insert_sorted
  All-insert_sorted cmp x [] h k = (h, tt)
  All-insert_sorted cmp x (y ∷ ys) h k = place (All-insert_sorted cmp x ys h k.1) (cmp x y)
    where
      place :
          All P (insert_sorted cmp x ys)
          → (o : Ordering)
          → All P (elim o [ Ordering.gt ↦ y ∷ insert_sorted cmp x ys | _ ↦ x ∷ y ∷ ys ])
      place later Ordering.lt = (h, k)
      place later Ordering.eq = (h, k)
      place later Ordering.gt = (k.0, later)

  pub All-sort_by : (cmp : A → A → Ordering) (xs : List A) → All P xs → All P (sort_by cmp xs)
  unfolding sort_by
  All-sort_by cmp [] h = tt
  All-sort_by cmp (x ∷ xs) h = All-insert_sorted cmp x (sort_by cmp xs) h.0 (All-sort_by cmp xs h.1)
