-- ===== src/Prelude/Ordered.antt =====
-- Sorting by an order: when lists have one sorted form, and what stays of it in a prefix.
use binda.Prelude.{
  ℕ, zero, suc, ◌≡◌, refl, sym, ap, ◌∙◌, ◌≢◌, ◌⊎◌, inl, inr, Bool, List, [], ◌∷◌, Ordering, arith,
  take, if◌then◌else◌, Bool-cases,
}
use binda.Prelude.All.{All}
use binda.Prelude.Bytes.{flip}
use binda.Prelude.Sort.{insert_sorted, sort_by}

-- What a comparison function must keep for sorting by it to make sense.
pub record IsOrder {ℓ} {A : Type ℓ} (cmp : A → A → Ordering) : Type ℓ where
  pub flips : (x y : A) → cmp y x ≡ flip (cmp x y)
  pub le_trans : (x y z : A) → cmp x y ≢ Ordering.gt → cmp y z ≢ Ordering.gt → cmp x z ≢ Ordering.gt

abbrev pub filter {ℓ} : {A : Type ℓ} → (A → Bool) → List A → List A
filter p [] = []
filter p (x ∷ xs) = if p x then x ∷ filter p xs else filter p xs

pub Ordering-cases : (o : Ordering) → (o ≡ Ordering.gt) ⊎ (o ≢ Ordering.gt)
Ordering-cases Ordering.lt = inr (λ h. cc)
Ordering-cases Ordering.eq = inr (λ h. cc)
Ordering-cases Ordering.gt = inl refl

pub take_twice {ℓ} : {A : Type ℓ} (n : ℕ) (xs : List A) → take n (take n xs) ≡ take n xs
take_twice zero xs = refl
take_twice (suc n) [] = refl
take_twice (suc n) (x ∷ xs) = ap (◌∷◌ x) (take_twice n xs)

module _ {ℓ} {A : Type ℓ} (cmp : A → A → Ordering) where
  pub insert_sorted-after :
      (x y : A) (ys : List A)
      → cmp x y ≡ Ordering.gt
      → insert_sorted cmp x (y ∷ ys) ≡ y ∷ insert_sorted cmp x ys
  unfolding insert_sorted
  insert_sorted-after x y ys h = rw (insert_sorted, h) refl

  place_first :
      (o : Ordering) (xs ys : List A)
      → o ≢ Ordering.gt
      → (elim o [ Ordering.gt ↦ xs | _ ↦ ys ]) ≡ ys
  place_first Ordering.lt xs ys h = refl
  place_first Ordering.eq xs ys h = refl
  place_first Ordering.gt xs ys h = absurd (h refl)

  pub insert_sorted-before :
      (x y : A) (ys : List A) → cmp x y ≢ Ordering.gt → insert_sorted cmp x (y ∷ ys) ≡ x ∷ y ∷ ys
  unfolding insert_sorted
  insert_sorted-before x y ys h = place_first (cmp x y) (y ∷ insert_sorted cmp x ys) (x ∷ y ∷ ys) h

  -- No element of the list comes before `x`.
  abbrev pub Below : A → List A → Type 0
  Below x ys = All (λ y. cmp x y ≢ Ordering.gt) ys

  abbrev pub IsSorted : List A → Type 0
  IsSorted [] = Unit
  IsSorted (x ∷ xs) = Below x xs × IsSorted xs

  pub insert_sorted-Below : (x : A) (ys : List A) → Below x ys → insert_sorted cmp x ys ≡ x ∷ ys
  unfolding insert_sorted
  insert_sorted-Below x [] h = refl
  insert_sorted-Below x (y ∷ ys) h = insert_sorted-before x y ys h.0

  pub sort_by-IsSorted_eq : (xs : List A) → IsSorted xs → sort_by cmp xs ≡ xs
  unfolding sort_by
  sort_by-IsSorted_eq [] h = refl
  sort_by-IsSorted_eq (x ∷ xs) h =
      ap (insert_sorted cmp x) (sort_by-IsSorted_eq xs h.1) ∙ insert_sorted-Below x xs h.0

  take-cons_take : (n : ℕ) (z : A) (xs : List A) → take n (z ∷ take n xs) ≡ take n (z ∷ xs)
  take-cons_take zero z xs = refl
  take-cons_take (suc n) z xs = ap (◌∷◌ z) (take_longer n xs)
    where
      take_longer : (n : ℕ) (xs : List A) → take n (take (suc n) xs) ≡ take n xs
      take_longer zero xs = refl
      take_longer (suc n) [] = refl
      take_longer (suc n) (x ∷ xs) = ap (◌∷◌ x) (take_longer n xs)

  -- The first few after an insertion depend on the first few before it alone.
  pub take-insert_sorted :
      (n : ℕ) (x : A) (ys : List A)
      → take n (insert_sorted cmp x (take n ys)) ≡ take n (insert_sorted cmp x ys)
  take-insert_sorted zero x ys = refl
  take-insert_sorted (suc n) x [] = refl
  take-insert_sorted (suc n) x (y ∷ ys) = elim (Ordering-cases (cmp x y)) [
    | inl h ↦
        rw (insert_sorted-after x y (take n ys) h, insert_sorted-after x y ys h)
          (ap (◌∷◌ y) (take-insert_sorted n x ys))
    | inr h ↦
        rw (insert_sorted-before x y (take n ys) h, insert_sorted-before x y ys h)
          (ap (◌∷◌ x) (take-cons_take n y ys))
  ]

  take-Below : (n : ℕ) (x : A) (ys : List A) → Below x ys → Below x (take n ys)
  take-Below zero x ys h = tt
  take-Below (suc n) x [] h = tt
  take-Below (suc n) x (y ∷ ys) h = (h.0, take-Below n x ys h.1)

  pub take-IsSorted : (n : ℕ) (xs : List A) → IsSorted xs → IsSorted (take n xs)
  take-IsSorted zero xs h = tt
  take-IsSorted (suc n) [] h = tt
  take-IsSorted (suc n) (x ∷ xs) h = (take-Below n x xs h.0, take-IsSorted n xs h.1)

  filter-Below : (p : A → Bool) (x : A) (ys : List A) → Below x ys → Below x (filter p ys)
  filter-Below p x [] h = tt
  filter-Below p x (y ∷ ys) h = elim (Bool-cases (p y)) [
    | inl q ↦ rw (q) (h.0, filter-Below p x ys h.1)
    | inr q ↦ rw (q) (filter-Below p x ys h.1)
  ]

  module _ (o : IsOrder cmp) where
    flip-gt : (x y : A) → cmp x y ≡ Ordering.gt → cmp y x ≢ Ordering.gt
    flip-gt x y h k = ground (arith, o.flips x y, h, k)

    insert_sorted-All :
        (x z : A) (ys : List A)
        → cmp z x ≢ Ordering.gt
        → Below z ys
        → Below z (insert_sorted cmp x ys)
    unfolding insert_sorted
    insert_sorted-All x z [] h k = (h, tt)
    insert_sorted-All x z (y ∷ ys) h k = elim (Ordering-cases (cmp x y)) [
      | inl g ↦ rw (insert_sorted-after x y ys g) (k.0, insert_sorted-All x z ys h k.1)
      | inr g ↦ rw (insert_sorted-before x y ys g) (h, k)
    ]

    Below-trans : (x y : A) (ys : List A) → cmp x y ≢ Ordering.gt → Below y ys → Below x ys
    Below-trans x y [] h k = tt
    Below-trans x y (z ∷ zs) h k = (o.le_trans x y z h k.0, Below-trans x y zs h k.1)

    pub insert_sorted-IsSorted :
        (x : A) (ys : List A) → IsSorted ys → IsSorted (insert_sorted cmp x ys)
    unfolding insert_sorted
    insert_sorted-IsSorted x [] h = (tt, tt)
    insert_sorted-IsSorted x (y ∷ ys) h = elim (Ordering-cases (cmp x y)) [
      | inl g ↦
          rw (insert_sorted-after x y ys g)
            (insert_sorted-All x y ys (flip-gt x y g) h.0, insert_sorted-IsSorted x ys h.1)
      | inr g ↦ rw (insert_sorted-before x y ys g) ((g, Below-trans x y ys g h.0), h)
    ]

    pub sort_by-IsSorted : (xs : List A) → IsSorted (sort_by cmp xs)
    unfolding sort_by
    sort_by-IsSorted [] = tt
    sort_by-IsSorted (x ∷ xs) = insert_sorted-IsSorted x (sort_by cmp xs) (sort_by-IsSorted xs)

    filter-insert_sorted :
        (p : A → Bool) (x : A) (ys : List A)
        → IsSorted ys
        → filter p (insert_sorted cmp x ys)
          ≡ (if p x then insert_sorted cmp x (filter p ys) else filter p ys)
    unfolding insert_sorted
    filter-insert_sorted p x [] h = refl
    filter-insert_sorted p x (y ∷ ys) h =
        let later = filter-insert_sorted p x ys h.1 in
        elim (Ordering-cases (cmp x y)) [
          | inl g ↦
              rw (insert_sorted-after x y ys g)
                (ground (arith, later, insert_sorted-after x y (filter p ys) g))
          | inr g ↦
              let first : insert_sorted cmp x (filter p (y ∷ ys)) ≡ x ∷ filter p (y ∷ ys) =
                insert_sorted-Below x (filter p (y ∷ ys))
                  (filter-Below p x (y ∷ ys) (g, Below-trans x y ys g h.0)) in
              rw (insert_sorted-before x y ys g, first) refl
        ]

    -- Sorting a part gives that part of the sorted list.
    pub sort_by-filter :
        (p : A → Bool) (xs : List A) → sort_by cmp (filter p xs) ≡ filter p (sort_by cmp xs)
    unfolding sort_by
    sort_by-filter p [] = refl
    sort_by-filter p (x ∷ xs) =
        let later = sort_by-filter p xs in
        let split = filter-insert_sorted p x (sort_by cmp xs) (sort_by-IsSorted xs) in
        elim (Bool-cases (p x)) [
          | inl q ↦ ground (arith, q, later, split)
          | inr q ↦ ground (arith, q, later, split)
        ]

    strictly_after :
        (x y : A) → cmp x y ≢ Ordering.gt → cmp x y ≢ Ordering.eq → cmp y x ≡ Ordering.gt
    strictly_after x y h k = ground (arith, o.flips x y, h, k)

    -- Two elements in their places at the head of a list.
    both_before :
        (x y : A) (zs : List A)
        → cmp x y ≢ Ordering.eq
        → Below x zs
        → Below y zs
        → insert_sorted cmp x (y ∷ zs) ≡ insert_sorted cmp y (x ∷ zs)
    both_before x y zs h p q = elim (Ordering-cases (cmp x y)) [
      | inl g ↦
          rw (insert_sorted-after x y zs g, insert_sorted-before y x zs (flip-gt x y g))
            (ap (◌∷◌ y) (insert_sorted-Below x zs p))
      | inr g ↦
          rw (insert_sorted-before x y zs g, insert_sorted-after y x zs (strictly_after x y g h))
            (ap (◌∷◌ x) (sym (insert_sorted-Below y zs q)))
    ]

    one_between :
        (x y z : A) (zs : List A)
        → cmp x z ≢ Ordering.gt
        → cmp y z ≡ Ordering.gt
        → insert_sorted cmp x (z ∷ insert_sorted cmp y zs) ≡ insert_sorted cmp y (x ∷ z ∷ zs)
    one_between x y z zs h g =
        let apart : cmp y x ≡ Ordering.gt = elim (Ordering-cases (cmp y x)) [
          | inl k ↦ k
          | inr k ↦ absurd (o.le_trans y x z k h g)
        ] in
        rw
          (
            insert_sorted-before x z (insert_sorted cmp y zs) h,
            insert_sorted-after y x (z ∷ zs) apart,
          )
          (ap (◌∷◌ x) (sym (insert_sorted-after y z zs g)))

    -- Two elements that do not tie may be inserted in either order.
    pub insert_sorted_comm :
        (x y : A) (zs : List A)
        → cmp x y ≢ Ordering.eq
        → IsSorted zs
        → insert_sorted cmp x (insert_sorted cmp y zs)
          ≡ insert_sorted cmp y (insert_sorted cmp x zs)
    unfolding insert_sorted
    insert_sorted_comm x y [] h s = both_before x y [] h tt tt
    insert_sorted_comm x y (z ∷ zs) h s = elim (Ordering-cases (cmp x z)) [
      | inl g ↦ elim (Ordering-cases (cmp y z)) [
        | inl k ↦
            rw (insert_sorted-after x z zs g, insert_sorted-after y z zs k)
              (rw
                (
                  insert_sorted-after x z (insert_sorted cmp y zs) g,
                  insert_sorted-after y z (insert_sorted cmp x zs) k,
                )
                (ap (◌∷◌ z) (insert_sorted_comm x y zs h s.1)))
        | inr k ↦
            rw (insert_sorted-after x z zs g, insert_sorted-before y z zs k)
              (sym (one_between y x z zs k g))
      ]
      | inr g ↦ elim (Ordering-cases (cmp y z)) [
        | inl k ↦
            rw (insert_sorted-before x z zs g, insert_sorted-after y z zs k)
              (one_between x y z zs g k)
        | inr k ↦
            rw (insert_sorted-before x z zs g, insert_sorted-before y z zs k)
              (both_before x y (z ∷ zs) h (g, Below-trans x z zs g s.0)
                (k, Below-trans y z zs k s.0))
      ]
    ]
