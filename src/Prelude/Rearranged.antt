-- ===== src/Prelude/Rearranged.antt =====
-- Lists whose elements stand in another order, and the sorted list that they share.
use mathlib.Core.List.{Permᴰ}
use mathlib.Core.List.Permᴰ
use binda.Prelude.{
  ◌≡◌, refl, sym, ap, ◌∙◌, ◌≢◌, List, [], ◌∷◌, ◌++◌, Ordering, arith, Bool, Bool-cases, inl, inr,
  subst, ℕ, take,
}
use binda.Prelude.All.{All}
use binda.Prelude.Sort.{insert_sorted, sort_by}
use binda.Prelude.Ordered.{
  IsOrder, IsSorted, sort_by-IsSorted, take-insert_sorted, take_twice, Ordering-cases,
  insert_sorted-after, insert_sorted-before, insert_sorted_comm, filter, insert_sorted-IsSorted,
}

pub permutes_sym {ℓ} : {A : Type ℓ} {xs ys : List A} → Permᴰ xs ys → Permᴰ ys xs
permutes_sym Permᴰ.nil = Permᴰ.nil
permutes_sym (Permᴰ.cons e p) = Permᴰ.cons (sym e) (permutes_sym p)
permutes_sym (Permᴰ.swap e f) = Permᴰ.swap (sym f) (sym e)
permutes_sym (Permᴰ.trans p q) = Permᴰ.trans (permutes_sym q) (permutes_sym p)

pub All-permutes {ℓ κ} :
    {A : Type ℓ} (P : A → Type κ) {xs ys : List A} → Permᴰ xs ys → All P xs → All P ys
All-permutes P Permᴰ.nil h = tt
All-permutes P (Permᴰ.cons e p) h = (subst P e h.0, All-permutes P p h.1)
All-permutes P (Permᴰ.swap e f) h = (subst P f h.1.0, (subst P e h.0, h.1.1))
All-permutes P (Permᴰ.trans p q) h = All-permutes P q (All-permutes P p h)

-- The relation holds between each element and every later one.
abbrev pub Pair {ℓ κ} : {A : Type ℓ} → (A → A → Type κ) → List A → Type κ
Pair R [] = Unit
Pair R (x ∷ xs) = All (R x) xs × Pair R xs

module _ {ℓ κ} {A : Type ℓ} (P : A → Type κ) where
  pub All-filter : (p : A → Bool) (xs : List A) → All P xs → All P (filter p xs)
  All-filter p [] h = tt
  All-filter p (x ∷ xs) h = elim (Bool-cases (p x)) [
    | inl q ↦ rw (q) (h.0, All-filter p xs h.1)
    | inr q ↦ rw (q) (All-filter p xs h.1)
  ]

  pub All-append_one : (xs : List A) (x : A) → All P xs → P x → All P (xs ++ (x ∷ []))
  All-append_one [] x h k = (k, tt)
  All-append_one (y ∷ ys) x h k = (h.0, All-append_one ys x h.1 k)

module _ {ℓ κ} {A : Type ℓ} (R : A → A → Type κ) where
  pub Pair-filter : (p : A → Bool) (xs : List A) → Pair R xs → Pair R (filter p xs)
  Pair-filter p [] h = tt
  Pair-filter p (x ∷ xs) h = elim (Bool-cases (p x)) [
    | inl q ↦ rw (q) (All-filter (R x) p xs h.0, Pair-filter p xs h.1)
    | inr q ↦ rw (q) (Pair-filter p xs h.1)
  ]

  pub Pair-append_one :
      (xs : List A) (x : A) → Pair R xs → All (λ y. R y x) xs → Pair R (xs ++ (x ∷ []))
  Pair-append_one [] x h k = (tt, tt)
  Pair-append_one (y ∷ ys) x h k = (All-append_one (R y) ys x h.0 k.0, Pair-append_one ys x h.1 k.1)

  pub Pair-permutes :
      ((x y : A) → R x y → R y x) → {xs ys : List A} → Permᴰ xs ys → Pair R xs → Pair R ys
  Pair-permutes flip Permᴰ.nil h = tt
  Pair-permutes flip (Permᴰ.cons {a = a} {l₂ = r} e p) h =
      (subst (λ z. All (R z) r) e (All-permutes (R a) p h.0), Pair-permutes flip p h.1)
  Pair-permutes flip (Permᴰ.swap {a = a} {b = b} {b' = d} {l = l} e f) h = (
    (subst (λ z. R z d) f (subst (R b) e (flip a b h.0.0)), subst (λ z. All (R z) l) f h.1.0),
    (subst (λ z. All (R z) l) e h.0.1, h.1.1),
  )
  Pair-permutes flip (Permᴰ.trans p q) h = Pair-permutes flip q (Pair-permutes flip p h)

module _ {ℓ} {A : Type ℓ} (cmp : A → A → Ordering) where
  -- `x` ties with no element of the list.
  abbrev pub Apart : A → List A → Type 0
  Apart x ys = All (λ y. cmp x y ≢ Ordering.eq) ys

  -- No two elements of the list tie.
  abbrev pub NoTies : List A → Type 0
  NoTies xs = Pair (λ x y. cmp x y ≢ Ordering.eq) xs

  insert_sorted-permutes : (x : A) (ys : List A) → Permᴰ (insert_sorted cmp x ys) (x ∷ ys)
  unfolding insert_sorted
  insert_sorted-permutes x [] = Permᴰ.refl (x ∷ [])
  insert_sorted-permutes x (y ∷ ys) =
      let later = insert_sorted-permutes x ys in
      elim (Ordering-cases (cmp x y)) [
        | inl h ↦
            rw (insert_sorted-after cmp x y ys h)
              (Permᴰ.trans (Permᴰ.cons refl later) (Permᴰ.swap refl refl))
        | inr h ↦ rw (insert_sorted-before cmp x y ys h) (Permᴰ.refl (x ∷ y ∷ ys))
      ]

  pub sort_by-permutes_self : (xs : List A) → Permᴰ (sort_by cmp xs) xs
  unfolding sort_by
  sort_by-permutes_self [] = Permᴰ.nil
  sort_by-permutes_self (x ∷ xs) =
      Permᴰ.trans (insert_sorted-permutes x (sort_by cmp xs))
        (Permᴰ.cons refl (sort_by-permutes_self xs))

  module _ (o : IsOrder cmp) where
    pub ties_both_ways : (x y : A) → cmp x y ≢ Ordering.eq → cmp y x ≢ Ordering.eq
    ties_both_ways x y h k = ground (arith, o.flips x y, h, k)

    -- The order in which the elements stand has no effect on the sorted list.
    pub sort_by-permutes :
        {xs ys : List A} → Permᴰ xs ys → NoTies xs → sort_by cmp xs ≡ sort_by cmp ys
    unfolding sort_by
    sort_by-permutes Permᴰ.nil h = refl
    sort_by-permutes (Permᴰ.cons {a = a} {l₂ = r} e p) h =
        ap (insert_sorted cmp a) (sort_by-permutes p h.1)
        ∙ ap (λ z. insert_sorted cmp z (sort_by cmp r)) e
    sort_by-permutes (Permᴰ.swap {a = a} {b = b} {a' = c} {l = l} e f) h =
        insert_sorted_comm cmp o a b (sort_by cmp l) h.0.0 (sort_by-IsSorted cmp o l)
        ∙ ap (λ z. insert_sorted cmp z (insert_sorted cmp a (sort_by cmp l))) f
        ∙ ap (λ z. insert_sorted cmp c (insert_sorted cmp z (sort_by cmp l))) e
    sort_by-permutes (Permᴰ.trans p q) h =
        sort_by-permutes p h
        ∙ sort_by-permutes q (Pair-permutes (λ x y. cmp x y ≢ Ordering.eq) ties_both_ways p h)

    -- An element at the end of the list is sorted in as one at its head.
    pub sort_by-append_one :
        (xs : List A) (x : A)
        → Apart x xs
        → sort_by cmp (xs ++ (x ∷ [])) ≡ insert_sorted cmp x (sort_by cmp xs)
    unfolding sort_by
    sort_by-append_one [] x h = refl
    sort_by-append_one (y ∷ ys) x h =
        ap (insert_sorted cmp y) (sort_by-append_one ys x h.1)
        ∙ insert_sorted_comm cmp o y x (sort_by cmp ys) (ties_both_ways x y h.0)
            (sort_by-IsSorted cmp o ys)

    -- The elements are sorted in one after the other.
    abbrev pub pour : List A → List A → List A
    pour [] ts = ts
    pour (x ∷ xs) ts = pour xs (insert_sorted cmp x ts)

    pour-insert_sorted :
        (x : A) (xs ts : List A)
        → Apart x xs
        → IsSorted cmp ts
        → pour xs (insert_sorted cmp x ts) ≡ insert_sorted cmp x (pour xs ts)
    pour-insert_sorted x [] ts h s = refl
    pour-insert_sorted x (y ∷ ys) ts h s =
        ap (pour ys) (insert_sorted_comm cmp o y x ts (ties_both_ways x y h.0) s)
        ∙ pour-insert_sorted x ys (insert_sorted cmp y ts) h.1 (insert_sorted-IsSorted cmp o y ts s)

    pub pour-nil : (xs : List A) → NoTies xs → pour xs [] ≡ sort_by cmp xs
    unfolding sort_by
    pour-nil [] h = refl
    pour-nil (x ∷ xs) h =
        pour-insert_sorted x xs [] h.0 tt ∙ ap (insert_sorted cmp x) (pour-nil xs h.1)

    -- The first few after pouring depend on the first few before it alone.
    pub take-pour : (n : ℕ) (xs ts : List A) → take n (pour xs (take n ts)) ≡ take n (pour xs ts)
    take-pour n [] ts = take_twice n ts
    take-pour n (x ∷ xs) ts =
        sym (take-pour n xs (insert_sorted cmp x (take n ts)))
        ∙ ap (λ z. take n (pour xs z)) (take-insert_sorted cmp n x ts)
        ∙ take-pour n xs (insert_sorted cmp x ts)
