-- ===== src/Prelude/Range.antt =====
-- `bytes.get(pos..pos + n)`, and reading on through a list by its positions.
use binda.Prelude.{
  ℕ, zero, suc, ◌+◌, ◌≤◌, ◌≡◌, refl, sym, ap, ◌∙◌, List, [], ◌∷◌, ◌++◌, Option, none, some, leb,
  if◌then◌else◌, length, take, drop, length-append, length-drop, arith, true,
}

module _ {ℓ} {A : Type ℓ} where
  unfoldable pub get_range : List A → ℕ → ℕ → Option (List A)
  get_range xs pos n = if leb (pos + n) (length xs) then some (take n (drop pos xs)) else none

  drop-drop : (m n : ℕ) (xs : List A) → drop n (drop m xs) ≡ drop (m + n) xs
  drop-drop zero n xs = let e : 0 + n ≡ n = omega arith in rw e
  drop-drop (suc m) zero [] = let e : suc m + 0 ≡ suc m = omega arith in rw e
  drop-drop (suc m) (suc n) [] = let e : suc m + suc n ≡ suc (m + suc n) = omega arith in rw e
  drop-drop (suc m) n (x ∷ xs) =
      let e : suc m + n ≡ suc (m + n) = omega arith in rw e (drop-drop m n xs)

  pub take-append_self : (xs ys : List A) → take (length xs) (xs ++ ys) ≡ xs
  take-append_self [] ys = refl
  take-append_self (x ∷ xs) ys = ap (◌∷◌ x) (take-append_self xs ys)

  pub drop-append_self : (xs ys : List A) → drop (length xs) (xs ++ ys) ≡ ys
  drop-append_self [] ys = refl
  drop-append_self (x ∷ xs) ys = drop-append_self xs ys

  -- At `pos` the list goes on with `rest`.
  pub record Continues (xs : List A) (pos : ℕ) (rest : List A) : Type ℓ where
    pub inside : pos ≤ length xs
    pub goes_on : drop pos xs ≡ rest

  pub length-goes_on :
      (xs : List A) (pos : ℕ) (rest : List A)
      → Continues xs pos rest
      → length xs ≡ pos + length rest
  length-goes_on xs pos rest c = omega (arith, length-drop pos xs, ap length c.goes_on, c.inside)

  pub get_range-here :
      (xs : List A) (pos n : ℕ) (ys zs : List A)
      → Continues xs pos (ys ++ zs)
      → length ys ≡ n
      → get_range xs pos n ≡ some ys
  unfolding get_range
  get_range-here xs pos n ys zs c e =
      let fits : leb (pos + n) (length xs) ≡ true =
        ground (arith, length-goes_on xs pos (ys ++ zs) c, length-append ys zs) in
      rw (fits, c.goes_on) (rw (← e) (ap some (take-append_self ys zs)))

  pub Continues-next :
      (xs : List A) (pos n : ℕ) (ys zs : List A)
      → Continues xs pos (ys ++ zs)
      → length ys ≡ n
      → Continues xs (pos + n) zs
  Continues-next xs pos n ys zs c e = record {
    inside = omega (arith, length-goes_on xs pos (ys ++ zs) c, length-append ys zs);
    goes_on =
        sym (drop-drop pos n xs)
        ∙ ap (drop n) c.goes_on
        ∙ ap (λ k. drop k (ys ++ zs)) (sym e)
        ∙ drop-append_self ys zs;
  }
