-- ===== src/Prelude/Bytes.antt =====
-- Big-endian numbers and the order of byte arrays.
use native.Mathlib.Nat.{pow-suc}
use binda.Prelude.{
  ℕ, zero, suc, ◌+◌, ◌*◌, ◌/◌, ◌%◌, ◌^◌, ◌<◌, compare, Ordering, ◌≡◌, refl, List, [], ◌∷◌, ◌++◌,
  arith, length, sym, ap, ◌∙◌,
}

-- `n.to_be_bytes()` at `w` bytes, in front of `rest`.
unfoldable pub be_onto : ℕ → ℕ → List ℕ → List ℕ
be_onto zero n rest = rest
be_onto (suc w) n rest = be_onto w (n / 256) ((n % 256) ∷ rest)

abbrev pub be : ℕ → ℕ → List ℕ
be w n = be_onto w n []

-- `from_be_bytes`
unfoldable pub from_be_acc : ℕ → List ℕ → ℕ
from_be_acc acc [] = acc
from_be_acc acc (b ∷ bs) = from_be_acc (acc * 256 + b) bs

abbrev pub from_be : List ℕ → ℕ
from_be bs = from_be_acc 0 bs

pub from_be_acc-be_onto :
    (w n acc : ℕ) (rest : List ℕ)
    → n < 256 ^ w
    → from_be_acc acc (be_onto w n rest) ≡ from_be_acc (acc * 256 ^ w + n) rest
unfolding be_onto from_be_acc
from_be_acc-be_onto zero n acc rest h = ap (λ a. from_be_acc a rest) (omega arith)
from_be_acc-be_onto (suc w) n acc rest h =
    from_be_acc-be_onto w (n / 256) acc ((n % 256) ∷ rest) (omega (arith, pow-suc 256 w))
    ∙ ap (λ a. from_be_acc a rest) (omega (arith, ap (λ (t : ℕ). acc * t) (pow-suc 256 w)))

pub from_be-be : (w n : ℕ) → n < 256 ^ w → from_be (be w n) ≡ n
unfolding from_be_acc
from_be-be w n h = omega (arith, from_be_acc-be_onto w n 0 [] h)

-- Every element fits a byte.
abbrev pub IsBytes : List ℕ → Type 0
IsBytes [] = Unit
IsBytes (b ∷ bs) = (b < 256) × IsBytes bs

pub IsBytes-append : (xs ys : List ℕ) → IsBytes xs → IsBytes ys → IsBytes (xs ++ ys)
IsBytes-append [] ys h k = k
IsBytes-append (x ∷ xs) ys h k = (h.0, IsBytes-append xs ys h.1 k)

pub be_onto-append : (w n : ℕ) (xs ys : List ℕ) → be_onto w n (xs ++ ys) ≡ be_onto w n xs ++ ys
unfolding be_onto
be_onto-append zero n xs ys = refl
be_onto-append (suc w) n xs ys = be_onto-append w (n / 256) ((n % 256) ∷ xs) ys

pub be-append : (w n : ℕ) (ys : List ℕ) → be w n ++ ys ≡ be_onto w n ys
be-append w n ys = sym (be_onto-append w n [] ys)

pub length-be_onto : (w n : ℕ) (rest : List ℕ) → length (be_onto w n rest) ≡ w + length rest
unfolding be_onto
length-be_onto zero n rest = omega arith
length-be_onto (suc w) n rest = omega (arith, length-be_onto w (n / 256) ((n % 256) ∷ rest))

pub be_onto-IsBytes : (w n : ℕ) (rest : List ℕ) → IsBytes rest → IsBytes (be_onto w n rest)
unfolding be_onto
be_onto-IsBytes zero n rest h = h
be_onto-IsBytes (suc w) n rest h = be_onto-IsBytes w (n / 256) ((n % 256) ∷ rest) (omega arith, h)

-- The lexicographic order of `[u8]`.
unfoldable pub compare_bytes : List ℕ → List ℕ → Ordering
compare_bytes [] [] = Ordering.eq
compare_bytes [] (y ∷ ys) = Ordering.lt
compare_bytes (x ∷ xs) [] = Ordering.gt
compare_bytes (x ∷ xs) (y ∷ ys) = elim (compare x y) [
  | Ordering.lt ↦ Ordering.lt
  | Ordering.eq ↦ compare_bytes xs ys
  | Ordering.gt ↦ Ordering.gt
]

-- `Ordering::then`
abbrev pub then_order : Ordering → Ordering → Ordering
then_order Ordering.lt second = Ordering.lt
then_order Ordering.eq second = second
then_order Ordering.gt second = Ordering.gt

abbrev pub flip : Ordering → Ordering
flip Ordering.lt = Ordering.gt
flip Ordering.eq = Ordering.eq
flip Ordering.gt = Ordering.lt

pub compare_bytes-flip : (xs ys : List ℕ) → compare_bytes ys xs ≡ flip (compare_bytes xs ys)
unfolding compare_bytes
compare_bytes-flip [] [] = refl
compare_bytes-flip [] (y ∷ ys) = refl
compare_bytes-flip (x ∷ xs) [] = refl
compare_bytes-flip (x ∷ xs) (y ∷ ys) = ground (arith, compare_bytes-flip xs ys)

pub eq_of_compare_bytes : (xs ys : List ℕ) → compare_bytes xs ys ≡ Ordering.eq → xs ≡ ys
unfolding compare_bytes
eq_of_compare_bytes [] [] h = refl
eq_of_compare_bytes [] (y ∷ ys) h = cc
eq_of_compare_bytes (x ∷ xs) [] h = cc
eq_of_compare_bytes (x ∷ xs) (y ∷ ys) h = ground (arith, eq_of_compare_bytes xs ys)

pub compare_bytes_refl : (xs : List ℕ) → compare_bytes xs xs ≡ Ordering.eq
unfolding compare_bytes
compare_bytes_refl [] = refl
compare_bytes_refl (x ∷ xs) = ground (arith, compare_bytes_refl xs)

pub compare_bytes_trans :
    (xs ys zs : List ℕ)
    → compare_bytes xs ys ≡ Ordering.lt
    → compare_bytes ys zs ≡ Ordering.lt
    → compare_bytes xs zs ≡ Ordering.lt
unfolding compare_bytes
compare_bytes_trans [] [] zs h k = cc
compare_bytes_trans [] (y ∷ ys) [] h k = cc
compare_bytes_trans [] (y ∷ ys) (z ∷ zs) h k = refl
compare_bytes_trans (x ∷ xs) [] zs h k = cc
compare_bytes_trans (x ∷ xs) (y ∷ ys) [] h k = cc
compare_bytes_trans (x ∷ xs) (y ∷ ys) (z ∷ zs) h k = ground (arith, compare_bytes_trans xs ys zs)

-- Big-endian bytes order as the numbers do.
pub compare_bytes-be_onto :
    (w m n : ℕ) (xs ys : List ℕ)
    → m < 256 ^ w
    → n < 256 ^ w
    → compare_bytes (be_onto w m xs) (be_onto w n ys)
      ≡ then_order (compare m n) (compare_bytes xs ys)
unfolding be_onto compare_bytes
compare_bytes-be_onto zero m n xs ys hm hn = ground arith
compare_bytes-be_onto (suc w) m n xs ys hm hn = ground (
  arith,
  compare_bytes-be_onto w (m / 256) (n / 256) ((m % 256) ∷ xs) ((n % 256) ∷ ys)
      (omega (arith, pow-suc 256 w)) (omega (arith, pow-suc 256 w)),
)
