-- ===== src/Text/Decimal.antt =====
-- Numbers in decimal, as `format!` prints a `u64`.
use binda.Prelude.{
  ℕ, zero, suc, ◌+◌, ◌-◌, ◌*◌, ◌/◌, ◌%◌, ◌^◌, ◌<◌, ◌≡◌, ap, ◌∙◌, inl, inr, false, [], ◌∷◌, ◌++◌,
  arith, if◌then◌else◌, Bool-cases, ◌==◌, nat_eq, list_eq,
}
use native.Mathlib.Nat.{pow-suc}
use binda.Text.{Text, IsText}
use binda.Text.Split.{Avoids}

-- The digits of `n` in front of `rest`, at most `fuel` of them; a `u64` has at most 20.
unfoldable pub decimal_onto : ℕ → ℕ → Text → Text
decimal_onto zero n rest = rest
decimal_onto (suc fuel) n rest =
    let more = decimal_onto fuel (n / 10) ((b'0' + n % 10) ∷ rest) in
    if n / 10 == 0 then (b'0' + n % 10) ∷ rest else more

abbrev pub decimal : ℕ → Text
decimal n = decimal_onto 20 n []

unfoldable pub read_decimal : ℕ → Text → ℕ
read_decimal acc [] = acc
read_decimal acc (d ∷ s) = read_decimal (acc * 10 + (d - b'0')) s

read_decimal-decimal_onto :
    (fuel n : ℕ) (rest : Text)
    → n < 10 ^ fuel
    → 0 < fuel
    → read_decimal 0 (decimal_onto fuel n rest) ≡ read_decimal n rest
unfolding read_decimal decimal_onto
read_decimal-decimal_onto zero n rest h p = absurd (omega arith)
read_decimal-decimal_onto (suc fuel) n rest h p = elim (Bool-cases (n / 10 == 0)) [
  | inl e ↦ rw e (ap (λ a. read_decimal a rest) (ground arith))
  | inr e ↦ rw e (
      read_decimal-decimal_onto fuel (n / 10) ((b'0' + n % 10) ∷ rest)
        (omega (arith, pow-suc 10 fuel)) (pos_fuel fuel n h e)
      ∙ ap (λ a. read_decimal a rest) (omega arith))
]
  where
    pos_fuel : (fuel n : ℕ) → n < 10 ^ suc fuel → (n / 10 == 0) ≡ false → 0 < fuel
    pos_fuel zero n h e = ground arith
    pos_fuel (suc fuel) n h e = omega arith

-- The digits of a `u64` read back as the number: twenty are enough.
pub read_decimal-decimal : (n : ℕ) → n < 2 ^ 64 → read_decimal 0 (decimal n) ≡ n
unfolding read_decimal
read_decimal-decimal n h = read_decimal-decimal_onto 20 n [] (omega arith) (omega arith)

decimal_onto-Avoids :
    (fuel n : ℕ) (rest : Text) → Avoids b':' rest → Avoids b':' (decimal_onto fuel n rest)
unfolding decimal_onto
decimal_onto-Avoids zero n rest h = h
decimal_onto-Avoids (suc fuel) n rest h =
    ground (arith, decimal_onto-Avoids fuel (n / 10) ((b'0' + n % 10) ∷ rest))

pub decimal-Avoids : (n : ℕ) → Avoids b':' (decimal n)
decimal-Avoids n = decimal_onto-Avoids 20 n [] tt

decimal_onto-IsText : (fuel n : ℕ) (rest : Text) → IsText rest → IsText (decimal_onto fuel n rest)
unfolding decimal_onto
decimal_onto-IsText zero n rest h = h
decimal_onto-IsText (suc fuel) n rest h =
    ground (arith, decimal_onto-IsText fuel (n / 10) ((b'0' + n % 10) ∷ rest))

pub decimal-IsText : (n : ℕ) → IsText (decimal n)
decimal-IsText n = decimal_onto-IsText 20 n [] tt

not_inside : (sep : ℕ) (s t t' : Text) → Avoids sep t → t ≡ s ++ sep ∷ t' → ⊥
not_inside sep [] [] t' h e = cc
not_inside sep [] (d ∷ t) t' h e = ground arith
not_inside sep (c ∷ s) [] t' h e = cc
not_inside sep (c ∷ s) (d ∷ t) t' h e = not_inside sep s t t' h.1 (ground arith)

-- What stands after the last separator is determined.
pub last_field :
    (sep : ℕ) (s s' t t' : Text)
    → Avoids sep t
    → Avoids sep t'
    → s ++ sep ∷ t ≡ s' ++ sep ∷ t'
    → (s ≡ s') × (t ≡ t')
last_field sep [] [] t t' h h' e = ground arith
last_field sep [] (c ∷ s') t t' h h' e = absurd (not_inside sep s' t t' h (ground arith))
last_field sep (c ∷ s) [] t t' h h' e = absurd (not_inside sep s t' t h' (ground arith))
last_field sep (c ∷ s) (c' ∷ s') t t' h h' e = ground (arith, last_field sep s s' t t' h h')
