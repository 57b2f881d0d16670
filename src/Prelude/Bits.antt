-- ===== src/Prelude/Bits.antt =====
-- The lowest digit of `^` and `& 1`, for parities folded over bytes.
use Prim.Native.Nat.{
  ℕ, zero, suc, ◌+◌, ◌/◌, ◌%◌, min, bit_and, bit_xor, digits, differ, bit_and-bitwise,
  bit_xor-bitwise,
}
use mathlib.Core.Path.{◌≡◌, refl}
use native.Mathlib.Omega.{arith}

differ-mod : (x y : ℕ) → differ x y % 2 ≡ (x + y) % 2
differ-mod zero y = omega arith
differ-mod (suc x) zero = omega arith
differ-mod (suc x) (suc y) = omega (arith, differ-mod x y)

pub bit_xor-mod_two : (a b : ℕ) → bit_xor a b % 2 ≡ (a + b) % 2
bit_xor-mod_two zero b = omega (arith, bit_xor-bitwise 0 b)
bit_xor-mod_two (suc a) b = omega (arith, bit_xor-bitwise (suc a) b, differ-mod (suc a % 2) (b % 2))

and_digits-zero : (n a : ℕ) → digits (λ b. zero) min n a 0 ≡ 0
and_digits-zero zero a = refl
and_digits-zero (suc n) zero = refl
and_digits-zero (suc n) (suc a) = omega (arith, and_digits-zero n (suc a / 2))

pub bit_and-one : (a : ℕ) → bit_and a 1 ≡ a % 2
bit_and-one zero = refl
bit_and-one (suc a) = omega (arith, bit_and-bitwise (suc a) 1, and_digits-zero a (suc a / 2))
