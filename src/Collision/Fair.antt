-- ===== src/Collision/Fair.antt =====
-- Two replicas that see the same two claims agree: crates/binda-core/src/collision.rs.
use Prim.Native.Nat.{bit_and, bit_xor}
use binda.Prelude.{
  ℕ, ◌+◌, ◌%◌, ◌≡◌, ap, ◌∙◌, ◌⊎◌, List, [], ◌∷◌, ◌++◌, arith, ◌==◌, nat_eq, if◌then◌else◌,
}
use binda.Prelude.Bits.{bit_and-one, bit_xor-mod_two}
use binda.Prelude.Bytes.{compare_bytes-flip}
use binda.Token.{RegistrationToken, raw_ordering_key, IsToken}
use binda.Token.Order.{raw_ordering_key-injective}
use binda.Collision.{
  WinCondition, higher_wins, lower_wins, resolve, xor_fold, mutually_derived_condition,
  negotiate_locally,
}

abbrev sum : List ℕ → ℕ
sum [] = 0
sum (x ∷ xs) = x + sum xs

sum-append : (xs ys : List ℕ) → sum (xs ++ ys) ≡ sum xs + sum ys
sum-append [] ys = omega arith
sum-append (x ∷ xs) ys = omega (arith, sum-append xs ys)

xor_fold-mod_two : (acc : ℕ) (bytes : List ℕ) → xor_fold acc bytes % 2 ≡ (acc + sum bytes) % 2
unfolding xor_fold
xor_fold-mod_two acc [] = omega arith
xor_fold-mod_two acc (b ∷ bs) =
    omega (arith, xor_fold-mod_two (bit_xor acc b) bs, bit_xor-mod_two acc b)

-- The parity of one claim: the condition is decided by the two claims' parities together.
abbrev pub parity : RegistrationToken → ℕ
parity t = (t.issued_at_millis + sum t.nonce) % 2

-- The derived condition is "higher wins" exactly if both claims have the same parity.
pub mutually_derived_condition-parity :
    (a b : RegistrationToken)
    → mutually_derived_condition a b ≡ (if parity a == parity b then higher_wins else lower_wins)
unfolding mutually_derived_condition
mutually_derived_condition-parity a b =
    let acc = bit_xor a.issued_at_millis b.issued_at_millis % 256 in
    let x = xor_fold acc (a.nonce ++ b.nonce) in
    let e : bit_and x 1 ≡ (parity a + parity b) % 2 = omega (
      arith,
      bit_and-one x,
      xor_fold-mod_two acc (a.nonce ++ b.nonce),
      bit_xor-mod_two a.issued_at_millis b.issued_at_millis,
      sum-append a.nonce b.nonce,
    ) in
    rw e (ground arith)

pub resolve-picks :
    (c : WinCondition) (a b : RegistrationToken) → (resolve c a b ≡ a) ⊎ (resolve c a b ≡ b)
unfolding resolve
resolve-picks higher_wins a b = ground arith
resolve-picks lower_wins a b = ground arith

-- The winner of valid claims does not depend on which of the two is named first.
pub resolve_comm :
    (c : WinCondition) (a b : RegistrationToken)
    → IsToken a
    → IsToken b
    → resolve c a b ≡ resolve c b a
unfolding resolve
resolve_comm higher_wins a b ha hb = ground (
  arith,
  raw_ordering_key-injective a b ha hb,
  compare_bytes-flip (raw_ordering_key a) (raw_ordering_key b),
)
resolve_comm lower_wins a b ha hb = ground (
  arith,
  raw_ordering_key-injective a b ha hb,
  compare_bytes-flip (raw_ordering_key a) (raw_ordering_key b),
)

mutually_derived_condition_comm :
    (a b : RegistrationToken) → mutually_derived_condition a b ≡ mutually_derived_condition b a
mutually_derived_condition_comm a b =
    ground (arith, mutually_derived_condition-parity a b, mutually_derived_condition-parity b a)

-- Of two valid claims `negotiate_locally` picks one of the two, and picks the same one whichever
-- claim a replica met first.
pub negotiate_locally_comm :
    (a b : RegistrationToken)
    → IsToken a
    → IsToken b
    → (negotiate_locally a b ≡ negotiate_locally b a)
      × ((negotiate_locally a b ≡ a) ⊎ (negotiate_locally a b ≡ b))
unfolding negotiate_locally
negotiate_locally_comm a b ha hb = (
  ap (λ c. resolve c a b) (mutually_derived_condition_comm a b)
      ∙ resolve_comm (mutually_derived_condition b a) a b ha hb,
  resolve-picks (mutually_derived_condition a b) a b,
)
