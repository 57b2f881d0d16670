-- ===== src/Collision.antt =====
-- Collision arbitration: crates/binda-core/src/collision.rs.
pub mod Fair
pub mod Cycle
mod Tests
use Prim.Native.Nat.{bit_and, bit_xor}
use binda.Prelude.{
  ℕ, ◌+◌, ◌%◌, ◌^◌, Ordering, Bool, true, false, ◌&&◌, Option, none, some, List, [], ◌∷◌, ◌++◌,
  ◌==◌, nat_eq, if◌then◌else◌,
}
use binda.Prelude.Bytes.{compare_bytes}
use binda.Token.{RegistrationToken, raw_ordering_key}

pub data WinCondition : Type 0 where
  higher_wins lower_wins : WinCondition

-- `WinCondition::random`; the coin is an argument.
unfoldable pub random : Bool → WinCondition
random coin = if coin then higher_wins else lower_wins

pub record RoundProposal : Type 0 where
  pub round : ℕ
  pub condition : WinCondition

pub record Negotiation : Type 0 where
  pub round : ℕ

unfoldable pub new : Negotiation
new = record { round = 0 }

-- A `u32` counter: a release build wraps it.
unfoldable pub propose : Negotiation → Bool → RoundProposal × Negotiation
unfolding random
propose n coin =
    let round = (n.round + 1) % 2 ^ 32 in
    (record { round = round; condition = random coin }, record { round = round })

abbrev pub condition_beq : WinCondition → WinCondition → Bool
condition_beq higher_wins higher_wins = true
condition_beq lower_wins lower_wins = true
condition_beq _ _ = false

unfoldable pub check_agreement : RoundProposal → RoundProposal → Option WinCondition
check_agreement mine theirs =
    if mine.round == theirs.round && condition_beq mine.condition theirs.condition
    then some mine.condition
    else none

-- `key_a >= key_b` and `key_a <= key_b`
abbrev pub bytes_ge : List ℕ → List ℕ → Bool
bytes_ge xs ys = elim (compare_bytes xs ys) [ Ordering.lt ↦ false | _ ↦ true ]

abbrev pub bytes_le : List ℕ → List ℕ → Bool
bytes_le xs ys = elim (compare_bytes xs ys) [ Ordering.gt ↦ false | _ ↦ true ]

unfoldable pub resolve : WinCondition → RegistrationToken → RegistrationToken → RegistrationToken
resolve higher_wins a b = if bytes_ge (raw_ordering_key a) (raw_ordering_key b) then a else b
resolve lower_wins a b = if bytes_le (raw_ordering_key a) (raw_ordering_key b) then a else b

-- `fold(acc, |acc, byte| acc ^ byte)`
unfoldable pub xor_fold : ℕ → List ℕ → ℕ
xor_fold acc [] = acc
xor_fold acc (byte ∷ bytes) = xor_fold (bit_xor acc byte) bytes

unfoldable pub mutually_derived_condition : RegistrationToken → RegistrationToken → WinCondition
mutually_derived_condition a b =
    let parity =
      xor_fold (bit_xor a.issued_at_millis b.issued_at_millis % 256) (a.nonce ++ b.nonce) in
    if bit_and parity 1 == 0 then higher_wins else lower_wins

unfoldable pub negotiate_locally : RegistrationToken → RegistrationToken → RegistrationToken
negotiate_locally a b = resolve (mutually_derived_condition a b) a b
