-- ===== src/Collision/Tests.antt =====
-- Tests and instances for crates/binda-core/src/collision.rs.
use binda.Prelude.{ℕ, ◌≡◌, refl, ◌≢◌, ◌⊎◌, [], ◌∷◌, arith, nat_eq, list_eq}
use binda.Prelude.Bytes.{be_onto, compare_bytes}
use binda.Token.{RegistrationToken, raw_ordering_key}
use binda.Collision.{resolve, xor_fold, mutually_derived_condition, negotiate_locally}
use binda.Collision.Fair.{negotiate_locally_comm}
use binda.Collision.Cycle.{negotiate_locally_three_diverge}

abbrev token : ℕ → ℕ → RegistrationToken
token t b = record { issued_at_millis = t; nonce = b ∷ 0 ∷ 0 ∷ 0 ∷ 0 ∷ 0 ∷ 0 ∷ 7 ∷ [] }

negotiate_runs : negotiate_locally (token 1 0) (token 2 0) ≡ token 1 0
unfolding negotiate_locally resolve mutually_derived_condition xor_fold raw_ordering_key be_onto
    compare_bytes
negotiate_runs = refl

negotiate_locally_comm_example :
    (negotiate_locally (token 1 0) (token 2 0) ≡ negotiate_locally (token 2 0) (token 1 0))
    × ((negotiate_locally (token 1 0) (token 2 0) ≡ token 1 0)
        ⊎ (negotiate_locally (token 1 0) (token 2 0) ≡ token 2 0))
negotiate_locally_comm_example =
    negotiate_locally_comm (token 1 0) (token 2 0) (omega arith) (omega arith)

negotiate_locally_three_diverge_example :
    (negotiate_locally (negotiate_locally (token 1 0) (token 2 0)) (token 3 0) ≡ token 3 0)
    × (negotiate_locally (token 1 0) (negotiate_locally (token 2 0) (token 3 0)) ≡ token 1 0)
    × (token 1 0 ≢ token 3 0)
negotiate_locally_three_diverge_example =
    negotiate_locally_three_diverge (token 1 0) (token 2 0) (token 3 0) (omega arith) (omega arith)
      (omega arith) (omega arith) (omega arith) refl (ground arith)
