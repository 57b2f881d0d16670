-- ===== src/Wire.antt =====
-- Frames on the network: crates/binda-core/src/wire.rs. JSON is another crate's: its two directions,
-- with the errors left out, are parameters.
mod Tests
use binda.Prelude.{
  ℕ, zero, suc, ◌+◌, ◌-◌, ◌*◌, ◌/◌, ◌%◌, ◌^◌, ◌≤◌, ◌<◌, compare, Ordering, ◌≡◌, refl, sym, ap, ◌∙◌,
  ◌≢◌, ◌↔◌, ◌⊎◌, inl, inr, Bool, true, false, ◌&&◌, ◌||◌, not, Option, none, some, List, [], ◌∷◌,
  ◌++◌, map, arith, ltb, leb, if◌then◌else◌, Bool-cases, Option-cases, length, Eq, ◌==◌, nat_eq,
  list_eq, list_eq_iff, ==_refl, length-append,
}

pub record Json (T : Type 0) : Type 0 where
  pub to_vec : T → Option (List ℕ)
  pub from_slice : List ℕ → Option T

-- A message that serde can write reads back as itself.
pub record IsJson {T : Type 0} (j : Json T) : Type 0 where
  pub from_slice-to_vec :
      (m : T) (bytes : List ℕ) → j.to_vec m ≡ some bytes → j.from_slice bytes ≡ some m

abbrev pub max_datagram_bytes : ℕ
max_datagram_bytes = 65507

pub data WireError : Type 0 where
  encode_error : WireError
  decode_error : WireError
  too_large : (actual max : ℕ) → WireError

pub data Result (A : Type 0) : Type 0 where
  ok : (value : A) → Result A
  err : (error : WireError) → Result A

unfoldable pub limited : List ℕ → Result (List ℕ)
limited bytes =
    if ltb max_datagram_bytes (length bytes)
    then err (too_large (length bytes) max_datagram_bytes)
    else ok bytes

unfoldable pub encode : {T : Type 0} → Json T → T → Result (List ℕ)
unfolding limited
encode j message = elim (j.to_vec message) [ none ↦ err encode_error | some bytes ↦ limited bytes ]

unfoldable pub decode : {T : Type 0} → Json T → List ℕ → Result T
decode j bytes =
    if ltb max_datagram_bytes (length bytes)
    then err (too_large (length bytes) max_datagram_bytes)
    else elim (j.from_slice bytes) [ none ↦ err decode_error | some message ↦ ok message ]

-- A frame that was sent is within the datagram limit, and is read as the message that was sent.
pub decode-encode :
    {T : Type 0} (j : Json T) (message : T) (bytes : List ℕ)
    → IsJson j
    → encode j message ≡ ok bytes
    → (length bytes ≤ max_datagram_bytes) × (decode j bytes ≡ ok message)
unfolding encode decode limited
decode-encode j message bytes laws h = elim (Option-cases (j.to_vec message)) [
  | inl q ↦ absurd (ground (arith, q, h))
  | inr (b, q) ↦ ground (arith, q, h, laws.from_slice-to_vec message b q)
]
