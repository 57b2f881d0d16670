-- ===== src/Client.antt =====
-- Client identities: crates/binda-core/src/client.rs. Ed25519 and JSON are third-party code, and
-- enter as a value of `Externals`, an argument of everything that uses them.
pub mod Quota
use binda.Prelude.{
  ℕ, zero, suc, ◌+◌, ◌-◌, ◌*◌, ◌/◌, ◌%◌, ◌^◌, ◌≤◌, ◌<◌, compare, Ordering, ◌≡◌, refl, sym, ap, ◌∙◌,
  ◌≢◌, ◌↔◌, ◌⊎◌, inl, inr, Bool, true, false, ◌&&◌, ◌||◌, not, Option, none, some, List, [], ◌∷◌,
  ◌++◌, map, arith, ltb, leb, if◌then◌else◌, Bool-cases, Option-cases, length, Eq, ◌==◌, nat_eq,
  list_eq, list_eq_iff, ==_refl, length-append,
}
use binda.Text.{Text, codes, trim, trim_end_matches, to_ascii_lowercase, hex_digit}
use binda.Zone.{Record}

-- What the program calls of ed25519_dalek and serde_json. A `VerifyingKey` is its 32 bytes, which
-- `as_bytes` gives back, and a `Signature` its 64.
pub record Externals : Type 0 where
  -- `VerifyingKey::from_bytes` accepts 32 bytes
  pub valid_key : List ℕ → Bool
  -- `Signature::from_slice` accepts a slice
  pub valid_signature : List ℕ → Bool
  -- `verify(key, message, signature)` is `Ok`
  pub verify : List ℕ → List ℕ → List ℕ → Bool
  -- `serde_json::to_vec` of zone records
  pub records_json : List Record → Option (List ℕ)

pub record ClientIdentity : Type 0 where
  pub verifying_key : List ℕ
  pub rdns : Text

-- `ClientIdentity::new`
unfoldable pub new : List ℕ → Text → ClientIdentity
new verifying_key rdns = record { verifying_key = verifying_key; rdns = rdns }

-- `hex_encode`
unfoldable pub hex_encode : List ℕ → Text
unfolding hex_digit
hex_encode [] = []
hex_encode (b ∷ bytes) = hex_digit (b / 16) ∷ hex_digit (b % 16) ∷ hex_encode bytes

-- `ClientIdentity::key`
unfoldable pub key : ClientIdentity → Text
unfolding hex_encode
key client = hex_encode client.verifying_key ++ (b'@' ∷ client.rdns)

-- The function `quota_key` of store.rs, and the method of client.rs: both have this body.
unfoldable pub quota_key_of : Text → Text
unfolding trim trim_end_matches to_ascii_lowercase
quota_key_of rdns = to_ascii_lowercase (trim_end_matches (λ c. c == b'.') (trim rdns))

unfoldable pub quota_key : ClientIdentity → Text
unfolding quota_key_of
quota_key client = quota_key_of client.rdns

-- `ClientIdentity::verify`; `false` is `InvalidSignature`
unfoldable pub verify : Externals → ClientIdentity → List ℕ → List ℕ → Bool
verify x client message signature = x.verify client.verifying_key message signature
