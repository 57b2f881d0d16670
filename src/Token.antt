-- ===== src/Token.antt =====
-- Registration tokens: crates/binda-core/src/token.rs. A `[u8; 8]` is a list of bytes, of length 8
-- in a valid token.
pub mod Order
use binda.Prelude.{
  ℕ, ◌^◌, ◌<◌, ◌≡◌, ◌↔◌, Bool, true, ◌&&◌, List, ◌++◌, arith, Eq, ◌==◌, length, list_beq_iff,
  list_eq, nat_eq,
}
use binda.Prelude.Bytes.{be, IsBytes}

pub record RegistrationToken : Type 0 where
  pub issued_at_millis : ℕ
  pub nonce : List ℕ

-- `RegistrationToken::issue`; the random generator's eight bytes are an argument.
unfoldable pub issue : ℕ → List ℕ → RegistrationToken
issue issued_at_millis nonce = record { issued_at_millis = issued_at_millis; nonce = nonce }

unfoldable pub raw_ordering_key : RegistrationToken → List ℕ
raw_ordering_key t = be 8 t.issued_at_millis ++ t.nonce

-- The ranges that the Rust types give: a `u64`, and eight bytes.
pub record IsToken (t : RegistrationToken) : Type 0 where
  pub issued_u64 : t.issued_at_millis < 256 ^ 8
  pub nonce_len : length t.nonce ≡ 8
  pub nonce_bytes : IsBytes t.nonce

-- The derived `PartialEq`.
abbrev pub token_beq : RegistrationToken → RegistrationToken → Bool
token_beq a b = a.issued_at_millis == b.issued_at_millis && a.nonce == b.nonce

pub token_beq_iff : (a b : RegistrationToken) → (token_beq a b ≡ true) ↔ (a ≡ b)
token_beq_iff a b =
    ground
      (arith, nat_eq.beq_iff a.issued_at_millis b.issued_at_millis, list_beq_iff a.nonce b.nonce)

instance abbrev pub token_eq : Eq RegistrationToken
token_eq = record { beq = token_beq; beq_iff = token_beq_iff }
