-- ===== src/Token/Order.antt =====
-- The order of ordering keys, for crates/binda-core/src/token.rs.
use binda.Prelude.{compare, Ordering, ◌≡◌, arith}
use binda.Prelude.Bytes.{
  be-append, compare_bytes, compare_bytes-be_onto, then_order, eq_of_compare_bytes,
}
use binda.Token.{RegistrationToken, raw_ordering_key, IsToken}

-- Ordering keys of valid tokens compare by the issuing time first and by the nonce next.
pub compare-raw_ordering_key :
    (a b : RegistrationToken)
    → IsToken a
    → IsToken b
    → compare_bytes (raw_ordering_key a) (raw_ordering_key b)
      ≡ then_order (compare a.issued_at_millis b.issued_at_millis) (compare_bytes a.nonce b.nonce)
unfolding raw_ordering_key
compare-raw_ordering_key a b ha hb =
    rw (be-append 8 a.issued_at_millis a.nonce, be-append 8 b.issued_at_millis b.nonce)
      (compare_bytes-be_onto 8 a.issued_at_millis b.issued_at_millis a.nonce b.nonce ha.issued_u64
        hb.issued_u64)

-- Valid tokens with the same ordering key are equal.
pub raw_ordering_key-injective :
    (a b : RegistrationToken)
    → IsToken a
    → IsToken b
    → compare_bytes (raw_ordering_key a) (raw_ordering_key b) ≡ Ordering.eq
    → a ≡ b
raw_ordering_key-injective a b ha hb h =
    ground (arith, compare-raw_ordering_key a b ha hb, eq_of_compare_bytes a.nonce b.nonce)
