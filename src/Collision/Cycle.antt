-- ===== src/Collision/Cycle.antt =====
-- Three claims on one name: crates/binda-core/src/collision.rs settles pairs only.
use binda.Prelude.{◌<◌, ◌≡◌, ◌≢◌, arith, nat_eq, Ordering}
use binda.Prelude.Bytes.{compare_bytes}
use binda.Token.{RegistrationToken, raw_ordering_key, IsToken}
use binda.Token.Order.{compare-raw_ordering_key}
use binda.Collision.{resolve, negotiate_locally}
use binda.Collision.Fair.{parity, mutually_derived_condition-parity}

module _ (a b : RegistrationToken) (ha : IsToken a) (hb : IsToken b)
    (earlier : a.issued_at_millis < b.issued_at_millis) where
  keys_lt : compare_bytes (raw_ordering_key a) (raw_ordering_key b) ≡ Ordering.lt
  keys_lt = ground (arith, compare-raw_ordering_key a b ha hb)

  -- Of two claims of one parity the later one wins, of two claims of different parity the earlier.
  pub negotiate_locally_same : parity a ≡ parity b → negotiate_locally a b ≡ b
  unfolding negotiate_locally resolve
  negotiate_locally_same p = ground (arith, mutually_derived_condition-parity a b, keys_lt)

  pub negotiate_locally_other : parity a ≢ parity b → negotiate_locally a b ≡ a
  unfolding negotiate_locally resolve
  negotiate_locally_other p = ground (arith, mutually_derived_condition-parity a b, keys_lt)

-- Three valid claims on one name, issued one after the other, where the middle one's parity differs
-- from that of the two others: a node that settles the first two and then meets the third keeps
-- the third, and a node that settles the last two and then meets the first keeps the first, which
-- is another claim.
pub negotiate_locally_three_diverge :
    (a b c : RegistrationToken)
    → IsToken a
    → IsToken b
    → IsToken c
    → a.issued_at_millis < b.issued_at_millis
    → b.issued_at_millis < c.issued_at_millis
    → parity a ≡ parity c
    → parity a ≢ parity b
    → (negotiate_locally (negotiate_locally a b) c ≡ c)
      × (negotiate_locally a (negotiate_locally b c) ≡ a)
      × (a ≢ c)
negotiate_locally_three_diverge a b c ha hb hc ab bc same other = ground (
  arith,
  negotiate_locally_other a b ha hb ab,
  negotiate_locally_other b c hb hc bc,
  negotiate_locally_same a c ha hc,
)
