-- ===== src/Store/ClaimOrder.antt =====
-- The order of a host's claims: crates/binda-core/src/store.rs, the `sort_by` of `reconcile_quota`.
use binda.Prelude.{ℕ, Ordering, ◌≡◌, refl, ap, ◌≢◌, ◌⊎◌, inl, inr, List, arith, nat_eq, list_eq}
use binda.Prelude.Ordered.{IsOrder}
use binda.Prelude.Bytes.{flip, compare_bytes-flip, compare_bytes_trans, eq_of_compare_bytes}
use binda.Gossip.{RegistrationRumor}
use binda.Token.{raw_ordering_key}
use binda.Text.{IsText}
use binda.Text.Utf8.{as_bytes-injective}
use binda.Store.{claim_order, compare_bytes, then_order, as_bytes}

then_order-gt :
    (o p : Ordering)
    → then_order o p ≢ Ordering.gt
    → (o ≡ Ordering.lt) ⊎ ((o ≡ Ordering.eq) × (p ≢ Ordering.gt))
then_order-gt Ordering.lt p h = inl refl
then_order-gt Ordering.eq p h = inr (refl, h)
then_order-gt Ordering.gt p h = absurd (h refl)

flip-then_order : (o p : Ordering) → then_order (flip o) (flip p) ≡ flip (then_order o p)
flip-then_order Ordering.lt p = refl
flip-then_order Ordering.eq p = refl
flip-then_order Ordering.gt p = refl

module _ (xs ys zs : List ℕ) where
  lt_le :
      compare_bytes xs ys ≡ Ordering.lt
      → compare_bytes ys zs ≢ Ordering.gt
      → compare_bytes xs zs ≡ Ordering.lt
  lt_le h k = ground (arith, compare_bytes_trans xs ys zs, eq_of_compare_bytes ys zs, h, k)

  eq_le : compare_bytes xs ys ≡ Ordering.eq → compare_bytes xs zs ≡ compare_bytes ys zs
  eq_le h = ap (λ z. compare_bytes z zs) (eq_of_compare_bytes xs ys h)

  compare_bytes_le_trans :
      compare_bytes xs ys ≢ Ordering.gt
      → compare_bytes ys zs ≢ Ordering.gt
      → compare_bytes xs zs ≢ Ordering.gt
  compare_bytes_le_trans h k = ground (arith, lt_le, eq_le, h, k)

-- Comparing by a first key and then by a second one.
then_order_le_trans :
    (ks ls ms : List ℕ) (xs ys zs : List ℕ)
    → then_order (compare_bytes ks ls) (compare_bytes xs ys) ≢ Ordering.gt
    → then_order (compare_bytes ls ms) (compare_bytes ys zs) ≢ Ordering.gt
    → then_order (compare_bytes ks ms) (compare_bytes xs zs) ≢ Ordering.gt
then_order_le_trans ks ls ms xs ys zs h k =
    elim (then_order-gt (compare_bytes ks ls) (compare_bytes xs ys) h) [
      | inl before ↦ ground (
        arith,
        lt_le ks ls ms before,
        then_order-gt (compare_bytes ls ms) (compare_bytes ys zs) k,
      )
      | inr (same, h') ↦ ground (
        arith,
        eq_le ks ls ms same,
        then_order-gt (compare_bytes ls ms) (compare_bytes ys zs) k,
        compare_bytes_le_trans xs ys zs h',
      )
    ]

pub claim_order-IsOrder : IsOrder claim_order
unfolding claim_order
claim_order-IsOrder = record {
  flips = λ a b.
      rw
        (
          compare_bytes-flip (raw_ordering_key a.token) (raw_ordering_key b.token),
          compare_bytes-flip (as_bytes a.domain) (as_bytes b.domain),
        )
        (flip-then_order (compare_bytes (raw_ordering_key a.token) (raw_ordering_key b.token))
          (compare_bytes (as_bytes a.domain) (as_bytes b.domain)));
  le_trans = λ a b c.
      then_order_le_trans (raw_ordering_key a.token) (raw_ordering_key b.token)
        (raw_ordering_key c.token) (as_bytes a.domain) (as_bytes b.domain) (as_bytes c.domain);
}

-- Claims on different names do not tie.
pub claim_order-eq :
    (a b : RegistrationRumor)
    → IsText a.domain
    → IsText b.domain
    → claim_order a b ≡ Ordering.eq
    → a.domain ≡ b.domain
unfolding claim_order
claim_order-eq a b ha hb h =
    as_bytes-injective a.domain b.domain ha hb
      (eq_of_compare_bytes (as_bytes a.domain) (as_bytes b.domain) (ground (arith, h)))
