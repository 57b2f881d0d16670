-- ===== src/RateLimit.antt =====
-- The token-bucket limiter: crates/binda-core/src/rate_limit.rs. There are no floats here: `f64` is a
-- type with the operations that the code uses, and the laws that its order keeps. An `Instant` is a
-- number of nanoseconds.
pub mod Bounds
mod Tests
use binda.Prelude.{
  ℕ, zero, suc, ◌+◌, ◌-◌, ◌*◌, ◌/◌, ◌%◌, ◌^◌, ◌≤◌, ◌<◌, compare, Ordering, ◌≡◌, refl, sym, ap, ◌∙◌,
  ◌≢◌, ◌↔◌, ◌⊎◌, inl, inr, Bool, true, false, ◌&&◌, ◌||◌, not, Option, none, some, List, [], ◌∷◌,
  ◌++◌, map, arith, ltb, leb, if◌then◌else◌, Bool-cases, Option-cases, length, Eq, ◌==◌, nat_eq,
  list_eq, list_eq_iff, ==_refl, length-append,
}
use binda.Prelude.Map.{HashMap, lookup, insert, remove, retain, contains_key}

-- The operations on `f64`. `le a b` is `a <= b`.
pub record FloatOps (F : Type 0) : Type 0 where
  pub of_nat : ℕ → F
  pub add : F → F → F
  pub sub : F → F → F
  pub mul : F → F → F
  pub min : F → F → F
  pub le : F → F → Bool
  -- `as_secs_f64` of a number of nanoseconds
  pub secs : ℕ → F

-- A whole number is no NaN, which alone is not `<=` itself; `a.min(b) <= b` unless `b` is NaN; and
-- taking one away from a number leaves it no larger.
pub record IsFloat {F : Type 0} (f : FloatOps F) : Type 0 where
  pub of_nat-le : (n : ℕ) → f.le (f.of_nat n) (f.of_nat n) ≡ true
  pub min-le : (a b : F) → f.le b b ≡ true → f.le (f.min a b) b ≡ true
  pub sub_one-le : (a b : F) → f.le a b ≡ true → f.le (f.sub a (f.of_nat 1)) b ≡ true

pub record Bucket (F : Type 0) : Type 0 where
  pub tokens : F
  pub last_refill : ℕ

pub record RateLimiter (F K : Type 0) : Type 0 where
  pub capacity : F
  pub refill_per_sec : F
  pub max_tracked_keys : ℕ
  pub buckets : HashMap K (Bucket F)

module _ {F K : Type 0} ⦃e : Eq K⦄ (f : FloatOps F) where
  unfoldable pub new : ℕ → F → ℕ → RateLimiter F K
  new capacity refill_per_sec max_tracked_keys = record {
    capacity = f.of_nat capacity;
    refill_per_sec = refill_per_sec;
    max_tracked_keys = max_tracked_keys;
    buckets = [];
  }

  -- `min_by_key(last_refill)`: the first of the entries with the least time.
  unfoldable pub oldest : HashMap K (Bucket F) → Option (K × ℕ)
  oldest [] = none
  oldest ((k, b) ∷ m) = elim (oldest m) [
    | none ↦ some (k, b.last_refill)
    | some best ↦ if leb b.last_refill best.1 then some (k, b.last_refill) else some best
  ]

  unfoldable pub evict_least_recently_seen : HashMap K (Bucket F) → HashMap K (Bucket F)
  unfolding oldest
  evict_least_recently_seen m = elim (oldest m) [ none ↦ m | some best ↦ remove best.0 m ]

  -- The first `if` of `allow_at`.
  unfoldable pub make_room : RateLimiter F K → K → HashMap K (Bucket F)
  unfolding evict_least_recently_seen
  make_room r key =
      if not (contains_key key r.buckets) && leb r.max_tracked_keys (length r.buckets)
      then evict_least_recently_seen r.buckets
      else r.buckets

  -- The tokens of the key's bucket once it is there and refilled.
  unfoldable pub refilled : RateLimiter F K → Option (Bucket F) → ℕ → F
  refilled r found now =
      let b : Bucket F = elim found [
        | some b ↦ b
        | none ↦ record { tokens = r.capacity; last_refill = now }
      ] in
      f.min (f.add b.tokens (f.mul (f.secs (now - b.last_refill)) r.refill_per_sec)) r.capacity

  unfoldable pub allow_at : RateLimiter F K → K → ℕ → RateLimiter F K × Bool
  unfolding make_room refilled
  allow_at r key now =
      let m = make_room r key in
      let tokens = refilled r (lookup key m) now in
      if f.le (f.of_nat 1) tokens
      then (
        record r {
          buckets = insert key (record { tokens = f.sub tokens (f.of_nat 1); last_refill = now }) m;
        },
        true,
      )
      else (
        record r { buckets = insert key (record { tokens = tokens; last_refill = now }) m },
        false,
      )

  -- `allow`, at the present time
  unfoldable pub allow : RateLimiter F K → K → ℕ → RateLimiter F K × Bool
  unfolding allow_at
  allow r key now = allow_at r key now

  unfoldable pub prune_older_than : RateLimiter F K → ℕ → ℕ → RateLimiter F K
  prune_older_than r max_age now = record r {
    buckets = retain (λ _ b. ltb (now - b.last_refill) max_age) r.buckets;
  }
