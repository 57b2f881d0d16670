-- ===== src/RateLimit/Tests.antt =====
-- Instances for crates/binda-core/src/rate_limit.rs, with whole tokens in place of floats.
use binda.Prelude.{ℕ, refl, [], ◌∷◌, nat_eq, list_eq}
use binda.Prelude.Map.{lookup, remove, contains_key}
use binda.Samples.{whole}
use binda.RateLimit.{Bucket, RateLimiter, evict_least_recently_seen, oldest}
use binda.RateLimit.Bounds.{NoneBefore, evict_least_recently_seen-oldest}

abbrev bucket : ℕ → Bucket ℕ
bucket t = record { tokens = 1; last_refill = t }

abbrev limiter : RateLimiter ℕ ℕ
limiter = record {
  capacity = 2;
  refill_per_sec = 1;
  max_tracked_keys = 2;
  buckets = (7, bucket 5) ∷ (8, bucket 3) ∷ [];
}

evict_least_recently_seen-oldest_example : NoneBefore whole 3 limiter.buckets
unfolding lookup evict_least_recently_seen oldest remove contains_key
evict_least_recently_seen-oldest_example =
    evict_least_recently_seen-oldest whole limiter.buckets 8 (bucket 3) (refl, (refl, tt)) refl refl
