-- ===== src/RateLimit/Bounds.antt =====
-- What the limiter bounds: crates/binda-core/src/rate_limit.rs.
use binda.Prelude.{
  ℕ, ◌-◌, ◌≤◌, ◌<◌, ◌≡◌, refl, ◌∙◌, inl, inr, true, Option, none, some, [], ◌∷◌, arith, leb,
  if◌then◌else◌, Bool-cases, Option-cases, length, Eq, nat_eq, list_eq, ==_refl, subst,
}
use binda.Prelude.Map.{
  HashMap, lookup, insert, remove, contains_key, length-insert, length-remove_lt, lookup-insert,
  lookup-remove, Distinct, contains_key-lookup,
}
use binda.RateLimit.{
  FloatOps, IsFloat, Bucket, RateLimiter, oldest, evict_least_recently_seen, make_room, refilled,
  allow_at,
}

module _ {F K : Type 0} ⦃e : Eq K⦄ (f : FloatOps F) where
  -- No bucket of the map was used before the time.
  abbrev pub NoneBefore : ℕ → HashMap K (Bucket F) → Type 0
  NoneBefore t [] = Unit
  NoneBefore t ((k, b) ∷ m) = (t ≤ b.last_refill) × NoneBefore t m

  NoneBefore-le : (t u : ℕ) (m : HashMap K (Bucket F)) → t ≤ u → NoneBefore u m → NoneBefore t m
  NoneBefore-le t u [] h n = tt
  NoneBefore-le t u ((k, b) ∷ m) h n = (omega arith, NoneBefore-le t u m h n.1)

  oldest-none : (m : HashMap K (Bucket F)) → oldest f m ≡ none → m ≡ []
  unfolding oldest
  oldest-none [] h = refl
  oldest-none ((j, b) ∷ m) h = ground arith

  NoneBefore-of_none : (t : ℕ) (m : HashMap K (Bucket F)) → oldest f m ≡ none → NoneBefore t m
  unfolding oldest
  NoneBefore-of_none t [] h = tt
  NoneBefore-of_none t ((j, b) ∷ m) h = absurd (ground arith)

  oldest-some :
      (m : HashMap K (Bucket F)) (k : K) (t : ℕ)
      → oldest f m ≡ some (k, t)
      → (contains_key k m ≡ true) × NoneBefore t m
  unfolding oldest contains_key
  oldest-some [] k t h = cc
  oldest-some ((j, b) ∷ m) k t h = elim (Option-cases (oldest f m)) [
    | inl q ↦ ground (arith, q, NoneBefore-of_none t m q, e.beq_iff j k)
    | inr ((best, u), q) ↦
        ground (arith, q, oldest-some m best u q, e.beq_iff j k, NoneBefore-le t u m)
  ]

  length-evict : (m : HashMap K (Bucket F)) → length (evict_least_recently_seen f m) ≤ length m - 1
  unfolding evict_least_recently_seen
  length-evict m = elim (Option-cases (oldest f m)) [
    | inl q ↦ ground (arith, q, oldest-none m q)
    | inr ((best, u), q) ↦ ground (arith, q, (oldest-some m best u q).0, length-remove_lt best m)
  ]

  length-insert-make_room-le :
      (r : RateLimiter F K) (k : K) (b : Bucket F)
      → 0 < r.max_tracked_keys
      → length r.buckets ≤ r.max_tracked_keys
      → length (insert k b (make_room f r k)) ≤ r.max_tracked_keys
  unfolding make_room
  length-insert-make_room-le r k b p h = ground (
    arith,
    length-insert k b r.buckets,
    length-insert k b (evict_least_recently_seen f r.buckets),
    length-evict r.buckets,
  )

  -- The limiter never tracks more keys than its bound, if the bound allows one at all: a call keeps
  -- the number within it.
  pub allow_at-tracked :
      (r : RateLimiter F K) (k : K) (now : ℕ)
      → 0 < r.max_tracked_keys
      → length r.buckets ≤ r.max_tracked_keys
      → length (allow_at f r k now).0.buckets ≤ (allow_at f r k now).0.max_tracked_keys
  unfolding allow_at
  allow_at-tracked r k now p h =
      let tokens = refilled f r (lookup k (make_room f r k)) now in
      ground (
        arith,
        length-insert-make_room-le r k (record { tokens = tokens; last_refill = now }) p h,
        length-insert-make_room-le r k
            (record { tokens = f.sub tokens (f.of_nat 1); last_refill = now }) p h,
      )

  -- The time that `oldest` gives is that of the key's bucket.
  oldest-time :
      (m : HashMap K (Bucket F)) (k : K) (t : ℕ)
      → Distinct m
      → oldest f m ≡ some (k, t)
      → (b : Bucket F) × (lookup k m ≡ some b) × (b.last_refill ≡ t)
  unfolding oldest lookup
  oldest-time [] k t d h = cc
  oldest-time ((j, b) ∷ m) k t d h = elim (Option-cases (oldest f m)) [
    | inl q ↦ (b, ground (arith, q, e.beq_iff j k), ground (arith, q))
    | inr ((best, u), q) ↦ elim (Bool-cases (leb b.last_refill u)) [
      | inl p ↦ (b, ground (arith, q, p, e.beq_iff j k), ground (arith, q, p))
      | inr p ↦
          let (c, found, time) = oldest-time m best u d.1 q in
          let same : (best ≡ k) × (u ≡ t) = ground (arith, q, p) in
          (
            c,
            ground (arith, found, same, e.beq_iff j k, contains_key-lookup j m, d.0),
            time ∙ same.1,
          )
    ]
  ]

  -- A key that is evicted to make room is one that no tracked key was last used before.
  pub evict_least_recently_seen-oldest :
      (m : HashMap K (Bucket F)) (k : K) (b : Bucket F)
      → Distinct m
      → lookup k m ≡ some b
      → lookup k (evict_least_recently_seen f m) ≡ none
      → NoneBefore b.last_refill m
  unfolding evict_least_recently_seen
  evict_least_recently_seen-oldest m k b d h gone = elim (Option-cases (oldest f m)) [
    | inl q ↦ NoneBefore-of_none b.last_refill m q
    | inr ((best, u), q) ↦
        let (c, found, time) = oldest-time m best u d q in
        let same : best ≡ k =
          ground (arith, q, lookup-remove best k m, e.beq_iff best k, h, gone) in
        let at : u ≡ b.last_refill = ground (arith, same, found, time, h) in
        subst (λ v. NoneBefore v m) at (oldest-some m best u q).1
  ]

  -- No bucket holds more tokens than the capacity.
  abbrev pub WithinCapacity : F → HashMap K (Bucket F) → Type 0
  WithinCapacity cap [] = Unit
  WithinCapacity cap ((k, b) ∷ m) = (f.le b.tokens cap ≡ true) × WithinCapacity cap m

  refilled-le :
      (r : RateLimiter F K) (found : Option (Bucket F)) (now : ℕ)
      → IsFloat f
      → f.le r.capacity r.capacity ≡ true
      → f.le (refilled f r found now) r.capacity ≡ true
  unfolding refilled
  refilled-le r none now laws n = laws.min-le _ _ n
  refilled-le r (some b) now laws n = laws.min-le _ _ n

  WithinCapacity-insert :
      (cap : F) (k : K) (b : Bucket F) (m : HashMap K (Bucket F))
      → f.le b.tokens cap ≡ true
      → WithinCapacity cap m
      → WithinCapacity cap (insert k b m)
  unfolding insert
  WithinCapacity-insert cap k b [] h w = (h, tt)
  WithinCapacity-insert cap k b ((j, c) ∷ m) h w = ground (arith, WithinCapacity-insert cap k b m h)

  WithinCapacity-remove :
      (cap : F) (k : K) (m : HashMap K (Bucket F))
      → WithinCapacity cap m
      → WithinCapacity cap (remove k m)
  unfolding remove
  WithinCapacity-remove cap k [] w = tt
  WithinCapacity-remove cap k ((j, c) ∷ m) w = ground (arith, WithinCapacity-remove cap k m)

  WithinCapacity-make_room :
      (r : RateLimiter F K) (k : K)
      → WithinCapacity r.capacity r.buckets
      → WithinCapacity r.capacity (make_room f r k)
  unfolding make_room evict_least_recently_seen
  WithinCapacity-make_room r k w = elim (Option-cases (oldest f r.buckets)) [
    | inl q ↦ ground (arith, q)
    | inr (best, q) ↦ ground (arith, q, WithinCapacity-remove r.capacity best.0 r.buckets w)
  ]

  -- A burst is at most the capacity, if that is no NaN: a call keeps every bucket's tokens within it,
  -- however long the key was silent.
  pub allow_at-WithinCapacity :
      (r : RateLimiter F K) (k : K) (now : ℕ)
      → IsFloat f
      → f.le r.capacity r.capacity ≡ true
      → WithinCapacity r.capacity r.buckets
      → WithinCapacity (allow_at f r k now).0.capacity (allow_at f r k now).0.buckets
  unfolding allow_at
  allow_at-WithinCapacity r k now laws n w =
      let m = make_room f r k in
      let tokens = refilled f r (lookup k m) now in
      let room = WithinCapacity-make_room r k w in
      let full : f.le tokens r.capacity ≡ true = refilled-le r (lookup k m) now laws n in
      elim (Bool-cases (f.le (f.of_nat 1) tokens)) [
        | inl p ↦
            rw (p, allow_at)
              (WithinCapacity-insert r.capacity k
                (record { tokens = f.sub tokens (f.of_nat 1); last_refill = now }) m
                (laws.sub_one-le tokens r.capacity full) room)
        | inr p ↦
            rw (p, allow_at)
              (WithinCapacity-insert r.capacity k (record { tokens = tokens; last_refill = now }) m
                full room)
      ]

  -- A request passes exactly if the key's bucket, refilled up to the capacity, holds a token; the
  -- key's bucket is then stamped with the time of the call, less one token if it passed.
  pub allow_at-passes :
      (r : RateLimiter F K) (k : K) (now : ℕ)
      → ((allow_at f r k now).1 ≡ f.le (f.of_nat 1) (refilled f r (lookup k (make_room f r k)) now))
        × (lookup k (allow_at f r k now).0.buckets
            ≡ some (record {
              tokens =
                  if (allow_at f r k now).1
                  then f.sub (refilled f r (lookup k (make_room f r k)) now) (f.of_nat 1)
                  else refilled f r (lookup k (make_room f r k)) now;
              last_refill = now;
            }))
  unfolding allow_at
  allow_at-passes r k now =
      let m = make_room f r k in
      let tokens = refilled f r (lookup k m) now in
      ground (
        arith,
        ==_refl k,
        lookup-insert k k (record { tokens = tokens; last_refill = now }) m,
        lookup-insert k k (record { tokens = f.sub tokens (f.of_nat 1); last_refill = now }) m,
      )
