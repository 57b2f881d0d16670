-- ===== src/Node/Sound.antt =====
-- What holds of a node in every state, and its parts that may be replaced: crates/binda/src/node.rs.
use binda.Prelude.{
  ℕ, ◌-◌, ◌≤◌, ◌≡◌, refl, sym, ◌∙◌, Bool, true, List, [], ◌∷◌, arith, ltb, length, Eq, nat_eq,
  list_eq, subst,
}
use binda.Prelude.Map.{HashMap, retain, length-retain}
use binda.Client.{Externals}
use binda.Store.{RegistryStore}
use binda.Store.Reach.{Step, Reach-IsCapped}
use binda.Peers.{NoTwice, learn, learn_lem}
use binda.RateLimit.{FloatOps, IsFloat, RateLimiter, allow_at, prune_older_than, Bucket}
use binda.RateLimit.Bounds.{WithinCapacity, allow_at-tracked, allow_at-WithinCapacity}
use binda.Node.{Node, new_rate_limiter, PendingChallenge}
use binda.Node.Listeners.{new_with_verifier}
use binda.Store.Reach
use binda.Peers
use binda.Store

module _ {F K : Type 0} ⦃e : Eq K⦄ (f : FloatOps F) (x : Externals) where
  -- A limiter tracks at most 100,000 addresses, none with more than 20 tokens.
  pub record IsLimited (r : RateLimiter F K) : Type 0 where
    pub bound : r.max_tracked_keys ≡ 100_000
    pub tracked : length r.buckets ≤ 100_000
    pub burst : r.capacity ≡ f.of_nat 20
    pub within : WithinCapacity f (f.of_nat 20) r.buckets

  -- What holds of a node in every state.
  pub record IsSound (node : Node F K) : Type 0 where
    pub store_reached : Store.Reach.Reach x node.store
    pub peers_once : NoTwice node.peers
    pub pending : length node.pending_challenges ≤ 10_000
    pub gossip : IsLimited node.gossip_limiter
    pub resolver : IsLimited node.resolver_limiter
    pub api : IsLimited node.api_limiter
    pub dns : IsLimited node.dns_limiter

  new_rate_limiter-IsLimited : IsLimited (new_rate_limiter f)
  unfolding new_rate_limiter
  new_rate_limiter-IsLimited = record {
    bound = refl;
    tracked = omega arith;
    burst = refl;
    within = tt;
  }

  pub new_with_verifier-IsSound :
      (peers : List K) → NoTwice peers → IsSound (new_with_verifier f peers)
  unfolding new_with_verifier Peers.new
  new_with_verifier-IsSound peers h = record {
    store_reached = Store.Reach.Reach.initial;
    peers_once = h;
    pending = omega arith;
    gossip = new_rate_limiter-IsLimited;
    resolver = new_rate_limiter-IsLimited;
    api = new_rate_limiter-IsLimited;
    dns = new_rate_limiter-IsLimited;
  }

  allow_at-keeps_bound :
      (r : RateLimiter F K) (k : K) (now : ℕ)
      → (allow_at f r k now).0.max_tracked_keys ≡ r.max_tracked_keys
  unfolding allow_at
  allow_at-keeps_bound r k now = ground arith

  allow_at-keeps_capacity :
      (r : RateLimiter F K) (k : K) (now : ℕ) → (allow_at f r k now).0.capacity ≡ r.capacity
  unfolding allow_at
  allow_at-keeps_capacity r k now = ground arith

  pub allow_at-IsLimited :
      (r : RateLimiter F K) (k : K) (now : ℕ)
      → IsFloat f
      → IsLimited r
      → IsLimited (allow_at f r k now).0
  allow_at-IsLimited r k now laws h =
      let bound = allow_at-keeps_bound r k now ∙ h.bound in
      let burst = allow_at-keeps_capacity r k now ∙ h.burst in
      record {
        bound = bound;
        tracked = ground (arith, bound, h.bound, h.tracked, allow_at-tracked f r k now);
        burst = burst;
        within =
            subst (λ c. WithinCapacity f c (allow_at f r k now).0.buckets) burst
              (allow_at-WithinCapacity f r k now laws
                (subst (λ c. f.le c c ≡ true) (sym h.burst) (laws.of_nat-le 20))
                (subst (λ c. WithinCapacity f c r.buckets) (sym h.burst) h.within));
      }

  WithinCapacity-retain :
      (cap : F) (p : K → Bucket F → Bool) (m : HashMap K (Bucket F))
      → WithinCapacity f cap m
      → WithinCapacity f cap (retain p m)
  unfolding retain
  WithinCapacity-retain cap p [] h = tt
  WithinCapacity-retain cap p ((k, b) ∷ m) h = ground (arith, WithinCapacity-retain cap p m h.1)

  pub prune_older_than-IsLimited :
      (r : RateLimiter F K) (age now : ℕ) → IsLimited r → IsLimited (prune_older_than f r age now)
  unfolding prune_older_than
  prune_older_than-IsLimited r age now h =
      let young : K → Bucket F → Bool = λ _ b. ltb (now - b.last_refill) age in
      record {
        bound = h.bound;
        tracked = omega (arith, length-retain young r.buckets, h.tracked);
        burst = h.burst;
        within = WithinCapacity-retain (f.of_nat 20) young r.buckets h.within;
      }

  -- A part of a sound node may be replaced by one that is sound.
  module _ (node : Node F K) (h : IsSound node) where
    pub with_store :
        {v : RegistryStore} → Store.Reach.Reach x v → IsSound (record node { store = v })
    with_store new = record {
      store_reached = new;
      peers_once = h.peers_once;
      pending = h.pending;
      gossip = h.gossip;
      resolver = h.resolver;
      api = h.api;
      dns = h.dns;
    }

    pub with_peers : {v : List K} → NoTwice v → IsSound (record node { peers = v })
    with_peers new = record {
      store_reached = h.store_reached;
      peers_once = new;
      pending = h.pending;
      gossip = h.gossip;
      resolver = h.resolver;
      api = h.api;
      dns = h.dns;
    }

    pub with_pending :
        {v : HashMap K PendingChallenge}
        → length v ≤ 10_000
        → IsSound (record node { pending_challenges = v })
    with_pending new = record {
      store_reached = h.store_reached;
      peers_once = h.peers_once;
      pending = new;
      gossip = h.gossip;
      resolver = h.resolver;
      api = h.api;
      dns = h.dns;
    }

    pub with_gossip :
        {v : RateLimiter F K} → IsLimited v → IsSound (record node { gossip_limiter = v })
    with_gossip new = record {
      store_reached = h.store_reached;
      peers_once = h.peers_once;
      pending = h.pending;
      gossip = new;
      resolver = h.resolver;
      api = h.api;
      dns = h.dns;
    }

    pub with_resolver :
        {v : RateLimiter F K} → IsLimited v → IsSound (record node { resolver_limiter = v })
    with_resolver new = record {
      store_reached = h.store_reached;
      peers_once = h.peers_once;
      pending = h.pending;
      gossip = h.gossip;
      resolver = new;
      api = h.api;
      dns = h.dns;
    }

    pub with_api : {v : RateLimiter F K} → IsLimited v → IsSound (record node { api_limiter = v })
    with_api new = record {
      store_reached = h.store_reached;
      peers_once = h.peers_once;
      pending = h.pending;
      gossip = h.gossip;
      resolver = h.resolver;
      api = new;
      dns = h.dns;
    }

    pub with_dns : {v : RateLimiter F K} → IsLimited v → IsSound (record node { dns_limiter = v })
    with_dns new = record {
      store_reached = h.store_reached;
      peers_once = h.peers_once;
      pending = h.pending;
      gossip = h.gossip;
      resolver = h.resolver;
      api = h.api;
      dns = new;
    }
