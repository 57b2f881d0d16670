-- ===== src/Node/Reach.antt =====
-- The states that a node can take by messages and by its maintenance: crates/binda/src/node.rs.
use binda.Prelude.{
  ℕ, ◌-◌, ◌≡◌, refl, ◌⊎◌, inl, inr, Bool, Option, List, [], ◌∷◌, arith, ltb, Bool-cases,
  Option-cases, Eq, nat_eq, list_eq,
}
use binda.Wire.{Json}
use binda.Prelude.Map.{length-retain, length-remove, lookup, remove}
use binda.Text.{Text}
use binda.Client.{Externals}
use binda.ClientApi.{ClientRequest}
use binda.Gossip.{
  ConformanceChallenge, GossipMessage, digest, request, rumors, RegistrationRumor, is_well_formed,
}
use binda.Store.{RegistryStore}
use binda.Store.Reach.{Step, Reach-IsCapped}
use binda.Store.Evidence.{adopt_rumor}
use binda.Api.Steps.{handle_client_request_reaches}
use binda.Peers.{NoTwice, learn, learn_lem}
use binda.RateLimit.{FloatOps, IsFloat, allow_at}
use binda.Dns.{AddrParser}
use binda.Node.{
  Node, adopt_all, handle_gossip_message, rate_limit_prune_age, missing, DomainName,
  PendingChallenge, is_accepted, pending_challenge_timeout,
}
use binda.Node.Pending.{length-expect_answer-le}
use binda.Node.Listeners.{
  new_with_verifier, receive_gossip, answer_client, answer_dns, answer_resolve, maintain,
  rdns_verified,
}
use binda.Store.Reach
use binda.Store
use binda.Node.Sound.{
  IsSound, allow_at-IsLimited, prune_older_than-IsLimited, with_store, with_peers, with_pending,
  with_gossip, with_resolver, with_api, with_dns, new_with_verifier-IsSound,
}

List-cases :
    (ds : List DomainName) → (ds ≡ []) ⊎ ((p : DomainName × List DomainName) × (ds ≡ p.0 ∷ p.1))
List-cases [] = inl refl
List-cases (d ∷ ds) = inr ((d, ds), refl)

adopt_all_reaches :
    (x : Externals) (s : RegistryStore) (rs : List RegistrationRumor) (now : ℕ)
    → Store.Reach.Reach x s
    → Store.Reach.Reach x (adopt_all x s rs now)
unfolding adopt_all
adopt_all_reaches x s [] now h = h
adopt_all_reaches x s (r ∷ rs) now h =
    adopt_all_reaches x (adopt_rumor x s r now).0 rs now
      (Store.Reach.Reach.next h (Step.adopted s r now))

module _ {F K : Type 0} ⦃e : Eq K⦄ (f : FloatOps F) (x : Externals) where
  -- One message, or one tick of the maintenance task, with any arguments.
  pub data NodeStep : Node F K → Node F K → Type 0 where
    gossiped :
        (j : Json GossipMessage) (node : Node F K) (now instant : ℕ) (fresh : ConformanceChallenge)
        (from : K) (decoded : Option GossipMessage)
        → NodeStep node (receive_gossip f x j node now instant fresh from decoded).0
    asked :
        (verifier : K → Text → Bool) (node : Node F K) (now instant : ℕ) (nonce : List ℕ) (from : K)
        (decoded : Option ClientRequest)
        → NodeStep node (answer_client f x verifier node now instant nonce from decoded).0
    looked_up :
        (p : AddrParser) (node : Node F K) (instant : ℕ) (from : K) (datagram : List ℕ)
        → NodeStep node (answer_dns f p node instant from datagram).0
    resolved :
        (node : Node F K) (instant : ℕ) (from : K) (decoded : Option DomainName)
        → NodeStep node (answer_resolve f node instant from decoded).0
    maintained : (node : Node F K) (instant : ℕ) → NodeStep node (maintain f node instant)

  -- The states of a node that started with the peers.
  pub data NodeReach (peers : List K) : Node F K → Type 0 where
    started : NodeReach peers (new_with_verifier f peers)
    next :
        {node after : Node F K} → NodeReach peers node → NodeStep node after → NodeReach peers after

  handle_gossip_message-IsSound :
      (j : Json GossipMessage) (node : Node F K) (now instant : ℕ) (fresh : ConformanceChallenge)
      (from : K) (msg : GossipMessage)
      → IsSound f x node
      → IsSound f x (handle_gossip_message x j node now instant fresh from msg).0
  unfolding handle_gossip_message
  handle_gossip_message-IsSound j node now instant fresh from (digest entries) h =
      elim (List-cases (missing node.store entries)) [
        | inl q ↦ rw (q, handle_gossip_message) h
        | inr ((d, ds), q) ↦
            rw (q, handle_gossip_message)
              (with_pending f x node h (
                length-expect_answer-le node.pending_challenges from
                  (record { challenge = fresh; requested = d ∷ ds; issued_at = instant })
                  h.pending))
      ]
  handle_gossip_message-IsSound j node now instant fresh from (request domains challenge) h = h
  handle_gossip_message-IsSound j node now instant fresh from (rumors rs answer) h =
      let fewer =
        with_pending f x node h
          (omega (arith, h.pending, length-remove from node.pending_challenges)) in
      elim (Bool-cases (is_accepted (lookup from node.pending_challenges) rs answer)) [
        | inl q ↦
            rw (q, handle_gossip_message)
              (with_store f x
                (record node { pending_challenges = remove from node.pending_challenges }) fewer
                (adopt_all_reaches x node.store rs now h.store_reached))
        | inr q ↦ rw (q, handle_gossip_message) fewer
      ]

  module _ (laws : IsFloat f) where
    receive_gossip-IsSound :
        (j : Json GossipMessage) (node : Node F K) (now instant : ℕ) (fresh : ConformanceChallenge)
        (from : K) (decoded : Option GossipMessage)
        → IsSound f x node
        → IsSound f x (receive_gossip f x j node now instant fresh from decoded).0
    unfolding receive_gossip
    receive_gossip-IsSound j node now instant fresh from decoded h =
        let limited =
          with_gossip f x node h
            (allow_at-IsLimited f x node.gossip_limiter from instant laws h.gossip) in
        elim (Bool-cases (allow_at f node.gossip_limiter from instant).1) [
          | inr q ↦ rw (q, receive_gossip) limited
          | inl q ↦ elim (Option-cases decoded) [
            | inl d ↦ rw (q, d, receive_gossip) limited
            | inr (msg, d) ↦ elim (Bool-cases (is_well_formed msg)) [
              | inl w ↦
                  rw (q, d, w, receive_gossip)
                    (handle_gossip_message-IsSound j
                      (record node {
                        gossip_limiter = (allow_at f node.gossip_limiter from instant).0;
                        peers = learn node.peers from;
                      })
                      now instant fresh from msg
                      (with_peers f x
                        (record node {
                          gossip_limiter = (allow_at f node.gossip_limiter from instant).0;
                        })
                        limited (learn_lem node.peers from h.peers_once).0))
              | inr w ↦ rw (q, d, w, receive_gossip) limited
            ]
          ]
        ]

    answer_client-IsSound :
        (verifier : K → Text → Bool) (node : Node F K) (now instant : ℕ) (nonce : List ℕ) (from : K)
        (decoded : Option ClientRequest)
        → IsSound f x node
        → IsSound f x (answer_client f x verifier node now instant nonce from decoded).0
    unfolding answer_client
    answer_client-IsSound verifier node now instant nonce from decoded h =
        let limited =
          with_api f x node h (allow_at-IsLimited f x node.api_limiter from instant laws h.api) in
        elim (Bool-cases (allow_at f node.api_limiter from instant).1) [
          | inr q ↦ rw (q, answer_client) limited
          | inl q ↦ elim (Option-cases decoded) [
            | inl d ↦ rw (q, d, answer_client) limited
            | inr (req, d) ↦
                rw (q, d, answer_client)
                  (with_store f x
                    (record node { api_limiter = (allow_at f node.api_limiter from instant).0 })
                    limited
                    (handle_client_request_reaches x node.store now h.store_reached nonce req
                      (rdns_verified verifier from req)))
          ]
        ]

    answer_resolve-IsSound :
        (node : Node F K) (instant : ℕ) (from : K) (decoded : Option DomainName)
        → IsSound f x node
        → IsSound f x (answer_resolve f node instant from decoded).0
    unfolding answer_resolve
    answer_resolve-IsSound node instant from decoded h =
        let limited =
          with_resolver f x node h
            (allow_at-IsLimited f x node.resolver_limiter from instant laws h.resolver) in
        elim (Bool-cases (allow_at f node.resolver_limiter from instant).1) [
          | inr q ↦ rw (q, answer_resolve) limited
          | inl q ↦ elim (Option-cases decoded) [
            | inl d ↦ rw (q, d, answer_resolve) limited
            | inr (domain, d) ↦ rw (q, d, answer_resolve) limited
          ]
        ]

    NodeStep-IsSound :
        {node after : Node F K} → NodeStep node after → IsSound f x node → IsSound f x after
    unfolding answer_dns maintain
    NodeStep-IsSound (gossiped j node now instant fresh from decoded) h =
        receive_gossip-IsSound j node now instant fresh from decoded h
    NodeStep-IsSound (asked verifier node now instant nonce from decoded) h =
        answer_client-IsSound verifier node now instant nonce from decoded h
    NodeStep-IsSound (looked_up p node instant from datagram) h =
        with_dns f x node h (allow_at-IsLimited f x node.dns_limiter from instant laws h.dns)
    NodeStep-IsSound (resolved node instant from decoded) h =
        answer_resolve-IsSound node instant from decoded h
    NodeStep-IsSound (maintained node instant) h =
        let young : K → PendingChallenge → Bool =
          λ k p. ltb (instant - p.issued_at) pending_challenge_timeout in
        record {
          store_reached = h.store_reached;
          peers_once = h.peers_once;
          pending = omega (arith, h.pending, length-retain young node.pending_challenges);
          gossip =
              prune_older_than-IsLimited f x node.gossip_limiter rate_limit_prune_age instant
                h.gossip;
          resolver =
              prune_older_than-IsLimited f x node.resolver_limiter rate_limit_prune_age instant
                h.resolver;
          api = prune_older_than-IsLimited f x node.api_limiter rate_limit_prune_age instant h.api;
          dns = prune_older_than-IsLimited f x node.dns_limiter rate_limit_prune_age instant h.dns;
        }

    -- In every state that a node reaches from its start with different peers, by any messages at any
    -- times from anyone: its store is one that the store's methods reach from the empty one; its
    -- peers are still all different; at most 10,000 challenges are pending; and each of the four
    -- limiters tracks at most 100,000 addresses, none with more than 20 tokens. A float is a number
    -- type whose order keeps the laws that are named.
    pub NodeReach-IsSound :
        (peers : List K) (node : Node F K) → NoTwice peers → NodeReach peers node → IsSound f x node
    NodeReach-IsSound peers node n started = new_with_verifier-IsSound f x peers n
    NodeReach-IsSound peers node n (next {node = before} h step) =
        NodeStep-IsSound step (NodeReach-IsSound peers before n h)
