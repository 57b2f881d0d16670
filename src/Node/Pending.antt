-- ===== src/Node/Pending.antt =====
-- The table of pending challenges is bounded: crates/binda/src/node.rs.
use binda.Prelude.{
  ℕ, ◌≤◌, ◌≡◌, refl, ◌⊎◌, inl, inr, true, none, some, [], ◌∷◌, arith, leb, Bool-cases, length, Eq,
  nat_eq, list_eq, ==_refl,
}
use binda.Wire.{Json}
use binda.Prelude.Map.{
  HashMap, remove, contains_key, length-insert, length-remove_lt, length-remove,
}
use binda.Client.{Externals}
use binda.Gossip.{ConformanceChallenge, GossipMessage, digest, request, rumors}
use binda.Node.{
  Node, PendingChallenge, max_pending_challenges, oldest_challenge, make_room, expect_answer,
  missing, handle_gossip_message,
}

module _ {K : Type 0} ⦃e : Eq K⦄ where
  oldest_challenge-tracked :
      (m : HashMap K PendingChallenge)
      → (oldest_challenge m ≡ none) × (m ≡ [])
        ⊎ ((best : K × ℕ) × (oldest_challenge m ≡ some best) × (contains_key best.0 m ≡ true))
  unfolding oldest_challenge contains_key
  oldest_challenge-tracked [] = inl (refl, refl)
  oldest_challenge-tracked ((k, p) ∷ m) = elim (oldest_challenge-tracked m) [
    | inl (q, _) ↦ inr ((k, p.issued_at), rw (oldest_challenge, q) refl, ground (arith, ==_refl k))
    | inr (best, q, tracked) ↦ elim (Bool-cases (leb p.issued_at best.1)) [
      | inl older ↦
          inr ((k, p.issued_at), rw (oldest_challenge, q, older) refl, ground (arith, ==_refl k))
      | inr newer ↦ inr (best, rw (oldest_challenge, q, newer) refl, ground (arith, tracked))
    ]
  ]

  pub length-expect_answer-le :
      (m : HashMap K PendingChallenge) (from : K) (p : PendingChallenge)
      → length m ≤ max_pending_challenges
      → length (expect_answer m from p) ≤ max_pending_challenges
  unfolding expect_answer make_room
  length-expect_answer-le m from p h = elim (oldest_challenge-tracked m) [
    | inl (q, empty) ↦ ground (arith, q, empty, length-insert from p m)
    | inr (best, q, tracked) ↦ ground (
      arith,
      q,
      length-insert from p m,
      length-insert from p (remove best.0 m),
      length-remove_lt best.0 m tracked,
    )
  ]

module _ {F K : Type 0} ⦃e : Eq K⦄ where
  -- However many messages come in, from however many addresses, no more challenges are pending than
  -- the bound: each message keeps the number within it.
  pub handle_gossip_message-pending :
      (x : Externals) (j : Json GossipMessage) (node : Node F K) (now instant : ℕ)
      (fresh : ConformanceChallenge) (from : K) (msg : GossipMessage)
      → length node.pending_challenges ≤ max_pending_challenges
      → length (handle_gossip_message x j node now instant fresh from msg).0.pending_challenges
        ≤ max_pending_challenges
  unfolding handle_gossip_message
  handle_gossip_message-pending x j node now instant fresh from (digest entries) h =
      elim (missing node.store entries)
          as (λ ds.
            missing node.store entries ≡ ds
            → length
                (handle_gossip_message x j node now instant fresh from
                  (digest entries)).0.pending_challenges
              ≤ max_pending_challenges) [
                | [] ↦ λ q. rw (handle_gossip_message, q) h
                | d ∷ ds ↦ λ q.
                    rw (handle_gossip_message, q)
                      (length-expect_answer-le node.pending_challenges from
                        (record { challenge = fresh; requested = d ∷ ds; issued_at = instant }) h)
              ]
        refl
  handle_gossip_message-pending x j node now instant fresh from (request domains challenge) h = h
  handle_gossip_message-pending x j node now instant fresh from (rumors rs answer) h =
      omega (arith, length-remove from node.pending_challenges)
