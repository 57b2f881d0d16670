-- ===== src/Node/Exchange.antt =====
-- A digest, the request it provokes, and the rumors that answer it: crates/binda/src/node.rs.
use binda.Prelude.{
  ℕ, ◌≡◌, refl, ap, ◌∙◌, ◌⊎◌, inl, inr, true, none, some, List, ◌∷◌, arith, if◌then◌else◌,
  Bool-cases, Eq, ◌==◌, nat_eq, list_eq, ==_refl, subst,
}
use binda.Wire.{Json, encode}
use binda.Wire
use binda.Gossip.{GossipMessage}
use binda.Node.{frame_of}
use binda.Prelude.Map.{lookup, lookup-insert, lookup-remove}
use binda.Domain.{DomainName}
use binda.Token.{RegistrationToken, token_eq}
use binda.Client.{Externals}
use binda.Gossip.{
  RegistrationRumor, ConformanceChallenge, expected_answer, DigestEntry, is_well_formed,
  digest_domains, digest, request, rumors,
}
use binda.Gossip.Contract.{NoRepeat, unique_domains_iff}
use binda.Node.{
  Node, PendingChallenge, missing, rumors_for, answer_request, adopt_all, is_accepted,
  expect_answer, make_room, handle_gossip_message,
}
use binda.Node.Requests.{Answers, is_accepted_iff, rumors_for-valid, missing-NoRepeat}

module _ {F K : Type 0} ⦃e : Eq K⦄ where
  handle_gossip_message-store :
      (x : Externals) (j : Json GossipMessage) (node : Node F K) (now instant : ℕ)
      (fresh : ConformanceChallenge) (from : K) (rs : List RegistrationRumor)
      (answer : RegistrationToken)
      → (handle_gossip_message x j node now instant fresh from (rumors rs answer)).0.store ≡ (
          if is_accepted (lookup from node.pending_challenges) rs answer
          then adopt_all x node.store rs now
          else node.store)
  unfolding handle_gossip_message
  handle_gossip_message-store x j node now instant fresh from rs answer = refl

  -- Rumors that answer the sender's pending challenge, with the expected answer and only domains that
  -- were asked for, each at most once, are adopted by the store in their order; any others leave the
  -- store as it was. In both cases the sender's challenge is used up, the other addresses' challenges
  -- stay, and nothing is sent.
  pub handle_gossip_message-rumors :
      (x : Externals) (j : Json GossipMessage) (node : Node F K) (now instant : ℕ)
      (fresh : ConformanceChallenge) (from : K) (rs : List RegistrationRumor)
      (answer : RegistrationToken)
      → let after = handle_gossip_message x j node now instant fresh from (rumors rs answer) in
        ((Answers (lookup from node.pending_challenges) rs answer
            × (after.0.store ≡ adopt_all x node.store rs now))
          ⊎ ((¬ Answers (lookup from node.pending_challenges) rs answer)
              × (after.0.store ≡ node.store)))
        × ((a : K)
            → lookup a after.0.pending_challenges
              ≡ (if from == a then none else lookup a node.pending_challenges))
        × (after.1 ≡ none)
  unfolding handle_gossip_message
  handle_gossip_message-rumors x j node now instant fresh from rs answer =
      let found = lookup from node.pending_challenges in
      let accepted = is_accepted_iff found rs answer in
      let stored = handle_gossip_message-store x j node now instant fresh from rs answer in
      (
        elim (Bool-cases (is_accepted found rs answer)) [
          | inl q ↦ inl (accepted.0 q, stored ∙ rw (q) refl)
          | inr q ↦ inr (λ h. absurd (ground (arith, q, accepted.1 h)), stored ∙ rw (q) refl)
        ],
        λ a. lookup-remove from a node.pending_challenges,
        refl,
      )

  handle_gossip_message-digest :
      (x : Externals) (j : Json GossipMessage) (node : Node F K) (now instant : ℕ)
      (fresh : ConformanceChallenge) (from : K) (entries : List DigestEntry) (d : DomainName)
      (ds : List DomainName)
      → missing node.store entries ≡ d ∷ ds
      → handle_gossip_message x j node now instant fresh from (digest entries) ≡ (
        record node {
          pending_challenges =
              expect_answer node.pending_challenges from
                (record { challenge = fresh; requested = d ∷ ds; issued_at = instant });
        },
        frame_of j (request (d ∷ ds) fresh),
      )
  unfolding handle_gossip_message
  handle_gossip_message-digest x j node now instant fresh from entries d ds q =
      rw (handle_gossip_message, q) refl

  -- Between two honest nodes the exchange succeeds, where the digest is well formed and names something
  -- that the node misses, and where the request and the answer to it each fit a datagram: the node
  -- sends the request; the other node, with whatever store and state, sends the answer; and the
  -- answer passes the node's checks, so that it adopts all its rumors in their order.
  pub handle_gossip_message_exchange :
      (x : Externals) (j : Json GossipMessage) (node other : Node F K) (now instant later : ℕ)
      (fresh unused : ConformanceChallenge) (from to : K) (entries : List DigestEntry)
      (d : DomainName) (ds : List DomainName) (request_bytes answer_bytes : List ℕ)
      → is_well_formed (digest entries) ≡ true
      → missing node.store entries ≡ d ∷ ds
      → encode j (request (d ∷ ds) fresh) ≡ Wire.ok request_bytes
      → encode j (answer_request other.store (d ∷ ds) fresh) ≡ Wire.ok answer_bytes
      → let asked = handle_gossip_message x j node now instant fresh from (digest entries) in
        let answered =
          handle_gossip_message x j other now instant unused to (request (d ∷ ds) fresh) in
        (asked.1 ≡ some request_bytes)
        × (answered.1 ≡ some answer_bytes)
        × ((handle_gossip_message x j asked.0 now later fresh from
              (answer_request other.store (d ∷ ds) fresh)).0.store
            ≡ adopt_all x node.store (rumors_for other.store (d ∷ ds)) now)
  unfolding handle_gossip_message frame_of answer_request expect_answer is_well_formed
  handle_gossip_message_exchange x j node other now instant later fresh unused from to entries d ds
        request_bytes answer_bytes w q fits_request fits_answer =
      let p : PendingChallenge = record {
        challenge = fresh;
        requested = d ∷ ds;
        issued_at = instant;
      } in
      let once : NoRepeat (digest_domains entries) =
        (unique_domains_iff (digest_domains entries)).0 (ground (arith, w)) in
      let asked : NoRepeat (d ∷ ds) = subst NoRepeat q (missing-NoRepeat node.store entries once) in
      let (all, single) = rumors_for-valid other.store (d ∷ ds) asked in
      let accepted : is_accepted (some p) (rumors_for other.store (d ∷ ds)) (expected_answer fresh)
          ≡ true =
        (is_accepted_iff (some p) (rumors_for other.store (d ∷ ds)) (expected_answer fresh)).1
          (p, refl, refl, all, single) in
      let pending : lookup from (expect_answer node.pending_challenges from p) ≡ some p =
        lookup-insert from from p (make_room node.pending_challenges from)
        ∙ rw (==_refl from) refl in
      let sent = handle_gossip_message-digest x j node now instant fresh from entries d ds q in
      let waiting : Node F K = record node {
        pending_challenges = expect_answer node.pending_challenges from p;
      } in
      (
        ap (λ r. r.1) sent ∙ rw (fits_request, frame_of) refl,
        rw (fits_answer, frame_of) refl,
        ap
              (λ r.
                (handle_gossip_message x j r.0 now later fresh from
                  (answer_request other.store (d ∷ ds) fresh)).0.store)
              sent
            ∙ handle_gossip_message-store x j waiting now later fresh from
                (rumors_for other.store (d ∷ ds)) (expected_answer fresh)
            ∙ rw (pending, accepted) refl,
      )
