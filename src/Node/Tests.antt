-- ===== src/Node/Tests.antt =====
-- Instances for crates/binda/src/node.rs, with ports for addresses and whole tokens for floats.
use binda.Prelude.{
  ℕ, ◌+◌, ◌≡◌, refl, ◌↔◌, ◌⊎◌, true, Option, none, some, List, [], ◌∷◌, arith, if◌then◌else◌, ◌==◌,
  nat_eq, list_eq,
}
use binda.Store.{claim_order}
use binda.Prelude.Bytes.{compare_bytes, be_onto}
use binda.Token.{raw_ordering_key}
use binda.Liveness
use binda.Token.{issue}
use binda.Samples.{client}
use binda.Client.{quota_key, quota_key_of}
use binda.Text.{is_whitespace, drop_while, trim, trim_end_matches, to_ascii_lowercase, ascii_lower}
use binda.Liveness.{
  record_probe, is_live, registration_count, expired_clients, forget_client_by_key,
}
use binda.Store.{
  RegistryStore, probe, reclaim_stale, drop_expired, forget_all, reconcile_all, reconcile_quota,
  live_claims, winners_of, install_all, install, without_replicas,
}
use binda.Store.Evidence.{adopt_rumor, add_claim}
use binda.Store.Register.{register, ok}
use binda.Store.Admission.{held}
use binda.Node.Quota.{register_past_replicas}
use binda.Prelude.Map.{insert, remove, retain, contains_key}
use binda.Prelude.Sort.{sort_by}
use binda.Wire.{Json, encode, limited}
use binda.Samples.{registration}
use binda.Prelude.Map.{lookup}
use binda.Collision.{higher_wins}
use binda.Gossip.{
  ConformanceChallenge, DigestEntry, GossipMessage, digest, request, rumors, is_well_formed,
  unique_domains, unique_from, contains,
}
use binda.Store.{new, find}
use binda.RateLimit.{RateLimiter}
use binda.Node.{
  Node, PendingChallenge, missing, is_accepted, adopt_all, rumors_for, answer_request,
  handle_gossip_message,
}
use binda.Node.Exchange.{handle_gossip_message-rumors, handle_gossip_message_exchange}
use binda.Node.Requests.{Answers, is_accepted_iff}
use binda.Samples.{externals, token, name, host, rumor, whole, whole-IsFloat}
use binda.Node.Leases.{find-adopt_all, find_in_any_order}
use binda.Store.Leases.{lease_of, claim_on}
use binda.Store.{registration_from_rumor}
use mathlib.Core.Option
use binda.Node.Reach.{NodeStep, NodeReach, NodeReach-IsSound}
use binda.Node.Sound.{IsSound}
use binda.Peers.{known}
use binda.Node.Listeners.{new_with_verifier, receive_gossip}
use binda.Store.Names.{IsAcceptable, Differ, first_five}
use binda.Prelude.All.{All}
use binda.Prelude.Rearranged.{Pair}
use mathlib.Core.List.{Permᴰ}
use binda.Text.{Text, codes, hex_digit}
use binda.Client.{key, hex_encode, verify}
use binda.Gossip.{RegistrationRumor, is_authorized, records_authorized}
use binda.Store.{lease_is_live}
use binda.Liveness.{within_window}

abbrev limiter : RateLimiter ℕ ℕ
limiter = record { capacity = 20; refill_per_sec = 10; max_tracked_keys = 5; buckets = [] }

abbrev challenge : ConformanceChallenge
challenge = record { token_a = token 1 0; token_b = token 2 0; condition = higher_wins }

abbrev asked : PendingChallenge
asked = record { challenge = challenge; requested = name ∷ []; issued_at = 3 }

abbrev node : Node ℕ ℕ
node = record {
  store = new;
  peers = [];
  gossip_limiter = limiter;
  resolver_limiter = limiter;
  api_limiter = limiter;
  dns_limiter = limiter;
  pending_challenges = (9000, asked) ∷ [];
}

abbrev entries : List DigestEntry
entries = record { domain = name; issued_at_millis = 7 } ∷ []

is_accepted_iff_example :
    (is_accepted (some asked) [] (token 2 0) ≡ true) ↔ Answers (some asked) [] (token 2 0)
is_accepted_iff_example = is_accepted_iff (some asked) [] (token 2 0)

-- Each kind of message is written as one byte.
abbrev json : Json GossipMessage
json = record {
  to_vec = λ m. elim m [
    | digest _ ↦ some (0 ∷ [])
    | request _ _ ↦ some (1 ∷ [])
    | rumors _ _ ↦ some (2 ∷ [])
  ];
  from_slice = λ bytes. none;
}

-- A node with a registration to tell of.
abbrev other : Node ℕ ℕ
other = record node {
  store = record new {
    registrations = (name, registration 7 (codes "k") host (some (rumor 7 name (codes "k")))) ∷ [];
  };
}

abbrev after : Node ℕ ℕ × Option (List ℕ)
after =
    handle_gossip_message (externals true) json node 10 20 challenge 9000 (rumors [] (token 2 0))

handle_gossip_message-rumors_example :
    ((Answers (lookup 9000 node.pending_challenges) [] (token 2 0)
        × (after.0.store ≡ adopt_all (externals true) new [] 10))
      ⊎ ((¬ Answers (lookup 9000 node.pending_challenges) [] (token 2 0)) × (after.0.store ≡ new)))
    × ((a : ℕ)
        → lookup a after.0.pending_challenges
          ≡ (if 9000 == a then none else lookup a node.pending_challenges))
    × (after.1 ≡ none)
handle_gossip_message-rumors_example =
    handle_gossip_message-rumors (externals true) json node 10 20 challenge 9000 [] (token 2 0)

well_formed : is_well_formed (digest entries) ≡ true
unfolding is_well_formed unique_domains unique_from contains
well_formed = refl

missed : missing new entries ≡ name ∷ []
unfolding missing new find lookup
missed = refl

handle_gossip_message_exchange_example :
    let asked =
      handle_gossip_message (externals true) json node 10 20 challenge 9000 (digest entries) in
    let answered =
      handle_gossip_message
        (externals true)
        json
        other
        10
        20
        challenge
        9001
        (request (name ∷ []) challenge) in
    (asked.1 ≡ some (1 ∷ []))
    × (answered.1 ≡ some (2 ∷ []))
    × ((handle_gossip_message
          (externals true)
          json
          asked.0
          10
          30
          challenge
          9000
          (answer_request other.store (name ∷ []) challenge)).0.store
        ≡ adopt_all (externals true) new (rumors_for other.store (name ∷ [])) 10)
unfolding encode limited answer_request
handle_gossip_message_exchange_example =
    handle_gossip_message_exchange (externals true) json node other 10 20 30 challenge challenge
      9000 9001 entries name [] (1 ∷ []) (2 ∷ []) well_formed missed refl refl

abbrev owner : Text
owner = codes "0101010101010101010101010101010101010101010101010101010101010101@a.net"

-- Two claims of one host, on different names.
abbrev claims : List RegistrationRumor
claims = rumor 5 (codes "x") owner ∷ rumor 3 (codes "y") owner ∷ []

abbrev swapped : List RegistrationRumor
swapped = rumor 3 (codes "y") owner ∷ rumor 5 (codes "x") owner ∷ []

program : Unit {0}
unfolding is_authorized verify records_authorized key hex_encode hex_digit lease_is_live
    within_window unique_domains new probe record_probe is_live registration_count quota_key
    quota_key_of trim trim_end_matches is_whitespace drop_while to_ascii_lowercase ascii_lower
    adopt_all adopt_rumor add_claim reconcile_quota live_claims winners_of install_all install
    without_replicas registration_from_rumor reclaim_stale drop_expired forget_all reconcile_all
    expired_clients forget_client_by_key find lookup insert remove retain contains_key contains
    sort_by Liveness.new
program = tt

acceptable : All (IsAcceptable (externals true) 10) claims
unfolding program
acceptable = ((refl, refl, (refl, tt)), ((refl, refl, (refl, tt)), tt))

different : Pair Differ claims
different = ((refl, tt), (tt, tt))

-- A node that has had one digest.
abbrev running : Node ℕ ℕ
running =
    (receive_gossip whole (externals true) json (new_with_verifier whole (9000 ∷ [])) 10 20
      challenge 9001 (some (digest entries))).0

running_reached : NodeReach whole (externals true) (9000 ∷ []) running
running_reached = NodeReach.next NodeReach.started (
    NodeStep.gossiped json (new_with_verifier whole (9000 ∷ [])) 10 20 challenge 9001
      (some (digest entries)))

NodeReach-IsSound_example : IsSound whole (externals true) running
unfolding known
NodeReach-IsSound_example =
    NodeReach-IsSound whole (externals true) whole-IsFloat (9000 ∷ []) running (refl, tt)
      running_reached

find-adopt_all_example :
    lease_of host (find (adopt_all (externals true) new claims 10) name)
    ≡ Option.map (λ r. registration_from_rumor r host) (claim_on name (first_five host claims))
find-adopt_all_example = find-adopt_all (externals true) 10 host name claims acceptable different

find_in_any_order_example :
    find (adopt_all (externals true) new claims 10) name
    ≡ find (adopt_all (externals true) new swapped 10) name
find_in_any_order_example =
    find_in_any_order (externals true) 10 name claims swapped (Permᴰ.swap refl refl) acceptable
      different

-- Five leases of one host.
abbrev five : List RegistrationRumor
five =
    rumor 1 (codes "a") owner
    ∷ rumor 2 (codes "b") owner
    ∷ rumor 3 (codes "c") owner
    ∷ rumor 4 (codes "d") owner
    ∷ rumor 5 (codes "e") owner
    ∷ []

-- A store in which the host has probed.
abbrev live_store : RegistryStore
live_store = probe new (client 1) 5

live : is_live live_store.liveness (client 1) 20 ≡ true
unfolding program
live = refl

free :
    find (reclaim_stale (externals true) 20 (adopt_all (externals true) live_store five 10)) name
    ≡ none
unfolding program claim_order compare_bytes raw_ordering_key be_onto
free = refl

register_past_replicas_example :
    let adopted = adopt_all (externals true) live_store five 10 in
    let after = register (externals true) adopted name (client 1) 20 (token 0 4).nonce in
    (after.1 ≡ ok (issue 20 (token 0 4).nonce))
    × (held (quota_key (client 1)) after.0.registrations
        ≡ held (quota_key (client 1)) (reclaim_stale (externals true) 20 adopted).registrations + 1)
unfolding program
register_past_replicas_example =
    register_past_replicas (externals true) live_store five 10 20 name (client 1) (token 0 4).nonce
      (refl, tt) live (omega arith) free
