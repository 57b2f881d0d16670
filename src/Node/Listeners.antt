-- ===== src/Node/Listeners.antt =====
-- One round of each listener, and the maintenance task: crates/binda/src/node.rs, with the answer of
-- crates/binda-core/src/resolver.rs.
use binda.Prelude.{
  ℕ, Bool, true, false, not, Option, none, some, List, [], ◌∷◌, leb, if◌then◌else◌, length, Eq,
  nat_eq, list_eq, take,
}
use binda.Wire.{Json}
use binda.Text.{Text}
use binda.Token.{token_eq}
use binda.Domain.{DomainName}
use binda.Zone.{Record}
use binda.Client.{Externals}
use binda.ClientApi.{ClientRequest, ClientResponse}
use binda.ClientApi
use binda.Gossip.{ConformanceChallenge, GossipMessage, is_well_formed}
use binda.Store.{RegistryStore, find}
use binda.Api.{Outcome, store_of, handle_client_request}
use binda.Peers.{learn}
use binda.Peers
use binda.Store
use binda.RateLimit.{FloatOps, allow_at, prune_older_than}
use binda.Dns.{DnsQuery, AddrParser, parse_query, rcode_format_error}
use binda.Dns
use binda.Dns.Response.{build_response, build_error_response, record_matches_qtype}
use binda.Prelude.Bytes.{from_be}
use binda.Node.{Node, handle_gossip_message, prune_pending, rate_limit_prune_age, new_rate_limiter}

-- `ResolveAnswer`
pub record ResolveAnswer : Type 0 where
  pub owner_client_key : Option Text
  pub records : List Record

unfoldable pub resolve_answer : RegistryStore → DomainName → ResolveAnswer
unfolding find
resolve_answer s domain = elim (find s domain) [
  | none ↦ record { owner_client_key = none; records = [] }
  | some reg ↦ record { owner_client_key = some reg.client_key; records = reg.records }
]

-- `filter(record_matches_qtype)`
unfoldable pub matching : ℕ → List Record → List Record
unfolding record_matches_qtype
matching qtype [] = []
matching qtype (r ∷ rs) =
    if record_matches_qtype r qtype then r ∷ matching qtype rs else matching qtype rs

-- The response to a query that was read.
unfoldable pub lookup_response : AddrParser → RegistryStore → DnsQuery → List ℕ
unfolding build_response find matching
lookup_response p s query = elim (find s query.domain) [
  | none ↦ build_response p query false []
  | some reg ↦ build_response p query true (matching query.qtype reg.records)
]

-- The response to a datagram: a query that is malformed is answered where it has an identifier.
unfoldable pub answer_lookup : AddrParser → RegistryStore → List ℕ → Option (List ℕ)
unfolding parse_query lookup_response build_error_response
answer_lookup p s datagram = elim (parse_query datagram) [
  | none ↦ none
  | some (Dns.ok query) ↦ some (lookup_response p s query)
  | some (Dns.err error) ↦
      if leb 2 (length datagram)
      then some (build_error_response (from_be (take 2 datagram)) rcode_format_error)
      else none
]

-- What the verifier says of a registration's rdns; another request needs no check.
unfoldable pub rdns_verified : {K : Type 0} → (K → Text → Bool) → K → ClientRequest → Bool
rdns_verified verifier from (ClientApi.probe envelope) = true
rdns_verified verifier from (ClientApi.register envelope) = verifier from envelope.rdns
rdns_verified verifier from (ClientApi.set_records envelope) = true

module _ {F K : Type 0} ⦃e : Eq K⦄ where
  -- `Node::new_with_verifier`, less the clock and the verifier, which the handlers take as arguments.
  unfoldable pub new_with_verifier : FloatOps F → List K → Node F K
  unfolding new_rate_limiter Store.new Peers.new
  new_with_verifier f peers = record {
    store = Store.new;
    peers = Peers.new peers;
    gossip_limiter = new_rate_limiter f;
    resolver_limiter = new_rate_limiter f;
    api_limiter = new_rate_limiter f;
    dns_limiter = new_rate_limiter f;
    pending_challenges = [];
  }

  -- One round of `gossip_recv_loop`; `none` is a datagram that does not decode.
  unfoldable pub receive_gossip :
      FloatOps F
      → Externals
      → Json GossipMessage
      → Node F K
      → ℕ
      → ℕ
      → ConformanceChallenge
      → K
      → Option GossipMessage
      → Node F K × Option (List ℕ)
  unfolding handle_gossip_message
  receive_gossip f x j node now instant fresh from decoded =
      let (limiter, allowed) = allow_at f node.gossip_limiter from instant in
      let limited : Node F K = record node { gossip_limiter = limiter } in
      if not allowed then (limited, none) else elim decoded [
        | none ↦ (limited, none)
        | some msg ↦
            let learnt : Node F K = record limited { peers = learn node.peers from } in
            if not (is_well_formed msg)
            then (limited, none)
            else handle_gossip_message x j learnt now instant fresh from msg
      ]

  -- One round of the client API: the rdns of a registration is checked first.
  unfoldable pub answer_client :
      FloatOps F
      → Externals
      → (K → Text → Bool)
      → Node F K
      → ℕ
      → ℕ
      → List ℕ
      → K
      → Option ClientRequest
      → Node F K × Option Outcome
  unfolding handle_client_request rdns_verified
  answer_client f x verifier node now instant nonce from decoded =
      let (limiter, allowed) = allow_at f node.api_limiter from instant in
      let limited : Node F K = record node { api_limiter = limiter } in
      if not allowed then (limited, none) else elim decoded [
        | none ↦ (limited, none)
        | some req ↦
            let outcome =
              handle_client_request x node.store now nonce req (rdns_verified verifier from req) in
            (record limited { store = store_of outcome }, some outcome)
      ]

  -- One round of the name-lookup listener.
  unfoldable pub answer_dns :
      FloatOps F → AddrParser → Node F K → ℕ → K → List ℕ → Node F K × Option (List ℕ)
  unfolding answer_lookup
  answer_dns f p node instant from datagram =
      let (limiter, allowed) = allow_at f node.dns_limiter from instant in
      let limited : Node F K = record node { dns_limiter = limiter } in
      (limited, if allowed then answer_lookup p node.store datagram else none)

  -- One round of the resolver.
  unfoldable pub answer_resolve :
      FloatOps F → Node F K → ℕ → K → Option DomainName → Node F K × Option ResolveAnswer
  unfolding resolve_answer
  answer_resolve f node instant from decoded =
      let (limiter, allowed) = allow_at f node.resolver_limiter from instant in
      let limited : Node F K = record node { resolver_limiter = limiter } in
      if not allowed then (limited, none) else elim decoded [
        | none ↦ (limited, none)
        | some domain ↦ (limited, some (resolve_answer node.store domain))
      ]

  -- One tick of the maintenance task.
  unfoldable pub maintain : FloatOps F → Node F K → ℕ → Node F K
  unfolding prune_pending
  maintain f node instant = record node {
    gossip_limiter = prune_older_than f node.gossip_limiter rate_limit_prune_age instant;
    resolver_limiter = prune_older_than f node.resolver_limiter rate_limit_prune_age instant;
    api_limiter = prune_older_than f node.api_limiter rate_limit_prune_age instant;
    dns_limiter = prune_older_than f node.dns_limiter rate_limit_prune_age instant;
    pending_challenges = prune_pending node.pending_challenges instant;
  }
