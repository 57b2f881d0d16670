-- ===== src/Node.antt =====
-- The node's message handlers: crates/binda/src/node.rs. A handler takes the state that it locks and
-- gives it back with the messages that it sends; sockets, tasks and locks are left out, and a
-- message is handled to its end before the next. `now` is the clock of the store, in milliseconds;
-- `instant` is the monotonic clock.
pub mod Listeners
pub mod Convergence
pub mod Leases
pub mod Sound
pub mod Reach
pub mod Exchange
pub mod Pending
pub mod Requests
pub mod Quota
mod Tests
use binda.Prelude.{
  ℕ, zero, suc, ◌+◌, ◌-◌, ◌*◌, ◌/◌, ◌%◌, ◌^◌, ◌≤◌, ◌<◌, compare, Ordering, ◌≡◌, refl, sym, ap, ◌∙◌,
  ◌≢◌, ◌↔◌, ◌⊎◌, inl, inr, Bool, true, false, ◌&&◌, ◌||◌, not, Option, none, some, List, [], ◌∷◌,
  ◌++◌, map, arith, ltb, leb, if◌then◌else◌, Bool-cases, Option-cases, length, Eq, ◌==◌, nat_eq,
  list_eq, list_eq_iff, ==_refl, length-append,
}
use binda.Prelude.Map.{HashMap, lookup, insert, remove, retain, contains_key}
use binda.Text.{Text}
use binda.Token.{RegistrationToken, token_eq}
use binda.Domain.{DomainName}
use binda.Zone.{Record}
use binda.Client.{Externals}
use binda.ClientApi.{ClientRequest, ClientResponse}
use binda.ClientApi
use binda.Gossip.{
  RegistrationRumor, ConformanceChallenge, expected_answer, DigestEntry, GossipMessage, digest,
  request, rumors, is_well_formed, is_valid_rumor_response,
}
use binda.Store.{Registration, RegistryStore, find, all_rumors}
use binda.Store.Evidence.{adopt_rumor}
use binda.Api.{Outcome, store_of, handle_client_request}
use binda.Peers.{learn}
use binda.Wire.{Json, encode}
use binda.Wire
use binda.RateLimit.{FloatOps, RateLimiter, allow_at, prune_older_than}
use binda.RateLimit
use binda.Dns.{DnsQuery, AddrParser, parse_query, rcode_format_error}
use binda.Dns
use binda.Dns.Response.{build_response, build_error_response, record_matches_qtype}
use binda.Prelude.Bytes.{from_be}

abbrev pub rate_limit_burst : ℕ
rate_limit_burst = 20

abbrev pub rate_limit_max_tracked_keys : ℕ
rate_limit_max_tracked_keys = 100000

-- 300 s, in nanoseconds
abbrev pub rate_limit_prune_age : ℕ
rate_limit_prune_age = 300 * 1000000000

-- 10 s, in nanoseconds
abbrev pub pending_challenge_timeout : ℕ
pending_challenge_timeout = 10 * 1000000000

abbrev pub max_pending_challenges : ℕ
max_pending_challenges = 10000

-- `new_rate_limiter`, with `RATE_LIMIT_PER_SEC` of 10
unfoldable pub new_rate_limiter : {F K : Type 0} ⦃e : Eq K⦄ → FloatOps F → RateLimiter F K
unfolding RateLimit.new
new_rate_limiter f = RateLimit.new f rate_limit_burst (f.of_nat 10) rate_limit_max_tracked_keys

pub record PendingChallenge : Type 0 where
  pub challenge : ConformanceChallenge
  pub requested : List DomainName
  pub issued_at : ℕ

-- What the handlers share, with addresses of type `K`.
pub record Node (F K : Type 0) : Type 0 where
  pub store : RegistryStore
  pub peers : List K
  pub gossip_limiter : RateLimiter F K
  pub resolver_limiter : RateLimiter F K
  pub api_limiter : RateLimiter F K
  pub dns_limiter : RateLimiter F K
  pub pending_challenges : HashMap K PendingChallenge

-- `all_rumors().map(…)` of the push loop
unfoldable pub digest_entries : List (DomainName × Text × RegistrationToken) → List DigestEntry
digest_entries [] = []
digest_entries ((domain, _, token) ∷ rest) =
    record { domain = domain; issued_at_millis = token.issued_at_millis } ∷ digest_entries rest

-- The message of one round of `gossip_push_loop`.
unfoldable pub push_message : RegistryStore → GossipMessage
unfolding all_rumors digest_entries
push_message s = digest (digest_entries (all_rumors s.registrations))

-- `if let Ok(bytes) = wire::encode(…)`: the datagram that is sent, none where the message is too large
-- or cannot be written.
unfoldable pub frame_of : Json GossipMessage → GossipMessage → Option (List ℕ)
unfolding encode
frame_of j message = elim (encode j message) [ Wire.ok bytes ↦ some bytes | Wire.err error ↦ none ]

-- The datagram of one round.
unfoldable pub push_frame : Json GossipMessage → RegistryStore → Option (List ℕ)
unfolding push_message frame_of
push_frame j s = frame_of j (push_message s)

-- Whether the store has nothing under the name, or an older token.
abbrev pub is_missing : DigestEntry → Option Registration → Bool
is_missing entry none = true
is_missing entry (some reg) = ltb reg.token.issued_at_millis entry.issued_at_millis

-- The domains to ask for.
unfoldable pub missing : RegistryStore → List DigestEntry → List DomainName
unfolding find
missing s [] = []
missing s (entry ∷ entries) =
    if is_missing entry (find s entry.domain)
    then entry.domain ∷ missing s entries
    else missing s entries

-- `rumor.domain = domain`, on the rumor of a registration that has one.
abbrev pub renamed : DomainName → Option Registration → List RegistrationRumor
renamed domain none = []
renamed domain (some reg) = elim reg.rumor [
  | none ↦ []
  | some r ↦ record r { domain = domain } ∷ []
]

-- The answer to a request: a rumor for each domain that has one.
unfoldable pub rumors_for : RegistryStore → List DomainName → List RegistrationRumor
unfolding find
rumors_for s [] = []
rumors_for s (d ∷ ds) = renamed d (find s d) ++ rumors_for s ds

unfoldable pub answer_request :
    RegistryStore → List DomainName → ConformanceChallenge → GossipMessage
unfolding rumors_for expected_answer
answer_request s domains challenge = rumors (rumors_for s domains) (expected_answer challenge)

-- The loop over the rumors.
unfoldable pub adopt_all : Externals → RegistryStore → List RegistrationRumor → ℕ → RegistryStore
unfolding adopt_rumor
adopt_all x s [] now = s
adopt_all x s (r ∷ rs) now = adopt_all x (adopt_rumor x s r now).0 rs now

-- Whether the rumors answer a pending challenge of the address: the right answer, and a valid
-- response to what was asked.
unfoldable pub is_accepted :
    Option PendingChallenge → List RegistrationRumor → RegistrationToken → Bool
unfolding expected_answer
is_accepted none rs answer = false
is_accepted (some p) rs answer =
    if not (answer == expected_answer p.challenge)
    then false
    else is_valid_rumor_response p.requested rs

module _ {K : Type 0} ⦃e : Eq K⦄ where
  -- `min_by_key(issued_at)`
  unfoldable pub oldest_challenge : HashMap K PendingChallenge → Option (K × ℕ)
  oldest_challenge [] = none
  oldest_challenge ((k, p) ∷ m) = elim (oldest_challenge m) [
    | none ↦ some (k, p.issued_at)
    | some best ↦ if leb p.issued_at best.1 then some (k, p.issued_at) else some best
  ]

  -- The room that is made for an address that has no challenge pending.
  unfoldable pub make_room : HashMap K PendingChallenge → K → HashMap K PendingChallenge
  unfolding oldest_challenge
  make_room m from =
      if not (contains_key from m) && leb max_pending_challenges (length m)
      then elim (oldest_challenge m) [ none ↦ m | some best ↦ remove best.0 m ]
      else m

  unfoldable pub expect_answer :
      HashMap K PendingChallenge → K → PendingChallenge → HashMap K PendingChallenge
  unfolding make_room
  expect_answer m from p = insert from p (make_room m from)

  -- The maintenance task, on the challenges; `duration_since` stops at 0.
  unfoldable pub prune_pending : HashMap K PendingChallenge → ℕ → HashMap K PendingChallenge
  prune_pending m instant = retain (λ k p. ltb (instant - p.issued_at) pending_challenge_timeout) m

module _ {F K : Type 0} ⦃e : Eq K⦄ where
  -- `handle_gossip_message`: the state after, and the datagram sent back. `fresh` is the challenge
  -- that the node draws.
  unfoldable pub handle_gossip_message :
      Externals
      → Json GossipMessage
      → Node F K
      → ℕ
      → ℕ
      → ConformanceChallenge
      → K
      → GossipMessage
      → Node F K × Option (List ℕ)
  unfolding frame_of missing expect_answer answer_request is_accepted adopt_all
  handle_gossip_message x j node now instant fresh from (digest entries) =
      elim (missing node.store entries) [
        | [] ↦ (node, none)
        | d ∷ ds ↦ (
          record node {
            pending_challenges =
                expect_answer node.pending_challenges from
                  (record { challenge = fresh; requested = d ∷ ds; issued_at = instant });
          },
          frame_of j (request (d ∷ ds) fresh),
        )
      ]
  handle_gossip_message x j node now instant fresh from (request domains challenge) =
      (node, frame_of j (answer_request node.store domains challenge))
  handle_gossip_message x j node now instant fresh from (rumors rs answer) =
      let store =
        if is_accepted (lookup from node.pending_challenges) rs answer
        then adopt_all x node.store rs now
        else node.store in
      (
        record node { store = store; pending_challenges = remove from node.pending_challenges },
        none,
      )
