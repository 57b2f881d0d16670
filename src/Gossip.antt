-- ===== src/Gossip.antt =====
-- Gossip messages: crates/binda-core/src/gossip.rs.
pub mod Authority
pub mod Contract
mod Tests
use binda.Prelude.{
  ℕ, zero, suc, ◌+◌, ◌-◌, ◌*◌, ◌/◌, ◌%◌, ◌^◌, ◌≤◌, ◌<◌, compare, Ordering, ◌≡◌, refl, sym, ap, ◌∙◌,
  ◌≢◌, ◌↔◌, ◌⊎◌, inl, inr, Bool, true, false, ◌&&◌, ◌||◌, not, Option, none, some, List, [], ◌∷◌,
  ◌++◌, map, arith, ltb, leb, if◌then◌else◌, Bool-cases, Option-cases, length, Eq, ◌==◌, nat_eq,
  list_eq, list_eq_iff, ==_refl, length-append,
}
use binda.Text.{Text}
use binda.Token.{RegistrationToken, issue}
use binda.Collision.{WinCondition, resolve, random as random_condition}
use binda.Domain.{DomainName}
use binda.Zone.{Record}
use binda.Client.{Externals, ClientIdentity, key, verify}
use binda.ClientApi.{probe_message, register_message, set_records_message}

pub record RegistrationRumor : Type 0 where
  pub domain : DomainName
  pub token : RegistrationToken
  pub client_key : Text
  pub owner_key : List ℕ
  pub rdns : Text
  pub registration_timestamp_millis : ℕ
  pub registration_signature : List ℕ
  pub probe_timestamp_millis : ℕ
  pub probe_signature : List ℕ
  pub records : List Record
  pub records_timestamp_millis : Option ℕ
  pub records_signature : Option (List ℕ)

-- The owner that a rumor names.
abbrev pub owner_of : RegistrationRumor → ClientIdentity
owner_of r = record { verifying_key = r.owner_key; rdns = r.rdns }

-- The last `match` of `is_authorized`.
unfoldable pub records_authorized :
    Externals → RegistrationRumor → Option ℕ → Option (List ℕ) → Bool
unfolding verify
records_authorized x r none none = elim r.records [ [] ↦ true | y ∷ ys ↦ false ]
records_authorized x r (some timestamp) (some signature) =
    if not (x.valid_signature signature)
    then false
    else verify x (owner_of r) (set_records_message x r.domain r.records timestamp) signature
records_authorized x r _ _ = false

unfoldable pub is_authorized : Externals → RegistrationRumor → Bool
unfolding verify records_authorized
is_authorized x r =
    if not (length r.owner_key == 32)
    then false
    else (if not (x.valid_key r.owner_key)
        then false
        else (if not (key (owner_of r) == r.client_key)
            then false
            else (if not (x.valid_signature r.registration_signature)
                then false
                else (if not (x.valid_signature r.probe_signature)
                    then false
                    else (if not (
                            verify x (owner_of r)
                              (register_message r.domain r.registration_timestamp_millis)
                              r.registration_signature)
                          || not (
                              verify x (owner_of r) (probe_message r.probe_timestamp_millis)
                                r.probe_signature)
                        then false
                        else records_authorized x r r.records_timestamp_millis
                            r.records_signature)))))

pub record ConformanceChallenge : Type 0 where
  pub token_a : RegistrationToken
  pub token_b : RegistrationToken
  pub condition : WinCondition

-- `ConformanceChallenge::random`; the two nonces and the coin are arguments.
unfoldable pub random : ℕ → List ℕ → List ℕ → Bool → ConformanceChallenge
unfolding issue random_condition
random issued_at_millis nonce_a nonce_b coin = record {
  token_a = issue issued_at_millis nonce_a;
  token_b = issue issued_at_millis nonce_b;
  condition = random_condition coin;
}

unfoldable pub expected_answer : ConformanceChallenge → RegistrationToken
expected_answer c = resolve c.condition c.token_a c.token_b

pub record DigestEntry : Type 0 where
  pub domain : DomainName
  pub issued_at_millis : ℕ

pub data GossipMessage : Type 0 where
  digest : (rumors : List DigestEntry) → GossipMessage
  request : (domains : List DomainName) (challenge : ConformanceChallenge) → GossipMessage
  rumors : (rumors : List RegistrationRumor) (challenge_answer : RegistrationToken) → GossipMessage

-- `HashSet::contains`
unfoldable pub contains : List DomainName → DomainName → Bool
contains [] d = false
contains (e ∷ es) d = e == d || contains es d

-- `domains.all(|domain| seen.insert(domain))`
unfoldable pub unique_from : List DomainName → List DomainName → Bool
unfolding contains
unique_from seen [] = true
unique_from seen (d ∷ ds) = not (contains seen d) && unique_from (d ∷ seen) ds

unfoldable pub unique_domains : List DomainName → Bool
unfolding unique_from
unique_domains ds = unique_from [] ds

abbrev pub max_digest_entries : ℕ
max_digest_entries = 4096

abbrev pub max_request_entries : ℕ
max_request_entries = 4096

abbrev pub digest_domains : List DigestEntry → List DomainName
digest_domains [] = []
digest_domains (e ∷ es) = e.domain ∷ digest_domains es

abbrev pub rumor_domains : List RegistrationRumor → List DomainName
rumor_domains [] = []
rumor_domains (r ∷ rs) = r.domain ∷ rumor_domains rs

unfoldable pub is_well_formed : GossipMessage → Bool
is_well_formed (digest es) =
    leb (length es) max_digest_entries && unique_domains (digest_domains es)
is_well_formed (request ds _) = leb (length ds) max_request_entries && unique_domains ds
is_well_formed (rumors rs _) =
    leb (length rs) max_digest_entries && unique_domains (rumor_domains rs)

unfoldable pub all_requested : List DomainName → List DomainName → Bool
unfolding contains
all_requested requested [] = true
all_requested requested (d ∷ ds) = contains requested d && all_requested requested ds

unfoldable pub is_valid_rumor_response : List DomainName → List RegistrationRumor → Bool
is_valid_rumor_response requested rs =
    all_requested requested (rumor_domains rs) && unique_domains (rumor_domains rs)
