-- ===== src/Store.antt =====
-- The registration store: crates/binda-core/src/store.rs.
pub mod Register
pub mod Evidence
pub mod Claims
pub mod Cap
pub mod Reach
pub mod Admission
pub mod Ownership
pub mod Decay
pub mod Forged
pub mod ClaimOrder
pub mod Names
pub mod Keyed
pub mod KeyedReach
pub mod Reclaim
pub mod Known
pub mod Tracked
pub mod Leases
pub mod Mirror
pub mod Retained
mod Tests
use binda.Prelude.{
  ℕ, zero, suc, ◌+◌, ◌-◌, ◌*◌, ◌/◌, ◌%◌, ◌^◌, ◌≤◌, ◌<◌, compare, Ordering, ◌≡◌, refl, sym, ap, ◌∙◌,
  ◌≢◌, ◌↔◌, ◌⊎◌, inl, inr, Bool, true, false, ◌&&◌, ◌||◌, not, Option, none, some, List, [], ◌∷◌,
  ◌++◌, map, arith, ltb, leb, if◌then◌else◌, Bool-cases, Option-cases, length, Eq, ◌==◌, nat_eq,
  list_eq, list_eq_iff, ==_refl, length-append, take,
}
use binda.Prelude.Bytes.{compare_bytes, then_order}
use binda.Prelude.Map.{
  HashMap, lookup, insert, contains_key, retain, map_values, update, keys, values,
}
use binda.Prelude.Sort.{sort_by}
use binda.Text.{Text, codes}
use binda.Text.Utf8.{as_bytes}
use binda.Token.{RegistrationToken, raw_ordering_key, issue, token_eq}
use binda.Collision.{negotiate_locally}
use binda.Domain.{DomainName}
use binda.Zone.{Record}
use binda.Client.{Externals, ClientIdentity, key, quota_key, quota_key_of}
use binda.Gossip.{RegistrationRumor, is_authorized, contains, rumor_domains}
use binda.Liveness.{
  LivenessTracker, within_window, record_probe, is_live, can_register, increment_registration,
  forget_client_by_key, expired_clients, max_registrations_per_client,
}
use binda.Liveness

pub record Registration : Type 0 where
  pub client_key : Text
  pub quota_key : Text
  pub token : RegistrationToken
  pub records : List Record
  pub rumor : Option RegistrationRumor

pub data RegistrationError : Type 0 where
  not_live registration_limit_reached : RegistrationError

-- The `#[error]` texts.
unfoldable pub registration_error_text : RegistrationError → Text
registration_error_text not_live =
    codes "client is not currently live (must probe within the liveness window first)"
registration_error_text registration_limit_reached =
    codes "verified host already holds the maximum number of registrations"

pub record RegistryStore : Type 0 where
  pub registrations : HashMap DomainName Registration
  pub quota_claims : HashMap Text (HashMap DomainName RegistrationRumor)
  pub liveness : LivenessTracker
  pub probe_evidence : HashMap Text (ℕ × List ℕ)

unfoldable pub new : RegistryStore
unfolding Liveness.new
new = record { registrations = []; quota_claims = []; liveness = Liveness.new; probe_evidence = [] }

unfoldable pub probe : RegistryStore → ClientIdentity → ℕ → RegistryStore
probe s client now = record s { liveness = record_probe s.liveness client now }

unfoldable pub probe_with_evidence : RegistryStore → ClientIdentity → ℕ → ℕ → List ℕ → RegistryStore
unfolding probe
probe_with_evidence s client now timestamp signature = record (probe s client now) {
  probe_evidence = insert (key client) (timestamp, signature) s.probe_evidence;
}

unfoldable pub last_probe_evidence : RegistryStore → ClientIdentity → Option (ℕ × List ℕ)
last_probe_evidence s client = lookup (key client) s.probe_evidence

unfoldable pub lease_is_live : RegistrationRumor → ℕ → Bool
unfolding within_window
lease_is_live r now = within_window now r.probe_timestamp_millis

unfoldable pub registration_from_rumor : RegistrationRumor → Text → Registration
registration_from_rumor r quota = record {
  client_key = r.client_key;
  quota_key = quota;
  token = r.token;
  records = r.records;
  rumor = some r;
}

-- The order in which a host's claims are kept: by token, then by name.
unfoldable pub claim_order : RegistrationRumor → RegistrationRumor → Ordering
claim_order a b =
    then_order (compare_bytes (raw_ordering_key a.token) (raw_ordering_key b.token))
      (compare_bytes (as_bytes a.domain) (as_bytes b.domain))

-- The first `retain` of `reconcile_quota`.
unfoldable pub live_claims :
    Externals → ℕ → HashMap DomainName RegistrationRumor → HashMap DomainName RegistrationRumor
unfolding lease_is_live
live_claims x now claims = retain (λ _ r. is_authorized x r && lease_is_live r now) claims

-- `sort_by` and `truncate`
unfoldable pub winners_of : HashMap DomainName RegistrationRumor → List RegistrationRumor
unfolding sort_by
winners_of claims = take max_registrations_per_client (sort_by claim_order (values claims))

abbrev pub is_none {ℓ} : {A : Type ℓ} → Option A → Bool
is_none none = true
is_none (some _) = false

-- The body of the loop over the winners.
unfoldable pub install :
    Text → RegistrationRumor → HashMap DomainName Registration → HashMap DomainName Registration
unfolding registration_from_rumor
install quota r regs =
    let replace : Bool = elim (lookup r.domain regs) [
      | some existing ↦ negotiate_locally existing.token r.token == r.token
      | none ↦ true
    ] in
    if replace then insert r.domain (registration_from_rumor r quota) regs else regs

unfoldable pub install_all :
    Text
    → List RegistrationRumor
    → HashMap DomainName Registration
    → HashMap DomainName Registration
unfolding install
install_all quota [] regs = regs
install_all quota (r ∷ rs) regs = install_all quota rs (install quota r regs)

-- What stays of the registrations before the winners are installed.
unfoldable pub without_replicas :
    Text → HashMap DomainName Registration → HashMap DomainName Registration
without_replicas quota regs =
    retain (λ _ reg. not (reg.quota_key == quota) || is_none reg.rumor) regs

unfoldable pub reconcile_quota : Externals → Text → ℕ → RegistryStore → RegistryStore
unfolding live_claims winners_of install_all without_replicas
reconcile_quota x quota now s = elim (lookup quota s.quota_claims) [
  | none ↦ s
  | some claims ↦
      let live = live_claims x now claims in
      let winners = winners_of live in
      record s {
        quota_claims =
            insert quota (retain (λ domain _. contains (rumor_domains winners) domain) live)
              s.quota_claims;
        registrations = install_all quota winners (without_replicas quota s.registrations);
      }
]

unfoldable pub forget_all : List Text → LivenessTracker → LivenessTracker
forget_all [] t = t
forget_all (k ∷ ks) t = forget_all ks (forget_client_by_key t k)

unfoldable pub reconcile_all : Externals → List Text → ℕ → RegistryStore → RegistryStore
unfolding reconcile_quota
reconcile_all x [] now s = s
reconcile_all x (q ∷ qs) now s = reconcile_all x qs now (reconcile_quota x q now s)

-- The part of `reclaim_stale` before the quotas are reconciled.
unfoldable pub drop_expired : ℕ → RegistryStore → RegistryStore
unfolding forget_all
drop_expired now s =
    let expired = expired_clients s.liveness now in
    record s {
      registrations = retain (λ _ reg. not (contains expired reg.quota_key)) s.registrations;
      liveness = forget_all expired s.liveness;
    }

unfoldable pub reclaim_stale : Externals → ℕ → RegistryStore → RegistryStore
unfolding drop_expired reconcile_all
reclaim_stale x now s =
    let dropped = drop_expired now s in reconcile_all x (keys dropped.quota_claims) now dropped

-- `all_rumors`
unfoldable pub all_rumors :
    HashMap DomainName Registration → List (DomainName × Text × RegistrationToken)
all_rumors [] = []
all_rumors ((domain, reg) ∷ regs) = (domain, reg.client_key, reg.token) ∷ all_rumors regs

-- `RegistryStore::lookup`
unfoldable pub find : RegistryStore → DomainName → Option Registration
find s domain = lookup domain s.registrations
