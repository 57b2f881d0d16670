-- ===== src/Store/Evidence.antt =====
-- Signed leases in the store, their own and those of gossip: crates/binda-core/src/store.rs.
use binda.Prelude.{
  ℕ, Bool, true, false, ◌&&◌, ◌||◌, not, none, some, List, [], if◌then◌else◌, ◌==◌, nat_eq, list_eq,
}
use binda.Prelude.Map.{HashMap, lookup, insert, map_values, update}
use binda.Text.{Text}
use binda.Token.{token_eq}
use binda.Domain.{DomainName}
use binda.Client.{Externals, quota_key_of}
use binda.Gossip.{RegistrationRumor, is_authorized}
use binda.Store.{Registration, RegistryStore, lease_is_live, reconcile_quota}

-- `entry(quota_key).or_default().insert(domain, rumor)`
unfoldable pub add_claim :
    Text
    → RegistrationRumor
    → HashMap Text (HashMap DomainName RegistrationRumor)
    → HashMap Text (HashMap DomainName RegistrationRumor)
add_claim quota r claims = elim (lookup quota claims) [
  | some m ↦ insert quota (insert r.domain r m) claims
  | none ↦ insert quota (insert r.domain r []) claims
]

unfoldable pub attach_rumor :
    Externals → RegistryStore → RegistrationRumor → ℕ → RegistryStore × Bool
unfolding add_claim reconcile_quota
attach_rumor x s r now =
    let quota = quota_key_of r.rdns in
    elim (lookup r.domain s.registrations) [
      | some reg ↦
          if reg.client_key == r.client_key && reg.token == r.token
          then (
            reconcile_quota x quota now
                (record s { quota_claims = add_claim quota r s.quota_claims }),
            true,
          )
          else (s, false)
      | none ↦ (s, false)
    ]

-- The two loops of `refresh_probe_evidence`, on one rumor.
abbrev pub refresh_rumor : ℕ → List ℕ → RegistrationRumor → RegistrationRumor
refresh_rumor timestamp signature r = record r {
  probe_timestamp_millis = timestamp;
  probe_signature = signature;
}

unfoldable pub refresh_claim : Text → ℕ → List ℕ → RegistrationRumor → RegistrationRumor
refresh_claim client_key timestamp signature r =
    if r.client_key == client_key then refresh_rumor timestamp signature r else r

unfoldable pub refresh_registration : Text → ℕ → List ℕ → Registration → Registration
refresh_registration client_key timestamp signature reg =
    if reg.client_key == client_key
    then elim reg.rumor [
      | some r ↦ record reg { rumor = some (refresh_rumor timestamp signature r) }
      | none ↦ reg
    ]
    else reg

unfoldable pub refresh_probe_evidence : RegistryStore → Text → ℕ → List ℕ → RegistryStore
unfolding refresh_claim refresh_registration
refresh_probe_evidence s client_key timestamp signature = record s {
  registrations = map_values (refresh_registration client_key timestamp signature) s.registrations;
  quota_claims =
      map_values (map_values (refresh_claim client_key timestamp signature)) s.quota_claims;
}

-- What `attach_record_evidence` does to the registration, and to a claim on the name.
unfoldable pub sign_registration : Text → ℕ → List ℕ → Registration → Registration
sign_registration client_key timestamp signature reg =
    if reg.client_key == client_key
    then elim reg.rumor [
      | some r ↦ record reg {
        rumor = some (record r {
          records = reg.records;
          records_timestamp_millis = some timestamp;
          records_signature = some signature;
        });
      }
      | none ↦ reg
    ]
    else reg

unfoldable pub sign_claim : Text → ℕ → List ℕ → RegistrationRumor → RegistrationRumor
sign_claim client_key timestamp signature r =
    if r.client_key == client_key
    then record r { records_timestamp_millis = some timestamp; records_signature = some signature }
    else r

unfoldable pub attach_record_evidence :
    RegistryStore → DomainName → Text → ℕ → List ℕ → RegistryStore
unfolding sign_registration sign_claim
attach_record_evidence s domain client_key timestamp signature = record s {
  registrations = update domain (sign_registration client_key timestamp signature) s.registrations;
  quota_claims =
      map_values (update domain (sign_claim client_key timestamp signature)) s.quota_claims;
}

unfoldable pub adopt_rumor :
    Externals → RegistryStore → RegistrationRumor → ℕ → RegistryStore × Bool
unfolding lease_is_live add_claim reconcile_quota
adopt_rumor x s r now =
    if not (is_authorized x r) || not (lease_is_live r now)
    then (s, false)
    else (let quota = quota_key_of r.rdns in
        (
          reconcile_quota x quota now
              (record s { quota_claims = add_claim quota r s.quota_claims }),
          true,
        ))
