-- ===== src/Store/Decay.antt =====
-- Publishing records and the lease: crates/binda-core/src/store.rs. `attach_record_evidence` gives a
-- host's claim the new signature and leaves it the old records.
use binda.Prelude.{
  ℕ, ◌≡◌, ap, ◌∙◌, ◌⊎◌, inl, inr, true, false, ◌&&◌, none, some, List, arith, Bool-cases, ◌==◌,
  nat_eq, list_eq, ==_refl,
}
use binda.Prelude.Map.{
  HashMap, lookup, update, lookup-retain, lookup-update, lookup-map_values, Distinct,
  update-Distinct,
}
use binda.Text.{Text}
use binda.Domain.{DomainName}
use binda.Client.{Externals}
use binda.ClientApi.{set_records_message}
use binda.Gossip.{RegistrationRumor, is_authorized}
use binda.Gossip.Authority.{is_authorized_iff}
use binda.Store.{
  Registration, RegistryStore, find, live_claims, winners_of, without_replicas, reconcile_quota,
  lease_is_live,
}
use binda.Store.Evidence.{attach_record_evidence, sign_claim, sign_registration}
use binda.Store.{is_none}
use binda.Store.Claims.{
  IsKeyed, update-IsKeyed, values-NotOn, winners_of-All, lookup-install_all_other,
  live_claims-IsKeyed, lookup-without_replicas_own,
}
use mathlib.Core.Option

-- A claim with its old records under the new signature is not authorized, where the signature does
-- not verify for the old records.
sign_claim_unauthorized :
    (x : Externals) (r : RegistrationRumor) (timestamp : ℕ) (signature : List ℕ)
    → x.verify r.owner_key (set_records_message x r.domain r.records timestamp) signature ≡ false
    → is_authorized x (sign_claim r.client_key timestamp signature r) ≡ false
unfolding sign_claim
sign_claim_unauthorized x r timestamp signature h =
    rw (==_refl r.client_key) (refuse (Bool-cases (is_authorized x signed)))
  where
    signed : RegistrationRumor
    signed = record r {
      records_timestamp_millis = some timestamp;
      records_signature = some signature;
    }

    refuse :
        (is_authorized x signed ≡ true) ⊎ (is_authorized x signed ≡ false)
        → is_authorized x signed ≡ false
    refuse (inr e) = e
    refuse (inl e) =
        let evidence = ((is_authorized_iff x signed).0 e).records_signed in
        absurd (ground (arith, h, evidence.1))

pub sign_claim-domain :
    (k : Text) (t : ℕ) (g : List ℕ) (r : RegistrationRumor) → (sign_claim k t g r).domain ≡ r.domain
unfolding sign_claim
sign_claim-domain k t g r = ground arith

pub sign_registration-keeps :
    (k : Text) (t : ℕ) (g : List ℕ) (reg : Registration)
    → ((sign_registration k t g reg).quota_key ≡ reg.quota_key)
      × (is_none (sign_registration k t g reg).rumor ≡ is_none reg.rumor)
unfolding sign_registration
sign_registration-keeps k t g reg = ground arith

-- A claim that is not authorized is not among those kept.
lookup-live_claims_refused :
    (x : Externals) (now : ℕ) (d : DomainName) (m : HashMap DomainName RegistrationRumor)
    (r : RegistrationRumor)
    → Distinct m
    → lookup d m ≡ some r
    → is_authorized x r ≡ false
    → lookup d (live_claims x now m) ≡ none
unfolding live_claims
lookup-live_claims_refused x now d m r h e n =
    ground (arith, lookup-retain d (λ _ r. is_authorized x r && lease_is_live r now) m h)

-- A host's lease on a name whose claim is not among those kept is gone after the reconciliation.
reconcile_quota_loses :
    (x : Externals) (now : ℕ) (quota : Text) (s : RegistryStore) (d : DomainName)
    (m : HashMap DomainName RegistrationRumor) (reg : Registration)
    → lookup quota s.quota_claims ≡ some m
    → IsKeyed m
    → lookup d (live_claims x now m) ≡ none
    → Distinct s.registrations
    → lookup d s.registrations ≡ some reg
    → reg.quota_key ≡ quota
    → is_none reg.rumor ≡ false
    → find (reconcile_quota x quota now s) d ≡ none
unfolding reconcile_quota find
reconcile_quota_loses x now quota s d m reg hm k lost dist e q n =
    rw (hm, reconcile_quota)
      (lookup-install_all_other quota d (winners_of (live_claims x now m))
          (without_replicas quota s.registrations)
          (winners_of-All (λ r. (r.domain == d) ≡ false) (live_claims x now m)
            (values-NotOn d (live_claims x now m) (live_claims-IsKeyed x now m k) lost))
        ∙ lookup-without_replicas_own quota d s.registrations reg dist e q n)

-- The owner of a name that is known by its lease publishes records: the registration is signed
-- anew and the host's claim gets the new signature under its old records. If the signature does not
-- verify for the old records, the next reconciliation of the host takes the name from its owner.
pub attach_record_evidence_loses_name :
    (x : Externals) (s : RegistryStore) (d : DomainName) (reg : Registration)
    (m : HashMap DomainName RegistrationRumor) (r : RegistrationRumor) (timestamp now : ℕ)
    (signature : List ℕ)
    → Distinct s.registrations
    → find s d ≡ some reg
    → is_none reg.rumor ≡ false
    → lookup reg.quota_key s.quota_claims ≡ some m
    → Distinct m
    → IsKeyed m
    → lookup d m ≡ some r
    → x.verify r.owner_key (set_records_message x r.domain r.records timestamp) signature ≡ false
    → find
        (reconcile_quota x reg.quota_key now
          (attach_record_evidence s d r.client_key timestamp signature))
        d
      ≡ none
unfolding attach_record_evidence find
attach_record_evidence_loses_name x s d reg m r timestamp now signature hs e n hm dm km er bad =
    let k = r.client_key in
    let f = sign_claim k timestamp signature in
    let g = sign_registration k timestamp signature in
    let m' = update d f m in
    let keeps = sign_registration-keeps k timestamp signature reg in
    reconcile_quota_loses x now reg.quota_key (attach_record_evidence s d k timestamp signature) d
      m' (g reg)
      (lookup-map_values reg.quota_key (update d f) s.quota_claims
        ∙ ap (Option.map (update d f)) hm)
      (update-IsKeyed d f m (sign_claim-domain k timestamp signature) km)
      (lookup-live_claims_refused x now d m' (f r) (update-Distinct d f m dm)
        (ground (arith, lookup-update d d f m, ==_refl d))
        (sign_claim_unauthorized x r timestamp signature bad))
      (update-Distinct d g s.registrations hs)
      (ground (arith, lookup-update d d g s.registrations, ==_refl d)) keeps.0 (keeps.1 ∙ n)
