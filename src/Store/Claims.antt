-- ===== src/Store/Claims.antt =====
-- Claims of one host, and what installing them leaves alone: crates/binda-core/src/store.rs.
use binda.Prelude.{
  ℕ, ◌≡◌, refl, ◌∙◌, Bool, true, false, ◌&&◌, ◌||◌, not, none, some, List, [], ◌∷◌, arith, ◌==◌,
  nat_eq, list_eq, list_eq_iff,
}
use binda.Prelude.All.{All, All-take, All-sort_by}
use binda.Prelude.Sort.{sort_by}
use binda.Prelude.Map.{
  HashMap, lookup, retain, values, update, lookup-insert, Distinct, lookup-retain,
}
use binda.Text.{Text}
use binda.Domain.{DomainName}
use binda.Client.{Externals}
use binda.Gossip.{RegistrationRumor, is_authorized}
use binda.Store.{
  Registration, install, install_all, registration_from_rumor, winners_of, claim_order, live_claims,
  lease_is_live, without_replicas, is_none,
}

-- Every claim stands under its own name.
abbrev pub IsKeyed : HashMap DomainName RegistrationRumor → Type 0
IsKeyed [] = Unit
IsKeyed ((d, r) ∷ m) = (r.domain ≡ d) × IsKeyed m

pub retain-IsKeyed :
    (p : DomainName → RegistrationRumor → Bool) (m : HashMap DomainName RegistrationRumor)
    → IsKeyed m
    → IsKeyed (retain p m)
unfolding retain
retain-IsKeyed p [] h = tt
retain-IsKeyed p ((d, r) ∷ m) h = ground (arith, retain-IsKeyed p m h.1)

pub update-IsKeyed :
    (d : DomainName) (f : RegistrationRumor → RegistrationRumor)
    (m : HashMap DomainName RegistrationRumor)
    → ((r : RegistrationRumor) → (f r).domain ≡ r.domain)
    → IsKeyed m
    → IsKeyed (update d f m)
unfolding update
update-IsKeyed d f [] k h = tt
update-IsKeyed d f ((e, r) ∷ m) k h = ground (arith, update-IsKeyed d f m k h.1, k r)

-- No claim of the list is on the name.
abbrev pub NotOn : DomainName → List RegistrationRumor → Type 0
NotOn d rs = All (λ r. (r.domain == d) ≡ false) rs

pub values-NotOn :
    (d : DomainName) (m : HashMap DomainName RegistrationRumor)
    → IsKeyed m
    → lookup d m ≡ none
    → NotOn d (values m)
unfolding lookup
values-NotOn d [] k h = tt
values-NotOn d ((e, r) ∷ m) k h = ground (arith, values-NotOn d m k.1, list_eq_iff e d)

pub winners_of-All {κ} :
    (P : RegistrationRumor → Type κ) (m : HashMap DomainName RegistrationRumor)
    → All P (values m)
    → All P (winners_of m)
unfolding winners_of
winners_of-All P m h =
    All-take P 5 (sort_by claim_order (values m)) (All-sort_by P claim_order (values m) h)

pub lookup-install_all_other :
    (quota : Text) (d : DomainName) (rs : List RegistrationRumor)
    (regs : HashMap DomainName Registration)
    → NotOn d rs
    → lookup d (install_all quota rs regs) ≡ lookup d regs
unfolding install_all install
lookup-install_all_other quota d [] regs h = refl
lookup-install_all_other quota d (r ∷ rs) regs h =
    lookup-install_all_other quota d rs (install quota r regs) h.1
    ∙ ground (arith, lookup-insert r.domain d (registration_from_rumor r quota) regs, h.0)

-- Every claim that is kept is authorized and within its liveness window.
pub live_claims-All :
    (x : Externals) (now : ℕ) (m : HashMap DomainName RegistrationRumor)
    → All
        (λ r. (is_authorized x r ≡ true) × (lease_is_live r now ≡ true))
        (values (live_claims x now m))
unfolding live_claims retain
live_claims-All x now [] = tt
live_claims-All x now ((d, r) ∷ m) = ground (arith, live_claims-All x now m)

pub live_claims-IsKeyed :
    (x : Externals) (now : ℕ) (m : HashMap DomainName RegistrationRumor)
    → IsKeyed m
    → IsKeyed (live_claims x now m)
unfolding live_claims
live_claims-IsKeyed x now m k = retain-IsKeyed (λ _ r. is_authorized x r && lease_is_live r now) m k

pub lookup-without_replicas_own :
    (quota : Text) (d : DomainName) (regs : HashMap DomainName Registration) (reg : Registration)
    → Distinct regs
    → lookup d regs ≡ some reg
    → reg.quota_key ≡ quota
    → is_none reg.rumor ≡ false
    → lookup d (without_replicas quota regs) ≡ none
unfolding without_replicas
lookup-without_replicas_own quota d regs reg dist e q n = ground (
  arith,
  lookup-retain d (λ _ g. not (g.quota_key == quota) || is_none g.rumor) regs dist,
  list_eq_iff reg.quota_key quota,
)
