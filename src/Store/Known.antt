-- ===== src/Store/Known.antt =====
-- Leases of hosts whose claims are known: crates/binda-core/src/store.rs.
use binda.Prelude.{
  ℕ, ◌≡◌, sym, ap, ◌∙◌, inl, inr, true, false, List, [], ◌∷◌, arith, Bool-cases, ◌==◌, nat_eq,
  list_eq,
}
use binda.Prelude.All.{All}
use binda.Prelude.Map.{HashMap, values, map_values, update, contains_key}
use binda.Text.{Text}
use binda.Domain.{DomainName}
use binda.Gossip.{RegistrationRumor}
use binda.Store.{Registration, RegistryStore, is_none}
use binda.Store.Evidence.{sign_registration, refresh_registration}
use binda.Store.Decay.{sign_registration-keeps}
use binda.Token.{token_eq}
use binda.Store.Reclaim.{All-weaken}

-- If the registration is a lease, its host's claims are known.
abbrev pub HasClaims : HashMap Text (HashMap DomainName RegistrationRumor) → Registration → Type 0
HasClaims claims reg = is_none reg.rumor ≡ false → contains_key reg.quota_key claims ≡ true

abbrev pub IsTracked : RegistryStore → Type 0
IsTracked s = All (HasClaims s.quota_claims) (values s.registrations)

pub HasClaims-more :
    (m n : HashMap Text (HashMap DomainName RegistrationRumor))
    (regs : HashMap DomainName Registration)
    → ((q : Text) → contains_key q m ≡ true → contains_key q n ≡ true)
    → All (HasClaims m) (values regs)
    → All (HasClaims n) (values regs)
HasClaims-more m n regs more h =
    All-weaken (HasClaims m) (HasClaims n) (λ reg known lease. more reg.quota_key (known lease))
      (values regs) h

-- A change of registrations that keeps their hosts, and whether they are leases.
unfoldable pub Keeps : (Registration → Registration) → Type 0
Keeps f =
    (reg : Registration)
    → ((f reg).quota_key ≡ reg.quota_key) × (is_none (f reg).rumor ≡ is_none reg.rumor)

changed-HasClaims :
    (m : HashMap Text (HashMap DomainName RegistrationRumor)) (f : Registration → Registration)
    (reg : Registration)
    → Keeps f
    → HasClaims m reg
    → HasClaims m (f reg)
unfolding Keeps
changed-HasClaims m f reg k h lease =
    ap (λ q. contains_key q m) (k reg).0 ∙ h (sym (k reg).1 ∙ lease)

pub update-HasClaims :
    (m : HashMap Text (HashMap DomainName RegistrationRumor)) (d : DomainName)
    (f : Registration → Registration) (regs : HashMap DomainName Registration)
    → Keeps f
    → All (HasClaims m) (values regs)
    → All (HasClaims m) (values (update d f regs))
unfolding update
update-HasClaims m d f [] k h = tt
update-HasClaims m d f ((e, reg) ∷ regs) k h = elim (Bool-cases (e == d)) [
  | inl q ↦ rw (q) (changed-HasClaims m f reg k h.0, h.1)
  | inr q ↦ rw (q) (h.0, update-HasClaims m d f regs k h.1)
]

pub map_values-HasClaims :
    (m : HashMap Text (HashMap DomainName RegistrationRumor)) (f : Registration → Registration)
    (regs : HashMap DomainName Registration)
    → Keeps f
    → All (HasClaims m) (values regs)
    → All (HasClaims m) (values (map_values f regs))
unfolding map_values
map_values-HasClaims m f [] k h = tt
map_values-HasClaims m f ((e, reg) ∷ regs) k h =
    (changed-HasClaims m f reg k h.0, map_values-HasClaims m f regs k h.1)

pub refresh_registration-Keeps :
    (k : Text) (t : ℕ) (g : List ℕ) → Keeps (refresh_registration k t g)
unfolding Keeps refresh_registration
refresh_registration-Keeps k t g reg = ground arith

pub sign_registration-Keeps : (k : Text) (t : ℕ) (g : List ℕ) → Keeps (sign_registration k t g)
unfolding Keeps
sign_registration-Keeps k t g reg = sign_registration-keeps k t g reg
