-- ===== src/Store/Reclaim.antt =====
-- What reconciling leaves of a host's leases: crates/binda-core/src/store.rs, `reconcile_quota` and
-- `reclaim_stale`.
use binda.Prelude.{
  ℕ, ◌≡◌, refl, ◌∙◌, inl, inr, Bool, true, ◌||◌, not, Option, none, some, List, [], ◌∷◌, arith,
  Bool-cases, Option-cases, Eq, ◌==◌, nat_eq, list_eq, list_eq_iff, subst,
}
use binda.Prelude.All.{All}
use binda.Prelude.Map.{
  HashMap, insert, retain, values, keys, lookup, contains_key, contains_key-lookup,
  contains_key-insert,
}
use binda.Text.{Text}
use binda.Domain.{DomainName}
use binda.Client.{Externals}
use binda.Gossip.{RegistrationRumor, is_authorized, contains}
use binda.Liveness.Laws.{contains-keys}
use binda.Store.{
  Registration, RegistryStore, registration_from_rumor, install, install_all, without_replicas,
  winners_of, live_claims, reconcile_quota, reconcile_all, reclaim_stale, drop_expired,
  lease_is_live, is_none, rumor_domains,
}
use binda.Store.Claims.{winners_of-All, live_claims-All}
use binda.Store.Keyed.{install_lem}

module _ {ℓ} {K V : Type 0} ⦃e : Eq K⦄ (P : V → Type ℓ) where
  pub All-insert :
      (k : K) (v : V) (m : HashMap K V) → P v → All P (values m) → All P (values (insert k v m))
  unfolding insert
  All-insert k v [] h a = (h, tt)
  All-insert k v ((j, w) ∷ m) h a = elim (Bool-cases (j == k)) [
    | inl q ↦ rw (q) (h, a.1)
    | inr q ↦ rw (q) (a.0, All-insert k v m h a.1)
  ]

  pub All-retain-values :
      (p : K → V → Bool) (m : HashMap K V) → All P (values m) → All P (values (retain p m))
  unfolding retain
  All-retain-values p [] a = tt
  All-retain-values p ((j, w) ∷ m) a = elim (Bool-cases (p j w)) [
    | inl q ↦ rw (q) (a.0, All-retain-values p m a.1)
    | inr q ↦ rw (q) (All-retain-values p m a.1)
  ]

pub All-weaken {ℓ κ μ} :
    {A : Type ℓ} (P : A → Type κ) (Q : A → Type μ)
    → ((a : A) → P a → Q a)
    → (xs : List A) → All P xs
    → All Q xs
All-weaken P Q f [] h = tt
All-weaken P Q f (x ∷ xs) h = (f x h.0, All-weaken P Q f xs h.1)

pub install_all-All {ℓ} :
    (P : Registration → Type ℓ) (quota : Text) (rs : List RegistrationRumor)
    (regs : HashMap DomainName Registration)
    → All (λ r. P (registration_from_rumor r quota)) rs
    → All P (values regs)
    → All P (values (install_all quota rs regs))
unfolding install_all
install_all-All P quota [] regs h a = a
install_all-All P quota (r ∷ rs) regs h a =
    install_all-All P quota rs (install quota r regs) h.1 (elim (install_lem quota r regs) [
      | inl q ↦ rw q (All-insert P r.domain (registration_from_rumor r quota) regs h.0 a)
      | inr q ↦ rw q a
    ])

-- Reconciling forgets no host.
pub contains_key-reconcile_quota :
    (x : Externals) (quota q : Text) (now : ℕ) (s : RegistryStore)
    → contains_key q (reconcile_quota x quota now s).quota_claims ≡ contains_key q s.quota_claims
unfolding reconcile_quota
contains_key-reconcile_quota x quota q now s = elim (Option-cases (lookup quota s.quota_claims)) [
  | inl absent ↦ rw (absent, reconcile_quota) refl
  | inr (m, held) ↦
      rw (held, reconcile_quota)
        (ground (
          arith,
          held,
          contains_key-lookup quota s.quota_claims,
          list_eq_iff quota q,
          contains_key-insert quota q
              (retain
                (λ domain _. contains (rumor_domains (winners_of (live_claims x now m))) domain)
                (live_claims x now m))
              s.quota_claims,
        ))
]

module _ (x : Externals) (now : ℕ) where
  -- The evidence, if there is some, is authorized and within its liveness window.
  abbrev pub IsLiveEvidence : Option RegistrationRumor → Type 0
  IsLiveEvidence none = Unit
  IsLiveEvidence (some r) = (is_authorized x r ≡ true) × (lease_is_live r now ≡ true)

  abbrev pub IsLiveLease : Registration → Type 0
  IsLiveLease reg = IsLiveEvidence reg.rumor

  -- If it is the host's.
  abbrev pub IsLiveOf : Text → Registration → Type 0
  IsLiveOf q reg = (reg.quota_key == q) ≡ true → IsLiveLease reg

  without_replicas-All :
      (q : Text) (regs : HashMap DomainName Registration)
      → All (IsLiveOf q) (values (without_replicas q regs))
  unfolding without_replicas retain
  without_replicas-All q [] = tt
  without_replicas-All q ((d, reg) ∷ regs) = elim (Bool-cases (reg.quota_key == q)) [
    | inr other ↦ rw (other) (λ h. absurd (ground (arith, h, other)), without_replicas-All q regs)
    | inl same ↦ elim (Option-cases reg.rumor) [
      | inl bare ↦ rw (same, bare) (λ h. tt, without_replicas-All q regs)
      | inr (r, evidence) ↦ rw (same, evidence) (without_replicas-All q regs)
    ]
  ]

  winners_live :
      (q p : Text) (m : HashMap DomainName RegistrationRumor)
      → All (λ r. IsLiveOf p (registration_from_rumor r q)) (winners_of (live_claims x now m))
  unfolding registration_from_rumor
  winners_live q p m =
      All-weaken (λ r. (is_authorized x r ≡ true) × (lease_is_live r now ≡ true))
        (λ r. IsLiveOf p (registration_from_rumor r q)) (λ r h same. h)
        (winners_of (live_claims x now m))
        (winners_of-All (λ r. (is_authorized x r ≡ true) × (lease_is_live r now ≡ true))
          (live_claims x now m) (live_claims-All x now m))

  reconcile_quota_own :
      (q : Text) (s : RegistryStore)
      → contains_key q s.quota_claims ≡ true
      → All (IsLiveOf q) (values (reconcile_quota x q now s).registrations)
  unfolding reconcile_quota
  reconcile_quota_own q s h = elim (Option-cases (lookup q s.quota_claims)) [
    | inl absent ↦ absurd (ground (arith, h, absent, contains_key-lookup q s.quota_claims))
    | inr (m, held) ↦
        rw (held, reconcile_quota)
          (install_all-All (IsLiveOf q) q (winners_of (live_claims x now m))
            (without_replicas q s.registrations) (winners_live q q m)
            (without_replicas-All q s.registrations))
  ]

  reconcile_quota_other :
      (q p : Text) (s : RegistryStore)
      → All (IsLiveOf p) (values s.registrations)
      → All (IsLiveOf p) (values (reconcile_quota x q now s).registrations)
  unfolding reconcile_quota without_replicas
  reconcile_quota_other q p s a = elim (Option-cases (lookup q s.quota_claims)) [
    | inl absent ↦ rw (absent, reconcile_quota) a
    | inr (m, held) ↦
        rw (held, reconcile_quota)
          (install_all-All (IsLiveOf p) q (winners_of (live_claims x now m))
            (without_replicas q s.registrations) (winners_live q p m)
            (All-retain-values (IsLiveOf p) (λ _ reg. not (reg.quota_key == q) || is_none reg.rumor)
              s.registrations a))
  ]

  reconcile_all_other :
      (qs : List Text) (p : Text) (s : RegistryStore)
      → All (IsLiveOf p) (values s.registrations)
      → All (IsLiveOf p) (values (reconcile_all x qs now s).registrations)
  unfolding reconcile_all
  reconcile_all_other [] p s a = a
  reconcile_all_other (q ∷ qs) p s a =
      reconcile_all_other qs p (reconcile_quota x q now s) (reconcile_quota_other q p s a)

  reconcile_all_live :
      (qs : List Text) (p : Text) (s : RegistryStore)
      → contains qs p ≡ true
      → contains_key p s.quota_claims ≡ true
      → All (IsLiveOf p) (values (reconcile_all x qs now s).registrations)
  unfolding reconcile_all contains
  reconcile_all_live [] p s h k = cc
  reconcile_all_live (q ∷ qs) p s h k = elim (Bool-cases (q == p)) [
    | inl same ↦ reconcile_all_other qs p (reconcile_quota x q now s) (
        subst (λ z. All (IsLiveOf z) (values (reconcile_quota x q now s).registrations))
          ((list_eq_iff q p).0 same)
          (reconcile_quota_own q s (ground (arith, k, list_eq_iff q p, same))))
    | inr other ↦
        reconcile_all_live qs p (reconcile_quota x q now s) (ground (arith, h, other))
          (contains_key-reconcile_quota x q p now s ∙ k)
  ]

  -- Reclaiming leaves a host whose claims are known only leases that are authorized and live.
  pub reclaim_stale_live :
      (p : Text) (s : RegistryStore)
      → contains_key p s.quota_claims ≡ true
      → All (IsLiveOf p) (values (reclaim_stale x now s).registrations)
  unfolding reclaim_stale drop_expired
  reclaim_stale_live p s h =
      let dropped = drop_expired now s in
      reconcile_all_live (keys dropped.quota_claims) p dropped
        (contains-keys dropped.quota_claims p ∙ h) h

contains_key-reconcile_all :
    (x : Externals) (qs : List Text) (now : ℕ) (q : Text) (s : RegistryStore)
    → contains_key q (reconcile_all x qs now s).quota_claims ≡ contains_key q s.quota_claims
unfolding reconcile_all
contains_key-reconcile_all x [] now q s = refl
contains_key-reconcile_all x (p ∷ ps) now q s =
    contains_key-reconcile_all x ps now q (reconcile_quota x p now s)
    ∙ contains_key-reconcile_quota x p q now s

pub contains_key-reclaim_stale :
    (x : Externals) (now : ℕ) (q : Text) (s : RegistryStore)
    → contains_key q (reclaim_stale x now s).quota_claims ≡ contains_key q s.quota_claims
unfolding reclaim_stale drop_expired
contains_key-reclaim_stale x now q s =
    contains_key-reconcile_all x (keys (drop_expired now s).quota_claims) now q (drop_expired now s)
