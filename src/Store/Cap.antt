-- ===== src/Store/Cap.antt =====
-- At most five replicated leases of one host: crates/binda-core/src/store.rs.
use binda.Prelude.{
  ℕ, ◌+◌, ◌*◌, ◌≤◌, ◌≡◌, refl, inl, inr, Bool, true, false, ◌&&◌, none, some, List, [], ◌∷◌, arith,
  if◌then◌else◌, Option-cases, length, ◌==◌, nat_eq, list_eq, list_eq_iff, length-take,
}
use binda.Prelude.Map.{HashMap, lookup, insert, retain, contains_key, contains_key-lookup, keys}
use native.Mathlib.Nat.{le_trans}
use binda.Text.{Text}
use binda.Token.{token_eq}
use binda.Domain.{DomainName}
use binda.Client.{Externals}
use binda.Gossip.{RegistrationRumor}
use binda.Store.{
  Registration, RegistryStore, install, install_all, without_replicas, reconcile_quota, winners_of,
  reconcile_all, reclaim_stale, drop_expired, registration_from_rumor, live_claims,
}

-- The registration is a lease of the host `quota` that is known by its signed evidence.
abbrev pub is_replica : Text → Registration → Bool
is_replica quota reg = elim reg.rumor [ none ↦ false | some _ ↦ reg.quota_key == quota ]

abbrev pub one_if : Bool → ℕ
one_if true = 1
one_if false = 0

-- How many leases of the host the registrations hold.
abbrev pub replicas : Text → HashMap DomainName Registration → ℕ
replicas q [] = 0
replicas q ((d, reg) ∷ regs) = one_if (is_replica q reg) + replicas q regs

pub replicas-insert-le :
    (q : Text) (d : DomainName) (reg : Registration) (regs : HashMap DomainName Registration)
    → replicas q (insert d reg regs) ≤ replicas q regs + one_if (is_replica q reg)
unfolding insert
replicas-insert-le q d reg [] = ground arith
replicas-insert-le q d reg ((e, old) ∷ regs) = ground (arith, replicas-insert-le q d reg regs)

pub replicas-retain-le :
    (q : Text) (p : DomainName → Registration → Bool) (regs : HashMap DomainName Registration)
    → replicas q (retain p regs) ≤ replicas q regs
unfolding retain
replicas-retain-le q p [] = omega arith
replicas-retain-le q p ((d, reg) ∷ regs) = ground (arith, replicas-retain-le q p regs)

replicas-without_replicas :
    (q : Text) (regs : HashMap DomainName Registration) → replicas q (without_replicas q regs) ≡ 0
unfolding without_replicas retain
replicas-without_replicas q [] = refl
replicas-without_replicas q ((d, reg) ∷ regs) = ground (arith, replicas-without_replicas q regs)

without_replicas-le :
    (q quota : Text) (regs : HashMap DomainName Registration)
    → replicas q (without_replicas quota regs) ≤ replicas q regs
unfolding without_replicas
without_replicas-le q quota regs = replicas-retain-le q _ regs

install-le :
    (q quota : Text) (r : RegistrationRumor) (regs : HashMap DomainName Registration)
    → replicas q (install quota r regs) ≤ replicas q regs + one_if (quota == q)
unfolding install
install-le q quota r regs =
    ground (arith, replicas-insert-le q r.domain (registration_from_rumor r quota) regs)

install_all-le :
    (q quota : Text) (rs : List RegistrationRumor) (regs : HashMap DomainName Registration)
    → replicas q (install_all quota rs regs) ≤ replicas q regs + one_if (quota == q) * length rs
unfolding install_all
install_all-le q quota [] regs = omega arith
install_all-le q quota (r ∷ rs) regs =
    ground (arith, install-le q quota r regs, install_all-le q quota rs (install quota r regs))

length-winners_of-le : (m : HashMap DomainName RegistrationRumor) → length (winners_of m) ≤ 5
unfolding winners_of
length-winners_of-le m = omega (arith, length-take {0} 5)

-- Every host has at most five leases among the registrations.
abbrev pub IsCapped : RegistryStore → Type 0
IsCapped s = (q : Text) → replicas q s.registrations ≤ 5

module _ (x : Externals) (now : ℕ) where
  -- Reconciling a host that has claims leaves it at most five leases, whatever was installed before,
  -- and reconciling gives no other host a lease more.
  pub reconcile_quota-replicas :
      (quota q : Text) (s : RegistryStore)
      → replicas q (reconcile_quota x quota now s).registrations ≤ (
          if contains_key quota s.quota_claims && quota == q then 5 else replicas q s.registrations)
  unfolding reconcile_quota
  reconcile_quota-replicas quota q s = elim (Option-cases (lookup quota s.quota_claims)) [
    | inl absent ↦
        rw (absent, reconcile_quota)
          (ground (arith, contains_key-lookup quota s.quota_claims, absent))
    | inr (claims, held) ↦
        let winners = winners_of (live_claims x now claims) in
        let rest = without_replicas quota s.registrations in
        rw (held, reconcile_quota)
          (ground (
            arith,
            held,
            contains_key-lookup quota s.quota_claims,
            install_all-le q quota winners rest,
            length-winners_of-le (live_claims x now claims),
            list_eq_iff quota q,
            replicas-without_replicas quota s.registrations,
            without_replicas-le q quota s.registrations,
          ))
  ]

  pub reconcile_quota-IsCapped :
      (quota : Text) (s : RegistryStore) → IsCapped s → IsCapped (reconcile_quota x quota now s)
  reconcile_quota-IsCapped quota s h q = ground (arith, reconcile_quota-replicas quota q s, h q)

  reconcile_all-IsCapped :
      (qs : List Text) (s : RegistryStore) → IsCapped s → IsCapped (reconcile_all x qs now s)
  unfolding reconcile_all
  reconcile_all-IsCapped [] s h = h
  reconcile_all-IsCapped (q ∷ qs) s h =
      reconcile_all-IsCapped qs (reconcile_quota x q now s) (reconcile_quota-IsCapped q s h)

  drop_expired-IsCapped : (s : RegistryStore) → IsCapped s → IsCapped (drop_expired now s)
  unfolding drop_expired
  drop_expired-IsCapped s h q = le_trans (replicas-retain-le q _ s.registrations) (h q)

  pub reclaim_stale-IsCapped : (s : RegistryStore) → IsCapped s → IsCapped (reclaim_stale x now s)
  unfolding reclaim_stale
  reclaim_stale-IsCapped s h =
      reconcile_all-IsCapped (keys (drop_expired now s).quota_claims) (drop_expired now s)
        (drop_expired-IsCapped s h)
