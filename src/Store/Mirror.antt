-- ===== src/Store/Mirror.antt =====
-- The registrations after a lease was adopted: crates/binda-core/src/store.rs, `adopt_rumor`.
use binda.Prelude.{
  ℕ, zero, suc, ◌≡◌, refl, sym, ap, ◌∙◌, ◌≢◌, inl, inr, true, false, ◌||◌, not, Option, none, some,
  List, [], ◌∷◌, arith, Bool-cases, Option-cases, ◌==◌, nat_eq, list_eq, list_eq_iff, ==_refl,
  subst,
}
use mathlib.Core.Option
use binda.Prelude.All.{All, All-take}
use binda.Prelude.Rearranged.{Pair, All-append_one}
use binda.Prelude.Sort.{sort_by}
use binda.Prelude.Map.{
  HashMap, lookup, insert, retain, values, Distinct, lookup-insert, contains_key-lookup,
  insert-Distinct, retain-Distinct, lookup-retain-none,
}
use binda.Text.{Text}
use binda.Domain.{DomainName}
use binda.Client.{Externals}
use binda.Gossip.{RegistrationRumor}
use binda.Store.{
  Registration, RegistryStore, registration_from_rumor, install_all, install, without_replicas,
  winners_of, claim_order, is_none, live_claims, reconcile_quota, contains, take, rumor_domains,
}
use binda.Store.Evidence.{adopt_rumor, add_claim}
use binda.Store.Claims.{IsKeyed, winners_of-All}
use binda.Store.Names.{Differ, sort_by-Pair, IsAcceptable, host, claims_of, values-insert_new}
use binda.Store.Retained.{
  IsHolding, keep, claims_of-adopt_rumor, insert-IsHolding, live_claims_acceptable, add_claim_lem,
}
use binda.Store.Reclaim.{All-weaken}
use binda.Store.Keyed.{IsClaims, install_lem}
use binda.Store.Leases.{
  lease_of, others, or_else, IsFree, claim_on-winners_of, lookup-install_all,
  lookup-without_replicas,
}

Pair-take : (n : ℕ) (rs : List RegistrationRumor) → Pair Differ rs → Pair Differ (take n rs)
Pair-take zero rs p = tt
Pair-take (suc n) [] p = tt
Pair-take (suc n) (r ∷ rs) p = (All-take (Differ r) n rs p.0, Pair-take n rs p.1)

values-lookup :
    (m : HashMap DomainName RegistrationRumor)
    → IsKeyed m
    → Distinct m
    → All (λ c. lookup c.domain m ≡ some c) (values m)
unfolding lookup
values-lookup [] k d = tt
values-lookup ((e, r) ∷ m) k d = (
  ground (arith, k.0, ==_refl r.domain, list_eq_iff e r.domain),
  All-weaken (λ c. lookup c.domain m ≡ some c) (λ c. lookup c.domain ((e, r) ∷ m) ≡ some c)
      (λ c found. ground (arith, found, d.0, contains_key-lookup e m, list_eq_iff e c.domain))
      (values m) (values-lookup m k.1 d.1),
)

others-lease_of :
    (h : Text) (o : Option Registration) (reg : Registration)
    → lease_of h o ≡ some reg
    → others h o ≡ none
others-lease_of h none reg e = cc
others-lease_of h (some g) reg e = ground (arith, e)

-- Each host's leases are those of its claims.
pub record IsMirrored (s : RegistryStore) : Type 0 where
  pub once : Distinct s.registrations
  pub mirror :
      (q : Text) (d : DomainName)
      → lease_of q (lookup d s.registrations)
        ≡ Option.map (λ r. registration_from_rumor r q) (lookup d (claims_of q s))

is_lease :
    (h : Text) (reg : Registration) (o : Option RegistrationRumor)
    → (reg.quota_key == h) ≡ true
    → lease_of h (some reg) ≡ Option.map (λ r. registration_from_rumor r h) o
    → is_none reg.rumor ≡ false
unfolding registration_from_rumor
is_lease h reg none q e = absurd (ground (arith, q, e))
is_lease h reg (some r) q e = ground (arith, q, e)

registrations-reconcile_quota :
    (x : Externals) (q : Text) (now : ℕ) (s : RegistryStore)
    (m : HashMap DomainName RegistrationRumor)
    → lookup q s.quota_claims ≡ some m
    → (reconcile_quota x q now s).registrations
      ≡ install_all q (winners_of (live_claims x now m)) (without_replicas q s.registrations)
unfolding reconcile_quota
registrations-reconcile_quota x q now s m held = rw (held, reconcile_quota) refl

install_all-Distinct :
    (q : Text) (rs : List RegistrationRumor) (regs : HashMap DomainName Registration)
    → Distinct regs
    → Distinct (install_all q rs regs)
unfolding install_all
install_all-Distinct q [] regs d = d
install_all-Distinct q (r ∷ rs) regs d =
    install_all-Distinct q rs (install q r regs) (elim (install_lem q r regs) [
      | inl e ↦ rw e (insert-Distinct r.domain (registration_from_rumor r q) regs d)
      | inr e ↦ rw e d
    ])

-- A name is leased to one host at most.
lease_of_other :
    (h q : Text) (o : Option Registration) (reg : Registration)
    → (h == q) ≡ false
    → lease_of h o ≡ some reg
    → lease_of q o ≡ none
lease_of_other h q none reg n e = refl
lease_of_other h q (some g) reg n e =
    ground (arith, n, e, list_eq_iff g.quota_key h, list_eq_iff g.quota_key q, list_eq_iff h q)

module _ (x : Externals) (now : ℕ) (s : RegistryStore) (r : RegistrationRumor)
    (a : IsAcceptable x now r) (holds : IsHolding x now (claims_of (host r) s))
    (claims : IsClaims (claims_of (host r) s))
    (fresh : All (Differ r) (values (claims_of (host r) s))) (mirrored : IsMirrored s)
    (free : lookup r.domain s.registrations ≡ none) where
  abbrev h : Text
  h = host r

  abbrev m : HashMap DomainName RegistrationRumor
  m = claims_of (host r) s

  abbrev more : HashMap DomainName RegistrationRumor
  more = insert r.domain r (claims_of (host r) s)

  abbrev rest : HashMap DomainName Registration
  rest = without_replicas (host r) s.registrations

  more-IsHolding : IsHolding x now more
  more-IsHolding = insert-IsHolding x now r m holds a fresh

  registrations-adopt_rumor :
      (adopt_rumor x s r now).0.registrations ≡ install_all h (winners_of more) rest
  unfolding adopt_rumor
  registrations-adopt_rumor =
      let found : lookup h (add_claim h r s.quota_claims) ≡ some more =
        rw (add_claim_lem x now h s r)
          (ground (arith, lookup-insert h h more s.quota_claims, ==_refl h)) in
      let with : RegistryStore = record s { quota_claims = add_claim h r s.quota_claims } in
      rw (a.0, a.1, adopt_rumor)
        (registrations-reconcile_quota x h now with more found
          ∙ ap (λ live. install_all h (winners_of live) rest)
              (live_claims_acceptable x now more more-IsHolding.acceptable))

  lookup-rest : (d : DomainName) → lookup d rest ≡ others h (lookup d s.registrations)
  lookup-rest d = lookup-without_replicas h d s.registrations mirrored.once (λ reg found q.
      is_lease h reg (lookup d m) q (ap (lease_of h) (sym found) ∙ mirrored.mirror h d))

  rest-IsFree : All (IsFree h rest) (values more)
  rest-IsFree = rw (values-insert_new r m holds.keyed fresh) (
      All-append_one (IsFree h rest) (values m) r
        (All-weaken (λ c. lookup c.domain m ≡ some c) (IsFree h rest)
          (λ c found.
            lookup-rest c.domain
            ∙ others-lease_of h (lookup c.domain s.registrations) (registration_from_rumor c h) (
                mirrored.mirror h c.domain
                ∙ ap (Option.map (λ z. registration_from_rumor z h)) found))
          (values m) (values-lookup m claims.0 claims.1))
        (lookup-rest r.domain ∙ ap (others h) free))

  -- On each name stands the claim that the host keeps on it, or else what another host has there.
  pub lookup-adopt_rumor :
      (d : DomainName)
      → lookup d (adopt_rumor x s r now).0.registrations
        ≡ or_else
            (Option.map (λ c. registration_from_rumor c h) (lookup d (keep x now more)))
            (others h (lookup d s.registrations))
  unfolding winners_of
  lookup-adopt_rumor d =
      ap (lookup d) registrations-adopt_rumor
      ∙ lookup-install_all h d (winners_of more) rest
          (Pair-take 5 (sort_by claim_order (values more))
            (sort_by-Pair (values more) more-IsHolding.differ))
          (winners_of-All (IsFree h rest) more rest-IsFree)
      ∙ ap (λ z. or_else (Option.map (λ c. registration_from_rumor c h) z) (lookup d rest))
          (claim_on-winners_of d more more-IsHolding.keyed (insert-Distinct r.domain r m claims.1)
              more-IsHolding.differ
            ∙ ap
                (λ live.
                  lookup d (retain (λ e _. contains (rumor_domains (winners_of live)) e) live))
                (sym (live_claims_acceptable x now more more-IsHolding.acceptable)))
      ∙ ap (or_else (Option.map (λ c. registration_from_rumor c h) (lookup d (keep x now more))))
          (lookup-rest d)

  lease_of_placed :
      (q : Text) (d : DomainName) (o : Option RegistrationRumor) (g : Option Registration)
      → (host r == q) ≡ false
      → (o ≢ none → lease_of q g ≡ none)
      → lease_of q (or_else (Option.map (λ c. registration_from_rumor c h) o) (others h g))
        ≡ lease_of q g
  unfolding registration_from_rumor
  lease_of_placed q d none none e k = refl
  lease_of_placed q d none (some reg) e k =
      ground (arith, e, list_eq_iff reg.quota_key h, list_eq_iff reg.quota_key q, list_eq_iff h q)
  lease_of_placed q d (some c) g e k = ground (arith, e, k (λ z. cc))

  lease_of_own :
      (o : Option RegistrationRumor) (g : Option Registration)
      → lease_of h (or_else (Option.map (λ c. registration_from_rumor c h) o) (others h g))
        ≡ Option.map (λ c. registration_from_rumor c h) o
  unfolding registration_from_rumor
  lease_of_own none none = refl
  lease_of_own none (some reg) = ground arith
  lease_of_own (some c) g = ground (arith, ==_refl h)

  kept_elsewhere :
      (q : Text) (d : DomainName)
      → (host r == q) ≡ false
      → lookup d (keep x now more) ≢ none
      → lease_of q (lookup d s.registrations) ≡ none
  kept_elsewhere q d n present = elim (Bool-cases (r.domain == d)) [
    | inl e ↦
        ap (λ z. lease_of q (lookup z s.registrations)) (sym ((list_eq_iff r.domain d).0 e))
        ∙ ap (lease_of q) free
    | inr e ↦ elim (Option-cases (lookup d m)) [
      | inr (c, found) ↦
          lease_of_other h q (lookup d s.registrations) (registration_from_rumor c h) n
            (mirrored.mirror h d ∙ ap (Option.map (λ z. registration_from_rumor z h)) found)
      | inl gone ↦
          let live = live_claims x now more in
          let absent : lookup d live ≡ none =
            ap (lookup d) (live_claims_acceptable x now more more-IsHolding.acceptable)
            ∙ lookup-insert r.domain d r m
            ∙ ground (arith, e, gone) in
          absurd (
            present (
              lookup-retain-none d (λ z _. contains (rumor_domains (winners_of live)) z) live
                absent))
    ]
  ]

  -- After a fresh claim was adopted each host's leases are still those of its claims.
  pub adopt_rumor-IsMirrored : IsMirrored (adopt_rumor x s r now).0
  unfolding without_replicas
  adopt_rumor-IsMirrored = record {
    once = subst Distinct (sym registrations-adopt_rumor) (
        install_all-Distinct h (winners_of more) rest (
          retain-Distinct (λ _ reg. not (reg.quota_key == host r) || is_none reg.rumor)
            s.registrations mirrored.once));
    mirror = λ q d.
        let step = claims_of-adopt_rumor x now q s r a in
        elim (Bool-cases (host r == q)) [
          | inl e ↦
              let own : lease_of h (lookup d (adopt_rumor x s r now).0.registrations)
                  ≡ Option.map (λ c. registration_from_rumor c h) (lookup d (keep x now more)) =
                ap (lease_of h) (lookup-adopt_rumor d)
                ∙ lease_of_own (lookup d (keep x now more)) (lookup d s.registrations) in
              let same : h ≡ q = (list_eq_iff h q).0 e in
              subst
                (λ z.
                  lease_of z (lookup d (adopt_rumor x s r now).0.registrations)
                  ≡ Option.map (λ c. registration_from_rumor c z)
                      (lookup d (claims_of z (adopt_rumor x s r now).0)))
                same
                (own
                  ∙ ap (λ c. Option.map (λ z. registration_from_rumor z h) (lookup d c))
                      (sym (claims_of-adopt_rumor x now h s r a ∙ ground (arith, ==_refl h))))
          | inr e ↦
              ap (lease_of q) (lookup-adopt_rumor d)
              ∙ lease_of_placed q d (lookup d (keep x now more)) (lookup d s.registrations) e
                  (kept_elsewhere q d e)
              ∙ mirrored.mirror q d
              ∙ ap (λ c. Option.map (λ z. registration_from_rumor z q) (lookup d c))
                  (sym (step ∙ rw (e) refl))
        ];
  }
