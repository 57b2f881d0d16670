-- ===== src/Store/Leases.antt =====
-- The registrations and the claims that they come from: crates/binda-core/src/store.rs, the loop of
-- `reconcile_quota`.
use binda.Prelude.{
  ℕ, zero, suc, ◌≡◌, refl, sym, ap, ◌∙◌, inl, inr, Bool, true, false, ◌||◌, not, Option, none, some,
  List, [], ◌∷◌, arith, if◌then◌else◌, Bool-cases, Option-cases, ◌==◌, nat_eq, list_eq, list_eq_iff,
}
use mathlib.Core.Option
use mathlib.Core.List.{Permᴰ}
use binda.Prelude.All.{All}
use binda.Prelude.Rearranged.{Pair, sort_by-permutes_self, Pair-permutes}
use binda.Prelude.Sort.{sort_by}
use binda.Prelude.Map.{
  HashMap, lookup, insert, retain, values, Distinct, lookup-insert, lookup-retain, kept,
}
use binda.Text.{Text}
use binda.Domain.{DomainName}
use binda.Gossip.{RegistrationRumor, contains, rumor_domains}
use binda.Store.{
  Registration, registration_from_rumor, install, install_all, without_replicas, winners_of,
  claim_order, is_none, take,
}
use binda.Store.Claims.{IsKeyed}
use binda.Store.Names.{Differ, Differ-flip, sort_by-Pair}

-- The first claim on the name.
abbrev pub claim_on : DomainName → List RegistrationRumor → Option RegistrationRumor
claim_on d [] = none
claim_on d (r ∷ rs) = if r.domain == d then some r else claim_on d rs

-- The registration, if it is the host's, and if it is another's.
abbrev pub lease_of : Text → Option Registration → Option Registration
lease_of q none = none
lease_of q (some reg) = if reg.quota_key == q then some reg else none

abbrev pub others : Text → Option Registration → Option Registration
others q none = none
others q (some reg) = if reg.quota_key == q then none else some reg

abbrev pub or_else {ℓ} : {A : Type ℓ} → Option A → Option A → Option A
or_else none later = later
or_else (some first) later = some first

pub claim_on-permutes :
    (d : DomainName) {rs ps : List RegistrationRumor}
    → Permᴰ rs ps
    → Pair Differ rs
    → claim_on d rs ≡ claim_on d ps
claim_on-permutes d Permᴰ.nil h = refl
claim_on-permutes d (Permᴰ.cons {a = r} {b = p} {l₂ = ps} e q) h =
    ap (λ z. if r.domain == d then some r else z) (claim_on-permutes d q h.1)
    ∙ ap (λ z. claim_on d (z ∷ ps)) e
claim_on-permutes d (Permᴰ.swap {a = r} {b = p} {a' = p'} {b' = r'} {l = l} e f) h =
    ground
      (arith, list_eq_iff r.domain d, list_eq_iff p.domain d, list_eq_iff r.domain p.domain, h.0.0)
    ∙ ap (λ z. claim_on d (z ∷ r ∷ l)) f
    ∙ ap (λ z. claim_on d (p' ∷ z ∷ l)) e
claim_on-permutes d (Permᴰ.trans p q) h =
    claim_on-permutes d p h ∙ claim_on-permutes d q (Pair-permutes Differ Differ-flip p h)

pub claim_on-values :
    (d : DomainName) (m : HashMap DomainName RegistrationRumor)
    → IsKeyed m
    → claim_on d (values m) ≡ lookup d m
unfolding lookup
claim_on-values d [] k = refl
claim_on-values d ((e, r) ∷ m) k = ground (arith, claim_on-values d m k.1, k.0)

claim_on-take :
    (n : ℕ) (d : DomainName) (rs : List RegistrationRumor)
    → claim_on d (take n rs)
      ≡ (if contains (rumor_domains (take n rs)) d then claim_on d rs else none)
unfolding contains
claim_on-take zero d rs = refl
claim_on-take (suc n) d [] = refl
claim_on-take (suc n) d (r ∷ rs) = ground (arith, claim_on-take n d rs)

kept_if :
    (p : DomainName → Bool) (d : DomainName) (o : Option RegistrationRumor)
    → kept (λ e _. p e) d o ≡ (if p d then o else none)
kept_if p d none = ground arith
kept_if p d (some r) = refl

pub claim_on_absent :
    (r : RegistrationRumor) (d : DomainName) (rs : List RegistrationRumor)
    → (r.domain == d) ≡ true
    → All (Differ r) rs
    → claim_on d rs ≡ none
claim_on_absent r d [] e h = refl
claim_on_absent r d (p ∷ ps) e h = ground (
  arith,
  claim_on_absent r d ps e h.1,
  h.0,
  list_eq_iff r.domain d,
  list_eq_iff p.domain d,
  list_eq_iff r.domain p.domain,
)

-- The winner on a name, if there is one, is the claim that is kept on it.
pub claim_on-winners_of :
    (d : DomainName) (m : HashMap DomainName RegistrationRumor)
    → IsKeyed m
    → Distinct m
    → Pair Differ (values m)
    → claim_on d (winners_of m)
      ≡ lookup d (retain (λ e _. contains (rumor_domains (winners_of m)) e) m)
unfolding winners_of
claim_on-winners_of d m k once p =
    let sorted = sort_by claim_order (values m) in
    let same : claim_on d sorted ≡ lookup d m =
      claim_on-permutes d (sort_by-permutes_self claim_order (values m)) (sort_by-Pair (values m) p)
      ∙ claim_on-values d m k in
    claim_on-take 5 d sorted
    ∙ ap (λ z. if contains (rumor_domains (take 5 sorted)) d then z else none) same
    ∙ sym (
        lookup-retain d (λ e _. contains (rumor_domains (take 5 sorted)) e) m once
        ∙ kept_if (contains (rumor_domains (take 5 sorted))) d (lookup d m))

module _ (h : Text) where
  -- Nothing is registered on the claim's name.
  abbrev pub IsFree : HashMap DomainName Registration → RegistrationRumor → Type 0
  IsFree regs r = lookup r.domain regs ≡ none

  install_free :
      (r : RegistrationRumor) (regs : HashMap DomainName Registration)
      → IsFree regs r
      → install h r regs ≡ insert r.domain (registration_from_rumor r h) regs
  unfolding install
  install_free r regs free = rw (free, install) refl

  still-IsFree :
      (r : RegistrationRumor) (rs : List RegistrationRumor) (regs : HashMap DomainName Registration)
      → All (Differ r) rs
      → All (IsFree regs) rs
      → All (IsFree (insert r.domain (registration_from_rumor r h) regs)) rs
  still-IsFree r [] regs d f = tt
  still-IsFree r (p ∷ ps) regs d f = (
    ground (arith, lookup-insert r.domain p.domain (registration_from_rumor r h) regs, d.0, f.0),
    still-IsFree r ps regs d.1 f.1,
  )

  place :
      (r : RegistrationRumor) (d : DomainName) (rs : List RegistrationRumor)
      (regs : HashMap DomainName Registration)
      → All (Differ r) rs
      → or_else
          (Option.map (λ p. registration_from_rumor p h) (claim_on d rs))
          (lookup d (insert r.domain (registration_from_rumor r h) regs))
        ≡ or_else
            (Option.map (λ p. registration_from_rumor p h) (claim_on d (r ∷ rs)))
            (lookup d regs)
  place r d rs regs a =
      let reads = lookup-insert r.domain d (registration_from_rumor r h) regs in
      elim (Bool-cases (r.domain == d)) [
        | inl q ↦ rw (reads, q, claim_on_absent r d rs q a) refl
        | inr q ↦ rw (reads, q) refl
      ]

  -- Installing claims on free names registers each and leaves the rest.
  pub lookup-install_all :
      (d : DomainName) (rs : List RegistrationRumor) (regs : HashMap DomainName Registration)
      → Pair Differ rs
      → All (IsFree regs) rs
      → lookup d (install_all h rs regs)
        ≡ or_else (Option.map (λ r. registration_from_rumor r h) (claim_on d rs)) (lookup d regs)
  unfolding install_all
  lookup-install_all d [] regs p f = refl
  lookup-install_all d (r ∷ rs) regs p f =
      let with = insert r.domain (registration_from_rumor r h) regs in
      ap (λ z. lookup d (install_all h rs z)) (install_free r regs f.0)
      ∙ lookup-install_all d rs with p.1 (still-IsFree r rs regs p.0 f.1)
      ∙ place r d rs regs p.0

  pub lookup-without_replicas :
      (d : DomainName) (regs : HashMap DomainName Registration)
      → Distinct regs
      → ((reg : Registration)
          → lookup d regs ≡ some reg
          → (reg.quota_key == h) ≡ true
          → is_none reg.rumor ≡ false)
      → lookup d (without_replicas h regs) ≡ others h (lookup d regs)
  unfolding without_replicas
  lookup-without_replicas d regs once leases = elim (Option-cases (lookup d regs)) [
    | inl q ↦
        ground
          (arith, q, lookup-retain d (λ _ g. not (g.quota_key == h) || is_none g.rumor) regs once)
    | inr (reg, q) ↦ ground (
      arith,
      q,
      leases reg q,
      lookup-retain d (λ _ g. not (g.quota_key == h) || is_none g.rumor) regs once,
    )
  ]
