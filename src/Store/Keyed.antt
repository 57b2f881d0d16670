-- ===== src/Store/Keyed.antt =====
-- A new lease stays with the client that registered it: crates/binda-core/src/store.rs,
-- `attach_rumor` after `register`.
use binda.Prelude.{
  ℕ, ◌≡◌, refl, sym, ◌∙◌, ◌⊎◌, inl, inr, Bool, true, false, ◌&&◌, ◌||◌, not, none, some, List, [],
  ◌∷◌, arith, Bool-cases, Option-cases, ◌==◌, nat_eq, list_eq, list_eq_iff, ==_refl, subst,
}
use binda.Prelude.All.{All}
use binda.Prelude.Map.{
  HashMap, lookup, insert, retain, values, keys, contains_key, Distinct, retain-Distinct,
  lookup-insert,
}
use binda.Text.{Text}
use binda.Domain.{DomainName}
use binda.Client.{Externals, ClientIdentity}
use binda.Gossip.{RegistrationRumor}
use binda.Store.{
  Registration, RegistryStore, find, install, install_all, without_replicas, live_claims,
  winners_of, reconcile_quota, reconcile_all, reclaim_stale, drop_expired, contains, rumor_domains,
  registration_from_rumor, is_authorized, is_none, negotiate_locally, lease_is_live,
}
use binda.Store.Register.{register}
use binda.Store.Evidence.{attach_rumor, add_claim}
use binda.Store.Claims.{IsKeyed, winners_of-All, retain-IsKeyed, live_claims-IsKeyed}
use binda.Token.{token_eq}
use binda.Store.Names.{host, claims_of}
use binda.Store.Retained.{keep, claims_of-reconcile_quota, claims_of-add_claim}

-- Each claim stands under its own name, and no name has two.
abbrev pub IsClaims : HashMap DomainName RegistrationRumor → Type 0
IsClaims m = IsKeyed m × Distinct m

-- Every host's claims are such.
abbrev pub AllKeyed : RegistryStore → Type 0
AllKeyed s = (q : Text) → IsClaims (claims_of q s)

module _ (x : Externals) (now : ℕ) where
  keep-IsClaims : (m : HashMap DomainName RegistrationRumor) → IsClaims m → IsClaims (keep x now m)
  unfolding live_claims
  keep-IsClaims m h =
      let live = live_claims x now m in
      let stays : DomainName → RegistrationRumor → Bool =
        λ d _. contains (rumor_domains (winners_of live)) d in
      (
        retain-IsKeyed stays live (live_claims-IsKeyed x now m h.0),
        retain-Distinct stays live
            (retain-Distinct (λ _ r. is_authorized x r && lease_is_live r now) m h.1),
      )

  pub reconcile_quota-AllKeyed :
      (quota : Text) (s : RegistryStore) → AllKeyed s → AllKeyed (reconcile_quota x quota now s)
  reconcile_quota-AllKeyed quota s h q =
      elim (Bool-cases (contains_key quota s.quota_claims && quota == q)) [
        | inl e ↦
            subst IsClaims (sym (claims_of-reconcile_quota x now quota q s ∙ rw (e) refl))
              (keep-IsClaims (claims_of q s) (h q))
        | inr e ↦
            subst IsClaims (sym (claims_of-reconcile_quota x now quota q s ∙ rw (e) refl)) (h q)
      ]

  reconcile_all-AllKeyed :
      (qs : List Text) (s : RegistryStore) → AllKeyed s → AllKeyed (reconcile_all x qs now s)
  unfolding reconcile_all
  reconcile_all-AllKeyed [] s h = h
  reconcile_all-AllKeyed (q ∷ qs) s h =
      reconcile_all-AllKeyed qs (reconcile_quota x q now s) (reconcile_quota-AllKeyed q s h)

  pub reclaim_stale-AllKeyed : (s : RegistryStore) → AllKeyed s → AllKeyed (reclaim_stale x now s)
  unfolding reclaim_stale drop_expired
  reclaim_stale-AllKeyed s h =
      reconcile_all-AllKeyed (keys (drop_expired now s).quota_claims) (drop_expired now s) h

  pub register-AllKeyed :
      (s : RegistryStore) (d : DomainName) (c : ClientIdentity) (nonce : List ℕ)
      → AllKeyed s
      → AllKeyed (register x s d c now nonce).0
  unfolding register
  register-AllKeyed s d c nonce h q = ground (arith, h q, reclaim_stale-AllKeyed s h q)

-- The name's registration is the client's.
abbrev pub HeldBy : Text → DomainName → HashMap DomainName Registration → Type 0
HeldBy k d regs = (reg : Registration) × (lookup d regs ≡ some reg) × (reg.client_key ≡ k)

-- A claim on the name is the client's.
abbrev pub IsOwn : Text → DomainName → RegistrationRumor → Type 0
IsOwn k d r = (r.domain == d) ≡ true → r.client_key ≡ k

pub install_lem :
    (quota : Text) (r : RegistrationRumor) (regs : HashMap DomainName Registration)
    → (install quota r regs ≡ insert r.domain (registration_from_rumor r quota) regs)
      ⊎ (install quota r regs ≡ regs)
unfolding install
install_lem quota r regs = elim (Option-cases (lookup r.domain regs)) [
  | inl q ↦ inl (rw (q, install) refl)
  | inr (g, q) ↦ elim (Bool-cases (negotiate_locally g.token r.token == r.token)) [
    | inl b ↦ inl (rw (q, b, install) refl)
    | inr b ↦ inr (rw (q, b, install) refl)
  ]
]

install-HeldBy :
    (quota k : Text) (d : DomainName) (r : RegistrationRumor)
    (regs : HashMap DomainName Registration)
    → IsOwn k d r
    → HeldBy k d regs
    → HeldBy k d (install quota r regs)
unfolding registration_from_rumor
install-HeldBy quota k d r regs own (reg, found, same) =
    let reads = lookup-insert r.domain d (registration_from_rumor r quota) regs in
    elim (install_lem quota r regs) [
      | inr q ↦ rw q (reg, found, same)
      | inl q ↦ elim (Bool-cases (r.domain == d)) [
        | inl b ↦ rw q (registration_from_rumor r quota, ground (arith, reads, b), own b)
        | inr b ↦ rw q (reg, ground (arith, reads, b, found), same)
      ]
    ]

install_all-HeldBy :
    (quota k : Text) (d : DomainName) (rs : List RegistrationRumor)
    (regs : HashMap DomainName Registration)
    → All (IsOwn k d) rs
    → HeldBy k d regs
    → HeldBy k d (install_all quota rs regs)
unfolding install_all
install_all-HeldBy quota k d [] regs own h = h
install_all-HeldBy quota k d (r ∷ rs) regs own h =
    install_all-HeldBy quota k d rs (install quota r regs) own.1
      (install-HeldBy quota k d r regs own.0 h)

pub All-retain :
    (P : RegistrationRumor → Type 0) (p : DomainName → RegistrationRumor → Bool)
    (m : HashMap DomainName RegistrationRumor)
    → All P (values m)
    → All P (values (retain p m))
unfolding retain
All-retain P p [] h = tt
All-retain P p ((d, r) ∷ m) h = elim (Bool-cases (p d r)) [
  | inl q ↦ rw (q) (h.0, All-retain P p m h.1)
  | inr q ↦ rw (q) (All-retain P p m h.1)
]

absent-IsOwn :
    (k : Text) (d : DomainName) (m : HashMap DomainName RegistrationRumor)
    → IsKeyed m
    → contains_key d m ≡ false
    → All (IsOwn k d) (values m)
unfolding contains_key
absent-IsOwn k d [] h a = tt
absent-IsOwn k d ((e, r) ∷ m) h a = (
  λ b. absurd (ground (arith, b, a, h.0, list_eq_iff r.domain d, list_eq_iff e d)),
  absent-IsOwn k d m h.1 (ground (arith, a)),
)

insert-IsOwn :
    (r : RegistrationRumor) (m : HashMap DomainName RegistrationRumor)
    → IsClaims m
    → All (IsOwn r.client_key r.domain) (values (insert r.domain r m))
unfolding insert
insert-IsOwn r [] h = (λ b. refl, tt)
insert-IsOwn r ((e, c) ∷ m) (keyed, once) = elim (Bool-cases (e == r.domain)) [
  | inl q ↦
      let gone : contains_key r.domain m ≡ false =
        ground (arith, q, list_eq_iff e r.domain, once.0) in
      rw (q) (λ b. refl, absent-IsOwn r.client_key r.domain m keyed.1 gone)
  | inr q ↦ rw (q) (
    λ b.
        absurd
          (ground (arith, b, q, keyed.0, list_eq_iff c.domain r.domain, list_eq_iff e r.domain)),
    insert-IsOwn r m (keyed.1, once.1),
  )
]

lookup-retain_kept :
    (p : DomainName → Registration → Bool) (d : DomainName) (reg : Registration)
    (regs : HashMap DomainName Registration)
    → lookup d regs ≡ some reg
    → p d reg ≡ true
    → lookup d (retain p regs) ≡ some reg
unfolding retain lookup
lookup-retain_kept p d reg [] h k = cc
lookup-retain_kept p d reg ((e, g) ∷ regs) h k =
    ground (arith, lookup-retain_kept p d reg regs, list_eq_iff e d)

module _ (x : Externals) (now : ℕ) where
  reconcile_quota-HeldBy :
      (quota k : Text) (d : DomainName) (s : RegistryStore) (reg : Registration)
      → All (IsOwn k d) (values (claims_of quota s))
      → find s d ≡ some reg
      → reg.rumor ≡ none
      → reg.client_key ≡ k
      → HeldBy k d (reconcile_quota x quota now s).registrations
  unfolding reconcile_quota find without_replicas live_claims
  reconcile_quota-HeldBy quota k d s reg own found bare same =
      elim (Option-cases (lookup quota s.quota_claims)) [
        | inl q ↦ rw (q, reconcile_quota) (reg, found, same)
        | inr (m, q) ↦
            let live = live_claims x now m in
            let mine : All (IsOwn k d) (values m) =
              subst (All (IsOwn k d)) (rw (q, claims_of) refl) own in
            let rest : lookup d (without_replicas quota s.registrations) ≡ some reg =
              lookup-retain_kept (λ _ g. not (g.quota_key == quota) || is_none g.rumor) d reg
                s.registrations found (ground (arith, bare)) in
            rw (q, reconcile_quota)
              (install_all-HeldBy quota k d (winners_of live)
                (without_replicas quota s.registrations)
                (winners_of-All (IsOwn k d) live
                  (All-retain (IsOwn k d) (λ _ r. is_authorized x r && lease_is_live r now) m mine))
                (reg, rest, same))
      ]

  -- Attaching a client's own lease leaves the name with the client.
  pub attach_rumor-HeldBy :
      (s : RegistryStore) (r : RegistrationRumor) (reg : Registration)
      → IsClaims (claims_of (host r) s)
      → find s r.domain ≡ some reg
      → reg.rumor ≡ none
      → reg.client_key ≡ r.client_key
      → HeldBy r.client_key r.domain (attach_rumor x s r now).0.registrations
  unfolding attach_rumor find
  attach_rumor-HeldBy s r reg keyed found bare same =
      let with : RegistryStore = record s { quota_claims = add_claim (host r) r s.quota_claims } in
      elim (Bool-cases (reg.client_key == r.client_key && reg.token == r.token)) [
        | inr b ↦ rw (found, b, attach_rumor) (reg, found, same)
        | inl b ↦
            rw (found, b, attach_rumor)
              (reconcile_quota-HeldBy (host r) r.client_key r.domain with reg
                (subst (λ m. All (IsOwn r.client_key r.domain) (values m))
                  (sym (claims_of-add_claim x now (host r) s r ∙ ground (arith, ==_refl (host r))))
                  (insert-IsOwn r (claims_of (host r) s) keyed))
                found bare same)
      ]
