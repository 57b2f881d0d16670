-- ===== src/Store/Reach.antt =====
-- The states that a node's store can take, and the cap in all of them:
-- crates/binda-core/src/store.rs.
use binda.Prelude.{ℕ, ◌≡◌, refl, none, List, [], ◌∷◌, arith, if◌then◌else◌, ◌==◌, nat_eq, list_eq}
use binda.Prelude.Map.{HashMap, map_values, update}
use binda.Text.{Text}
use binda.Token.{RegistrationToken, token_eq, issue}
use binda.Collision.{negotiate_locally}
use binda.Domain.{DomainName}
use binda.Zone.{Record}
use binda.Client.{Externals, ClientIdentity, quota_key_of}
use binda.Gossip.{RegistrationRumor}
use binda.Store.{
  Registration, RegistryStore, new, probe_with_evidence, reclaim_stale, reconcile_quota,
}
use binda.Store.Register.{register, resolve_collision, set_records, fresh_registration}
use binda.Store.Evidence.{
  attach_rumor, refresh_probe_evidence, refresh_registration, attach_record_evidence,
  sign_registration, adopt_rumor, add_claim,
}
use binda.Store.Cap.{
  is_replica, replicas, IsCapped, replicas-insert-le, reclaim_stale-IsCapped,
  reconcile_quota-IsCapped,
}

-- One call of a method that changes the store, with any arguments.
pub data Step (x : Externals) : RegistryStore → RegistryStore → Type 0 where
  probed :
      (s : RegistryStore) (c : ClientIdentity) (now timestamp : ℕ) (signature : List ℕ)
      → Step x s (probe_with_evidence s c now timestamp signature)
  registered :
      (s : RegistryStore) (d : DomainName) (c : ClientIdentity) (now : ℕ) (nonce : List ℕ)
      → Step x s (register x s d c now nonce).0
  collided :
      (s : RegistryStore) (d : DomainName) (a b : Text × Text × RegistrationToken)
      → Step x s (resolve_collision s d a b)
  published :
      (s : RegistryStore) (d : DomainName) (c : ClientIdentity) (rs : List Record)
      → Step x s (set_records s d c rs).0
  attached :
      (s : RegistryStore) (r : RegistrationRumor) (now : ℕ) → Step x s (attach_rumor x s r now).0
  refreshed :
      (s : RegistryStore) (k : Text) (timestamp : ℕ) (signature : List ℕ)
      → Step x s (refresh_probe_evidence s k timestamp signature)
  signed :
      (s : RegistryStore) (d : DomainName) (k : Text) (timestamp : ℕ) (signature : List ℕ)
      → Step x s (attach_record_evidence s d k timestamp signature)
  adopted :
      (s : RegistryStore) (r : RegistrationRumor) (now : ℕ) → Step x s (adopt_rumor x s r now).0
  reclaimed : (s : RegistryStore) (now : ℕ) → Step x s (reclaim_stale x now s)

pub data Reach (x : Externals) : RegistryStore → Type 0 where
  initial : Reach x new
  next : {s t : RegistryStore} → Reach x s → Step x s t → Reach x t

replicas-map_values :
    (q : Text) (f : Registration → Registration) (regs : HashMap DomainName Registration)
    → ((reg : Registration) → is_replica q (f reg) ≡ is_replica q reg)
    → replicas q (map_values f regs) ≡ replicas q regs
unfolding map_values
replicas-map_values q f [] h = refl
replicas-map_values q f ((d, reg) ∷ regs) h = rw (h reg, replicas-map_values q f regs h)

replicas-update :
    (q : Text) (d : DomainName) (f : Registration → Registration)
    (regs : HashMap DomainName Registration)
    → ((reg : Registration) → is_replica q (f reg) ≡ is_replica q reg)
    → replicas q (update d f regs) ≡ replicas q regs
unfolding update
replicas-update q d f [] h = refl
replicas-update q d f ((e, reg) ∷ regs) h = ground (arith, h reg, replicas-update q d f regs h)

is_replica-refresh :
    (q k : Text) (t : ℕ) (g : List ℕ) (reg : Registration)
    → is_replica q (refresh_registration k t g reg) ≡ is_replica q reg
unfolding refresh_registration
is_replica-refresh q k t g reg = ground arith

is_replica-sign :
    (q k : Text) (t : ℕ) (g : List ℕ) (reg : Registration)
    → is_replica q (sign_registration k t g reg) ≡ is_replica q reg
unfolding sign_registration
is_replica-sign q k t g reg = ground arith

module _ (x : Externals) where
  register-IsCapped :
      (s : RegistryStore) (d : DomainName) (c : ClientIdentity) (now : ℕ) (nonce : List ℕ)
      → IsCapped s
      → IsCapped (register x s d c now nonce).0
  unfolding register
  register-IsCapped s d c now nonce h q = ground (
    arith,
    h q,
    reclaim_stale-IsCapped x now s h q,
    replicas-insert-le q d (fresh_registration c (issue now nonce))
        (reclaim_stale x now s).registrations,
  )

  resolve_collision-IsCapped :
      (s : RegistryStore) (d : DomainName) (a b : Text × Text × RegistrationToken)
      → IsCapped s
      → IsCapped (resolve_collision s d a b)
  unfolding resolve_collision
  resolve_collision-IsCapped s d a b h q =
      let w = if negotiate_locally a.2 b.2 == a.2 then a else b in
      ground (
        arith,
        h q,
        replicas-insert-le q d
            (record { client_key = w.0; quota_key = w.1; token = w.2; records = []; rumor = none })
            s.registrations,
      )

  set_records-IsCapped :
      (s : RegistryStore) (d : DomainName) (c : ClientIdentity) (rs : List Record)
      → IsCapped s
      → IsCapped (set_records s d c rs).0
  unfolding set_records
  set_records-IsCapped s d c rs h q = ground (
    arith,
    h q,
    replicas-update q d (λ g. record g { records = rs }) s.registrations (λ reg. refl),
  )

  claimed-IsCapped :
      (s : RegistryStore) (r : RegistrationRumor) (quota : Text) (now : ℕ)
      → IsCapped s
      → IsCapped (
          reconcile_quota x quota now
            (record s { quota_claims = add_claim quota r s.quota_claims }))
  claimed-IsCapped s r quota now h =
      reconcile_quota-IsCapped x now quota
        (record s { quota_claims = add_claim quota r s.quota_claims }) h

  attach_rumor-IsCapped :
      (s : RegistryStore) (r : RegistrationRumor) (now : ℕ)
      → IsCapped s
      → IsCapped (attach_rumor x s r now).0
  unfolding attach_rumor
  attach_rumor-IsCapped s r now h q =
      ground (arith, h q, claimed-IsCapped s r (quota_key_of r.rdns) now h q)

  adopt_rumor-IsCapped :
      (s : RegistryStore) (r : RegistrationRumor) (now : ℕ)
      → IsCapped s
      → IsCapped (adopt_rumor x s r now).0
  unfolding adopt_rumor
  adopt_rumor-IsCapped s r now h q =
      ground (arith, h q, claimed-IsCapped s r (quota_key_of r.rdns) now h q)

  Step-IsCapped : {s t : RegistryStore} → Step x s t → IsCapped s → IsCapped t
  unfolding probe_with_evidence refresh_probe_evidence attach_record_evidence adopt_rumor
  Step-IsCapped (probed s c now timestamp signature) h = h
  Step-IsCapped (registered s d c now nonce) h = register-IsCapped s d c now nonce h
  Step-IsCapped (collided s d a b) h = resolve_collision-IsCapped s d a b h
  Step-IsCapped (published s d c rs) h = set_records-IsCapped s d c rs h
  Step-IsCapped (attached s r now) h = attach_rumor-IsCapped s r now h
  Step-IsCapped (refreshed s k t g) h = λ q.
      rw
        (replicas-map_values q (refresh_registration k t g) s.registrations
          (is_replica-refresh q k t g))
        (h q)
  Step-IsCapped (signed s d k t g) h = λ q.
      rw (replicas-update q d (sign_registration k t g) s.registrations (is_replica-sign q k t g))
        (h q)
  Step-IsCapped (adopted s r now) h = adopt_rumor-IsCapped s r now h
  Step-IsCapped (reclaimed s now) h = reclaim_stale-IsCapped x now s h

  -- In every state that a store reaches from the empty one, by any calls with any arguments, no host
  -- has more than five leases that are known by their signed evidence.
  pub Reach-IsCapped : (s : RegistryStore) → Reach x s → IsCapped s
  unfolding new
  Reach-IsCapped s initial = λ q. omega arith
  Reach-IsCapped s (next {s = r} before step) = Step-IsCapped step (Reach-IsCapped r before)
