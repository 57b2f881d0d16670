-- ===== src/Store/KeyedReach.antt =====
-- Claims stay under their own names in every state of the store: crates/binda-core/src/store.rs.
use binda.Prelude.{
  ℕ, ◌≡◌, refl, sym, ◌∙◌, inl, inr, List, [], ◌∷◌, arith, Bool-cases, Option-cases, ◌==◌, nat_eq,
  list_eq, subst,
}
use binda.Prelude.Map.{
  HashMap, lookup, map_values, update, lookup-map_values, insert-Distinct, update-Distinct,
  map_values-Distinct,
}
use binda.Text.{Text}
use binda.Domain.{DomainName}
use binda.Client.{Externals}
use binda.Gossip.{RegistrationRumor}
use binda.Store.{RegistryStore, reconcile_quota, new}
use binda.Store.Evidence.{
  refresh_probe_evidence, attach_record_evidence, refresh_claim, sign_claim, add_claim,
  attach_rumor, adopt_rumor,
}
use binda.Store.Reach.{Step, Reach, next, initial}
use binda.Store.Claims.{IsKeyed, update-IsKeyed}
use binda.Store.Decay.{sign_claim-domain}
use binda.Store.{probe, probe_with_evidence}
use binda.Store.Register.{resolve_collision, set_records}
use binda.Store.Names.{host, claims_of, insert-IsKeyed}
use binda.Store.Retained.{claims_of-add_claim}
use binda.Store.Keyed.{
  IsClaims, AllKeyed, reconcile_quota-AllKeyed, reclaim_stale-AllKeyed, register-AllKeyed,
}

map_values-IsKeyed :
    (f : RegistrationRumor → RegistrationRumor) (m : HashMap DomainName RegistrationRumor)
    → ((r : RegistrationRumor) → (f r).domain ≡ r.domain)
    → IsKeyed m
    → IsKeyed (map_values f m)
unfolding map_values
map_values-IsKeyed f [] k h = tt
map_values-IsKeyed f ((e, r) ∷ m) k h = (k r ∙ h.0, map_values-IsKeyed f m k h.1)

refresh_claim-domain :
    (k : Text) (t : ℕ) (g : List ℕ) (r : RegistrationRumor)
    → (refresh_claim k t g r).domain ≡ r.domain
unfolding refresh_claim
refresh_claim-domain k t g r = ground arith

-- A change of every host's claims that keeps their names.
claims_of-map_values :
    (q : Text) (f : HashMap DomainName RegistrationRumor → HashMap DomainName RegistrationRumor)
    (s : RegistryStore)
    → ((m : HashMap DomainName RegistrationRumor) → IsClaims m → IsClaims (f m))
    → IsClaims (claims_of q s)
    → IsClaims (claims_of q (record s { quota_claims = map_values f s.quota_claims }))
claims_of-map_values q f s k h = elim (Option-cases (lookup q s.quota_claims)) [
  | inl e ↦ rw (lookup-map_values q f s.quota_claims, e, claims_of) (tt, tt)
  | inr (m, e) ↦
      rw (lookup-map_values q f s.quota_claims, e, claims_of)
        (k m (subst IsClaims (rw (e, claims_of) refl) h))
]

module _ (x : Externals) where
  claimed-AllKeyed :
      (s : RegistryStore) (r : RegistrationRumor) (now : ℕ)
      → AllKeyed s
      → AllKeyed (
          reconcile_quota x
            (host r)
            now
            (record s { quota_claims = add_claim (host r) r s.quota_claims }))
  claimed-AllKeyed s r now h =
      reconcile_quota-AllKeyed x now (host r)
        (record s { quota_claims = add_claim (host r) r s.quota_claims })
        (λ q. elim (Bool-cases (host r == q)) [
          | inl e ↦ subst IsClaims (sym (claims_of-add_claim x now q s r ∙ rw (e) refl)) (
            insert-IsKeyed r (claims_of q s) (h q).0,
            insert-Distinct r.domain r (claims_of q s) (h q).1,
          )
          | inr e ↦ subst IsClaims (sym (claims_of-add_claim x now q s r ∙ rw (e) refl)) (h q)
        ])

  attach_rumor-AllKeyed :
      (s : RegistryStore) (r : RegistrationRumor) (now : ℕ)
      → AllKeyed s
      → AllKeyed (attach_rumor x s r now).0
  unfolding attach_rumor
  attach_rumor-AllKeyed s r now h q = ground (arith, h q, claimed-AllKeyed s r now h q)

  pub adopt_rumor-AllKeyed :
      (s : RegistryStore) (r : RegistrationRumor) (now : ℕ)
      → AllKeyed s
      → AllKeyed (adopt_rumor x s r now).0
  unfolding adopt_rumor
  adopt_rumor-AllKeyed s r now h q = ground (arith, h q, claimed-AllKeyed s r now h q)

  Step-AllKeyed : {s t : RegistryStore} → Step x s t → AllKeyed s → AllKeyed t
  unfolding probe_with_evidence probe refresh_probe_evidence attach_record_evidence
      resolve_collision set_records
  Step-AllKeyed (Step.probed s c now timestamp signature) h = h
  Step-AllKeyed (Step.registered s d c now nonce) h = register-AllKeyed x now s d c nonce h
  Step-AllKeyed (Step.collided s d a b) h = h
  Step-AllKeyed (Step.published s d c rs) h = λ q. ground (arith, h q)
  Step-AllKeyed (Step.attached s r now) h = attach_rumor-AllKeyed s r now h
  Step-AllKeyed (Step.refreshed s k t g) h = λ q.
      claims_of-map_values q (map_values (refresh_claim k t g)) s
        (λ m c. (
          map_values-IsKeyed (refresh_claim k t g) m (refresh_claim-domain k t g) c.0,
          map_values-Distinct (refresh_claim k t g) m c.1,
        ))
        (h q)
  Step-AllKeyed (Step.signed s d k t g) h = λ q.
      claims_of-map_values q (update d (sign_claim k t g)) s
        (λ m c. (
          update-IsKeyed d (sign_claim k t g) m (sign_claim-domain k t g) c.0,
          update-Distinct d (sign_claim k t g) m c.1,
        ))
        (h q)
  Step-AllKeyed (Step.adopted s r now) h = adopt_rumor-AllKeyed s r now h
  Step-AllKeyed (Step.reclaimed s now) h = reclaim_stale-AllKeyed x now s h

  -- In every state that a store reaches, each claim of a host stands under its own name and no name
  -- has two of them.
  pub Reach-AllKeyed : (s : RegistryStore) → Reach x s → AllKeyed s
  unfolding new lookup
  Reach-AllKeyed s initial = λ q. (tt, tt)
  Reach-AllKeyed s (next {s = r} before step) = Step-AllKeyed step (Reach-AllKeyed r before)
