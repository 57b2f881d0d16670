-- ===== src/Store/Tracked.antt =====
-- Every lease is of a host whose claims are known, so reclaiming reaches it:
-- crates/binda-core/src/store.rs.
use binda.Prelude.{
  ℕ, ◌≡◌, refl, sym, ◌∙◌, inl, inr, true, ◌&&◌, ◌||◌, not, Option, none, some, List, [], ◌∷◌, arith,
  Bool-cases, Option-cases, ◌==◌, nat_eq, list_eq, ==_refl,
}
use binda.Prelude.All.{All}
use binda.Prelude.Map.{
  HashMap, values, retain, map_values, update, contains_key, contains_key-insert,
  contains_key-map_values,
}
use binda.Text.{Text}
use binda.Domain.{DomainName}
use binda.Client.{Externals}
use binda.Gossip.{RegistrationRumor, is_authorized}
use binda.Store.{
  winners_of, live_claims, Registration, RegistryStore, reconcile_quota, reconcile_all,
  reclaim_stale, drop_expired, registration_from_rumor, is_none, new, lease_is_live, probe,
  probe_with_evidence, without_replicas, contains, lookup, expired_clients, live_claims,
  rumor_domains, winners_of,
}
use binda.Store.Register.{register, resolve_collision, set_records, fresh_registration}
use binda.Store.Evidence.{
  attach_rumor, adopt_rumor, add_claim, refresh_probe_evidence, attach_record_evidence,
  sign_registration, refresh_registration, sign_claim, refresh_claim,
}
use binda.Store.Reach.{Step, Reach, next, initial}
use binda.Store.Retained.{add_claim_lem}
use binda.Client.{ClientIdentity, key}
use binda.Token.{issue, token_eq}
use binda.Liveness.{is_live, can_register, expired_clients}
use binda.Zone.{Record}
use binda.Prelude.Map.{lookup}
use binda.Prelude.Map.{insert, keys}
use binda.Store.Names.{host, claims_of}
use binda.Store.Reclaim.{
  IsLiveEvidence, IsLiveLease, IsLiveOf, contains_key-reclaim_stale, All-insert, All-retain-values,
  install_all-All, reclaim_stale_live,
}
use binda.Store.Known.{
  HasClaims, IsTracked, HasClaims-more, Keeps, update-HasClaims, map_values-HasClaims,
  refresh_registration-Keeps, sign_registration-Keeps,
}

module _ (x : Externals) where
  installed-HasClaims :
      (q : Text) (n : HashMap Text (HashMap DomainName RegistrationRumor))
      (rs : List RegistrationRumor)
      → contains_key q n ≡ true
      → All (λ r. HasClaims n (registration_from_rumor r q)) rs
  unfolding registration_from_rumor
  installed-HasClaims q n [] h = tt
  installed-HasClaims q n (r ∷ rs) h = (λ lease. h, installed-HasClaims q n rs h)

  contains_key-insert_more :
      (q : Text) (v : HashMap DomainName RegistrationRumor)
      (m : HashMap Text (HashMap DomainName RegistrationRumor)) (p : Text)
      → contains_key p m ≡ true
      → contains_key p (insert q v m) ≡ true
  contains_key-insert_more q v m p h = ground (arith, contains_key-insert q p v m, h)

  reconcile_quota-IsTracked :
      (q : Text) (now : ℕ) (s : RegistryStore) → IsTracked s → IsTracked (reconcile_quota x q now s)
  unfolding reconcile_quota without_replicas
  reconcile_quota-IsTracked q now s h = elim (Option-cases (lookup q s.quota_claims)) [
    | inl absent ↦ rw (absent, reconcile_quota) h
    | inr (m, held) ↦
        let live = live_claims x now m in
        let stays = retain (λ domain _. contains (rumor_domains (winners_of live)) domain) live in
        let claims = insert q stays s.quota_claims in
        let found : contains_key q claims ≡ true =
          ground (arith, contains_key-insert q q stays s.quota_claims, ==_refl q) in
        rw (held, reconcile_quota)
          (install_all-All (HasClaims claims) q (winners_of live)
            (without_replicas q s.registrations)
            (installed-HasClaims q claims (winners_of live) found)
            (All-retain-values (HasClaims claims)
              (λ _ reg. not (reg.quota_key == q) || is_none reg.rumor) s.registrations
              (HasClaims-more s.quota_claims claims s.registrations
                (contains_key-insert_more q stays s.quota_claims) h)))
  ]

  reconcile_all-IsTracked :
      (qs : List Text) (now : ℕ) (s : RegistryStore)
      → IsTracked s
      → IsTracked (reconcile_all x qs now s)
  unfolding reconcile_all
  reconcile_all-IsTracked [] now s h = h
  reconcile_all-IsTracked (q ∷ qs) now s h =
      reconcile_all-IsTracked qs now (reconcile_quota x q now s)
        (reconcile_quota-IsTracked q now s h)

  reclaim_stale-IsTracked :
      (now : ℕ) (s : RegistryStore) → IsTracked s → IsTracked (reclaim_stale x now s)
  unfolding reclaim_stale drop_expired
  reclaim_stale-IsTracked now s h =
      reconcile_all-IsTracked (keys (drop_expired now s).quota_claims) now (drop_expired now s) (
        All-retain-values (HasClaims s.quota_claims)
          (λ _ reg. not (contains (expired_clients s.liveness now) reg.quota_key)) s.registrations
          h)

  claimed-IsTracked :
      (s : RegistryStore) (r : RegistrationRumor) (q : Text) (now : ℕ)
      → IsTracked s
      → IsTracked
          (reconcile_quota x q now (record s { quota_claims = add_claim q r s.quota_claims }))
  claimed-IsTracked s r q now h =
      reconcile_quota-IsTracked q now (record s { quota_claims = add_claim q r s.quota_claims })
        (HasClaims-more s.quota_claims (add_claim q r s.quota_claims) s.registrations
          (λ p known.
            rw (add_claim_lem x now q s r) (
              contains_key-insert_more q (insert r.domain r (claims_of q s)) s.quota_claims p
                known))
          h)

  register-IsTracked :
      (s : RegistryStore) (d : DomainName) (c : ClientIdentity) (now : ℕ) (nonce : List ℕ)
      → IsTracked s
      → IsTracked (register x s d c now nonce).0
  unfolding register
  register-IsTracked s d c now nonce h =
      let dropped = reclaim_stale x now s in
      let tracked : IsTracked dropped = reclaim_stale-IsTracked now s h in
      elim (Bool-cases (is_live s.liveness c now)) [
        | inr q ↦ rw (q, register) h
        | inl q ↦ elim (Bool-cases (contains_key d dropped.registrations)) [
          | inl g ↦ rw (q, g, register) tracked
          | inr g ↦ elim (Bool-cases (can_register dropped.liveness c now)) [
            | inr k ↦ rw (q, g, k, register) tracked
            | inl k ↦
                rw (q, g, k, register)
                  (All-insert (HasClaims dropped.quota_claims) d
                    (fresh_registration c (issue now nonce)) dropped.registrations (λ lease. cc)
                    tracked)
          ]
        ]
      ]

  attach_rumor-IsTracked :
      (s : RegistryStore) (r : RegistrationRumor) (now : ℕ)
      → IsTracked s
      → IsTracked (attach_rumor x s r now).0
  unfolding attach_rumor
  attach_rumor-IsTracked s r now h = elim (Option-cases (lookup r.domain s.registrations)) [
    | inl q ↦ rw (q, attach_rumor) h
    | inr (reg, q) ↦ elim (Bool-cases (reg.client_key == r.client_key && reg.token == r.token)) [
      | inl b ↦ rw (q, b, attach_rumor) (claimed-IsTracked s r (host r) now h)
      | inr b ↦ rw (q, b, attach_rumor) h
    ]
  ]

  adopt_rumor-IsTracked :
      (s : RegistryStore) (r : RegistrationRumor) (now : ℕ)
      → IsTracked s
      → IsTracked (adopt_rumor x s r now).0
  unfolding adopt_rumor
  adopt_rumor-IsTracked s r now h =
      elim (Bool-cases (not (is_authorized x r) || not (lease_is_live r now))) [
        | inl q ↦ rw (q, adopt_rumor) h
        | inr q ↦ rw (q, adopt_rumor) (claimed-IsTracked s r (host r) now h)
      ]

  set_records-IsTracked :
      (s : RegistryStore) (d : DomainName) (c : ClientIdentity) (rs : List Record)
      → IsTracked s
      → IsTracked (set_records s d c rs).0
  unfolding set_records Keeps
  set_records-IsTracked s d c rs h = elim (Option-cases (lookup d s.registrations)) [
    | inl q ↦ rw (q, set_records) h
    | inr (reg, q) ↦ elim (Bool-cases (reg.client_key == key c)) [
      | inl b ↦
          rw (q, b, set_records)
            (update-HasClaims s.quota_claims d (λ g. record g { records = rs }) s.registrations
              (λ g. (refl, refl)) h)
      | inr b ↦ rw (q, b, set_records) h
    ]
  ]

  Step-IsTracked : {s t : RegistryStore} → Step x s t → IsTracked s → IsTracked t
  unfolding probe_with_evidence probe refresh_probe_evidence attach_record_evidence
      resolve_collision
  Step-IsTracked (Step.probed s c now timestamp signature) h = h
  Step-IsTracked (Step.registered s d c now nonce) h = register-IsTracked s d c now nonce h
  Step-IsTracked (Step.collided s d a b) h =
      All-insert (HasClaims s.quota_claims) d _ s.registrations (λ lease. cc) h
  Step-IsTracked (Step.published s d c rs) h = set_records-IsTracked s d c rs h
  Step-IsTracked (Step.attached s r now) h = attach_rumor-IsTracked s r now h
  Step-IsTracked (Step.refreshed s k t g) h =
      map_values-HasClaims (map_values (map_values (refresh_claim k t g)) s.quota_claims)
        (refresh_registration k t g) s.registrations (refresh_registration-Keeps k t g)
        (HasClaims-more s.quota_claims
          (map_values (map_values (refresh_claim k t g)) s.quota_claims) s.registrations
          (λ p known.
            contains_key-map_values p (map_values (refresh_claim k t g)) s.quota_claims ∙ known)
          h)
  Step-IsTracked (Step.signed s d k t g) h =
      update-HasClaims (map_values (update d (sign_claim k t g)) s.quota_claims) d
        (sign_registration k t g) s.registrations (sign_registration-Keeps k t g)
        (HasClaims-more s.quota_claims (map_values (update d (sign_claim k t g)) s.quota_claims)
          s.registrations
          (λ p known.
            contains_key-map_values p (update d (sign_claim k t g)) s.quota_claims ∙ known)
          h)
  Step-IsTracked (Step.adopted s r now) h = adopt_rumor-IsTracked s r now h
  Step-IsTracked (Step.reclaimed s now) h = reclaim_stale-IsTracked now s h

  Reach-IsTracked : (s : RegistryStore) → Reach x s → IsTracked s
  unfolding new
  Reach-IsTracked s initial = tt
  Reach-IsTracked s (next {s = r} before step) = Step-IsTracked step (Reach-IsTracked r before)

  IsLiveEvidence-of_bare :
      (now : ℕ) (evidence : Option RegistrationRumor)
      → is_none evidence ≡ true
      → IsLiveEvidence x now evidence
  IsLiveEvidence-of_bare now none h = tt
  IsLiveEvidence-of_bare now (some r) h = cc

  IsLiveLease-of_hosts :
      (now : ℕ) (m : HashMap Text (HashMap DomainName RegistrationRumor))
      (regs : HashMap DomainName Registration)
      → All (HasClaims m) (values regs)
      → ((p : Text) → contains_key p m ≡ true → All (IsLiveOf x now p) (values regs))
      → All (IsLiveLease x now) (values regs)
  IsLiveLease-of_hosts now m [] h k = tt
  IsLiveLease-of_hosts now m ((d, reg) ∷ regs) h k =
      let later = IsLiveLease-of_hosts now m regs h.1 (λ p known. (k p known).1) in
      elim (Bool-cases (is_none reg.rumor)) [
        | inl bare ↦ (IsLiveEvidence-of_bare now reg.rumor bare, later)
        | inr lease ↦ ((k reg.quota_key (h.0 lease)).0 (==_refl reg.quota_key), later)
      ]

  -- In every state that a store reaches, reclaiming leaves no lease that is not authorized and
  -- live: of each registration that is known by its evidence, all signatures hold and the host's
  -- probe is at most sixty seconds old.
  pub reclaim_stale-IsLiveLease :
      (now : ℕ) (s : RegistryStore)
      → Reach x s
      → All (IsLiveLease x now) (values (reclaim_stale x now s).registrations)
  reclaim_stale-IsLiveLease now s reached =
      IsLiveLease-of_hosts now (reclaim_stale x now s).quota_claims
        (reclaim_stale x now s).registrations
        (reclaim_stale-IsTracked now s (Reach-IsTracked s reached))
        (λ p known.
          reclaim_stale_live x now p s (sym (contains_key-reclaim_stale x now p s) ∙ known))
