-- ===== src/Node/Quota.antt =====
-- The cap on registrations and the leases of gossip: crates/binda-core/src/store.rs, with the adoption
-- of crates/binda/src/node.rs.
use binda.Prelude.{
  ℕ, ◌+◌, ◌<◌, ◌≡◌, refl, sym, ap, ◌∙◌, true, false, none, List, [], ◌∷◌, arith, nat_eq, list_eq,
  list_eq_iff, subst,
}
use binda.Text.{Text}
use binda.Token.{issue}
use binda.Domain.{DomainName}
use binda.Client.{Externals, ClientIdentity, quota_key, quota_key_of}
use binda.Gossip.{RegistrationRumor, contains}
use binda.Liveness.{
  LivenessTracker, is_live, registration_count, forget_client_by_key, expired_clients,
}
use binda.Liveness.Laws.{forget_client_by_key_lem, expired_clients_iff}
use binda.Store.Evidence.{adopt_rumor, add_claim}
use binda.Store.Register.{register, ok}
use binda.Store.Admission.{MayRegister, register-ok_complete, held-register}
use binda.Node.{adopt_all}
use binda.Prelude.Map.{keys, Distinct}
use binda.Store.{
  RegistryStore, find, forget_all, drop_expired, reconcile_quota, reconcile_all, reclaim_stale,
}
use binda.Store.Admission.{held}

reconcile_quota-liveness :
    (x : Externals) (q : Text) (now : ℕ) (s : RegistryStore)
    → (reconcile_quota x q now s).liveness ≡ s.liveness
unfolding reconcile_quota
reconcile_quota-liveness x q now s = ground arith

reconcile_all-liveness :
    (x : Externals) (qs : List Text) (now : ℕ) (s : RegistryStore)
    → (reconcile_all x qs now s).liveness ≡ s.liveness
unfolding reconcile_all
reconcile_all-liveness x [] now s = refl
reconcile_all-liveness x (q ∷ qs) now s =
    reconcile_all-liveness x qs now (reconcile_quota x q now s) ∙ reconcile_quota-liveness x q now s

adopt_rumor-liveness :
    (x : Externals) (s : RegistryStore) (r : RegistrationRumor) (now : ℕ)
    → (adopt_rumor x s r now).0.liveness ≡ s.liveness
unfolding adopt_rumor
adopt_rumor-liveness x s r now =
    let q = quota_key_of r.rdns in
    ground (
      arith,
      reconcile_quota-liveness x q now (record s { quota_claims = add_claim q r s.quota_claims }),
    )

-- Adopting the leases of others counts towards nobody's cap.
adopt_all-liveness :
    (x : Externals) (s : RegistryStore) (rs : List RegistrationRumor) (now : ℕ)
    → (adopt_all x s rs now).liveness ≡ s.liveness
unfolding adopt_all
adopt_all-liveness x s [] now = refl
adopt_all-liveness x s (r ∷ rs) now =
    adopt_all-liveness x (adopt_rumor x s r now).0 rs now ∙ adopt_rumor-liveness x s r now

forget_all_other :
    (ks : List Text) (t : LivenessTracker) (c : ClientIdentity) (now : ℕ)
    → contains ks (quota_key c) ≡ false
    → (is_live (forget_all ks t) c now ≡ is_live t c now)
      × (registration_count (forget_all ks t) c ≡ registration_count t c)
unfolding forget_all contains
forget_all_other [] t c now h = (refl, refl)
forget_all_other (k ∷ ks) t c now h = ground (
  arith,
  list_eq_iff k (quota_key c),
  forget_all_other ks (forget_client_by_key t k) c now,
  forget_client_by_key_lem t k c now,
)

-- Dropping stale hosts leaves a live host's count as it was.
reclaim_stale-live_host :
    (x : Externals) (s : RegistryStore) (c : ClientIdentity) (now : ℕ)
    → Distinct s.liveness.last_seen_millis
    → is_live s.liveness c now ≡ true
    → (is_live (reclaim_stale x now s).liveness c now ≡ true)
      × (registration_count (reclaim_stale x now s).liveness c ≡ registration_count s.liveness c)
unfolding reclaim_stale drop_expired
reclaim_stale-live_host x s c now d h =
    let ks = expired_clients s.liveness now in
    let dropped = drop_expired now s in
    let same : (reclaim_stale x now s).liveness ≡ forget_all ks s.liveness =
      reconcile_all-liveness x (keys dropped.quota_claims) now dropped in
    let kept : contains ks (quota_key c) ≡ false =
      ground (arith, expired_clients_iff s.liveness c now d, h) in
    let (live, count) = forget_all_other ks s.liveness c now kept in
    (ap (λ t. is_live t c now) same ∙ live ∙ h, ap (λ t. registration_count t c) same ∙ count)

-- Only a node's own admissions count towards the cap: in a store that lists each host's probe once,
-- where a host is live and fewer than five of its registrations were admitted here, a name that is
-- free once stale ones are dropped is registered for it after whatever leases the node adopted,
-- and the registrations that it holds, its own and those of gossip, then grow by one, however many
-- they are.
pub register_past_replicas :
    (x : Externals) (s : RegistryStore) (rs : List RegistrationRumor) (adopted now : ℕ)
    (d : DomainName) (c : ClientIdentity) (nonce : List ℕ)
    → Distinct s.liveness.last_seen_millis
    → is_live s.liveness c now ≡ true
    → registration_count s.liveness c < 5
    → find (reclaim_stale x now (adopt_all x s rs adopted)) d ≡ none
    → let after = register x (adopt_all x s rs adopted) d c now nonce in
      (after.1 ≡ ok (issue now nonce))
      × (held (quota_key c) after.0.registrations
          ≡ held (quota_key c) (reclaim_stale x now (adopt_all x s rs adopted)).registrations + 1)
register_past_replicas x s rs adopted now d c nonce distinct live below free =
    let s' = adopt_all x s rs adopted in
    let same : s.liveness ≡ s'.liveness = sym (adopt_all-liveness x s rs adopted) in
    let live' : is_live s'.liveness c now ≡ true = subst (λ t. is_live t c now ≡ true) same live in
    let (still_live, count) =
      reclaim_stale-live_host x s' c now (subst (λ t. Distinct t.last_seen_millis) same distinct)
        live' in
    let may : MayRegister x s' d c now nonce = record {
      live = live';
      free = free;
      still_live = still_live;
      below_cap = omega (arith, count, below, ap (λ t. registration_count t c) same);
    } in
    (register-ok_complete x s' d c now nonce may, held-register x s' d c now nonce may)
