-- ===== src/Demo/Session.antt =====
-- The example client's session with a node: crates/binda/examples/client_demo.rs, answered by
-- crates/binda-core/src/api.rs.
use binda.Prelude.{
  ℕ, ◌+◌, ◌-◌, ◌≤◌, ◌≡◌, refl, sym, ◌≢◌, inl, inr, Bool, true, false, none, some, List, [], ◌∷◌,
  arith, leb, length, nat_eq, list_eq, ==_refl, subst,
}
use binda.Prelude.Map.{insert, retain, lookup, map_values}
use binda.Text.{Text}
use binda.Client.{Externals, ClientIdentity, key, quota_key}
use binda.Token.{issue}
use binda.ClientApi.{
  probe_message, register_message, set_records_message, probe_ack, registered, records_set,
}
use binda.ClientApi.Auth.{IsAuthentic, authenticate-ok_complete}
use binda.Store.{
  RegistryStore, new, find, probe, probe_with_evidence, last_probe_evidence, reclaim_stale,
  drop_expired, reconcile_all, forget_all,
}
use binda.Store.Evidence.{refresh_probe_evidence}
use binda.Store.Admission.{MayRegister}
use binda.Store.Reach.{Reach}
use binda.Liveness.{
  is_live, record_probe, within_window, registration_count, expired_clients, liveness_window_millis,
}
use binda.Liveness
use binda.Api.{
  not_confirmed, Outcome, reply, store_of, handle_probe, handle_register, handle_set_records,
}
use binda.Api.Outcomes.{response_of, records_of, handle_set_records_lem}
use binda.Api.Steps.{handle_probe_reaches}
use binda.Api.Panic.{registered_complete}
use binda.Fcrdns.{IpAddr}
use binda.Fcrdns.Verifier.{Send, verify, allow_all_verifier}
use binda.Api.Lifecycle.{handle_register_then_publish}
use binda.Demo.{
  SigningKey, signed, rdns, domain, records, probe_req, register_req, set_records_req, probe_body,
}

-- The key is well formed, and what it signs verifies by it.
pub record IsSigning (x : Externals) (k : SigningKey) : Type 0 where
  pub key_len : length k.verifying_key ≡ 32
  pub key_valid : x.valid_key k.verifying_key ≡ true
  pub signature_valid : (message : List ℕ) → x.valid_signature (k.sign message) ≡ true
  pub verifies : (message : List ℕ) → x.verify k.verifying_key message (k.sign message) ≡ true

-- The two clocks are within ten seconds of each other.
pub record IsNear (t now : ℕ) : Type 0 where
  pub not_old : now ≤ t + 10_000
  pub not_early : t ≤ now + 10_000

module _ (x : Externals) (k : SigningKey) (law : IsSigning x k) where
  -- What the client signs is authentic at any node whose clock is near.
  pub signed-IsAuthentic :
      {T : Type 0} (t now : ℕ) (message : List ℕ) (body : T)
      → IsNear t now
      → IsAuthentic x (signed k t message body) message now
  unfolding signed
  signed-IsAuthentic t now message body near = record {
    not_old = near.not_old;
    not_early = near.not_early;
    key_len = law.key_len;
    key_valid = law.key_valid;
    signature_valid = law.signature_valid message;
    signed = law.verifies message;
  }

  abbrev identity : ClientIdentity
  identity = record { verifying_key = k.verifying_key; rdns = rdns }

  -- The store of a node that has seen this client's probe and nothing else.
  abbrev probed_store : ℕ → ℕ → RegistryStore
  probed_store t now = record {
    registrations = [];
    quota_claims = [];
    liveness = record {
      last_seen_millis = (quota_key identity, now) ∷ [];
      registration_counts = [];
    };
    probe_evidence = (key identity, (t, k.sign (probe_message t))) ∷ [];
  }

  handle_probe_first :
      (t now : ℕ)
      → IsNear t now
      → (store_of (handle_probe x new now (probe_req k t)) ≡ probed_store t now)
        × (response_of (handle_probe x new now (probe_req k t)) ≡ some probe_ack)
  unfolding handle_probe probe_req signed refresh_probe_evidence probe_with_evidence probe new
      Liveness.new record_probe insert map_values
  handle_probe_first t now near =
      let ok_ =
        authenticate-ok_complete x (probe_req k t) (probe_message t) now
          (signed-IsAuthentic t now (probe_message t) probe_body near) in
      (rw (ok_, handle_probe) refl, rw (ok_, handle_probe) refl)

  reclaim_stale_probed :
      (t now later : ℕ)
      → later ≤ now + liveness_window_millis
      → reclaim_stale x later (probed_store t now) ≡ probed_store t now
  unfolding reclaim_stale drop_expired reconcile_all forget_all expired_clients retain within_window
  reclaim_stale_probed t now later h =
      let alive : leb (later - now) liveness_window_millis ≡ true = ground (arith, h) in
      rw (alive) refl

  probed-MayRegister :
      (t now later : ℕ) (nonce : List ℕ)
      → later ≤ now + liveness_window_millis
      → MayRegister x (probed_store t now) domain identity later nonce
  unfolding is_live registration_count find lookup within_window
  probed-MayRegister t now later nonce h =
      let alive : leb (later - now) liveness_window_millis ≡ true = ground (arith, h) in
      let fresh = reclaim_stale_probed t now later h in
      record {
        live = ground (arith, ==_refl (quota_key identity), alive);
        free = rw (fresh) refl;
        still_live = rw (fresh) (ground (arith, ==_refl (quota_key identity), alive));
        below_cap = rw (fresh) (omega arith);
      }

  probed_store_reached : (t now : ℕ) → IsNear t now → Reach x (probed_store t now)
  probed_store_reached t now near =
      subst (Reach x) (handle_probe_first t now near).0
        (handle_probe_reaches x new now Reach.initial (probe_req k t))

  -- The node's answers to the registration and to the publication that follows it, and what a
  -- lookup then reads.
  abbrev pub IsPublished : Bool → RegistryStore → ℕ → ℕ → ℕ → ℕ → List ℕ → Type 0
  IsPublished verified s t_register now_register t_publish now_publish nonce =
      let registering =
        handle_register x s now_register nonce (register_req k t_register) verified in
      let publishing =
        handle_set_records x (store_of registering) now_publish (set_records_req x k t_publish) in
      (response_of registering ≡ some (registered (issue now_register nonce)))
      × (response_of publishing ≡ some records_set)
      × (records_of (find (store_of publishing) domain) ≡ some records)

  -- The answers of a node that does not confirm the hostname: the registration gets an error, the
  -- publication no success, and the name stays free.
  abbrev pub IsTurnedAway : RegistryStore → ℕ → ℕ → ℕ → ℕ → List ℕ → Type 0
  IsTurnedAway s t_register now_register t_publish now_publish nonce =
      let registering = handle_register x s now_register nonce (register_req k t_register) false in
      let publishing =
        handle_set_records x (store_of registering) now_publish (set_records_req x k t_publish) in
      (response_of registering ≡ some not_confirmed)
      × (response_of publishing ≢ some records_set)
      × (records_of (find (store_of publishing) domain) ≡ none)

  -- The rest of the session, on the store that the probe left.
  probed_session :
      (t now t_register now_register t_publish now_publish : ℕ) (nonce : List ℕ)
      → IsNear t now
      → IsNear t_register now_register
      → IsNear t_publish now_publish
      → now_register ≤ now + liveness_window_millis
      → IsPublished true (probed_store t now) t_register now_register t_publish now_publish nonce
  unfolding register_req set_records_req signed last_probe_evidence lookup
  probed_session t now t_register now_register t_publish now_publish nonce near_p near_r near_s h =
      let s = probed_store t now in
      let evidence : ℕ × List ℕ = (t, k.sign (probe_message t)) in
      let probed : last_probe_evidence s identity ≡ some evidence =
        ground (arith, ==_refl (key identity)) in
      let answered =
        registered_complete x s now_register nonce (register_req k t_register) evidence probed
          (record {
            authentic =
                signed-IsAuthentic t_register now_register (register_message domain t_register)
                  (record { domain = domain }) near_r;
            may = probed-MayRegister t now now_register nonce h;
          }) in
      let published =
        handle_register_then_publish x s now_register nonce (register_req k t_register) evidence
          (issue now_register nonce) now_publish (set_records_req x k t_publish)
          (probed_store_reached t now near_p) probed answered refl refl
          (signed-IsAuthentic t_publish now_publish (set_records_message x domain records t_publish)
            (record { domain = domain; records = records }) near_s) in
      (answered, published.0, published.1)

  declined_session :
      (t now t_register now_register t_publish now_publish : ℕ) (nonce : List ℕ)
      → IsNear t_register now_register
      → IsTurnedAway (probed_store t now) t_register now_register t_publish now_publish nonce
  unfolding register_req set_records_req signed handle_register find lookup
  declined_session t now t_register now_register t_publish now_publish nonce near_r =
      let s = probed_store t now in
      let e = register_req k t_register in
      let ok_ = authenticate-ok_complete x e (register_message domain t_register) now_register (
        signed-IsAuthentic t_register now_register (register_message domain t_register)
          (record { domain = domain }) near_r) in
      let p = set_records_req x k t_publish in
      let gone : handle_register x s now_register nonce e false ≡ reply s not_confirmed =
        rw (handle_register, ok_) refl in
      let IsAfter : Outcome → Type 0 = λ o.
        (response_of o ≡ some not_confirmed)
        × (response_of (handle_set_records x (store_of o) now_publish p) ≢ some records_set)
        × (records_of (find (store_of (handle_set_records x (store_of o) now_publish p)) domain)
            ≡ none) in
      elim ((handle_set_records_lem x s now_publish p).0) [
        | inl (may, _, _) ↦ absurd (let (reg, found, _) = may.1 in cc)
        | inr (_, refused, kept) ↦ subst IsAfter (sym gone) (refl, refused, kept domain)
      ]

  -- The client of the example probes a fresh node, registers its name within the minute that the probe
  -- is good for, and publishes its record, all signed with a key whose signatures verify and by
  -- clocks within ten seconds of the node's. At a node that was started to allow every hostname, each
  -- request is accepted, and the name's records are then those of the example. At a node that does
  -- not confirm the made-up hostname, the probe is accepted, the registration gets the error that
  -- says so, the publication is not accepted, and the name stays free.
  pub session_succeeds :
      (send : Send) (ids : Text → ℕ → ℕ) (ip : IpAddr)
      (t now t_register now_register t_publish now_publish : ℕ) (nonce : List ℕ)
      → IsNear t now
      → IsNear t_register now_register
      → IsNear t_publish now_publish
      → now_register ≤ now + liveness_window_millis
      → (response_of (handle_probe x new now (probe_req k t)) ≡ some probe_ack)
        × IsPublished
            (verify send ids allow_all_verifier ip rdns)
            (store_of (handle_probe x new now (probe_req k t)))
            t_register
            now_register
            t_publish
            now_publish
            nonce
        × IsTurnedAway
            (store_of (handle_probe x new now (probe_req k t)))
            t_register
            now_register
            t_publish
            now_publish
            nonce
  unfolding verify
  session_succeeds send ids ip t now t_register now_register t_publish now_publish nonce near_p
        near_r near_s h =
      let first = handle_probe_first t now near_p in
      (
        first.1,
        subst (λ s. IsPublished true s t_register now_register t_publish now_publish nonce)
            (sym first.0)
            (probed_session t now t_register now_register t_publish now_publish nonce near_p near_r
              near_s h),
        subst (λ s. IsTurnedAway s t_register now_register t_publish now_publish nonce)
            (sym first.0)
            (declined_session t now t_register now_register t_publish now_publish nonce near_r),
      )
