-- ===== src/Api/Panic.antt =====
-- Registration requests, and the one that stops the listener: crates/binda-core/src/api.rs. A host's
-- liveness is kept by hostname, and the signed probe by key and hostname.
use binda.Prelude.{
  ℕ, ◌≡◌, refl, sym, ap, ◌∙◌, ◌≢◌, ◌↔◌, inl, inr, Bool, true, false, none, some, List, [], ◌∷◌,
  arith, nat_eq, list_eq,
}
use binda.Prelude.Map.{keys}
use binda.Text.{Text}
use binda.Token.{RegistrationToken, issue}
use binda.Client.{Externals, ClientIdentity}
use binda.ClientApi.{SignedEnvelope, RegisterBody, registered, authenticate, register_message}
use binda.ClientApi.Auth.{IsAuthentic, identity_of, authenticate-ok_iff, authenticate-ok_complete}
use binda.Store.{
  RegistryStore, last_probe_evidence, drop_expired, reconcile_quota, reconcile_all, reclaim_stale,
}
use binda.Store.Register.{register}
use binda.Store.Admission.{MayRegister, register-ok_iff, register-ok_complete}
use binda.Api.{panicked, store_of, attach_new, handle_register}
use binda.Api.Outcomes.{AuthResult-cases, response_of}

reconcile_quota-evidence :
    (x : Externals) (q : Text) (now : ℕ) (s : RegistryStore)
    → (reconcile_quota x q now s).probe_evidence ≡ s.probe_evidence
unfolding reconcile_quota
reconcile_quota-evidence x q now s = ground arith

reconcile_all-evidence :
    (x : Externals) (qs : List Text) (now : ℕ) (s : RegistryStore)
    → (reconcile_all x qs now s).probe_evidence ≡ s.probe_evidence
unfolding reconcile_all
reconcile_all-evidence x [] now s = refl
reconcile_all-evidence x (q ∷ qs) now s =
    reconcile_all-evidence x qs now (reconcile_quota x q now s) ∙ reconcile_quota-evidence x q now s

reclaim_stale-evidence :
    (x : Externals) (now : ℕ) (s : RegistryStore)
    → (reclaim_stale x now s).probe_evidence ≡ s.probe_evidence
unfolding reclaim_stale drop_expired
reclaim_stale-evidence x now s =
    reconcile_all-evidence x (keys (drop_expired now s).quota_claims) now (drop_expired now s)

pub register-evidence :
    (x : Externals) (s : RegistryStore) (d : Text) (c i : ClientIdentity) (now : ℕ) (nonce : List ℕ)
    → last_probe_evidence (register x s d c now nonce).0 i ≡ last_probe_evidence s i
unfolding register last_probe_evidence
register-evidence x s d c i now nonce = ground (arith, reclaim_stale-evidence x now s)

module _ (x : Externals) (s : RegistryStore) (now : ℕ) (nonce : List ℕ)
    (e : SignedEnvelope RegisterBody) where
  abbrev message : List ℕ
  message = register_message e.body.domain e.timestamp_millis

  -- The request is authentic, and its host may register the name.
  pub record IsAdmitted : Type 0 where
    pub authentic : IsAuthentic x e (register_message e.body.domain e.timestamp_millis) now
    pub may : MayRegister x s e.body.domain (identity_of e) now nonce

  pub after_register :
      IsAdmitted
      → handle_register x s now nonce e true
        ≡ attach_new x
            (register x s e.body.domain (identity_of e) now nonce).0
            now
            e
            (identity_of e)
            (issue now nonce)
  unfolding handle_register
  after_register h = ground (
    arith,
    authenticate-ok_complete x e message now h.authentic,
    register-ok_complete x s e.body.domain (identity_of e) now nonce h.may,
  )

  -- An admitted request from a client that has not itself probed panics, after the name has been
  -- given to it: its host is live by the probe of another key, or under another spelling of the
  -- hostname.
  pub handle_register_panics :
      IsAdmitted
      → last_probe_evidence s (identity_of e) ≡ none
      → handle_register x s now nonce e true
        ≡ panicked (register x s e.body.domain (identity_of e) now nonce).0
  unfolding attach_new
  handle_register_panics h none_yet =
      after_register h
      ∙ ground (
        arith,
        none_yet,
        register-evidence x s e.body.domain (identity_of e) (identity_of e) now nonce,
      )

  pub registered_complete :
      (evidence : ℕ × List ℕ)
      → last_probe_evidence s (identity_of e) ≡ some evidence
      → IsAdmitted
      → response_of (handle_register x s now nonce e true) ≡ some (registered (issue now nonce))
  unfolding attach_new
  registered_complete evidence probed h =
      ap response_of (after_register h)
      ∙ ground (
        arith,
        probed,
        register-evidence x s e.body.domain (identity_of e) (identity_of e) now nonce,
      )

  pub registered_sound :
      (evidence : ℕ × List ℕ) (t : RegistrationToken)
      → last_probe_evidence s (identity_of e) ≡ some evidence
      → response_of (handle_register x s now nonce e true) ≡ some (registered t)
      → IsAdmitted × (t ≡ issue now nonce)
  unfolding handle_register attach_new
  registered_sound evidence t probed h = elim (AuthResult-cases (authenticate x e message now)) [
    | inr (f, p) ↦ absurd (ground (arith, p))
    | inl (i, p) ↦
        let (authentic, same) = (authenticate-ok_iff x e message now i).0 p in
        let ok_ = register-ok_iff x s e.body.domain (identity_of e) now nonce t in
        let (may, token) = ok_.0 (
          ground (
            arith,
            p,
            same,
            probed,
            register-evidence x s e.body.domain (identity_of e) (identity_of e) now nonce,
          )) in
        (record { authentic = authentic; may = may }, token)
  ]

  unconfirmed-response :
      (t : RegistrationToken)
      → response_of (handle_register x s now nonce e false) ≢ some (registered t)
  unfolding handle_register
  unconfirmed-response t = ground arith

  -- A client that has probed is answered with a new token exactly if its hostname was confirmed and
  -- the request is admitted; the token has the time of the call and the random bytes that were drawn.
  pub handle_register-registered_iff :
      (verified : Bool) (evidence : ℕ × List ℕ) (t : RegistrationToken)
      → last_probe_evidence s (identity_of e) ≡ some evidence
      → (response_of (handle_register x s now nonce e verified) ≡ some (registered t))
        ↔ ((verified ≡ true) × IsAdmitted × (t ≡ issue now nonce))
  handle_register-registered_iff true evidence t probed = (
    λ h. let (a, same) = registered_sound evidence t probed h in (refl, a, same),
    λ h. registered_complete evidence probed h.1 ∙ ap (λ u. some (registered u)) (sym h.2),
  )
  handle_register-registered_iff false evidence t probed =
      (λ h. absurd (unconfirmed-response t h), λ h. cc (h.0))

  -- Without a confirmed hostname no registration request changes the store, and each
  -- one is answered.
  pub handle_register_unconfirmed :
      (store_of (handle_register x s now nonce e false) ≡ s)
      × (response_of (handle_register x s now nonce e false) ≢ none)
  unfolding handle_register
  handle_register_unconfirmed = ground arith
