-- ===== src/Api/Lifecycle.antt =====
-- Registering, publishing and looking up, one after the other: crates/binda-core/src/api.rs, with the
-- answer of crates/binda/src/node.rs.
use binda.Prelude.{
  ℕ, ◌≡◌, refl, sym, ap, ◌∙◌, true, some, List, arith, nat_eq, list_eq, list_eq_iff, ==_refl, subst,
}
use binda.Client.{Externals, key}
use binda.Token.{RegistrationToken, issue}
use binda.ClientApi.{
  SignedEnvelope, RegisterBody, SetRecordsBody, registered, records_set, set_records_message,
}
use binda.ClientApi.Auth.{IsAuthentic, identity_of}
use binda.Store.{RegistryStore, find, last_probe_evidence}
use binda.Store.Register.{register, fresh_registration}
use binda.Store.Admission.{register-effect, register-ok_complete}
use binda.Store.Evidence.{attach_rumor}
use binda.Store.Reach.{Reach}
use binda.Store.KeyedReach.{Reach-AllKeyed}
use binda.Store.Keyed.{register-AllKeyed, attach_rumor-HeldBy}
use binda.Store.Names.{host}
use binda.Store.Ownership.{Holds}
use binda.Api.{store_of, new_rumor, attach_new, handle_register, handle_set_records}
use binda.Api.Outcomes.{
  response_of, records_of, handle_set_records-ok_iff, handle_set_records-effect,
  handle_set_records-client, client_of,
}
use binda.Api.Panic.{after_register, registered_sound, register-evidence}

module _ (x : Externals) (s : RegistryStore) (now : ℕ) (nonce : List ℕ)
    (e : SignedEnvelope RegisterBody) where
  -- After a registration the client that asked for it holds the name.
  pub handle_register-Holds :
      (evidence : ℕ × List ℕ) (t : RegistrationToken)
      → Reach x s
      → last_probe_evidence s (identity_of e) ≡ some evidence
      → response_of (handle_register x s now nonce e true) ≡ some (registered t)
      → Holds (store_of (handle_register x s now nonce e true)) e.body.domain (identity_of e)
  unfolding attach_new find
  handle_register-Holds evidence t reached probed h =
      let i = identity_of e in
      let token = issue now nonce in
      let after = (register x s e.body.domain i now nonce).0 in
      let admitted = (registered_sound x s now nonce e evidence t probed h).0 in
      let rumor = new_rumor e i token evidence in
      let probed_after : last_probe_evidence after i ≡ some evidence =
        register-evidence x s e.body.domain i i now nonce ∙ probed in
      let left : store_of (handle_register x s now nonce e true)
          ≡ (attach_rumor x after rumor now).0 =
        ap store_of (after_register x s now nonce e admitted)
        ∙ rw (probed_after, attach_new) refl in
      let given : find after e.body.domain ≡ some (fresh_registration i token) =
        (register-effect x s e.body.domain i now nonce token e.body.domain
          (register-ok_complete x s e.body.domain i now nonce admitted.may)).0
        ∙ ground (arith, ==_refl e.body.domain) in
      subst (λ z. Holds z e.body.domain i) (sym left)
        (attach_rumor-HeldBy x now after rumor (fresh_registration i token)
          (register-AllKeyed x now s e.body.domain i nonce (Reach-AllKeyed x s reached)
            (host rumor))
          given refl refl)

  -- A client that has probed and whose registration, from a confirmed hostname, is answered with a
  -- token may then publish: its signed request is accepted, and the name's lookup gives the records
  -- that it published, and the client as owner.
  pub handle_register_then_publish :
      (evidence : ℕ × List ℕ) (t : RegistrationToken) (later : ℕ)
      (p : SignedEnvelope SetRecordsBody)
      → Reach x s
      → last_probe_evidence s (identity_of e) ≡ some evidence
      → response_of (handle_register x s now nonce e true) ≡ some (registered t)
      → identity_of p ≡ identity_of e
      → p.body.domain ≡ e.body.domain
      → IsAuthentic x p
          (set_records_message x p.body.domain p.body.records p.timestamp_millis)
          later
      → (response_of
            (handle_set_records x (store_of (handle_register x s now nonce e true)) later p)
          ≡ some records_set)
        × (records_of (
              find
                (store_of
                  (handle_set_records x (store_of (handle_register x s now nonce e true)) later p))
                e.body.domain)
            ≡ some p.body.records)
        × (client_of (
              find
                (store_of
                  (handle_set_records x (store_of (handle_register x s now nonce e true)) later p))
                e.body.domain)
            ≡ some (key (identity_of e)))
  handle_register_then_publish evidence t later p reached probed h same name authentic =
      let s' = store_of (handle_register x s now nonce e true) in
      let held = handle_register-Holds evidence t reached probed h in
      let holds : Holds s' p.body.domain (identity_of p) =
        subst (λ d. Holds s' d (identity_of p)) (sym name)
          (subst (λ i. Holds s' e.body.domain i) (sym same)
            (handle_register-Holds evidence t reached probed h)) in
      let accepted = (handle_set_records-ok_iff x s' later p).1 (authentic, holds) in
      (
        accepted,
        handle_set_records-effect x s' later p e.body.domain
            ∙ ground (arith, accepted, name, list_eq_iff p.body.domain e.body.domain),
        handle_set_records-client x s' later p e.body.domain ∙ ap client_of held.1 ∙ ap some held.2,
      )
