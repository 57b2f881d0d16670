-- ===== src/Api/Steps.antt =====
-- The client requests as calls of the store: crates/binda-core/src/api.rs.
use binda.Prelude.{
  ℕ, ◌≡◌, refl, ◌⊎◌, inl, inr, Bool, true, false, List, Bool-cases, Option-cases, nat_eq, list_eq,
}
use binda.Client.{Externals, ClientIdentity, key}
use binda.Token.{RegistrationToken}
use binda.ClientApi.{
  SignedEnvelope, ProbeBody, RegisterBody, SetRecordsBody, ClientRequest, AuthResult, authenticate,
  probe_message, register_message, set_records_message,
}
use binda.ClientApi
use binda.Store.{RegistryStore, probe_with_evidence, last_probe_evidence, RegistrationError}
use binda.Store.Register.{RegisterResult, register, set_records}
use binda.Store.Reach.{Reach, Step}
use binda.Api.{
  store_of, new_rumor, attach_new, handle_probe, handle_register, publish, handle_set_records,
  handle_client_request,
}
use binda.Api.Outcomes.{AuthResult-cases}

RegisterResult-cases :
    (r : RegisterResult)
    → ((t : RegistrationToken) × (r ≡ RegisterResult.ok t))
      ⊎ ((e : RegistrationError) × (r ≡ RegisterResult.err e))
RegisterResult-cases (RegisterResult.ok t) = inl (t, refl)
RegisterResult-cases (RegisterResult.err e) = inr (e, refl)

module _ (x : Externals) (s : RegistryStore) (now : ℕ) (reached : Reach x s) where
  pub handle_probe_reaches :
      (envelope : SignedEnvelope ProbeBody) → Reach x (store_of (handle_probe x s now envelope))
  unfolding handle_probe
  handle_probe_reaches envelope =
      elim (AuthResult-cases
        (authenticate x envelope (probe_message envelope.timestamp_millis) now)) [
          | inl (i, q) ↦
              rw (q, handle_probe)
                (Reach.next
                  (Reach.next reached
                    (Step.probed s i now envelope.timestamp_millis envelope.signature))
                  (Step.refreshed
                    (probe_with_evidence s i now envelope.timestamp_millis envelope.signature)
                    (key i) envelope.timestamp_millis envelope.signature))
          | inr (e, q) ↦ rw (q, handle_probe) reached
        ]

  attach_new_reaches :
      (r : RegistryStore) (envelope : SignedEnvelope RegisterBody) (i : ClientIdentity)
      (t : RegistrationToken)
      → Reach x r
      → Reach x (store_of (attach_new x r now envelope i t))
  unfolding attach_new
  attach_new_reaches r envelope i t h = elim (Option-cases (last_probe_evidence r i)) [
    | inl q ↦ rw (q, attach_new) h
    | inr (evidence, q) ↦
        rw (q, attach_new) (Reach.next h (Step.attached r (new_rumor envelope i t evidence) now))
  ]

  handle_register_reaches :
      (nonce : List ℕ) (envelope : SignedEnvelope RegisterBody) (rdns_verified : Bool)
      → Reach x (store_of (handle_register x s now nonce envelope rdns_verified))
  unfolding handle_register
  handle_register_reaches nonce envelope false =
      elim (AuthResult-cases (
        authenticate x envelope (register_message envelope.body.domain envelope.timestamp_millis)
          now)) [
            | inl (i, q) ↦ rw (q, handle_register) reached
            | inr (e, q) ↦ rw (q, handle_register) reached
          ]
  handle_register_reaches nonce envelope true =
      elim (AuthResult-cases (
        authenticate x envelope (register_message envelope.body.domain envelope.timestamp_millis)
          now)) [
            | inl (i, q) ↦
                let after = register x s envelope.body.domain i now nonce in
                let h : Reach x after.0 =
                  Reach.next reached (Step.registered s envelope.body.domain i now nonce) in
                elim (RegisterResult-cases after.1) [
                  | inl (t, g) ↦
                      rw (q, handle_register) (rw g (attach_new_reaches after.0 envelope i t h))
                  | inr (e, g) ↦ rw (q, handle_register) (rw g h)
                ]
            | inr (e, q) ↦ rw (q, handle_register) reached
          ]

  publish_reaches :
      (envelope : SignedEnvelope SetRecordsBody) (i : ClientIdentity)
      → Reach x (store_of (publish s envelope i))
  unfolding publish
  publish_reaches envelope i =
      let after = set_records s envelope.body.domain i envelope.body.records in
      let h : Reach x after.0 =
        Reach.next reached (Step.published s envelope.body.domain i envelope.body.records) in
      elim (Bool-cases after.1) [
        | inl q ↦
            rw (q, publish)
              (Reach.next h (
                Step.signed after.0 envelope.body.domain (key i) envelope.timestamp_millis
                  envelope.signature))
        | inr q ↦ rw (q, publish) h
      ]

  handle_set_records_reaches :
      (envelope : SignedEnvelope SetRecordsBody)
      → Reach x (store_of (handle_set_records x s now envelope))
  unfolding handle_set_records
  handle_set_records_reaches envelope =
      elim (AuthResult-cases (
        authenticate x envelope
          (set_records_message x envelope.body.domain envelope.body.records
            envelope.timestamp_millis)
          now)) [
            | inl (i, q) ↦ rw (q, handle_set_records) (publish_reaches envelope i)
            | inr (e, q) ↦ rw (q, handle_set_records) reached
          ]

  -- Whatever a client asks, authenticated or not, the store that the request leaves, even where the
  -- handler panics, is one that calls of the store's methods reach.
  pub handle_client_request_reaches :
      (nonce : List ℕ) (req : ClientRequest) (rdns_verified : Bool)
      → Reach x (store_of (handle_client_request x s now nonce req rdns_verified))
  unfolding handle_client_request
  handle_client_request_reaches nonce (ClientApi.probe envelope) v = handle_probe_reaches envelope
  handle_client_request_reaches nonce (ClientApi.register envelope) v =
      handle_register_reaches nonce envelope v
  handle_client_request_reaches nonce (ClientApi.set_records envelope) v =
      handle_set_records_reaches envelope
