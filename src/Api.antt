-- ===== src/Api.antt =====
-- Client requests applied to the store: crates/binda-core/src/api.rs.
pub mod Outcomes
pub mod Panic
pub mod Steps
pub mod Lifecycle
mod Tests
use binda.Prelude.{
  ℕ, zero, suc, ◌+◌, ◌-◌, ◌*◌, ◌/◌, ◌%◌, ◌^◌, ◌≤◌, ◌<◌, compare, Ordering, ◌≡◌, refl, sym, ap, ◌∙◌,
  ◌≢◌, ◌↔◌, ◌⊎◌, inl, inr, Bool, true, false, ◌&&◌, ◌||◌, not, Option, none, some, List, [], ◌∷◌,
  ◌++◌, map, arith, ltb, leb, if◌then◌else◌, Bool-cases, Option-cases, length, Eq, ◌==◌, nat_eq,
  list_eq, list_eq_iff, ==_refl, length-append,
}
use binda.Text.{codes}
use binda.Client.{Externals, ClientIdentity, key}
use binda.ClientApi.{
  SignedEnvelope, ProbeBody, RegisterBody, SetRecordsBody, ClientRequest, ClientResponse, probe_ack,
  registered, records_set, error, AuthResult, authenticate, auth_error_text, probe_message,
  register_message, set_records_message,
}
use binda.ClientApi
use binda.Gossip.{RegistrationRumor}
use binda.Token.{RegistrationToken}
use binda.Store.{RegistryStore, probe_with_evidence, last_probe_evidence, registration_error_text}
use binda.Store.Register.{RegisterResult, register, set_records}
use binda.Store.Register
use binda.Store.Evidence.{attach_rumor, refresh_probe_evidence, attach_record_evidence}

-- A handler replies, or panics with the store as it then is.
pub data Outcome : Type 0 where
  reply : RegistryStore → ClientResponse → Outcome
  panicked : RegistryStore → Outcome

-- The store that a handler leaves.
abbrev pub store_of : Outcome → RegistryStore
store_of (reply s response) = s
store_of (panicked s) = s

unfoldable pub handle_probe : Externals → RegistryStore → ℕ → SignedEnvelope ProbeBody → Outcome
handle_probe x s now envelope =
    elim (authenticate x envelope (probe_message envelope.timestamp_millis) now) [
      | AuthResult.ok identity ↦
          reply
            (refresh_probe_evidence
              (probe_with_evidence s identity now envelope.timestamp_millis envelope.signature)
              (key identity) envelope.timestamp_millis envelope.signature)
            probe_ack
      | AuthResult.err e ↦ reply s (error (auth_error_text e))
    ]

-- The rumor that `handle_register` builds for a new registration.
abbrev pub new_rumor :
    SignedEnvelope RegisterBody
    → ClientIdentity
    → RegistrationToken
    → ℕ × List ℕ
    → RegistrationRumor
new_rumor envelope identity token evidence = record {
  domain = envelope.body.domain;
  token = token;
  client_key = key identity;
  owner_key = envelope.verifying_key;
  rdns = envelope.rdns;
  registration_timestamp_millis = envelope.timestamp_millis;
  registration_signature = envelope.signature;
  probe_timestamp_millis = evidence.0;
  probe_signature = evidence.1;
  records = [];
  records_timestamp_millis = none;
  records_signature = none;
}

-- What follows a successful `register`: `expect` panics where there is no probe of this client.
unfoldable pub attach_new :
    Externals
    → RegistryStore
    → ℕ
    → SignedEnvelope RegisterBody
    → ClientIdentity
    → RegistrationToken
    → Outcome
attach_new x s now envelope identity token = elim (last_probe_evidence s identity) [
  | none ↦ panicked s
  | some evidence ↦
      reply (attach_rumor x s (new_rumor envelope identity token evidence) now).0 (registered token)
]

abbrev pub not_confirmed : ClientResponse
not_confirmed =
    error
      (codes "claimed rdns hostname does not forward-confirm against the request's source address")

-- `handle_register`, with the random bytes of the token as an argument.
unfoldable pub handle_register :
    Externals → RegistryStore → ℕ → List ℕ → SignedEnvelope RegisterBody → Bool → Outcome
unfolding attach_new
handle_register x s now nonce envelope rdns_verified =
    elim (authenticate x envelope (register_message envelope.body.domain envelope.timestamp_millis)
      now) [
        | AuthResult.err e ↦ reply s (error (auth_error_text e))
        | AuthResult.ok identity ↦
            if not rdns_verified
            then reply s not_confirmed
            else (let r = register x s envelope.body.domain identity now nonce in
                elim r.1 [
                  | RegisterResult.ok token ↦ attach_new x r.0 now envelope identity token
                  | RegisterResult.err e ↦ reply r.0 (error (registration_error_text e))
                ])
      ]

-- The `Ok(identity)` arm of `handle_set_records`.
unfoldable pub publish : RegistryStore → SignedEnvelope SetRecordsBody → ClientIdentity → Outcome
publish s envelope identity =
    let r = set_records s envelope.body.domain identity envelope.body.records in
    if r.1
    then reply
        (attach_record_evidence r.0 envelope.body.domain (key identity) envelope.timestamp_millis
          envelope.signature)
        records_set
    else reply r.0 (error (codes "client does not own this domain"))

unfoldable pub handle_set_records :
    Externals → RegistryStore → ℕ → SignedEnvelope SetRecordsBody → Outcome
unfolding publish
handle_set_records x s now envelope =
    elim (authenticate x envelope
      (set_records_message x envelope.body.domain envelope.body.records envelope.timestamp_millis)
      now) [
        | AuthResult.err e ↦ reply s (error (auth_error_text e))
        | AuthResult.ok identity ↦ publish s envelope identity
      ]

unfoldable pub handle_client_request :
    Externals → RegistryStore → ℕ → List ℕ → ClientRequest → Bool → Outcome
unfolding handle_probe handle_register handle_set_records
handle_client_request x s now nonce (ClientApi.probe envelope) rdns_verified =
    handle_probe x s now envelope
handle_client_request x s now nonce (ClientApi.register envelope) rdns_verified =
    handle_register x s now nonce envelope rdns_verified
handle_client_request x s now nonce (ClientApi.set_records envelope) rdns_verified =
    handle_set_records x s now envelope
