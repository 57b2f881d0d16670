-- ===== src/Api/Outcomes.antt =====
-- What the replies mean: crates/binda-core/src/api.rs.
use binda.Prelude.{
  ℕ, ◌≡◌, refl, ◌∙◌, ◌≢◌, ◌↔◌, ◌⊎◌, inl, inr, Bool, true, false, ◌&&◌, Option, none, some, List,
  arith, if◌then◌else◌, Bool-cases, Option-cases, ◌==◌, nat_eq, list_eq, list_eq_iff, ==_refl,
}
use binda.Prelude.Map.{lookup, lookup-update}
use binda.Text.{Text}
use binda.Domain.{DomainName}
use binda.Zone.{Record}
use binda.Client.{Externals, ClientIdentity, key, quota_key}
use binda.ClientApi.{
  ClientResponse, SignedEnvelope, ProbeBody, SetRecordsBody, probe_ack, records_set, AuthResult,
  authenticate, probe_message, set_records_message, RequestAuthError,
}
use binda.ClientApi.Auth.{IsAuthentic, identity_of, authenticate-ok_iff, authenticate-ok_complete}
use binda.Store.{RegistryStore, Registration, find, probe, probe_with_evidence}
use binda.Store.Register.{set_records}
use binda.Store.Ownership.{Holds, set_records-true_iff, set_records-effect}
use binda.Store.Evidence.{attach_record_evidence, refresh_probe_evidence, sign_registration}
use binda.Liveness.{is_live}
use binda.Liveness.Laws.{is_live-record_probe}
use binda.Api.{Outcome, reply, panicked, store_of, publish, handle_probe, handle_set_records}

pub AuthResult-cases :
    (a : AuthResult)
    → ((i : ClientIdentity) × (a ≡ AuthResult.ok i))
      ⊎ ((e : RequestAuthError) × (a ≡ AuthResult.err e))
AuthResult-cases (AuthResult.ok i) = inl (i, refl)
AuthResult-cases (AuthResult.err e) = inr (e, refl)

abbrev pub response_of : Outcome → Option ClientResponse
response_of (reply s response) = some response
response_of (panicked s) = none

abbrev pub is_records_set : Option ClientResponse → Bool
is_records_set (some records_set) = true
is_records_set _ = false

is_records_set_sound : (r : Option ClientResponse) → is_records_set r ≡ true → r ≡ some records_set
is_records_set_sound none h = cc
is_records_set_sound (some r) h = ground arith

-- The records under a name, if it is registered.
abbrev pub records_of : Option Registration → Option (List Record)
records_of none = none
records_of (some reg) = some reg.records

-- The client that a name belongs to, if it is registered.
abbrev pub client_of : Option Registration → Option Text
client_of none = none
client_of (some reg) = some reg.client_key

sign_registration-client_key :
    (k : Text) (t : ℕ) (g : List ℕ) (reg : Registration)
    → (sign_registration k t g reg).client_key ≡ reg.client_key
unfolding sign_registration
sign_registration-client_key k t g reg = ground arith

client_of-attach_record_evidence :
    (s : RegistryStore) (n : DomainName) (k : Text) (t : ℕ) (g : List ℕ) (d : DomainName)
    → client_of (find (attach_record_evidence s n k t g) d) ≡ client_of (find s d)
unfolding attach_record_evidence find
client_of-attach_record_evidence s n k t g d =
    let f = sign_registration k t g in
    elim (Option-cases (lookup d s.registrations)) [
      | inl e ↦ ground (arith, e, lookup-update n d f s.registrations)
      | inr (reg, e) ↦
          ground
            (arith, e, lookup-update n d f s.registrations, sign_registration-client_key k t g reg)
    ]

client_of-set_records :
    (s : RegistryStore) (n : DomainName) (c : ClientIdentity) (rs : List Record) (d : DomainName)
    → client_of (find (set_records s n c rs).0 d) ≡ client_of (find s d)
client_of-set_records s n c rs d = elim (Option-cases (find s d)) [
  | inl e ↦ ground (arith, e, set_records-effect s n c rs d)
  | inr (reg, e) ↦ ground (arith, e, set_records-effect s n c rs d)
]

-- Publishing leaves every name with its client.
publish_client :
    (s : RegistryStore) (e : SignedEnvelope SetRecordsBody) (i : ClientIdentity) (d : DomainName)
    → client_of (find (store_of (publish s e i)) d) ≡ client_of (find s d)
unfolding publish
publish_client s e i d =
    let after = (set_records s e.body.domain i e.body.records).0 in
    ground (
      arith,
      client_of-set_records s e.body.domain i e.body.records d,
      client_of-attach_record_evidence after e.body.domain (key i) e.timestamp_millis e.signature d,
    )

sign_registration-records :
    (k : Text) (t : ℕ) (g : List ℕ) (reg : Registration)
    → (sign_registration k t g reg).records ≡ reg.records
unfolding sign_registration
sign_registration-records k t g reg = ground arith

records_of-attach_record_evidence :
    (s : RegistryStore) (n : DomainName) (k : Text) (t : ℕ) (g : List ℕ) (d : DomainName)
    → records_of (find (attach_record_evidence s n k t g) d) ≡ records_of (find s d)
unfolding attach_record_evidence find
records_of-attach_record_evidence s n k t g d =
    let f = sign_registration k t g in
    elim (Option-cases (lookup d s.registrations)) [
      | inl e ↦ ground (arith, e, lookup-update n d f s.registrations)
      | inr (reg, e) ↦
          ground
            (arith, e, lookup-update n d f s.registrations, sign_registration-records k t g reg)
    ]

publish_records :
    (s : RegistryStore) (e : SignedEnvelope SetRecordsBody) (i : ClientIdentity) (d : DomainName)
    → records_of (find (store_of (publish s e i)) d) ≡ (
        if is_records_set (response_of (publish s e i)) && e.body.domain == d
        then some e.body.records
        else records_of (find s d))
unfolding publish
publish_records s e i d = elim (Bool-cases (set_records s e.body.domain i e.body.records).1) [
  | inr refused ↦ ground (arith, refused, set_records-effect s e.body.domain i e.body.records d)
  | inl done ↦
      let (reg, found, k) = (set_records-true_iff s e.body.domain i e.body.records).0 done in
      ground (
        arith,
        done,
        found,
        set_records-effect s e.body.domain i e.body.records d,
        records_of-attach_record_evidence (set_records s e.body.domain i e.body.records).0
            e.body.domain (key i) e.timestamp_millis e.signature d,
        list_eq_iff e.body.domain d,
      )
]

module _ (x : Externals) (s : RegistryStore) (now : ℕ) (e : SignedEnvelope SetRecordsBody) where
  abbrev message : List ℕ
  message = set_records_message x e.body.domain e.body.records e.timestamp_millis

  -- The request is the holder's own, fresh and signed.
  abbrev pub MayPublish : Type 0
  MayPublish =
      IsAuthentic x e (set_records_message x e.body.domain e.body.records e.timestamp_millis) now
      × Holds s e.body.domain (identity_of e)

  set_records_sound : response_of (handle_set_records x s now e) ≡ some records_set → MayPublish
  unfolding handle_set_records
  set_records_sound h = elim (AuthResult-cases (authenticate x e message now)) [
    | inr (f, p) ↦ absurd (ground (arith, p))
    | inl (i, p) ↦
        let (authentic, same) = (authenticate-ok_iff x e message now i).0 p in
        (
          authentic,
          (set_records-true_iff s e.body.domain (identity_of e) e.body.records).0
              (ground (arith, p, same)),
        )
  ]

  set_records_complete : MayPublish → response_of (handle_set_records x s now e) ≡ some records_set
  unfolding handle_set_records
  set_records_complete (authentic, holds) = ground (
    arith,
    authenticate-ok_complete x e message now authentic,
    (set_records-true_iff s e.body.domain (identity_of e) e.body.records).1 holds,
  )

  pub handle_set_records-ok_iff :
      (response_of (handle_set_records x s now e) ≡ some records_set) ↔ MayPublish
  handle_set_records-ok_iff = (set_records_sound, set_records_complete)

  -- On every outcome the records under a name are the published ones, if the request was accepted
  -- and is for that name, and else those that stood there before.
  pub handle_set_records-effect :
      (d : DomainName)
      → records_of (find (store_of (handle_set_records x s now e)) d) ≡ (
          if is_records_set (response_of (handle_set_records x s now e)) && e.body.domain == d
          then some e.body.records
          else records_of (find s d))
  unfolding handle_set_records
  handle_set_records-effect d = elim (AuthResult-cases (authenticate x e message now)) [
    | inr (f, p) ↦ ground (arith, p)
    | inl (i, p) ↦ ground (arith, p, publish_records s e i d)
  ]

  -- No request takes a name from its client.
  pub handle_set_records-client :
      (d : DomainName)
      → client_of (find (store_of (handle_set_records x s now e)) d) ≡ client_of (find s d)
  unfolding handle_set_records
  handle_set_records-client d = elim (AuthResult-cases (authenticate x e message now)) [
    | inr (f, p) ↦ ground (arith, p)
    | inl (i, p) ↦ ground (arith, p, publish_client s e i d)
  ]

  -- A fresh request that the name's holder has signed is answered with success, and then a lookup of
  -- the name reads exactly the records of the request, and one of any other name what it read before.
  -- Every other request is not answered with success, and changes the records of no name. Neither
  -- takes a name from its client.
  pub handle_set_records_lem :
      let outcome = handle_set_records x s now e in
      ((MayPublish
          × (response_of outcome ≡ some records_set)
          × ((d : DomainName)
              → records_of (find (store_of outcome) d)
                ≡ (if e.body.domain == d then some e.body.records else records_of (find s d))))
        ⊎ ((¬ MayPublish)
            × (response_of outcome ≢ some records_set)
            × ((d : DomainName) → records_of (find (store_of outcome) d) ≡ records_of (find s d))))
      × ((d : DomainName) → client_of (find (store_of outcome) d) ≡ client_of (find s d))
  handle_set_records_lem =
      let outcome = handle_set_records x s now e in
      (
        elim (Bool-cases (is_records_set (response_of outcome))) [
          | inl q ↦
              let done = is_records_set_sound (response_of outcome) q in
              inl (set_records_sound done, done, λ d. handle_set_records-effect d ∙ rw (q) refl)
          | inr q ↦ inr (
            λ h. absurd (ground (arith, q, set_records_complete h)),
            λ h. absurd (ground (arith, q, h)),
            λ d. handle_set_records-effect d ∙ rw (q) refl,
          )
        ],
        handle_set_records-client,
      )

-- An authentic probe makes its host live at once, and any other changes nothing.
pub handle_probe_effect :
    (x : Externals) (s : RegistryStore) (now : ℕ) (e : SignedEnvelope ProbeBody)
    → ((response_of (handle_probe x s now e) ≡ some probe_ack)
        × (is_live (store_of (handle_probe x s now e)).liveness (identity_of e) now ≡ true)
        × IsAuthentic x e (probe_message e.timestamp_millis) now)
      ⊎ ((store_of (handle_probe x s now e) ≡ s)
          × (response_of (handle_probe x s now e) ≢ some probe_ack)
          × (¬ IsAuthentic x e (probe_message e.timestamp_millis) now))
unfolding handle_probe probe_with_evidence probe refresh_probe_evidence
handle_probe_effect x s now e =
    elim (AuthResult-cases (authenticate x e (probe_message e.timestamp_millis) now)) [
      | inr (f, p) ↦ inr (
        ground (arith, p),
        ground (arith, p),
        λ a.
            ground
              (arith, p, authenticate-ok_complete x e (probe_message e.timestamp_millis) now a),
      )
      | inl (i, p) ↦
          let (a, same) = (authenticate-ok_iff x e (probe_message e.timestamp_millis) now i).0 p in
          inl (
            ground (arith, p),
            ground (
              arith,
              p,
              same,
              is_live-record_probe s.liveness i (identity_of e) now now,
              ==_refl (quota_key i),
            ),
            a,
          )
    ]
