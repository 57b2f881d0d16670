-- ===== src/Gossip/Authority.antt =====
-- What a replicated lease proves by itself: crates/binda-core/src/gossip.rs.
use binda.Prelude.{
  ℕ, ◌≡◌, refl, ◌↔◌, true, Option, none, some, List, [], arith, length, nat_eq, list_eq,
  list_eq_iff,
}
use binda.Token.{RegistrationToken}
use binda.Client.{Externals, key}
use binda.ClientApi.{probe_message, register_message, set_records_message}
use binda.Gossip.{RegistrationRumor, owner_of, is_authorized, records_authorized}

-- The records of a lease are none and unsigned, or signed by the owner for this name and time.
abbrev pub RecordsSigned : Externals → RegistrationRumor → Option ℕ → Option (List ℕ) → Type 0
RecordsSigned x r none none = r.records ≡ []
RecordsSigned x r (some t) (some s) =
    (x.valid_signature s ≡ true)
    × (x.verify r.owner_key (set_records_message x r.domain r.records t) s ≡ true)
RecordsSigned x r none (some s) = ⊥
RecordsSigned x r (some t) none = ⊥

-- The evidence of a lease: the client key is that of the owner's key and hostname, and the owner has
-- signed the registration of this name, a probe, and the records.
pub record IsSigned (x : Externals) (r : RegistrationRumor) : Type 0 where
  pub key_len : length r.owner_key ≡ 32
  pub key_valid : x.valid_key r.owner_key ≡ true
  pub key_named : key (owner_of r) ≡ r.client_key
  pub registration_valid : x.valid_signature r.registration_signature ≡ true
  pub probe_valid : x.valid_signature r.probe_signature ≡ true
  pub registration_signed :
      x.verify r.owner_key
        (register_message r.domain r.registration_timestamp_millis)
        r.registration_signature
      ≡ true
  pub probe_signed :
      x.verify r.owner_key (probe_message r.probe_timestamp_millis) r.probe_signature ≡ true
  pub records_signed : RecordsSigned x r r.records_timestamp_millis r.records_signature

records_authorized_sound :
    (x : Externals) (r : RegistrationRumor) (t : Option ℕ) (s : Option (List ℕ))
    → records_authorized x r t s ≡ true
    → RecordsSigned x r t s
unfolding records_authorized
records_authorized_sound x r none none h = ground arith
records_authorized_sound x r none (some s) h = cc
records_authorized_sound x r (some t) none h = cc
records_authorized_sound x r (some t) (some s) h = ground arith

records_authorized_complete :
    (x : Externals) (r : RegistrationRumor) (t : Option ℕ) (s : Option (List ℕ))
    → RecordsSigned x r t s
    → records_authorized x r t s ≡ true
unfolding records_authorized
records_authorized_complete x r none none h = ground arith
records_authorized_complete x r none (some s) h = absurd h
records_authorized_complete x r (some t) none h = absurd h
records_authorized_complete x r (some t) (some s) h = ground arith

module _ (x : Externals) (r : RegistrationRumor) where
  is_authorized_sound : is_authorized x r ≡ true → IsSigned x r
  unfolding is_authorized
  is_authorized_sound h = record {
    key_len = ground arith;
    key_valid = ground arith;
    key_named = ground (arith, list_eq_iff (key (owner_of r)) r.client_key);
    registration_valid = ground arith;
    probe_valid = ground arith;
    registration_signed = ground arith;
    probe_signed = ground arith;
    records_signed =
        records_authorized_sound x r r.records_timestamp_millis r.records_signature (ground arith);
  }

  is_authorized_complete : IsSigned x r → is_authorized x r ≡ true
  unfolding is_authorized
  is_authorized_complete h = ground (
    arith,
    list_eq_iff (key (owner_of r)) r.client_key,
    records_authorized_complete x r r.records_timestamp_millis r.records_signature h.records_signed,
  )

  -- A rumor passes exactly if it carries the owner's signatures over the registration of its name,
  -- over a probe and over its records, under the key that its client key names.
  pub is_authorized_iff : (is_authorized x r ≡ true) ↔ IsSigned x r
  is_authorized_iff = (is_authorized_sound, is_authorized_complete)

-- No signature covers the registration token: a rumor passes under any token exactly if it passes
-- under its own.
pub is_authorized_any_token :
    (x : Externals) (r : RegistrationRumor) (t : RegistrationToken)
    → is_authorized x (record r { token = t }) ≡ is_authorized x r
unfolding is_authorized records_authorized
is_authorized_any_token x r t = refl
