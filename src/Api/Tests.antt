-- ===== src/Api/Tests.antt =====
-- Instances for crates/binda-core/src/api.rs.
use binda.Prelude.{
  ℕ, ◌≡◌, refl, ◌≢◌, ◌↔◌, ◌⊎◌, true, none, some, [], ◌∷◌, arith, if◌then◌else◌, ◌==◌, nat_eq,
  list_eq,
}
use binda.Prelude.Map.{lookup, insert, remove, retain, contains_key}
use binda.Text.{
  codes, is_whitespace, drop_while, trim, trim_end_matches, to_ascii_lowercase, ascii_lower,
  hex_digit, Text,
}
use binda.Client.{key, quota_key, quota_key_of, hex_encode}
use binda.ClientApi.{
  SignedEnvelope, ProbeBody, probe_body, RegisterBody, SetRecordsBody, probe_ack, registered,
  records_set, probe_message,
}
use binda.ClientApi.Auth.{IsAuthentic}
use binda.Liveness.{
  record_probe, within_window, is_live, registration_count, expired_clients, forget_client_by_key,
}
use binda.Liveness
use binda.Gossip.{contains}
use binda.Token.{issue}
use binda.Store.{
  RegistryStore, new, probe, find, reclaim_stale, drop_expired, forget_all, reconcile_all,
  probe_with_evidence, last_probe_evidence,
}
use binda.Store.Register.{register}
use binda.Api.{panicked, store_of, handle_probe, handle_register, handle_set_records}
use binda.Api.Outcomes.{
  response_of, records_of, MayPublish, client_of, handle_set_records_lem, handle_probe_effect,
}
use binda.Api.Panic.{IsAdmitted, handle_register_panics, handle_register-registered_iff}
use binda.Api.Panic.{registered_complete}
use binda.Api.Lifecycle.{handle_register_then_publish}
use binda.Store.Reach.{Reach, Step}
use binda.Demo.{records}
use binda.Samples.{externals, client, token, name, envelope, registration, host}

program : Unit {0}
unfolding new probe probe_with_evidence last_probe_evidence record_probe is_live within_window
    reclaim_stale drop_expired forget_all reconcile_all quota_key quota_key_of trim trim_end_matches
    is_whitespace drop_while to_ascii_lowercase ascii_lower registration_count expired_clients
    forget_client_by_key find contains key hex_encode hex_digit lookup insert remove retain
    contains_key Liveness.new
program = tt

-- A store in which the host has probed under the key 1.
abbrev live_store : RegistryStore
live_store = probe_with_evidence new (client 1) 1_000 1_000 []

abbrev asks : ℕ → SignedEnvelope RegisterBody
asks b = envelope b 2_000 (record { domain = name })

admitted : (b : ℕ) → IsAdmitted (externals true) live_store 2_000 (token 0 4).nonce (asks b)
unfolding program
admitted b = record {
  authentic = record {
    not_old = omega arith;
    not_early = omega arith;
    key_len = refl;
    key_valid = refl;
    signature_valid = refl;
    signed = refl;
  };
  may = record { live = refl; free = refl; still_live = refl; below_cap = omega arith };
}

other_unseen : last_probe_evidence live_store (client 2) ≡ none
unfolding program
other_unseen = refl

same_seen : last_probe_evidence live_store (client 1) ≡ some (1_000, [])
unfolding program
same_seen = refl

handle_register_panics_example :
    handle_register (externals true) live_store 2_000 (token 0 4).nonce (asks 2) true
    ≡ panicked (register (externals true) live_store name (client 2) 2_000 (token 0 4).nonce).0
handle_register_panics_example =
    handle_register_panics (externals true) live_store 2_000 (token 0 4).nonce (asks 2) (admitted 2)
      other_unseen

handle_register-registered_iff_example :
    (response_of (handle_register (externals true) live_store 2_000 (token 0 4).nonce (asks 1) true)
      ≡ some (registered (token 2_000 4)))
    ↔ ((true ≡ true)
        × IsAdmitted (externals true) live_store 2_000 (token 0 4).nonce (asks 1)
        × (token 2_000 4 ≡ issue 2_000 (token 0 4).nonce))
handle_register-registered_iff_example =
    handle_register-registered_iff (externals true) live_store 2_000 (token 0 4).nonce (asks 1) true
      (1_000, []) (token 2_000 4) same_seen

abbrev publishes : SignedEnvelope SetRecordsBody
publishes = envelope 1 2_000 (record { domain = name; records = records })

abbrev owned : RegistryStore
owned = record live_store { registrations = (name, registration 1_000 (codes "k") host none) ∷ [] }

handle_set_records_lem_example :
    let outcome = handle_set_records (externals true) owned 2_000 publishes in
    ((MayPublish (externals true) owned 2_000 publishes
        × (response_of outcome ≡ some records_set)
        × ((d : Text)
            → records_of (find (store_of outcome) d)
              ≡ (if name == d then some publishes.body.records else records_of (find owned d))))
      ⊎ ((¬ MayPublish (externals true) owned 2_000 publishes)
          × (response_of outcome ≢ some records_set)
          × ((d : Text) → records_of (find (store_of outcome) d) ≡ records_of (find owned d))))
    × ((d : Text) → client_of (find (store_of outcome) d) ≡ client_of (find owned d))
handle_set_records_lem_example = handle_set_records_lem (externals true) owned 2_000 publishes

abbrev probes : SignedEnvelope ProbeBody
probes = envelope 1 2_000 probe_body

handle_probe_effect_example :
    ((response_of (handle_probe (externals true) new 2_000 probes) ≡ some probe_ack)
      × (is_live
            (store_of (handle_probe (externals true) new 2_000 probes)).liveness
            (client 1)
            2_000
          ≡ true)
      × IsAuthentic (externals true) probes (probe_message 2_000) 2_000)
    ⊎ ((store_of (handle_probe (externals true) new 2_000 probes) ≡ new)
        × (response_of (handle_probe (externals true) new 2_000 probes) ≢ some probe_ack)
        × (¬ IsAuthentic (externals true) probes (probe_message 2_000) 2_000))
handle_probe_effect_example = handle_probe_effect (externals true) new 2_000 probes

reached : Reach (externals true) live_store
reached = Reach.next Reach.initial (Step.probed new (client 1) 1_000 1_000 [])

answered :
    response_of (handle_register (externals true) live_store 2_000 (token 0 4).nonce (asks 1) true)
    ≡ some (registered (issue 2_000 (token 0 4).nonce))
answered =
    registered_complete (externals true) live_store 2_000 (token 0 4).nonce (asks 1) (1_000, [])
      same_seen (admitted 1)

handle_register_then_publish_example :
    (response_of (
        handle_set_records
          (externals true)
          (store_of
            (handle_register (externals true) live_store 2_000 (token 0 4).nonce (asks 1) true))
          2_000
          publishes)
      ≡ some records_set)
    × (records_of (
          find
            (store_of (
              handle_set_records
                (externals true)
                (store_of (
                  handle_register
                    (externals true)
                    live_store
                    2_000
                    (token 0 4).nonce
                    (asks 1)
                    true))
                2_000
                publishes))
            name)
        ≡ some publishes.body.records)
    × (client_of (
          find
            (store_of (
              handle_set_records
                (externals true)
                (store_of (
                  handle_register
                    (externals true)
                    live_store
                    2_000
                    (token 0 4).nonce
                    (asks 1)
                    true))
                2_000
                publishes))
            name)
        ≡ some (key (client 1)))
handle_register_then_publish_example =
    handle_register_then_publish (externals true) live_store 2_000 (token 0 4).nonce (asks 1)
      (1_000, []) (issue 2_000 (token 0 4).nonce) 2_000 publishes reached same_seen answered refl
      refl
      (record {
        not_old = omega arith;
        not_early = omega arith;
        key_len = refl;
        key_valid = refl;
        signature_valid = refl;
        signed = refl;
      })
