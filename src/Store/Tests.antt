-- ===== src/Store/Tests.antt =====
-- Runs and instances for crates/binda-core/src/store.rs.
use binda.Prelude.{
  ◌+◌, ◌≡◌, refl, ◌↔◌, true, false, none, some, [], ◌∷◌, arith, if◌then◌else◌, ◌==◌, nat_eq,
  list_eq,
}
use binda.Prelude.Map.{lookup, insert, remove, retain, contains_key}
use binda.Text.{
  codes, is_whitespace, drop_while, trim, trim_end_matches, to_ascii_lowercase, ascii_lower,
  hex_digit,
}
use binda.Token.{issue}
use binda.Client.{key, quota_key, quota_key_of, hex_encode}
use binda.Liveness.{
  record_probe, within_window, is_live, registration_count, expired_clients, forget_client_by_key,
}
use binda.Gossip.{RegistrationRumor, contains}
use binda.Store.{
  RegistryStore, new, probe, find, reclaim_stale, drop_expired, forget_all, reconcile_all,
  reconcile_quota, probe_with_evidence,
}
use binda.Store.Register.{register, ok, fresh_registration}
use binda.Store.Evidence.{attach_record_evidence}
use binda.Store.Cap.{IsCapped}
use binda.Store.Reach.{Reach, Reach-IsCapped, next, initial, probed}
use binda.Store.Admission.{MayRegister, register-ok_iff, register-effect}
use binda.Store.Decay.{attach_record_evidence_loses_name}
use binda.Store.Keyed.{AllKeyed}
use binda.Store.Evidence.{adopt_rumor}
use binda.Store.Reach.{adopted}
use binda.Store.Reclaim.{IsLiveLease}
use binda.Store.Tracked.{reclaim_stale-IsLiveLease}
use binda.Prelude.All.{All}
use binda.Prelude.Map.{values}
use binda.Store.KeyedReach.{Reach-AllKeyed}
use binda.Samples.{externals, client, token, name, rumor, registration, host}

program : Unit {0}
unfolding new probe record_probe is_live within_window reclaim_stale drop_expired forget_all
    reconcile_all quota_key quota_key_of trim trim_end_matches is_whitespace drop_while
    to_ascii_lowercase ascii_lower registration_count expired_clients forget_client_by_key find
    register contains issue key hex_encode hex_digit lookup insert remove retain contains_key
    binda.Liveness.new
program = tt

-- A store in which the host has probed.
abbrev live_store : RegistryStore
live_store = probe new (client 1) 1_000

may_register : MayRegister (externals true) live_store name (client 1) 2_000 (token 0 4).nonce
unfolding program
may_register = record { live = refl; free = refl; still_live = refl; below_cap = omega arith }

register-ok_iff_example :
    ((register (externals true) live_store name (client 1) 2_000 (token 0 4).nonce).1
      ≡ ok (token 2_000 4))
    ↔ (MayRegister (externals true) live_store name (client 1) 2_000 (token 0 4).nonce
        × (token 2_000 4 ≡ issue 2_000 (token 0 4).nonce))
register-ok_iff_example =
    register-ok_iff (externals true) live_store name (client 1) 2_000 (token 0 4).nonce
      (token 2_000 4)

registers :
    (register (externals true) live_store name (client 1) 2_000 (token 0 4).nonce).1
    ≡ ok (issue 2_000 (token 0 4).nonce)
registers =
    (register-ok_iff (externals true) live_store name (client 1) 2_000 (token 0 4).nonce
        (issue 2_000 (token 0 4).nonce)).1
      (may_register, refl)

abbrev after : RegistryStore
after = (register (externals true) live_store name (client 1) 2_000 (token 0 4).nonce).0

register-effect_example :
    (find after name ≡ (
      if name == name
      then some (fresh_registration (client 1) (issue 2_000 (token 0 4).nonce))
      else find (reclaim_stale (externals true) 2_000 live_store) name))
    × (registration_count after.liveness (client 1)
        ≡ registration_count (reclaim_stale (externals true) 2_000 live_store).liveness (client 1)
          + 1)
register-effect_example =
    register-effect (externals true) live_store name (client 1) 2_000 (token 0 4).nonce
      (issue 2_000 (token 0 4).nonce) name registers

-- A store that knows one lease of the host.
abbrev lease : RegistrationRumor
lease = rumor 1_000 name (codes "k")

abbrev leased : RegistryStore
leased = record live_store {
  registrations = (name, registration 1_000 (codes "k") host (some lease)) ∷ [];
  quota_claims = (host, (name, lease) ∷ []) ∷ [];
}

probed_store : Reach (externals true) (probe_with_evidence new (client 1) 1_000 1_000 [])
probed_store = next initial (probed new (client 1) 1_000 1_000 [])

Reach-IsCapped_example : IsCapped (probe_with_evidence new (client 1) 1_000 1_000 [])
Reach-IsCapped_example =
    Reach-IsCapped (externals true) (probe_with_evidence new (client 1) 1_000 1_000 []) probed_store

attach_record_evidence_loses_name_example :
    find
      (reconcile_quota
        (externals false)
        host
        2_000
        (attach_record_evidence leased name lease.client_key 1_500 []))
      name
    ≡ none
unfolding program
attach_record_evidence_loses_name_example =
    attach_record_evidence_loses_name (externals false) leased name
      (registration 1_000 (codes "k") host (some lease)) ((name, lease) ∷ []) lease 1_500 2_000 []
      (refl, tt) refl refl refl (refl, tt) (refl, tt) refl refl

Reach-AllKeyed_example : AllKeyed (probe_with_evidence new (client 1) 1_000 1_000 [])
Reach-AllKeyed_example =
    Reach-AllKeyed (externals true) (probe_with_evidence new (client 1) 1_000 1_000 []) probed_store

-- A store that has adopted a lease.
abbrev adopted_store : RegistryStore
adopted_store =
    (adopt_rumor (externals true) new
      (rumor 5 name
        (codes "0101010101010101010101010101010101010101010101010101010101010101@a.net"))
      10).0

adopted_reached : Reach (externals true) adopted_store
adopted_reached = next initial (
    adopted new
      (rumor 5 name
        (codes "0101010101010101010101010101010101010101010101010101010101010101@a.net"))
      10)

reclaim_stale-IsLiveLease_example :
    All
      (IsLiveLease (externals true) 20_000)
      (values (reclaim_stale (externals true) 20_000 adopted_store).registrations)
reclaim_stale-IsLiveLease_example =
    reclaim_stale-IsLiveLease (externals true) 20_000 adopted_store adopted_reached

-- Another host has registered the name, with a token of 1.
abbrev taken : RegistryStore
taken = record new { registrations = (name, registration 1 (codes "k") (codes "b") none) ∷ [] }

abbrev good : RegistrationRumor
good = rumor 5 name (codes "0101010101010101010101010101010101010101010101010101010101010101@a.net")
