-- ===== src/Liveness/Laws.antt =====
-- The liveness rules as statements about times and counts: crates/binda-core/src/liveness.rs.
use binda.Prelude.{
  ℕ, ◌+◌, ◌≡◌, refl, Bool, false, ◌&&◌, not, [], ◌∷◌, arith, leb, if◌then◌else◌, ◌==◌, nat_eq,
  list_eq, list_eq_iff,
}
use binda.Text.{Text}
use binda.Prelude.Map.{
  HashMap, retain, keys, lookup-insert, lookup-remove, Distinct, contains_key, contains_key-lookup,
  lookup-retain,
}
use binda.Client.{ClientIdentity, quota_key}
use binda.Gossip.{contains}
use binda.Liveness.{
  LivenessTracker, record_probe, is_live, within_window, registration_count, increment_registration,
  forget_client_by_key, expired_clients,
}

module _ (t : LivenessTracker) (c d : ClientIdentity) (seen now : ℕ) where
  -- After a probe at one time, the host is live at another exactly if at most sixty seconds have
  -- passed; every other host is as live as it was.
  pub is_live-record_probe :
      is_live (record_probe t c seen) d now
      ≡ (if quota_key c == quota_key d then leb now (seen + 60_000) else is_live t d now)
  unfolding is_live record_probe
  is_live-record_probe = ground (
    arith,
    lookup-insert (quota_key c) (quota_key d) seen t.last_seen_millis,
    list_eq_iff (quota_key c) (quota_key d),
  )

-- Counting one more registration changes the count of the clients of that host alone, by one, and
-- nobody's liveness.
pub registration_count-increment :
    (t : LivenessTracker) (c d : ClientIdentity) (now : ℕ)
    → (registration_count (increment_registration t c) d ≡ (
        if quota_key c == quota_key d then registration_count t d + 1 else registration_count t d))
      × (is_live (increment_registration t c) d now ≡ is_live t d now)
unfolding registration_count increment_registration is_live
registration_count-increment t c d now = ground (
  arith,
  lookup-insert (quota_key c) (quota_key d) (registration_count t c + 1) t.registration_counts,
  list_eq_iff (quota_key c) (quota_key d),
)

-- A forgotten host has no registrations and is not live; the others are as they were.
pub forget_client_by_key_lem :
    (t : LivenessTracker) (k : Text) (c : ClientIdentity) (now : ℕ)
    → (is_live (forget_client_by_key t k) c now
        ≡ (if k == quota_key c then false else is_live t c now))
      × (registration_count (forget_client_by_key t k) c
          ≡ (if k == quota_key c then 0 else registration_count t c))
unfolding forget_client_by_key registration_count is_live
forget_client_by_key_lem t k c now = ground (
  arith,
  lookup-remove k (quota_key c) t.registration_counts,
  lookup-remove k (quota_key c) t.last_seen_millis,
)

pub contains-keys {ℓ} :
    {V : Type ℓ} (m : HashMap Text V) (k : Text) → contains (keys m) k ≡ contains_key k m
unfolding contains contains_key
contains-keys [] k = refl
contains-keys ((j, v) ∷ m) k = ground (arith, contains-keys m k)

-- In a tracker whose map has each key once, the expired keys are exactly those of the hosts that
-- have probed and are no longer live.
pub expired_clients_iff :
    (t : LivenessTracker) (c : ClientIdentity) (now : ℕ)
    → Distinct t.last_seen_millis
    → contains (expired_clients t now) (quota_key c)
      ≡ (contains_key (quota_key c) t.last_seen_millis && not (is_live t c now))
unfolding expired_clients is_live
expired_clients_iff t c now d =
    let k = quota_key c in
    let gone : Text → ℕ → Bool = λ _ last. not (within_window now last) in
    ground (
      arith,
      contains-keys (retain gone t.last_seen_millis) k,
      contains_key-lookup k (retain gone t.last_seen_millis),
      contains_key-lookup k t.last_seen_millis,
      lookup-retain k gone t.last_seen_millis d,
    )
