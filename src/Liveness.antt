-- ===== src/Liveness.antt =====
-- Liveness tracking: crates/binda-core/src/liveness.rs. A time source enters as the reading `now`
-- that a call takes; the reading is the same all through one call.
pub mod Laws
pub mod Abstract
mod Tests
use binda.Prelude.{
  ℕ, zero, suc, ◌+◌, ◌-◌, ◌*◌, ◌/◌, ◌%◌, ◌^◌, ◌≤◌, ◌<◌, compare, Ordering, ◌≡◌, refl, sym, ap, ◌∙◌,
  ◌≢◌, ◌↔◌, ◌⊎◌, inl, inr, Bool, true, false, ◌&&◌, ◌||◌, not, Option, none, some, List, [], ◌∷◌,
  ◌++◌, map, arith, ltb, leb, if◌then◌else◌, Bool-cases, Option-cases, length, Eq, ◌==◌, nat_eq,
  list_eq, list_eq_iff, ==_refl, length-append,
}
use binda.Text.{Text}
use binda.Prelude.Map.{HashMap, lookup, insert, remove, retain, keys}
use binda.Client.{ClientIdentity, quota_key}

-- `LIVENESS_WINDOW`, in milliseconds.
abbrev pub liveness_window_millis : ℕ
liveness_window_millis = 60_000

abbrev pub max_registrations_per_client : ℕ
max_registrations_per_client = 5

-- `SystemTimeSource::now_millis`: the clock's milliseconds since the epoch, or 0 where it is before it.
unfoldable pub system_now_millis : Option ℕ → ℕ
system_now_millis none = 0
system_now_millis (some millis) = millis % 2 ^ 64

-- `MockTimeSource::advance`: `fetch_add` wraps at 64 bits.
unfoldable pub advance : ℕ → ℕ → ℕ
advance millis delta = (millis + delta) % 2 ^ 64

pub record LivenessTracker : Type 0 where
  pub last_seen_millis : HashMap Text ℕ
  pub registration_counts : HashMap Text ℕ

unfoldable pub new : LivenessTracker
new = record { last_seen_millis = []; registration_counts = [] }

unfoldable pub record_probe : LivenessTracker → ClientIdentity → ℕ → LivenessTracker
record_probe t client now = record t {
  last_seen_millis = insert (quota_key client) now t.last_seen_millis;
}

-- `now.saturating_sub(last) <= LIVENESS_WINDOW`
unfoldable pub within_window : ℕ → ℕ → Bool
within_window now last = leb (now - last) liveness_window_millis

unfoldable pub is_live : LivenessTracker → ClientIdentity → ℕ → Bool
unfolding within_window
is_live t client now = elim (lookup (quota_key client) t.last_seen_millis) [
  | some last ↦ within_window now last
  | none ↦ false
]

unfoldable pub registration_count : LivenessTracker → ClientIdentity → ℕ
registration_count t client = elim (lookup (quota_key client) t.registration_counts) [
  | some n ↦ n
  | none ↦ 0
]

unfoldable pub can_register : LivenessTracker → ClientIdentity → ℕ → Bool
unfolding is_live registration_count
can_register t client now =
    is_live t client now && ltb (registration_count t client) max_registrations_per_client

unfoldable pub increment_registration : LivenessTracker → ClientIdentity → LivenessTracker
unfolding registration_count
increment_registration t client = record t {
  registration_counts =
      insert (quota_key client) (registration_count t client + 1) t.registration_counts;
}

unfoldable pub clear_registrations : LivenessTracker → ClientIdentity → LivenessTracker
clear_registrations t client = record t {
  registration_counts = remove (quota_key client) t.registration_counts;
}

unfoldable pub forget_client_by_key : LivenessTracker → Text → LivenessTracker
forget_client_by_key t key = record {
  last_seen_millis = remove key t.last_seen_millis;
  registration_counts = remove key t.registration_counts;
}

unfoldable pub expired_clients : LivenessTracker → ℕ → List Text
unfolding within_window
expired_clients t now = keys (retain (λ _ last. not (within_window now last)) t.last_seen_millis)
