-- ===== src/Liveness/Abstract.antt =====
-- What the tracker promises, said without its maps: crates/binda-core/src/liveness.rs.
use binda.Prelude.{
  ℕ, ◌+◌, ◌≡◌, refl, ap, ◌∙◌, inl, inr, Bool, false, ◌&&◌, not, Option, none, some, List, [], ◌∷◌,
  arith, ltb, leb, if◌then◌else◌, Option-cases, ◌==◌, nat_eq, list_eq, list_eq_iff,
}
use binda.Prelude.Map.{
  lookup, lookup-insert, lookup-remove, Distinct, insert-Distinct, remove-Distinct, is_some,
  contains_key-lookup,
}
use binda.Gossip.{contains}
use binda.Liveness.{expired_clients}
use binda.Liveness.Laws.{expired_clients_iff}
use binda.Text.{Text}
use binda.Client.{ClientIdentity, quota_key}
use binda.Liveness.{
  LivenessTracker, new, record_probe, increment_registration, clear_registrations,
  forget_client_by_key, registration_count, is_live, can_register, within_window,
}

-- What is known of a host: when it last probed, and how many registrations count against it.
pub record Host : Type 0 where
  pub last_seen : Option ℕ
  pub count : ℕ

-- The calls that change the tracker.
pub data Call : Type 0 where
  probed : ClientIdentity → ℕ → Call
  counted cleared : ClientIdentity → Call
  forgot : Text → Call

-- The tracker as a function of the host.
abbrev pub Hosts : Type 0
Hosts = Text → Host

abbrev pub unknown : Host
unknown = record { last_seen = none; count = 0 }

-- The host `q` becomes what `change` makes of it.
abbrev pub at : Text → (Host → Host) → Hosts → Hosts
at q change hosts k = if q == k then change (hosts k) else hosts k

-- What a call is to do: to the host that it names, and to no other.
abbrev pub act : Call → Hosts → Hosts
act (probed c now) = at (quota_key c) (λ h. record h { last_seen = some now })
act (counted c) = at (quota_key c) (λ h. record h { count = h.count + 1 })
act (cleared c) = at (quota_key c) (λ h. record h { count = 0 })
act (forgot k) = at k (λ h. unknown)

abbrev pub act_all : List Call → Hosts → Hosts
act_all [] hosts = hosts
act_all (c ∷ cs) hosts = act_all cs (act c hosts)

-- What the code does for a call.
abbrev pub run : Call → LivenessTracker → LivenessTracker
run (probed c now) t = record_probe t c now
run (counted c) t = increment_registration t c
run (cleared c) t = clear_registrations t c
run (forgot k) t = forget_client_by_key t k

abbrev pub run_all : List Call → LivenessTracker → LivenessTracker
run_all [] t = t
run_all (c ∷ cs) t = run_all cs (run c t)

abbrev count_or_zero : Option ℕ → ℕ
count_or_zero none = 0
count_or_zero (some n) = n

-- What a tracker knows of each host.
abbrev pub view : LivenessTracker → Hosts
view t k = record {
  last_seen = lookup k t.last_seen_millis;
  count = count_or_zero (lookup k t.registration_counts);
}

-- The two functions are equal at every host.
abbrev pub Same : Hosts → Hosts → Type 0
Same f g = (k : Text) → f k ≡ g k

view-run : (c : Call) (t : LivenessTracker) → Same (view (run c t)) (act c (view t))
unfolding record_probe increment_registration clear_registrations forget_client_by_key
    registration_count
view-run (probed c now) t k = ground (arith, lookup-insert (quota_key c) k now t.last_seen_millis)
view-run (counted c) t k = ground (
  arith,
  list_eq_iff (quota_key c) k,
  lookup-insert (quota_key c) k (registration_count t c + 1) t.registration_counts,
)
view-run (cleared c) t k = ground (arith, lookup-remove (quota_key c) k t.registration_counts)
view-run (forgot q) t k =
    ground (arith, lookup-remove q k t.registration_counts, lookup-remove q k t.last_seen_millis)

act-Same : (c : Call) (f g : Hosts) → Same f g → Same (act c f) (act c g)
act-Same (probed c now) f g h k = ground (arith, h k)
act-Same (counted c) f g h k = ground (arith, h k)
act-Same (cleared c) f g h k = ground (arith, h k)
act-Same (forgot q) f g h k = ground (arith, h k)

act_all-Same : (cs : List Call) (f g : Hosts) → Same f g → Same (act_all cs f) (act_all cs g)
act_all-Same [] f g h = h
act_all-Same (c ∷ cs) f g h = act_all-Same cs (act c f) (act c g) (act-Same c f g h)

view-run_all :
    (cs : List Call) (t : LivenessTracker) → Same (view (run_all cs t)) (act_all cs (view t))
view-run_all [] t k = refl
view-run_all (c ∷ cs) t k =
    view-run_all cs (run c t) k ∙ act_all-Same cs (view (run c t)) (act c (view t)) (view-run c t) k

-- The rule: a host is live for sixty seconds after its last probe.
abbrev pub live_at : Host → ℕ → Bool
live_at h now = elim h.last_seen [ none ↦ false | some last ↦ leb now (last + 60_000) ]

is_live-view :
    (t : LivenessTracker) (c : ClientIdentity) (now : ℕ)
    → is_live t c now ≡ live_at (view t (quota_key c)) now
unfolding is_live within_window
is_live-view t c now = elim (Option-cases (lookup (quota_key c) t.last_seen_millis)) [
  | inl q ↦ ground (arith, q)
  | inr (last, q) ↦ ground (arith, q)
]

registration_count-view :
    (t : LivenessTracker) (c : ClientIdentity)
    → registration_count t c ≡ (view t (quota_key c)).count
unfolding registration_count
registration_count-view t c = ground arith

-- The keys of a tracker's map of probes are distinct, after any calls.
run-Distinct :
    (c : Call) (t : LivenessTracker)
    → Distinct t.last_seen_millis
    → Distinct (run c t).last_seen_millis
unfolding record_probe increment_registration clear_registrations forget_client_by_key
run-Distinct (probed c now) t d = insert-Distinct (quota_key c) now t.last_seen_millis d
run-Distinct (counted c) t d = d
run-Distinct (cleared c) t d = d
run-Distinct (forgot k) t d = remove-Distinct k t.last_seen_millis d

run_all-Distinct :
    (cs : List Call) (t : LivenessTracker)
    → Distinct t.last_seen_millis
    → Distinct (run_all cs t).last_seen_millis
run_all-Distinct [] t d = d
run_all-Distinct (c ∷ cs) t d = run_all-Distinct cs (run c t) (run-Distinct c t d)

expired_clients-view :
    (t : LivenessTracker) (c : ClientIdentity) (now : ℕ)
    → Distinct t.last_seen_millis
    → contains (expired_clients t now) (quota_key c)
      ≡ (is_some (view t (quota_key c)).last_seen && not (live_at (view t (quota_key c)) now))
expired_clients-view t c now d = ground (
  arith,
  expired_clients_iff t c now d,
  contains_key-lookup (quota_key c) t.last_seen_millis,
  is_live-view t c now,
)

-- The tracker's answers after any calls are the rule's, applied to what the calls did to the
-- client's host: it is live if it probed in the last sixty seconds and was not forgotten since; it may
-- register if it is live and fewer than five of its registrations count; and it is expired if
-- it has probed and is no longer live.
pub run_all_answers :
    (cs : List Call) (c : ClientIdentity) (now : ℕ)
    → let h = act_all cs (λ k. unknown) (quota_key c) in
      (is_live (run_all cs new) c now ≡ live_at h now)
      × (registration_count (run_all cs new) c ≡ h.count)
      × (can_register (run_all cs new) c now ≡ (live_at h now && ltb h.count 5))
      × (contains (expired_clients (run_all cs new) now) (quota_key c)
          ≡ (is_some h.last_seen && not (live_at h now)))
unfolding new lookup can_register
run_all_answers cs c now =
    let t = run_all cs new in
    let same : view t (quota_key c) ≡ act_all cs (λ k. unknown) (quota_key c) =
      view-run_all cs new (quota_key c) in
    let live = is_live-view t c now ∙ ap (λ h. live_at h now) same in
    let count = registration_count-view t c ∙ ap (λ h. h.count) same in
    (
      live,
      count,
      rw (live, count) refl,
      expired_clients-view t c now (run_all-Distinct cs new tt)
          ∙ ap (λ h. is_some h.last_seen && not (live_at h now)) same,
    )
