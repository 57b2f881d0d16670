-- ===== src/Liveness/Tests.antt =====
-- Instances for crates/binda-core/src/liveness.rs.
use binda.Prelude.{◌≡◌, ◌&&◌, not, List, [], ◌∷◌, ltb, nat_eq, list_eq}
use binda.Prelude.Map.{is_some}
use binda.Client.{quota_key}
use binda.Gossip.{contains}
use binda.Liveness.{new, is_live, can_register, registration_count, expired_clients}
use binda.Liveness.Abstract.{
  Call, probed, counted, run_all, act_all, unknown, live_at, run_all_answers,
}
use binda.Samples.{client}

abbrev calls : List Call
calls = probed (client 1) 1_000 ∷ counted (client 2) ∷ []

run_all_answers_example :
    let h = act_all calls (λ k. unknown) (quota_key (client 1)) in
    (is_live (run_all calls new) (client 1) 90_000 ≡ live_at h 90_000)
    × (registration_count (run_all calls new) (client 1) ≡ h.count)
    × (can_register (run_all calls new) (client 1) 90_000 ≡ (live_at h 90_000 && ltb h.count 5))
    × (contains (expired_clients (run_all calls new) 90_000) (quota_key (client 1))
        ≡ (is_some h.last_seen && not (live_at h 90_000)))
run_all_answers_example = run_all_answers calls (client 1) 90_000
