-- ===== src/Ntp/Tests.antt =====
-- Instances for crates/binda-core/src/ntp.rs.
use binda.Prelude.{
  ℕ, ◌+◌, ◌≤◌, ◌≡◌, ◌⊎◌, true, false, Option, none, some, List, [], ◌∷◌, arith, nat_eq, list_eq,
}
use binda.Ntp.{Duration, ahead, NtpTimeSource, now_millis, read_ntp_timestamp, write_ntp_timestamp}
use binda.Ntp.{Offset}
use binda.Ntp.Rounds.{spawn, is_synced, last_answer, spawn_lem}
use binda.Ntp.Stamp.{read_ntp_timestamp-write, read_ntp_timestamp_wraps}

abbrev moment : ℕ → Duration
moment secs = record { secs = secs; subsec_nanos = 123_456_789 }

read_ntp_timestamp-write_example :
    ((read_ntp_timestamp (write_ntp_timestamp (moment 1_700_000_000))).secs ≡ 1_700_000_000)
    × ((read_ntp_timestamp (write_ntp_timestamp (moment 1_700_000_000))).subsec_nanos ≤ 123_456_789)
    × (123_456_789
        ≤ (read_ntp_timestamp (write_ntp_timestamp (moment 1_700_000_000))).subsec_nanos + 1)
read_ntp_timestamp-write_example =
    read_ntp_timestamp-write (moment 1_700_000_000) (omega arith) (omega arith)

read_ntp_timestamp_wraps_example :
    (read_ntp_timestamp (write_ntp_timestamp (moment 2_100_000_000))).secs ≡ 0
read_ntp_timestamp_wraps_example =
    read_ntp_timestamp_wraps (moment 2_100_000_000) (omega arith) (omega arith)

abbrev source : NtpTimeSource
source = record { offset_millis = ahead 3; synced = true }

abbrev rounds : List (List (Option Offset))
rounds = (none ∷ some (ahead 5) ∷ []) ∷ (none ∷ none ∷ []) ∷ []

spawn_lem_example :
    ((last_answer ((none ∷ []) ∷ rounds) ≡ none)
      × (is_synced (spawn (none ∷ []) rounds) ≡ false)
      × ((local : ℕ) → now_millis (spawn (none ∷ []) rounds) local ≡ local))
    ⊎ ((offset : Offset) × (last_answer ((none ∷ []) ∷ rounds) ≡ some offset)
        × (is_synced (spawn (none ∷ []) rounds) ≡ true)
        × ((spawn (none ∷ []) rounds).offset_millis ≡ offset))
spawn_lem_example = spawn_lem (none ∷ []) rounds
