-- ===== src/Ntp.antt =====
-- The clock that NTP disciplines: crates/binda-core/src/ntp.rs. Sockets are left out: what a server
-- says is an argument. A `Duration` is seconds and nanoseconds, and a signed number an `Offset`.
pub mod Stamp
pub mod Rounds
mod Tests
use binda.Prelude.{
  ℕ, zero, suc, ◌+◌, ◌-◌, ◌*◌, ◌/◌, ◌%◌, ◌^◌, ◌≤◌, ◌<◌, compare, Ordering, ◌≡◌, refl, sym, ap, ◌∙◌,
  ◌≢◌, ◌↔◌, ◌⊎◌, inl, inr, Bool, true, false, ◌&&◌, ◌||◌, not, Option, none, some, List, [], ◌∷◌,
  ◌++◌, map, arith, ltb, leb, if◌then◌else◌, Bool-cases, Option-cases, length, Eq, ◌==◌, nat_eq,
  list_eq, list_eq_iff, ==_refl, length-append,
}
use binda.Prelude.Bytes.{be, from_be}
use binda.Prelude.{take, drop}

abbrev pub ntp_unix_epoch_delta_secs : ℕ
ntp_unix_epoch_delta_secs = 2208988800

abbrev pub nanos_per_sec : ℕ
nanos_per_sec = 1000000000

pub record Duration : Type 0 where
  pub secs : ℕ
  pub subsec_nanos : ℕ

unfoldable pub as_millis : Duration → ℕ
as_millis d = d.secs * 1000 + d.subsec_nanos / 1000000

-- `as u32` keeps 32 bits of each number.
unfoldable pub write_ntp_timestamp : Duration → List ℕ
write_ntp_timestamp d =
    be 4 ((d.secs + ntp_unix_epoch_delta_secs) % 2 ^ 32)
    ++ be 4 ((d.subsec_nanos * 2 ^ 32 / nanos_per_sec) % 2 ^ 32)

unfoldable pub read_ntp_timestamp : List ℕ → Duration
read_ntp_timestamp buf = record {
  secs = from_be (take 4 buf) - ntp_unix_epoch_delta_secs;
  subsec_nanos = from_be (take 4 (drop 4 buf)) * nanos_per_sec / 2 ^ 32;
}

-- An `i64`: a number of milliseconds, ahead or behind.
pub data Offset : Type 0 where
  ahead : (millis : ℕ) → Offset
  behind : (millis : ℕ) → Offset

-- The difference of two sums, halved towards zero: `((t2 - t1) + (t3 - t4)) / 2`.
unfoldable pub clock_offset : ℕ → ℕ → ℕ → ℕ → Offset
clock_offset t1 t2 t3 t4 =
    if leb (t1 + t4) (t2 + t3)
    then ahead ((t2 + t3 - (t1 + t4)) / 2)
    else behind ((t1 + t4 - (t2 + t3)) / 2)

-- `query_offset_millis` after the reply has come: `none` where it is short.
unfoldable pub offset_of_reply : Duration → Duration → List ℕ → Option Offset
unfolding as_millis read_ntp_timestamp clock_offset
offset_of_reply t1 t4 reply =
    if ltb (length reply) 48
    then none
    else some (
        clock_offset (as_millis t1) (as_millis (read_ntp_timestamp (take 8 (drop 32 reply))))
          (as_millis (read_ntp_timestamp (take 8 (drop 40 reply)))) (as_millis t4))

unfoldable pub zeros : ℕ → List ℕ
zeros zero = []
zeros (suc n) = 0 ∷ zeros n

-- The packet that is sent.
unfoldable pub request_packet : Duration → List ℕ
unfolding write_ntp_timestamp zeros
request_packet t1 = 0b00100011 ∷ (zeros 39 ++ write_ntp_timestamp t1)

pub record NtpTimeSource : Type 0 where
  pub offset_millis : Offset
  pub synced : Bool

-- `sync_once`, over what each server answers.
unfoldable pub sync_once : NtpTimeSource → List (Option Offset) → NtpTimeSource
sync_once source [] = source
sync_once source (none ∷ servers) = sync_once source servers
sync_once source (some offset ∷ servers) = record { offset_millis = offset; synced = true }

-- `now_millis`, at a local time.
unfoldable pub now_millis : NtpTimeSource → ℕ → ℕ
now_millis source local = elim source.offset_millis [
  | ahead millis ↦ local + millis
  | behind millis ↦ local - millis
]
