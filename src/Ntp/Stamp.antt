-- ===== src/Ntp/Stamp.antt =====
-- Timestamps, and the clock that is corrected: crates/binda-core/src/ntp.rs.
use binda.Prelude.{
  ℕ, ◌+◌, ◌*◌, ◌/◌, ◌%◌, ◌^◌, ◌≤◌, ◌<◌, ◌≡◌, refl, ap, ◌∙◌, ◌⊎◌, inl, inr, Bool, true, Option, none,
  some, List, [], ◌∷◌, ◌++◌, arith, nat_eq, list_eq,
}
use binda.Prelude.Bytes.{be, be_onto, from_be, from_be-be}
use binda.Prelude.{take, drop}
use binda.Ntp.{
  ntp_unix_epoch_delta_secs, nanos_per_sec, Duration, write_ntp_timestamp, read_ntp_timestamp,
  Offset, clock_offset, NtpTimeSource, sync_once, now_millis,
}

take-be4 : (n : ℕ) (rest : List ℕ) → take 4 (be 4 n ++ rest) ≡ be 4 n
unfolding be_onto
take-be4 n rest = refl

drop-be4 : (n : ℕ) (rest : List ℕ) → drop 4 (be 4 n ++ rest) ≡ rest
unfolding be_onto
drop-be4 n rest = refl

take-be4_all : (n : ℕ) → take 4 (be 4 n) ≡ be 4 n
unfolding be_onto
take-be4_all n = refl

fraction-le : (n : ℕ) → n * 2 ^ 32 / nanos_per_sec * nanos_per_sec / 2 ^ 32 ≤ n
fraction-le n = omega arith

fraction-ge : (n : ℕ) → n ≤ n * 2 ^ 32 / nanos_per_sec * nanos_per_sec / 2 ^ 32 + 1
fraction-ge n = omega arith

-- A timestamp of before 2036 reads back with its seconds exact and at most one nanosecond less.
pub read_ntp_timestamp-write :
    (d : Duration)
    → d.subsec_nanos < nanos_per_sec
    → d.secs + ntp_unix_epoch_delta_secs < 2 ^ 32
    → ((read_ntp_timestamp (write_ntp_timestamp d)).secs ≡ d.secs)
      × ((read_ntp_timestamp (write_ntp_timestamp d)).subsec_nanos ≤ d.subsec_nanos)
      × (d.subsec_nanos ≤ (read_ntp_timestamp (write_ntp_timestamp d)).subsec_nanos + 1)
unfolding read_ntp_timestamp write_ntp_timestamp
read_ntp_timestamp-write d n h =
    let s = (d.secs + ntp_unix_epoch_delta_secs) % 2 ^ 32 in
    let f = d.subsec_nanos * 2 ^ 32 / nanos_per_sec in
    let small : f % 2 ^ 32 ≡ f = omega arith in
    let secs : from_be (take 4 (be 4 s ++ be 4 (f % 2 ^ 32))) ≡ s =
      ap from_be (take-be4 s (be 4 (f % 2 ^ 32))) ∙ from_be-be 4 s (omega arith) in
    let frac : from_be (take 4 (drop 4 (be 4 s ++ be 4 (f % 2 ^ 32)))) ≡ f =
      ap (λ z. from_be (take 4 z)) (drop-be4 s (be 4 (f % 2 ^ 32)))
      ∙ ap from_be (take-be4_all (f % 2 ^ 32))
      ∙ from_be-be 4 (f % 2 ^ 32) (omega arith)
      ∙ small in
    (
      rw (secs) (omega arith),
      rw (frac) (fraction-le d.subsec_nanos),
      rw (frac) (fraction-ge d.subsec_nanos),
    )

-- From the moment in 2036 at which the seconds overflow 32 bits, and for some 70 years, a timestamp
-- reads back with 0 seconds since the Unix epoch.
pub read_ntp_timestamp_wraps :
    (d : Duration)
    → 2 ^ 32 ≤ d.secs + ntp_unix_epoch_delta_secs
    → d.secs + ntp_unix_epoch_delta_secs < 2 ^ 32 + ntp_unix_epoch_delta_secs
    → (read_ntp_timestamp (write_ntp_timestamp d)).secs ≡ 0
unfolding read_ntp_timestamp write_ntp_timestamp
read_ntp_timestamp_wraps d h k =
    let s = (d.secs + ntp_unix_epoch_delta_secs) % 2 ^ 32 in
    let f = (d.subsec_nanos * 2 ^ 32 / nanos_per_sec) % 2 ^ 32 in
    let secs : from_be (take 4 (be 4 s ++ be 4 f)) ≡ s =
      ap from_be (take-be4 s (be 4 f)) ∙ from_be-be 4 s (omega arith) in
    rw (secs) (omega arith)

-- Where the request and the reply take equally long on the way, the measured offset is exact: the
-- corrected clock then shows the server's time. `local` is the server's time on the local clock.
pub now_millis-clock_offset :
    (t1 delay work error : ℕ) (synced : Bool) (local : ℕ)
    → (now_millis
          (record {
            offset_millis =
                clock_offset t1
                  (t1 + delay + error)
                  (t1 + delay + work + error)
                  (t1 + delay + work + delay);
            synced = synced;
          })
          local
        ≡ local + error)
      × (now_millis
            (record {
              offset_millis =
                  clock_offset
                    (t1 + error)
                    (t1 + delay)
                    (t1 + delay + work)
                    (t1 + error + delay + work + delay);
              synced = synced;
            })
            (local + error)
          ≡ local)
unfolding now_millis clock_offset
now_millis-clock_offset t1 delay work error synced local = (ground arith, ground arith)

-- `source` after a pass: the first server that answers sets the offset.
abbrev pub FirstAnswer : List (Option Offset) → Offset → Type 0
FirstAnswer [] o = ⊥
FirstAnswer (none ∷ servers) o = FirstAnswer servers o
FirstAnswer (some offset ∷ servers) o = offset ≡ o

abbrev pub NoAnswer : List (Option Offset) → Type 0
NoAnswer [] = Unit
NoAnswer (none ∷ servers) = NoAnswer servers
NoAnswer (some offset ∷ servers) = ⊥

-- A pass takes the offset of the first server that answers, and where none does it changes nothing.
pub sync_once_lem :
    (source : NtpTimeSource) (servers : List (Option Offset))
    → (NoAnswer servers × (sync_once source servers ≡ source))
      ⊎ ((o : Offset) × FirstAnswer servers o
          × (sync_once source servers ≡ record { offset_millis = o; synced = true }))
unfolding sync_once
sync_once_lem source [] = inl (tt, refl)
sync_once_lem source (none ∷ servers) = sync_once_lem source servers
sync_once_lem source (some offset ∷ servers) = inr (offset, refl, refl)
