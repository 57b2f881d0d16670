-- ===== src/Ntp/Rounds.antt =====
-- The clock over its rounds of synchronisation: crates/binda-core/src/ntp.rs, `spawn`. A round is what
-- each server answers in it; the thread that sleeps between rounds is left out.
use binda.Prelude.{
  ℕ, ◌≡◌, refl, ap, ◌∙◌, ◌⊎◌, inl, inr, Bool, true, false, Option, none, some, List, [], ◌∷◌, arith,
  Option-cases, nat_eq, list_eq,
}
use binda.Text.{Text, codes}
use binda.Ntp.{
  Duration, Offset, ahead, NtpTimeSource, sync_once, now_millis, request_packet, offset_of_reply,
}

unfoldable pub default_ntp_servers : List Text
default_ntp_servers =
    codes "pool.ntp.org:123" ∷ codes "time.cloudflare.com:123" ∷ codes "time.google.com:123" ∷ []

-- `query_offset_millis`: the request goes out at `t1`, and the reply, if there is one, comes at `t4`.
unfoldable pub query_offset_millis :
    (List ℕ → Option (List ℕ)) → Duration → Duration → Option Offset
unfolding request_packet offset_of_reply
query_offset_millis exchange t1 t4 = elim (exchange (request_packet t1)) [
  | none ↦ none
  | some reply ↦ offset_of_reply t1 t4 reply
]

unfoldable pub is_synced : NtpTimeSource → Bool
is_synced source = source.synced

-- The rounds of the background thread.
unfoldable pub sync_rounds : NtpTimeSource → List (List (Option Offset)) → NtpTimeSource
unfolding sync_once
sync_rounds source [] = source
sync_rounds source (round ∷ rounds) = sync_rounds (sync_once source round) rounds

-- `spawn`: a first round, then those of the background thread.
unfoldable pub spawn : List (Option Offset) → List (List (Option Offset)) → NtpTimeSource
unfolding sync_rounds
spawn first rounds =
    sync_rounds (sync_once (record { offset_millis = ahead 0; synced = false }) first) rounds

-- The first answer of a round.
abbrev pub answer_of : List (Option Offset) → Option Offset
answer_of [] = none
answer_of (none ∷ servers) = answer_of servers
answer_of (some offset ∷ servers) = some offset

abbrev pub or_else {ℓ} : {A : Type ℓ} → Option A → Option A → Option A
or_else none later = later
or_else (some a) later = some a

-- The answer of the last round that had one.
abbrev pub last_answer : List (List (Option Offset)) → Option Offset
last_answer [] = none
last_answer (round ∷ rounds) = or_else (last_answer rounds) (answer_of round)

-- What the clock goes by: an answer, or what it went by before.
abbrev pub follow : NtpTimeSource → Option Offset → NtpTimeSource
follow source none = source
follow source (some offset) = record { offset_millis = offset; synced = true }

sync_once-follow :
    (source : NtpTimeSource) (round : List (Option Offset))
    → sync_once source round ≡ follow source (answer_of round)
unfolding sync_once
sync_once-follow source [] = refl
sync_once-follow source (none ∷ servers) = sync_once-follow source servers
sync_once-follow source (some offset ∷ servers) = refl

follow-follow :
    (source : NtpTimeSource) (a b : Option Offset)
    → follow (follow source a) b ≡ follow source (or_else b a)
follow-follow source a none = refl
follow-follow source a (some offset) = refl

sync_rounds-follow :
    (source : NtpTimeSource) (rounds : List (List (Option Offset)))
    → sync_rounds source rounds ≡ follow source (last_answer rounds)
unfolding sync_rounds
sync_rounds-follow source [] = refl
sync_rounds-follow source (round ∷ rounds) =
    sync_rounds-follow (sync_once source round) rounds
    ∙ ap (λ s. follow s (last_answer rounds)) (sync_once-follow source round)
    ∙ follow-follow source (answer_of round) (last_answer rounds)

-- After any rounds the clock goes by the answer of the last round in which a server answered, and is
-- then synced for good, however many rounds fail; if none ever answered it is not synced and reads
-- the local time.
pub spawn_lem :
    (first : List (Option Offset)) (rounds : List (List (Option Offset)))
    → ((last_answer (first ∷ rounds) ≡ none)
        × (is_synced (spawn first rounds) ≡ false)
        × ((local : ℕ) → now_millis (spawn first rounds) local ≡ local))
      ⊎ ((offset : Offset) × (last_answer (first ∷ rounds) ≡ some offset)
          × (is_synced (spawn first rounds) ≡ true)
          × ((spawn first rounds).offset_millis ≡ offset))
unfolding spawn is_synced now_millis
spawn_lem first rounds =
    let start : NtpTimeSource = record { offset_millis = ahead 0; synced = false } in
    let goes : spawn first rounds ≡ follow start (last_answer (first ∷ rounds)) =
      sync_rounds-follow start (first ∷ rounds) in
    elim (Option-cases (last_answer (first ∷ rounds))) [
      | inl q ↦
          let same = goes ∙ ap (follow start) q in
          inl (q, ap is_synced same, λ local. ap (λ s. now_millis s local) same ∙ omega arith)
      | inr (offset, q) ↦
          let same = goes ∙ ap (follow start) q in
          inr (offset, q, ap is_synced same, ap (λ s. s.offset_millis) same)
    ]
