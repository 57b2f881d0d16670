-- ===== src/Store/Ownership.antt =====
-- Who may change a name's records, and who wins it: crates/binda-core/src/store.rs.
use binda.Prelude.{
  ◌≡◌, ◌≢◌, ◌↔◌, inl, inr, true, ◌&&◌, none, some, List, [], arith, if◌then◌else◌, Option-cases,
  ◌==◌, nat_eq, list_eq, list_eq_iff, ==_refl,
}
use mathlib.Core.Option
use binda.Prelude.Map.{lookup, lookup-update, lookup-insert}
use binda.Text.{Text}
use binda.Token.{RegistrationToken, IsToken, token_eq, token_beq_iff}
use binda.Collision.{negotiate_locally}
use binda.Collision.Fair.{negotiate_locally_comm}
use binda.Domain.{DomainName}
use binda.Zone.{Record}
use binda.Client.{ClientIdentity, key}
use binda.Store.{Registration, RegistryStore, find}
use binda.Store.Register.{set_records, resolve_collision}

-- The client holds the name.
abbrev pub Holds : RegistryStore → DomainName → ClientIdentity → Type 0
Holds s d c = (reg : Registration) × (find s d ≡ some reg) × (reg.client_key ≡ key c)

module _ (s : RegistryStore) (d : DomainName) (c : ClientIdentity) (rs : List Record) where
  set_records-true_sound : (set_records s d c rs).1 ≡ true → Holds s d c
  unfolding set_records find
  set_records-true_sound h = elim (Option-cases (lookup d s.registrations)) [
    | inl e ↦ absurd (ground (arith, e))
    | inr (reg, e) ↦ (reg, e, ground (arith, e, list_eq_iff reg.client_key (key c)))
  ]

  set_records-true_complete : Holds s d c → (set_records s d c rs).1 ≡ true
  unfolding set_records find
  set_records-true_complete (reg, e, k) = ground (arith, list_eq_iff reg.client_key (key c))

  -- Records are accepted exactly from the holder of the name.
  pub set_records-true_iff : ((set_records s d c rs).1 ≡ true) ↔ Holds s d c
  set_records-true_iff = (set_records-true_sound, set_records-true_complete)

  -- An accepted call replaces the records of that name and of no other, and nothing else of the
  -- registration; a refused one changes nothing.
  pub set_records-effect :
      (e : DomainName)
      → find (set_records s d c rs).0 e ≡ (
          if (set_records s d c rs).1 && d == e
          then Option.map {A = Registration} (λ g. record g { records = rs }) (find s e)
          else find s e)
  unfolding set_records find
  set_records-effect e =
      ground (arith, lookup-update d e (λ g. record g { records = rs }) s.registrations)

-- The registration of a claim.
abbrev claimed : Text × Text × RegistrationToken → Registration
claimed a = record { client_key = a.0; quota_key = a.1; token = a.2; records = []; rumor = none }

abbrev winner :
    Text × Text × RegistrationToken
    → Text × Text × RegistrationToken
    → Text × Text × RegistrationToken
winner a b = if negotiate_locally a.2 b.2 == a.2 then a else b

find-resolve_collision :
    (s : RegistryStore) (d e : DomainName) (a b : Text × Text × RegistrationToken)
    → find (resolve_collision s d a b) e
      ≡ (if d == e then some (claimed (winner a b)) else find s e)
unfolding resolve_collision find
find-resolve_collision s d e a b = lookup-insert d e (claimed (winner a b)) s.registrations

winner_comm :
    (a b : Text × Text × RegistrationToken)
    → IsToken a.2
    → IsToken b.2
    → a.2 ≢ b.2
    → winner a b ≡ winner b a
winner_comm a b ha hb n = ground (
  arith,
  (negotiate_locally_comm a.2 b.2 ha hb).0,
  (negotiate_locally_comm a.2 b.2 ha hb).1,
  token_beq_iff (negotiate_locally a.2 b.2) a.2,
  token_beq_iff (negotiate_locally b.2 a.2) b.2,
)

-- Two nodes that settle a collision of two different valid claims, each naming the claims in its own
-- order, give the name to the same claim; every other name stays as it was.
resolve_collision_comm :
    (s t : RegistryStore) (d e : DomainName) (a b : Text × Text × RegistrationToken)
    → IsToken a.2
    → IsToken b.2
    → a.2 ≢ b.2
    → find (resolve_collision s d a b) e
      ≡ (if d == e then find (resolve_collision t d b a) d else find s e)
resolve_collision_comm s t d e a b ha hb n = ground (
  arith,
  find-resolve_collision s d e a b,
  find-resolve_collision t d d b a,
  ==_refl d,
  winner_comm a b ha hb n,
)
