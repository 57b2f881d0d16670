-- ===== src/Peers.antt =====
-- The address book: crates/binda/src/peers.rs. An address is of any type with an equality.
mod Tests
use binda.Prelude.{
  ℕ, zero, suc, ◌+◌, ◌-◌, ◌*◌, ◌/◌, ◌%◌, ◌^◌, ◌≤◌, ◌<◌, compare, Ordering, ◌≡◌, refl, sym, ap, ◌∙◌,
  ◌≢◌, ◌↔◌, ◌⊎◌, inl, inr, Bool, true, false, ◌&&◌, ◌||◌, not, Option, none, some, List, [], ◌∷◌,
  ◌++◌, map, arith, ltb, leb, if◌then◌else◌, Bool-cases, Option-cases, length, Eq, ◌==◌, nat_eq,
  list_eq, list_eq_iff, ==_refl, length-append,
}

module _ {K : Type 0} ⦃e : Eq K⦄ where
  -- `PeerBook::new`
  unfoldable pub new : List K → List K
  new initial = initial

  -- `contains`
  unfoldable pub known : List K → K → Bool
  known [] addr = false
  known (p ∷ ps) addr = p == addr || known ps addr

  unfoldable pub learn : List K → K → List K
  unfolding known
  learn peers addr = if not (known peers addr) then peers ++ (addr ∷ []) else peers

  unfoldable pub snapshot : List K → List K
  snapshot peers = peers

  -- `choose`: the index that the generator draws is an argument.
  unfoldable pub random_peer : List K → ℕ → Option K
  random_peer [] i = none
  random_peer (p ∷ ps) zero = some p
  random_peer (p ∷ ps) (suc i) = random_peer ps i

  -- No address is in the book twice.
  abbrev pub NoTwice : List K → Type 0
  NoTwice [] = Unit
  NoTwice (p ∷ ps) = (known ps p ≡ false) × NoTwice ps

  known-append_one :
      (ps : List K) (addr a : K) → known (ps ++ (addr ∷ [])) a ≡ (known ps a || addr == a)
  unfolding known
  known-append_one [] addr a = ground arith
  known-append_one (p ∷ ps) addr a = ground (arith, known-append_one ps addr a)

  NoTwice-append_one :
      (ps : List K) (addr : K) → known ps addr ≡ false → NoTwice ps → NoTwice (ps ++ (addr ∷ []))
  unfolding known
  NoTwice-append_one [] addr h n = (refl, tt)
  NoTwice-append_one (p ∷ ps) addr h n = ground (
    arith,
    known-append_one ps addr p,
    NoTwice-append_one ps addr,
    e.beq_iff p addr,
    e.beq_iff addr p,
    n,
  )

  -- After learning an address the book holds it and what it held before, nothing else, and still no
  -- address twice.
  pub learn_lem :
      (peers : List K) (addr : K)
      → NoTwice peers
      → NoTwice (learn peers addr)
        × ((a : K) → known (learn peers addr) a ≡ (known peers a || addr == a))
  unfolding learn
  learn_lem peers addr n = elim (Bool-cases (known peers addr)) [
    | inl q ↦ (rw (q) n, λ a. ground (arith, q, e.beq_iff addr a))
    | inr q ↦ (
      rw (q) (NoTwice-append_one peers addr q n),
      λ a. ground (arith, q, known-append_one peers addr a),
    )
  ]
