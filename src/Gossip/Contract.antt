-- ===== src/Gossip/Contract.antt =====
-- What the structural checks of gossip messages promise: crates/binda-core/src/gossip.rs.
use binda.Prelude.{
  ◌≡◌, refl, sym, ◌↔◌, ◌⊎◌, inl, inr, true, false, List, [], ◌∷◌, arith, Bool-cases, ◌==◌, nat_eq,
  list_eq, list_eq_iff,
}
use binda.Domain.{DomainName}
use binda.Gossip.{
  RegistrationRumor, rumor_domains, contains, unique_from, unique_domains, all_requested,
  is_valid_rumor_response,
}

-- The name stands in the list.
abbrev pub In : DomainName → List DomainName → Type 0
In d [] = ⊥
In d (e ∷ es) = (e ≡ d) ⊎ In d es

abbrev pub NoRepeat : List DomainName → Type 0
NoRepeat [] = Unit
NoRepeat (d ∷ ds) = (¬ In d ds) × NoRepeat ds

abbrev pub AllIn : List DomainName → List DomainName → Type 0
AllIn [] req = Unit
AllIn (d ∷ ds) req = In d req × AllIn ds req

-- No name of the second list stands in the first.
abbrev Fresh : List DomainName → List DomainName → Type 0
Fresh seen [] = Unit
Fresh seen (d ∷ ds) = (contains seen d ≡ false) × Fresh seen ds

pub contains-In : (es : List DomainName) (d : DomainName) → contains es d ≡ true → In d es
unfolding contains
contains-In [] d h = cc
contains-In (e ∷ es) d h = ground (arith, contains-In es d, list_eq_iff e d)

pub In-contains : (es : List DomainName) (d : DomainName) → In d es → contains es d ≡ true
unfolding contains
In-contains [] d h = absurd h
In-contains (e ∷ es) d (inl h) = ground (arith, list_eq_iff e d)
In-contains (e ∷ es) d (inr h) = ground (arith, In-contains es d h)

Fresh-cons :
    (seen : List DomainName) (d : DomainName) (ds : List DomainName)
    → Fresh (d ∷ seen) ds
    → Fresh seen ds × (¬ In d ds)
unfolding contains
Fresh-cons seen d [] h = (tt, λ p. p)
Fresh-cons seen d (e ∷ ds) h =
    let (f, n) = Fresh-cons seen d ds h.1 in
    ((ground arith, f), λ p. elim p [ inl q ↦ ground (arith, list_eq_iff d e) | inr q ↦ n q ])

unique_from_sound :
    (seen ds : List DomainName) → unique_from seen ds ≡ true → Fresh seen ds × NoRepeat ds
unfolding unique_from
unique_from_sound seen [] h = (tt, tt)
unique_from_sound seen (d ∷ ds) h =
    let (f, n) = unique_from_sound (d ∷ seen) ds (ground arith) in
    let (f', m) = Fresh-cons seen d ds f in ((ground arith, f'), (m, n))

Fresh-of :
    (seen : List DomainName) (d : DomainName) (ds : List DomainName)
    → Fresh seen ds
    → (¬ In d ds)
    → Fresh (d ∷ seen) ds
unfolding contains
Fresh-of seen d [] f n = tt
Fresh-of seen d (e ∷ ds) f n = (
  elim (Bool-cases (d == e)) [
    | inl p ↦ absurd (n (inl (sym ((list_eq_iff d e).0 p))))
    | inr p ↦ ground arith
  ],
  Fresh-of seen d ds f.1 (λ p. n (inr p)),
)

unique_from_complete :
    (seen ds : List DomainName) → Fresh seen ds → NoRepeat ds → unique_from seen ds ≡ true
unfolding unique_from
unique_from_complete seen [] f n = refl
unique_from_complete seen (d ∷ ds) f n =
    ground (arith, unique_from_complete (d ∷ seen) ds (Fresh-of seen d ds f.1 n.0) n.1)

Fresh-nil : (ds : List DomainName) → Fresh [] ds
unfolding contains
Fresh-nil [] = tt
Fresh-nil (d ∷ ds) = (refl, Fresh-nil ds)

-- The set-based test holds exactly of the lists with no repetition.
pub unique_domains_iff : (ds : List DomainName) → (unique_domains ds ≡ true) ↔ NoRepeat ds
unfolding unique_domains
unique_domains_iff ds =
    (λ h. (unique_from_sound [] ds h).1, λ h. unique_from_complete [] ds (Fresh-nil ds) h)

all_requested_iff : (req ds : List DomainName) → (all_requested req ds ≡ true) ↔ AllIn ds req
unfolding all_requested
all_requested_iff req [] = (λ _. tt, λ _. refl)
all_requested_iff req (d ∷ ds) = (
  λ h. (contains-In req d (ground arith), (all_requested_iff req ds).0 (ground arith)),
  λ h. ground (arith, In-contains req d h.0, (all_requested_iff req ds).1 h.1),
)

-- A response is accepted exactly if every name in it was requested and none stands twice.
pub is_valid_rumor_response_iff :
    (req : List DomainName) (rs : List RegistrationRumor)
    → (is_valid_rumor_response req rs ≡ true)
      ↔ (AllIn (rumor_domains rs) req × NoRepeat (rumor_domains rs))
unfolding is_valid_rumor_response
is_valid_rumor_response_iff req rs =
    let ds = rumor_domains rs in
    (
      λ h. ((all_requested_iff req ds).0 (ground arith), (unique_domains_iff ds).0 (ground arith)),
      λ h. ground (arith, (all_requested_iff req ds).1 h.0, (unique_domains_iff ds).1 h.1),
    )
