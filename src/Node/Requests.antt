-- ===== src/Node/Requests.antt =====
-- What a node asks for, what it answers and what it accepts: crates/binda/src/node.rs.
use binda.Prelude.{
  ◌≡◌, refl, sym, ap, ◌∙◌, ◌↔◌, ◌⊎◌, inl, inr, true, Option, none, some, List, [], ◌∷◌, ◌++◌, arith,
  Bool-cases, Option-cases, ◌==◌, nat_eq, list_eq, subst,
}
use binda.Domain.{DomainName}
use binda.Token.{RegistrationToken, token_eq, token_beq_iff}
use binda.Gossip.{RegistrationRumor, expected_answer, DigestEntry, digest_domains, rumor_domains}
use binda.Store.{Registration, RegistryStore, find}
use binda.Gossip.Contract.{In, NoRepeat, AllIn, is_valid_rumor_response_iff}
use binda.Node.{PendingChallenge, missing, is_missing, renamed, rumors_for, is_accepted}

-- The rumors answer a pending challenge: one is pending, the answer is the expected one, every rumor
-- is of a domain that was asked for and no two are of the same domain.
abbrev pub Answers : Option PendingChallenge → List RegistrationRumor → RegistrationToken → Type 0
Answers found rs answer =
    (p : PendingChallenge) × (found ≡ some p)
    × (answer ≡ expected_answer p.challenge)
    × AllIn (rumor_domains rs) p.requested
    × NoRepeat (rumor_domains rs)

-- Rumors are accepted exactly if a challenge is pending, the answer is the expected one, every
-- rumor is of a domain that was asked for and no two are of the same domain.
pub is_accepted_iff :
    (found : Option PendingChallenge) (rs : List RegistrationRumor) (answer : RegistrationToken)
    → (is_accepted found rs answer ≡ true) ↔ Answers found rs answer
unfolding is_accepted
is_accepted_iff none rs answer =
    (λ h. absurd (ground (arith, h)), λ h. absurd (ground (arith, h.1)))
is_accepted_iff (some p) rs answer =
    let right = token_beq_iff answer (expected_answer p.challenge) in
    let valid = is_valid_rumor_response_iff p.requested rs in
    elim (Bool-cases (answer == expected_answer p.challenge)) [
      | inl q ↦ (
        λ h. let (all, once) = valid.0 (ground (arith, q, h)) in (p, refl, right.0 q, all, once),
        λ h.
            let same : p ≡ h.0 = ground (arith, h.1) in
            ground (
              arith,
              q,
              valid.1 (subst (λ r. AllIn (rumor_domains rs) r.requested) (sym same) h.3, h.4),
            ),
      )
      | inr q ↦ (
        λ h. absurd (ground (arith, q, h)),
        λ h.
            let same : p ≡ h.0 = ground (arith, h.1) in
            absurd
              (ground (arith, q, right.1 (h.2 ∙ ap (λ r. expected_answer r.challenge) (sym same)))),
      )
    ]

-- A registration gives one rumor, of the name that was asked for, or none.
renamed-cases :
    (d : DomainName) (found : Option Registration)
    → (renamed d found ≡ [])
      ⊎ ((r : RegistrationRumor) × (renamed d found ≡ r ∷ []) × (r.domain ≡ d))
renamed-cases d none = inl refl
renamed-cases d (some reg) = elim (Option-cases reg.rumor) [
  | inl q ↦ inl (rw (q) refl)
  | inr (r, q) ↦ inr (record r { domain = d }, rw (q) refl, refl)
]

-- The rumors are of names that were asked for.
rumors_for-In :
    (d : DomainName) (ds : List DomainName) (s : RegistryStore)
    → In d (rumor_domains (rumors_for s ds))
    → In d ds
unfolding rumors_for
rumors_for-In d [] s h = absurd h
rumors_for-In d (c ∷ ds) s h = elim (renamed-cases c (find s c)) [
  | inl q ↦
      let h' : In d (rumor_domains (renamed c (find s c) ++ rumors_for s ds)) = h in
      inr (rumors_for-In d ds s (subst (λ l. In d (rumor_domains (l ++ rumors_for s ds))) q h'))
  | inr (r, q, e) ↦
      let h' : In d (rumor_domains (renamed c (find s c) ++ rumors_for s ds)) = h in
      elim (subst (λ l. In d (rumor_domains (l ++ rumors_for s ds))) q h') [
        | inl p ↦ inl (sym e ∙ p)
        | inr p ↦ inr (rumors_for-In d ds s p)
      ]
]

AllIn-map :
    (xs ys zs : List DomainName)
    → ((d : DomainName) → In d ys → In d zs)
    → AllIn xs ys
    → AllIn xs zs
AllIn-map [] ys zs f h = tt
AllIn-map (x ∷ xs) ys zs f h = (f x h.0, AllIn-map xs ys zs f h.1)

-- To a request with no repeats the answer is a valid response.
pub rumors_for-valid :
    (s : RegistryStore) (ds : List DomainName)
    → NoRepeat ds
    → AllIn (rumor_domains (rumors_for s ds)) ds × NoRepeat (rumor_domains (rumors_for s ds))
unfolding rumors_for
rumors_for-valid s [] n = (tt, tt)
rumors_for-valid s (d ∷ ds) n =
    let (all, once) = rumors_for-valid s ds n.1 in
    let weaker = AllIn-map (rumor_domains (rumors_for s ds)) ds (d ∷ ds) (λ c p. inr p) all in
    elim (renamed-cases d (find s d)) [
      | inl q ↦ rw (q) (weaker, once)
      | inr (r, q, e) ↦ rw (q) (
        (inl (sym e), weaker),
        (
          λ p. n.0 (rumors_for-In d ds s (subst (λ c. In c (rumor_domains (rumors_for s ds))) e p)),
          once,
        ),
      )
    ]

missing-In :
    (d : DomainName) (s : RegistryStore) (entries : List DigestEntry)
    → In d (missing s entries)
    → In d (digest_domains entries)
unfolding missing
missing-In d s [] h = absurd h
missing-In d s (entry ∷ entries) h = elim (Bool-cases (is_missing entry (find s entry.domain))) [
  | inl q ↦ ground (arith, q, h, missing-In d s entries)
  | inr q ↦ ground (arith, q, h, missing-In d s entries)
]

pub missing-NoRepeat :
    (s : RegistryStore) (entries : List DigestEntry)
    → NoRepeat (digest_domains entries)
    → NoRepeat (missing s entries)
unfolding missing
missing-NoRepeat s [] n = tt
missing-NoRepeat s (entry ∷ entries) n =
    let later = missing-NoRepeat s entries n.1 in
    elim (Bool-cases (is_missing entry (find s entry.domain))) [
      | inl q ↦ rw (q) ((λ p. n.0 (missing-In entry.domain s entries p)), later)
      | inr q ↦ rw (q) later
    ]

-- The digest lists the name, with a time at which the store misses it.
abbrev pub Misses : RegistryStore → List DigestEntry → DomainName → Type 0
Misses s [] d = ⊥
Misses s (entry ∷ entries) d =
    ((entry.domain ≡ d) × (is_missing entry (find s d) ≡ true)) ⊎ Misses s entries d

missing_sound :
    (s : RegistryStore) (entries : List DigestEntry) (d : DomainName)
    → In d (missing s entries)
    → Misses s entries d
unfolding missing
missing_sound s [] d h = absurd h
missing_sound s (entry ∷ entries) d h = elim (Bool-cases (is_missing entry (find s entry.domain))) [
  | inr q ↦ inr (missing_sound s entries d (ground (arith, q, h)))
  | inl q ↦
      let asked : (entry.domain ≡ d) ⊎ In d (missing s entries) = ground (arith, q, h) in
      elim asked [
        | inl same ↦ inl (same, subst (λ c. is_missing entry (find s c) ≡ true) same q)
        | inr p ↦ inr (missing_sound s entries d p)
      ]
]

missing_complete :
    (s : RegistryStore) (entries : List DigestEntry) (d : DomainName)
    → Misses s entries d
    → In d (missing s entries)
unfolding missing
missing_complete s [] d h = absurd h
missing_complete s (entry ∷ entries) d (inl (same, q)) =
    let here : is_missing entry (find s entry.domain) ≡ true =
      subst (λ c. is_missing entry (find s c) ≡ true) (sym same) q in
    rw (here) (inl same)
missing_complete s (entry ∷ entries) d (inr h) =
    elim (Bool-cases (is_missing entry (find s entry.domain))) [
      | inl q ↦ rw (q) (inr (missing_complete s entries d h))
      | inr q ↦ rw (q) (missing_complete s entries d h)
    ]

-- A node asks for a name exactly if the digest lists it and the node has no registration of it, or
-- one whose token is older than the listed time.
pub missing_iff :
    (s : RegistryStore) (entries : List DigestEntry) (d : DomainName)
    → In d (missing s entries) ↔ Misses s entries d
missing_iff s entries d = (missing_sound s entries d, missing_complete s entries d)
