-- ===== src/Fcrdns/Addresses.antt =====
-- Which addresses a forward lookup gives: crates/binda-core/src/fcrdns.rs.
use binda.Prelude.{
  ℕ, ◌≡◌, sym, ap, ◌∙◌, ◌≢◌, ◌↔◌, ◌⊎◌, inl, inr, Option, none, some, List, [], ◌∷◌, ◌++◌, arith,
  Bool-cases, Option-cases, length, ◌==◌, nat_eq, list_eq,
}
use binda.Text.{Text}
use binda.Fcrdns.{IpAddr, v4, v6}
use binda.Fcrdns.Lookup.{Ask, forward_lookup, addresses, answers_or_none, parse_address}

-- One of the answers has the type and the bytes.
abbrev pub Listed : ℕ → List ℕ → List (ℕ × List ℕ) → Type 0
Listed qtype octets [] = ⊥
Listed qtype octets ((rtype, bytes) ∷ answers) =
    ((rtype ≡ qtype) × (bytes ≡ octets)) ⊎ Listed qtype octets answers

abbrev pub ListedIn : ℕ → List ℕ → Option (List (ℕ × List ℕ)) → Type 0
ListedIn qtype octets none = ⊥
ListedIn qtype octets (some answers) = Listed qtype octets answers

-- The name's addresses have the address: an answer to the query for type 1, A, has its four octets,
-- or one to the query for type 28, AAAA, its sixteen.
abbrev pub Gives : Ask → Text → IpAddr → Type 0
Gives ask hostname (v4 octets) = (length octets ≡ 4) × ListedIn 1 octets (ask hostname 1)
Gives ask hostname (v6 octets) = (length octets ≡ 16) × ListedIn 28 octets (ask hostname 28)

abbrev pub Among : IpAddr → List IpAddr → Type 0
Among ip [] = ⊥
Among ip (i ∷ is) = (i ≡ ip) ⊎ Among ip is

Among-append :
    (ip : IpAddr) (is js : List IpAddr) → Among ip (is ++ js) ↔ (Among ip is ⊎ Among ip js)
Among-append ip [] js = (λ h. inr h, λ h. elim h [ inl h' ↦ absurd h' | inr h' ↦ h' ])
Among-append ip (i ∷ is) js =
    let rest = Among-append ip is js in
    (
      λ h. elim h [
        | inl e ↦ inl (inl e)
        | inr r ↦ elim (rest.0 r) [ inl a ↦ inl (inr a) | inr b ↦ inr b ]
      ],
      λ h. elim h [
        | inl (inl e) ↦ inl e
        | inl (inr a) ↦ inr (rest.1 (inl a))
        | inr b ↦ inr (rest.1 (inr b))
      ],
    )

-- One of the answers has the type and is read as the address.
abbrev Parses : ℕ → IpAddr → List (ℕ × List ℕ) → Type 0
Parses qtype ip [] = ⊥
Parses qtype ip ((rtype, bytes) ∷ answers) =
    ((rtype ≡ qtype) × (parse_address qtype bytes ≡ some ip)) ⊎ Parses qtype ip answers

Among-addresses_iff :
    (qtype : ℕ) (ip : IpAddr) (answers : List (ℕ × List ℕ))
    → Among ip (addresses qtype answers) ↔ Parses qtype ip answers
unfolding addresses
Among-addresses_iff qtype ip [] = (λ h. h, λ h. h)
Among-addresses_iff qtype ip ((rtype, bytes) ∷ answers) =
    let later = Among-addresses_iff qtype ip answers in
    elim (Bool-cases (rtype == qtype)) [
      | inr t ↦
          rw (addresses, t)
            (
              λ h. inr (later.0 h),
              λ h. elim h [ inl (e, _) ↦ absurd (ground (arith, t, e)) | inr r ↦ later.1 r ],
            )
      | inl t ↦ elim (Option-cases (parse_address qtype bytes)) [
        | inl p ↦
            rw (addresses, t, p)
              (
                λ h. inr (later.0 h),
                λ h. elim h [ inl (_, e) ↦ absurd (cc (e)) | inr r ↦ later.1 r ],
              )
        | inr (i, p) ↦
            rw (addresses, t, p)
              (
                λ h. elim h [
                  | inl e ↦ inl (ground (arith, t), ap some e)
                  | inr r ↦ inr (later.0 r)
                ],
                λ h. elim h [ inl (_, e) ↦ inl (cc (e)) | inr r ↦ inr (later.1 r) ],
              )
      ]
    ]

-- The four and sixteen octets of addresses of each kind.
parse_v4 :
    (bytes octets : List ℕ)
    → (parse_address 1 bytes ≡ some (v4 octets)) ↔ ((length octets ≡ 4) × (bytes ≡ octets))
unfolding parse_address
parse_v4 bytes octets = elim (Bool-cases (length bytes == 4)) [
  | inl l ↦
      rw (parse_address, l)
        (
          λ h.
              let same : bytes ≡ octets = cc (h) in
              (ap length (sym same) ∙ ground (arith, l), same),
          λ h. ap (λ b. some (v4 b)) h.1,
        )
  | inr l ↦ rw (parse_address, l) (λ h. cc (h), λ h. absurd (ground (arith, l, h.0, ap length h.1)))
]

parse_v6 :
    (bytes octets : List ℕ)
    → (parse_address 28 bytes ≡ some (v6 octets)) ↔ ((length octets ≡ 16) × (bytes ≡ octets))
unfolding parse_address
parse_v6 bytes octets = elim (Bool-cases (length bytes == 16)) [
  | inl l ↦
      rw (parse_address, l)
        (
          λ h.
              let same : bytes ≡ octets = cc (h) in
              (ap length (sym same) ∙ ground (arith, l), same),
          λ h. ap (λ b. some (v6 b)) h.1,
        )
  | inr l ↦ rw (parse_address, l) (λ h. cc (h), λ h. absurd (ground (arith, l, h.0, ap length h.1)))
]

not_v6 : (bytes octets : List ℕ) → parse_address 1 bytes ≢ some (v6 octets)
unfolding parse_address
not_v6 bytes octets = elim (Bool-cases (length bytes == 4)) [
  | inl l ↦ rw (parse_address, l) (λ h. cc (h))
  | inr l ↦ rw (parse_address, l) (λ h. cc (h))
]

not_v4 : (bytes octets : List ℕ) → parse_address 28 bytes ≢ some (v4 octets)
unfolding parse_address
not_v4 bytes octets = elim (Bool-cases (length bytes == 16)) [
  | inl l ↦ rw (parse_address, l) (λ h. cc (h))
  | inr l ↦ rw (parse_address, l) (λ h. cc (h))
]

Parses-never :
    (qtype : ℕ) (ip : IpAddr) (answers : List (ℕ × List ℕ))
    → ((bytes : List ℕ) → parse_address qtype bytes ≢ some ip)
    → ¬ Parses qtype ip answers
Parses-never qtype ip [] never h = h
Parses-never qtype ip ((rtype, bytes) ∷ answers) never (inl (_, e)) = never bytes e
Parses-never qtype ip ((rtype, bytes) ∷ answers) never (inr h) =
    Parses-never qtype ip answers never h

Parses-Listed :
    (qtype n : ℕ) (ip : IpAddr) (octets : List ℕ) (answers : List (ℕ × List ℕ))
    → ((bytes : List ℕ)
        → (parse_address qtype bytes ≡ some ip) ↔ ((length octets ≡ n) × (bytes ≡ octets)))
    → Parses qtype ip answers ↔ ((length octets ≡ n) × Listed qtype octets answers)
Parses-Listed qtype n ip octets [] read = (λ h. absurd h, λ h. h.1)
Parses-Listed qtype n ip octets ((rtype, bytes) ∷ answers) read =
    let later = Parses-Listed qtype n ip octets answers read in
    (
      λ h. elim h [
        | inl (t, e) ↦ let (l, same) = (read bytes).0 e in (l, inl (t, same))
        | inr r ↦ let (l, found) = later.0 r in (l, inr found)
      ],
      λ h. elim (h.1) [
        | inl (t, same) ↦ inl (t, (read bytes).1 (h.0, same))
        | inr r ↦ inr (later.1 (h.0, r))
      ],
    )

answers_or_none_iff :
    (qtype : ℕ) (octets : List ℕ) (answers : Option (List (ℕ × List ℕ)))
    → Listed qtype octets (answers_or_none answers) ↔ ListedIn qtype octets answers
unfolding answers_or_none
answers_or_none_iff qtype octets none = (λ h. h, λ h. h)
answers_or_none_iff qtype octets (some answers) = (λ h. h, λ h. h)

-- The forward lookup gives an address exactly if an answer of its type has its octets.
pub forward_lookup-Gives_iff :
    (ask : Ask) (hostname : Text) (ip : IpAddr)
    → Among ip (forward_lookup ask hostname) ↔ Gives ask hostname ip
unfolding forward_lookup
forward_lookup-Gives_iff ask hostname (v4 octets) =
    let four = answers_or_none (ask hostname 1) in
    let six = answers_or_none (ask hostname 28) in
    let split = Among-append (v4 octets) (addresses 1 four) (addresses 28 six) in
    let parses = Among-addresses_iff 1 (v4 octets) four in
    let listed = Parses-Listed 1 4 (v4 octets) octets four (λ b. parse_v4 b octets) in
    let at = answers_or_none_iff 1 octets (ask hostname 1) in
    (
      λ h. elim (split.0 h) [
        | inl a ↦ let (l, found) = listed.0 (parses.0 a) in (l, at.0 found)
        | inr b ↦ absurd (
            Parses-never 28 (v4 octets) six (λ c. not_v4 c octets)
              ((Among-addresses_iff 28 (v4 octets) six).0 b))
      ],
      λ h. split.1 (inl (parses.1 (listed.1 (h.0, at.1 h.1)))),
    )
forward_lookup-Gives_iff ask hostname (v6 octets) =
    let four = answers_or_none (ask hostname 1) in
    let six = answers_or_none (ask hostname 28) in
    let split = Among-append (v6 octets) (addresses 1 four) (addresses 28 six) in
    let parses = Among-addresses_iff 28 (v6 octets) six in
    let listed = Parses-Listed 28 16 (v6 octets) octets six (λ b. parse_v6 b octets) in
    let at = answers_or_none_iff 28 octets (ask hostname 28) in
    (
      λ h. elim (split.0 h) [
        | inr b ↦ let (l, found) = listed.0 (parses.0 b) in (l, at.0 found)
        | inl a ↦ absurd (
            Parses-never 1 (v6 octets) four (λ c. not_v6 c octets)
              ((Among-addresses_iff 1 (v6 octets) four).0 a))
      ],
      λ h. split.1 (inr (parses.1 (listed.1 (h.0, at.1 h.1)))),
    )
