-- ===== src/Fcrdns/Confirmed.antt =====
-- What forward confirmation requires: crates/binda-core/src/fcrdns.rs.
use binda.Prelude.{
  ℕ, ◌≡◌, ap, ◌↔◌, ◌⊎◌, inl, inr, true, some, List, [], ◌∷◌, arith, Bool-cases, Option-cases, ◌==◌,
  nat_eq, list_eq, list_eq_iff, subst,
}
use binda.Text.{Text}
use binda.Text.Utf8.{from_utf8}
use binda.Fcrdns.{IpAddr, v4, v6, normalize, ptr_query_name, type_ptr}
use binda.Fcrdns.Names.{SameName, normalize-SameName_iff}
use binda.Fcrdns.Lookup.{
  Ask, reverse_lookup, forward_lookup, any_name, same_ip, contains_ip, is_forward_confirmed,
  ptr_names,
}
use binda.Fcrdns.Addresses.{Among, Gives, forward_lookup-Gives_iff}

-- One of the answers is of type 12, PTR, and its text is the claimed name, up to ASCII case and dots
-- at the end.
abbrev pub Named : Text → List (ℕ × List ℕ) → Type 0
Named claimed [] = ⊥
Named claimed ((rtype, bytes) ∷ answers) =
    ((rtype ≡ 12) × ((name : Text) × (from_utf8 bytes ≡ some name) × SameName name claimed))
    ⊎ Named claimed answers

any_name_sound :
    (claimed : Text) (answers : List (ℕ × List ℕ))
    → any_name (normalize claimed) (ptr_names answers) ≡ true
    → Named claimed answers
unfolding any_name ptr_names
any_name_sound claimed [] h = cc
any_name_sound claimed ((rtype, bytes) ∷ answers) h =
    let later = any_name_sound claimed answers in
    elim (Option-cases (from_utf8 bytes)) [
      | inl n ↦ inr (later (ground (arith, n, h)))
      | inr (name, n) ↦ elim (Bool-cases (rtype == type_ptr)) [
        | inr t ↦ inr (later (ground (arith, n, t, h)))
        | inl t ↦ elim (Bool-cases (normalize name == normalize claimed)) [
          | inr q ↦ inr (later (ground (arith, n, t, q, h)))
          | inl q ↦ inl (
            ground (arith, t),
            (
              name,
              n,
              (normalize-SameName_iff name claimed).0
                  ((list_eq_iff (normalize name) (normalize claimed)).0 q),
            ),
          )
        ]
      ]
    ]

any_name_complete :
    (claimed : Text) (answers : List (ℕ × List ℕ))
    → Named claimed answers
    → any_name (normalize claimed) (ptr_names answers) ≡ true
unfolding any_name ptr_names
any_name_complete claimed [] h = absurd h
any_name_complete claimed ((rtype, bytes) ∷ answers) (inl (t, (name, n, same))) =
    let q =
      (list_eq_iff (normalize name) (normalize claimed)).1
        ((normalize-SameName_iff name claimed).1 same) in
    ground (arith, t, n, q)
any_name_complete claimed ((rtype, bytes) ∷ answers) (inr h) =
    let later = any_name_complete claimed answers h in
    elim (Option-cases (from_utf8 bytes)) [
      | inl n ↦ ground (arith, n, later)
      | inr (name, n) ↦ ground (arith, n, later)
    ]

same_ip_iff : (i j : IpAddr) → (same_ip i j ≡ true) ↔ (i ≡ j)
same_ip_iff (v4 a) (v4 b) =
    (λ h. ap v4 ((list_eq_iff a b).0 h), λ e. (list_eq_iff a b).1 (ground (arith, e)))
same_ip_iff (v6 a) (v6 b) =
    (λ h. ap v6 ((list_eq_iff a b).0 h), λ e. (list_eq_iff a b).1 (ground (arith, e)))
same_ip_iff (v4 a) (v6 b) = (λ h. cc, λ e. cc)
same_ip_iff (v6 a) (v4 b) = (λ h. cc, λ e. cc)

contains_ip_iff : (is : List IpAddr) (ip : IpAddr) → (contains_ip is ip ≡ true) ↔ Among ip is
unfolding contains_ip
contains_ip_iff [] ip = (λ h. cc, λ h. absurd h)
contains_ip_iff (i ∷ is) ip =
    let later = contains_ip_iff is ip in
    let here = same_ip_iff i ip in
    elim (Bool-cases (same_ip i ip)) [
      | inl q ↦ (λ h. inl (here.0 q), λ h. ground (arith, q))
      | inr q ↦ (
        λ h. inr (later.0 (ground (arith, q, h))),
        λ h. elim h [
          | inl e ↦ absurd (ground (arith, q, here.1 e))
          | inr p ↦ ground (arith, q, later.1 p)
        ],
      )
    ]

-- A claimed host name is confirmed exactly if the reverse lookup, the query of type 12, PTR, for the
-- name that stands for the source address, is answered, one of the answers of that type is the
-- claimed name, equal up to the case of ASCII letters and to dots at the end, and the queries for
-- the claimed name's addresses give the source address: by an answer of type 1 to the query of that
-- type, with its four octets, or by one of type 28 to the query of that type, with its sixteen.
pub is_forward_confirmed_iff :
    (ask : Ask) (source_ip : IpAddr) (claimed_rdns : Text)
    → (is_forward_confirmed ask source_ip claimed_rdns ≡ true) ↔ (
        (answers : List (ℕ × List ℕ)) × (ask (ptr_query_name source_ip) 12 ≡ some answers)
        × Named claimed_rdns answers
        × Gives ask claimed_rdns source_ip)
unfolding is_forward_confirmed reverse_lookup
is_forward_confirmed_iff ask source_ip claimed_rdns =
    let gives = forward_lookup-Gives_iff ask claimed_rdns source_ip in
    let among = contains_ip_iff (forward_lookup ask claimed_rdns) source_ip in
    elim (Option-cases (ask (ptr_query_name source_ip) 12)) [
      | inl q ↦ (λ h. absurd (ground (arith, q, h)), λ h. absurd (ground (arith, q, h.1)))
      | inr (answers, q) ↦ (
        λ h. (
          answers,
          q,
          any_name_sound claimed_rdns answers (ground (arith, q, h)),
          gives.0 (among.0 (ground (arith, q, h))),
        ),
        λ h.
            let same : h.0 ≡ answers = ground (arith, q, h.1) in
            ground (
              arith,
              q,
              any_name_complete claimed_rdns answers (subst (Named claimed_rdns) same h.2),
              among.1 (gives.1 h.3),
            ),
      )
    ]
