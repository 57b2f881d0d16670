-- ===== src/Dns/Progress.antt =====
-- The label loop ends: crates/binda-core/src/dns.rs.
use binda.Prelude.{
  ℕ, zero, suc, ◌+◌, ◌≤◌, ◌<◌, ◌≡◌, refl, ◌⊎◌, inl, inr, some, List, [], ◌∷◌, ◌++◌, arith, ltb,
  Bool-cases, Option-cases, length, ◌==◌, nat_eq, list_eq, take, drop,
}
use binda.Prelude.Range.{get_range}
use binda.Text.{Text}
use binda.Prelude.Bytes.{from_be}
use binda.Dns.{
  DnsError, too_short, unsupported_question_count, ◌>>=◌, DnsQuery, Result, ok, err, read_uint,
  read_label, read_labels, parse_query, finish_query,
}

get_range-inside :
    (bytes : List ℕ) (pos n : ℕ) (s : List ℕ)
    → get_range bytes pos n ≡ some s
    → pos + n ≤ length bytes
unfolding get_range
get_range-inside bytes pos n s h = ground arith

Result-cases {ℓ} :
    {A : Type ℓ} (r : Result A) → ((v : A) × (r ≡ ok v)) ⊎ ((e : DnsError) × (r ≡ err e))
Result-cases (ok v) = inl (v, refl)
Result-cases (err e) = inr (e, refl)

read_label-inside :
    (bytes : List ℕ) (pos n : ℕ) (label : Text)
    → read_label bytes pos n ≡ ok label
    → pos + n ≤ length bytes
unfolding read_label
read_label-inside bytes pos n label h = elim (Option-cases (get_range bytes pos n)) [
  | inl e ↦ absurd (ground (arith, e))
  | inr (s, e) ↦ get_range-inside bytes pos n s e
]

-- The loop returns within one round for each byte that is left, and one more.
read_labels-ends :
    (fuel : ℕ) (bytes : List ℕ) (pos : ℕ) (found : List Text)
    → pos ≤ length bytes
    → length bytes < pos + fuel
    → (r : Result (List Text × ℕ)) × (read_labels fuel bytes pos found ≡ some r)
unfolding read_labels
read_labels-ends zero bytes pos found p h = absurd (omega arith)
read_labels-ends (suc fuel) bytes pos found p h = elim (Result-cases (read_uint 4 bytes pos)) [
  | inr (e, q) ↦ (err e, rw (q, read_labels) refl)
  | inl (zero, q) ↦ (ok (found, pos + 4), rw (q, read_labels) refl)
  | inl (suc n, q) ↦ elim (Result-cases (read_label bytes (pos + 4) (suc n))) [
    | inr (e, l) ↦ (err e, rw (q, read_labels) (rw (l, read_labels) refl))
    | inl (label, l) ↦
        let inside = read_label-inside bytes (pos + 4) (suc n) label l in
        let (r, later) =
          read_labels-ends fuel bytes (pos + 4 + suc n) (found ++ (label ∷ [])) inside
            (omega arith) in
        (r, rw (q, read_labels) (rw (l, read_labels) later))
  ]
]

-- The fuel of the label loop, one round for each byte of the message, is always enough: every message
-- is parsed to a query or to an error.
pub parse_query_total : (bytes : List ℕ) → (r : Result DnsQuery) × (parse_query bytes ≡ some r)
unfolding parse_query
parse_query_total bytes = elim (Bool-cases (ltb (length bytes) 12)) [
  | inl short ↦ (err too_short, rw short)
  | inr long ↦ elim (Bool-cases (from_be (take 2 (drop 4 bytes)) == 1)) [
    | inr many ↦ (err unsupported_question_count, rw (long, many))
    | inl one ↦
        let (r, e) = read_labels-ends (length bytes) bytes 12 [] (ground arith) (omega arith) in
        (r >>= finish_query bytes (from_be (take 2 bytes)), rw (long, one, e))
  ]
]
