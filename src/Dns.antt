-- ===== src/Dns.antt =====
-- The native lookup protocol: crates/binda-core/src/dns.rs. The standard library's parsers of IP
-- addresses are an argument.
pub mod Response
pub mod Roundtrip
pub mod Progress
mod Tests
use binda.Prelude.{
  ℕ, zero, suc, ◌+◌, ◌-◌, ◌*◌, ◌/◌, ◌%◌, ◌^◌, ◌≤◌, ◌<◌, compare, Ordering, ◌≡◌, refl, sym, ap, ◌∙◌,
  ◌≢◌, ◌↔◌, ◌⊎◌, inl, inr, Bool, true, false, ◌&&◌, ◌||◌, not, Option, none, some, List, [], ◌∷◌,
  ◌++◌, map, arith, ltb, leb, if◌then◌else◌, Bool-cases, Option-cases, length, Eq, ◌==◌, nat_eq,
  list_eq, list_eq_iff, ==_refl, length-append, take, drop,
}
use Prim.Native.Nat.{bit_or}
use binda.Prelude.Bytes.{be, from_be}
use binda.Prelude.Range.{get_range}
use binda.Text.{Text}
use binda.Text.Split.{join}
use binda.Text.Utf8.{as_bytes, from_utf8}
use binda.Domain.{DomainName, DomainNameError, labels}
use binda.Domain
use binda.Zone.{Record, RecordType, a, aaaa, cname, mx, txt, ns}

abbrev pub type_a : ℕ
type_a = 1

abbrev pub type_ns : ℕ
type_ns = 2

abbrev pub type_cname : ℕ
type_cname = 5

abbrev pub type_mx : ℕ
type_mx = 15

abbrev pub type_txt : ℕ
type_txt = 16

abbrev pub type_aaaa : ℕ
type_aaaa = 28

abbrev pub qtype_any : ℕ
qtype_any = 255

abbrev pub class_in : ℕ
class_in = 1

abbrev pub rcode_nxdomain : ℕ
rcode_nxdomain = 3

abbrev pub rcode_format_error : ℕ
rcode_format_error = 1

pub data DnsError : Type 0 where
  too_short unsupported_question_count malformed_label invalid_utf8 : DnsError
  invalid_domain : DomainNameError → DnsError

pub data Result {ℓ} (A : Type ℓ) : Type ℓ where
  ok : A → Result A
  err : DnsError → Result A

infixl 5 ◌>>=◌
abbrev pub ◌>>=◌ {ℓ κ} : {A : Type ℓ} {B : Type κ} → Result A → (A → Result B) → Result B
ok v >>= f = f v
err e >>= f = err e

pub record DnsQuery : Type 0 where
  pub id : ℕ
  pub domain : DomainName
  pub qtype : ℕ
  pub qclass : ℕ

unfoldable pub record_type_code : RecordType → ℕ
record_type_code a = type_a
record_type_code aaaa = type_aaaa
record_type_code cname = type_cname
record_type_code mx = type_mx
record_type_code txt = type_txt
record_type_code ns = type_ns

-- `ok_or`
abbrev pub ok_or {ℓ} : {A : Type ℓ} → Option A → DnsError → Result A
ok_or none e = err e
ok_or (some v) e = ok v

-- `read_u16` and `read_u32`, at two and four bytes.
unfoldable pub read_uint : ℕ → List ℕ → ℕ → Result ℕ
read_uint width bytes pos = do
  slice ← ok_or (get_range bytes pos width) malformed_label
  ok (from_be slice)

-- One label of `n` bytes.
unfoldable pub read_label : List ℕ → ℕ → ℕ → Result Text
read_label bytes pos n = do
  label_bytes ← ok_or (get_range bytes pos n) malformed_label
  ok_or (from_utf8 label_bytes) invalid_utf8

-- The loop over the labels, with fuel: `none` means that the fuel ran out.
unfoldable pub read_labels : ℕ → List ℕ → ℕ → List Text → Option (Result (List Text × ℕ))
read_labels zero bytes pos found = none
read_labels (suc fuel) bytes pos found = elim (read_uint 4 bytes pos) [
  | err e ↦ some (err e)
  | ok zero ↦ some (ok (found, pos + 4))
  | ok (suc n) ↦ elim (read_label bytes (pos + 4) (suc n)) [
    | err e ↦ some (err e)
    | ok label ↦ read_labels fuel bytes (pos + 4 + suc n) (found ++ (label ∷ []))
  ]
]

-- `DomainName::new(…)?`
unfoldable pub checked_domain : Text → Result DomainName
unfolding Domain.new
checked_domain raw = elim (Domain.new raw) [
  | Domain.ok d ↦ ok d
  | Domain.err e ↦ err (invalid_domain e)
]

-- `parse_query` after the labels.
unfoldable pub finish_query : List ℕ → ℕ → List Text × ℕ → Result DnsQuery
finish_query bytes id (found, pos) = do
  qtype ← read_uint 2 bytes pos
  qclass ← read_uint 2 bytes (pos + 2)
  domain ← checked_domain (join b'.' found)
  ok (record { id = id; domain = domain; qtype = qtype; qclass = qclass })

unfoldable pub parse_query : List ℕ → Option (Result DnsQuery)
parse_query bytes =
    if ltb (length bytes) 12
    then some (err too_short)
    else (let id = from_be (take 2 bytes) in
        let qdcount = from_be (take 2 (drop 4 bytes)) in
        if not (qdcount == 1)
        then some (err unsupported_question_count)
        else elim (read_labels (length bytes) bytes 12 []) [
          | none ↦ none
          | some r ↦ some (r >>= finish_query bytes id)
        ])

-- The loop of `encode_domain_labels`; `as u32` keeps 32 bits of the length.
unfoldable pub encode_labels : List Text → List ℕ
encode_labels [] = be 4 0
encode_labels (label ∷ rest) =
    be 4 (length (as_bytes label) % 2 ^ 32) ++ (as_bytes label ++ encode_labels rest)

unfoldable pub encode_domain_labels : DomainName → List ℕ
unfolding encode_labels
encode_domain_labels domain = encode_labels (labels domain)

-- `Ipv4Addr::from_str` and `Ipv6Addr::from_str`, as octets.
pub record AddrParser : Type 0 where
  pub ipv4 : Text → Option (List ℕ)
  pub ipv6 : Text → Option (List ℕ)

-- `split_once(' ')`
unfoldable pub split_once : ℕ → Text → Option (Text × Text)
split_once sep [] = none
split_once sep (c ∷ s) =
    let rest = split_once sep s in
    if c == sep then some ([], s) else elim rest [ none ↦ none | some (p, e) ↦ some (c ∷ p, e) ]

-- The digits of `parse::<u16>`, with the value so far.
unfoldable pub parse_digits : ℕ → Text → Option ℕ
parse_digits acc [] = some acc
parse_digits acc (c ∷ s) =
    let more = parse_digits (acc * 10 + (c - b'0')) s in
    if leb b'0' c && leb c b'9' && ltb (acc * 10 + (c - b'0')) 65536 then more else none

unfoldable pub parse_u16 : Text → Option ℕ
unfolding parse_digits
parse_u16 [] = none
parse_u16 (c ∷ []) = parse_digits 0 (c ∷ [])
parse_u16 (c ∷ d ∷ s) = if c == b'+' then parse_digits 0 (d ∷ s) else parse_digits 0 (c ∷ d ∷ s)

-- `chunks(255)`, each behind its length; `fuel` is the number of bytes.
unfoldable pub txt_chunks : ℕ → List ℕ → List ℕ
txt_chunks zero bytes = []
txt_chunks (suc fuel) [] = []
txt_chunks (suc fuel) (b ∷ bytes) =
    let chunk = take 255 (b ∷ bytes) in
    (length chunk % 256) ∷ (chunk ++ txt_chunks fuel (drop 255 (b ∷ bytes)))

-- The preference and the exchange of an MX value.
unfoldable pub mx_parts : Text → ℕ × Text
unfolding split_once parse_u16
mx_parts value = elim (split_once b' ' value) [
  | none ↦ (0, value)
  | some (p, e) ↦ elim (parse_u16 p) [ none ↦ (0, value) | some preference ↦ (preference, e) ]
]

unfoldable pub encode_rdata : AddrParser → RecordType → Text → Result (List ℕ)
unfolding checked_domain encode_domain_labels mx_parts txt_chunks
encode_rdata p a value = ok_or (p.ipv4 value) malformed_label
encode_rdata p aaaa value = ok_or (p.ipv6 value) malformed_label
encode_rdata p cname value = do target ← checked_domain value; ok (encode_domain_labels target)
encode_rdata p ns value = do target ← checked_domain value; ok (encode_domain_labels target)
encode_rdata p mx value = do
  target ← checked_domain (mx_parts value).1
  ok (be 2 (mx_parts value).0 ++ encode_domain_labels target)
encode_rdata p txt value = ok (txt_chunks (length (as_bytes value)) (as_bytes value))
