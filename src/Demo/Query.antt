-- ===== src/Demo/Query.antt =====
-- The native query of the example client: crates/binda/examples/client_demo.rs, read by
-- crates/binda-core/src/dns.rs.
use binda.Prelude.{
  ℕ, ◌%◌, ◌^◌, ◌≡◌, refl, sym, ap, ◌∙◌, some, List, [], ◌∷◌, ◌++◌, arith, length, nat_eq, list_eq,
}
use binda.Prelude.Bytes.{be, be_onto}
use mathlib.Core.List.{append_assoc}
use binda.Text.{Text}
use binda.Text.Utf8.{as_bytes}
use binda.Domain.{DomainName, labels}
use binda.Domain
use binda.Dns.{DnsQuery, ok, parse_query, encode_labels}
use binda.Dns.Roundtrip.{Fits, parse_query-question}
use binda.Demo.{extend_labels, native_query}

extend_labels-encode_labels :
    (ls : List Text) (query rest : List ℕ)
    → extend_labels ls query ++ (be 4 0 ++ rest) ≡ query ++ (encode_labels ls ++ rest)
unfolding extend_labels encode_labels
extend_labels-encode_labels [] query rest = refl
extend_labels-encode_labels (l ∷ ls) query rest =
    let size = be 4 (length (as_bytes l) % 2 ^ 32) in
    extend_labels-encode_labels ls (query ++ size ++ as_bytes l) rest
    ∙ append_assoc (query ++ size) (as_bytes l) (encode_labels ls ++ rest)
    ∙ append_assoc query size (as_bytes l ++ (encode_labels ls ++ rest))
    ∙ ap (λ z. query ++ z)
        (ap (λ z. size ++ z) (sym (append_assoc (as_bytes l) (encode_labels ls) rest))
          ∙ sym (append_assoc size (as_bytes l ++ encode_labels ls) rest))

-- The question that the demo asks: the addresses of the name.
abbrev pub question : DomainName → DnsQuery
question d = record { id = 0x1234; domain = d; qtype = 1; qclass = 1 }

-- The query that the client writes is read by the node as its question, for every valid name with
-- labels that the wire format can carry.
pub parse_query-native_query :
    (d : DomainName)
    → Domain.new d ≡ Domain.ok d
    → Fits (labels d)
    → parse_query (native_query d) ≡ some (ok (question d))
unfolding native_query be_onto
parse_query-native_query d v fits =
    ap parse_query (
      extend_labels-encode_labels (labels d)
        (be 2 0x1234 ++ be 2 0x0100 ++ be 2 1 ++ (0 ∷ 0 ∷ 0 ∷ 0 ∷ 0 ∷ 0 ∷ [])) (be 2 1 ++ be 2 1))
    ∙ parse_query-question 0x0100 0 0 0 (question d) [] (omega arith) (omega arith) (omega arith) v
        fits
