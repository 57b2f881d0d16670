-- ===== src/Dns/Response.antt =====
-- Responses of the native lookup protocol: crates/binda-core/src/dns.rs.
use Prim.Native.Nat.{bit_or}
use binda.Prelude.{
  ℕ, ◌%◌, ◌^◌, Bool, ◌||◌, not, List, [], ◌∷◌, ◌++◌, if◌then◌else◌, length, ◌==◌, nat_eq, list_eq,
}
use binda.Prelude.Bytes.{be}
use binda.Domain.{DomainName}
use binda.Zone.{Record}
use binda.Dns.{
  DnsQuery, ok, err, AddrParser, encode_rdata, encode_domain_labels, record_type_code, class_in,
  rcode_nxdomain, qtype_any,
}

-- One answer, around its encoded data.
unfoldable pub encode_answer : DomainName → Record → List ℕ → List ℕ
encode_answer domain r rdata =
    encode_domain_labels domain
    ++ (be 2 (record_type_code r.record_type)
        ++ (be 2 class_in ++ (be 4 r.ttl_secs ++ (be 4 (length rdata % 2 ^ 32) ++ rdata))))

-- The loop over the records: one whose data does not encode is skipped.
unfoldable pub encode_answers : AddrParser → DomainName → List Record → List (List ℕ)
unfolding encode_answer
encode_answers p domain [] = []
encode_answers p domain (r ∷ rs) =
    let rest = encode_answers p domain rs in
    elim (encode_rdata p r.record_type r.value) [
      | err e ↦ rest
      | ok rdata ↦ encode_answer domain r rdata ∷ rest
    ]

unfoldable pub concat : List (List ℕ) → List ℕ
concat [] = []
concat (xs ∷ xss) = xs ++ concat xss

-- The flags of a response: QR, AA and the response code.
abbrev pub response_flags : Bool → ℕ
response_flags domain_exists = bit_or 0x8400 (if not domain_exists then rcode_nxdomain else 0)

unfoldable pub build_response : AddrParser → DnsQuery → Bool → List Record → List ℕ
unfolding encode_answers concat
build_response p query domain_exists matching =
    let answers = encode_answers p query.domain matching in
    be 2 query.id
    ++ (be 2 (response_flags domain_exists)
        ++ (be 2 1
            ++ (be 2 (length answers % 2 ^ 16)
                ++ (be 2 0
                    ++ (be 2 0
                        ++ (encode_domain_labels query.domain
                            ++ (be 2 query.qtype ++ (be 2 query.qclass ++ concat answers))))))))

unfoldable pub build_error_response : ℕ → ℕ → List ℕ
build_error_response id rcode =
    be 2 id ++ (be 2 (bit_or 0x8000 rcode) ++ (0 ∷ 0 ∷ 0 ∷ 0 ∷ 0 ∷ 0 ∷ 0 ∷ 0 ∷ []))

unfoldable pub record_matches_qtype : Record → ℕ → Bool
record_matches_qtype r qtype = qtype == qtype_any || record_type_code r.record_type == qtype
