-- ===== src/Dns/Tests.antt =====
-- Instances for crates/binda-core/src/dns.rs.
use binda.Prelude.{◌≡◌, refl, true, none, some, [], arith, nat_eq, list_eq}
use binda.Text.{codes, is_control}
use binda.Text.Split.{split}
use binda.Text.Utf8.{as_bytes, encode_char}
use binda.Domain
use binda.Domain.{refused, first_refused, any_empty, labels}
use binda.Dns.{DnsQuery, Result, ok, AddrParser, parse_query}
use binda.Dns.Response.{build_response}
use binda.Dns.Progress.{parse_query_total}
use binda.Dns.Roundtrip.{Fits, parse_query-build_response}

program : Unit {0}
unfolding Domain.new labels refused first_refused any_empty split as_bytes encode_char is_control
program = tt

abbrev parser : AddrParser
parser = record { ipv4 = λ t. none; ipv6 = λ t. none }

abbrev question : DnsQuery
question = record { id = 513; domain = codes "a.b"; qtype = 1; qclass = 1 }

valid : Domain.new question.domain ≡ Domain.ok question.domain
unfolding program
valid = refl

fits : Fits (labels question.domain)
unfolding program
fits = ground arith

parse_query_total_example :
    (r : Result DnsQuery) × (parse_query (build_response parser question true []) ≡ some r)
parse_query_total_example = parse_query_total (build_response parser question true [])

parse_query-build_response_example :
    parse_query (build_response parser question true []) ≡ some (ok question)
parse_query-build_response_example =
    parse_query-build_response parser question true [] (omega arith) (omega arith) (omega arith)
      valid fits
