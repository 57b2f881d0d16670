-- ===== src/Demo/Tests.antt =====
-- Instances for crates/binda/examples/client_demo.rs.
use binda.Prelude.{ℕ, ◌≡◌, refl, true, none, some, [], ◌∷◌, arith, nat_eq, list_eq}
use binda.Text.Utf8.{as_bytes, encode_char}
use binda.Text.Split.{split}
use binda.Text.{is_control}
use binda.Domain.{labels, refused, first_refused, any_empty}
use binda.Domain
use binda.Dns.{ok, parse_query}
use binda.Dns.Roundtrip.{Fits}
use binda.ClientApi.{probe_ack}
use binda.Store.{new}
use binda.Api.{store_of, handle_probe}
use binda.Api.Outcomes.{response_of}
use binda.Fcrdns.{v4}
use binda.Fcrdns.Verifier.{Send, verify, allow_all_verifier}
use binda.Demo.{rdns, domain, native_query, probe_req}
use binda.Demo.Query.{question, parse_query-native_query}
use binda.Demo.Session.{IsSigning, IsNear, IsPublished, IsTurnedAway, session_succeeds}
use binda.Samples.{externals, signing_key}

program : Unit {0}
unfolding Domain.new labels refused first_refused any_empty split as_bytes encode_char is_control
program = tt

valid : Domain.new domain ≡ Domain.ok domain
unfolding program
valid = refl

fits : Fits (labels domain)
unfolding program
fits = ground arith

parse_query-native_query_example : parse_query (native_query domain) ≡ some (ok (question domain))
parse_query-native_query_example = parse_query-native_query domain valid fits

signing : IsSigning (externals true) signing_key
signing = record {
  key_len = refl;
  key_valid = refl;
  signature_valid = λ m. refl;
  verifies = λ m. refl;
}

near : (t : ℕ) → IsNear t t
near t = record { not_old = omega arith; not_early = omega arith }

-- No resolver answers.
abbrev nothing : Send
nothing resolver request = none

session_succeeds_example :
    (response_of (handle_probe (externals true) new 7 (probe_req signing_key 7)) ≡ some probe_ack)
    × IsPublished
        (externals true)
        signing_key
        signing
        (verify nothing (λ n t. 7) allow_all_verifier (v4 (127 ∷ 0 ∷ 0 ∷ 1 ∷ [])) rdns)
        (store_of (handle_probe (externals true) new 7 (probe_req signing_key 7)))
        50000
        50000
        80000
        80000
        (1 ∷ 2 ∷ [])
    × IsTurnedAway
        (externals true)
        signing_key
        signing
        (store_of (handle_probe (externals true) new 7 (probe_req signing_key 7)))
        50000
        50000
        80000
        80000
        (1 ∷ 2 ∷ [])
session_succeeds_example =
    session_succeeds (externals true) signing_key signing nothing (λ n t. 7)
      (v4 (127 ∷ 0 ∷ 0 ∷ 1 ∷ [])) 7 7 50000 50000 80000 80000 (1 ∷ 2 ∷ []) (near 7) (near 50000)
      (near 80000) (omega arith)
