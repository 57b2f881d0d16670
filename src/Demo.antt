-- ===== src/Demo.antt =====
-- The example client: crates/binda/examples/client_demo.rs. Signing is ed25519_dalek's: a key is a
-- parameter. The requests are what `main` builds, at times that are arguments; the sockets and the
-- printing are left out.
pub mod Query
pub mod Session
mod Tests
use binda.Prelude.{
  ℕ, zero, suc, ◌+◌, ◌-◌, ◌*◌, ◌/◌, ◌%◌, ◌^◌, ◌≤◌, ◌<◌, compare, Ordering, ◌≡◌, refl, sym, ap, ◌∙◌,
  ◌≢◌, ◌↔◌, ◌⊎◌, inl, inr, Bool, true, false, ◌&&◌, ◌||◌, not, Option, none, some, List, [], ◌∷◌,
  ◌++◌, map, arith, ltb, leb, if◌then◌else◌, Bool-cases, Option-cases, length, Eq, ◌==◌, nat_eq,
  list_eq, list_eq_iff, ==_refl, length-append, take,
}
use binda.Prelude.Bytes.{be}
use binda.Text.{Text, codes}
use binda.Text.Utf8.{as_bytes}
use binda.Domain.{DomainName, labels}
use binda.Domain
use binda.Zone.{Record, a}
use binda.Client.{Externals}
use binda.ClientApi.{
  SignedEnvelope, ProbeBody, RegisterBody, SetRecordsBody, ClientRequest, probe_message,
  register_message, set_records_message, probe_body,
}
use binda.ClientApi
use binda.Dns.{encode_labels}
use binda.Wire.{Json, encode, decode, max_datagram_bytes}
use binda.Wire

-- What the client calls of ed25519_dalek's `SigningKey`.
pub record SigningKey : Type 0 where
  pub verifying_key : List ℕ
  pub sign : List ℕ → List ℕ

abbrev pub rdns : Text
rdns = codes "client-demo.example.net"

abbrev pub domain : DomainName
domain = codes "🔥demo.binda"

-- A `SignedEnvelope` with the signature of the message.
unfoldable pub signed : {T : Type 0} → SigningKey → ℕ → List ℕ → T → SignedEnvelope T
signed k t message body = record {
  verifying_key = k.verifying_key;
  rdns = rdns;
  timestamp_millis = t;
  signature = k.sign message;
  body = body;
}

unfoldable pub probe_req : SigningKey → ℕ → SignedEnvelope ProbeBody
unfolding signed
probe_req k t = signed k t (probe_message t) probe_body

unfoldable pub register_req : SigningKey → ℕ → SignedEnvelope RegisterBody
unfolding signed
register_req k t = signed k t (register_message domain t) (record { domain = domain })

abbrev pub records : List Record
records =
    record { name = codes "@"; record_type = a; ttl_secs = 300; value = codes "203.0.113.42" } ∷ []

unfoldable pub set_records_req : Externals → SigningKey → ℕ → SignedEnvelope SetRecordsBody
unfolding signed
set_records_req x k t =
    signed k t (set_records_message x domain records t)
      (record { domain = domain; records = records })

-- The loop over the labels, on a query that was begun.
unfoldable pub extend_labels : List Text → List ℕ → List ℕ
extend_labels [] query = query
extend_labels (label ∷ rest) query =
    extend_labels rest (query ++ be 4 (length (as_bytes label) % 2 ^ 32) ++ as_bytes label)

-- `native_query`, to its end
unfoldable pub native_query : DomainName → List ℕ
unfolding extend_labels
native_query d =
    extend_labels (labels d) (be 2 0x1234 ++ be 2 0x0100 ++ be 2 1 ++ (0 ∷ 0 ∷ 0 ∷ 0 ∷ 0 ∷ 0 ∷ []))
    ++ (be 4 0 ++ (be 2 1 ++ be 2 1))

-- `send_recv`, to a server that answers each frame, of which the socket takes one datagram; `none`
-- is a failed `expect`.
unfoldable pub send_recv :
    {Req Resp : Type 0} → Json Req → Json Resp → (List ℕ → List ℕ) → Req → Option Resp
unfolding encode decode
send_recv jq jr serve request = elim (encode jq request) [
  | Wire.err e ↦ none
  | Wire.ok bytes ↦ elim (decode jr (take max_datagram_bytes (serve bytes))) [
    | Wire.err e ↦ none
    | Wire.ok response ↦ some response
  ]
]
