-- ===== src/ClientApi.antt =====
-- Signed client requests: crates/binda-core/src/client_api.rs.
pub mod Messages
pub mod Auth
mod Tests
use binda.Prelude.{
  ℕ, zero, suc, ◌+◌, ◌-◌, ◌*◌, ◌/◌, ◌%◌, ◌^◌, ◌≤◌, ◌<◌, compare, Ordering, ◌≡◌, refl, sym, ap, ◌∙◌,
  ◌≢◌, ◌↔◌, ◌⊎◌, inl, inr, Bool, true, false, ◌&&◌, ◌||◌, not, Option, none, some, List, [], ◌∷◌,
  ◌++◌, map, arith, ltb, leb, if◌then◌else◌, Bool-cases, Option-cases, length, Eq, ◌==◌, nat_eq,
  list_eq, ==_refl, length-append,
}
use binda.Text.{Text, codes}
use binda.Text.Decimal.{decimal}
use binda.Text.Utf8.{as_bytes}
use binda.Token.{RegistrationToken}
use binda.Domain.{DomainName}
use binda.Zone.{Record}
use binda.Client.{Externals, ClientIdentity, verify}

abbrev pub request_freshness_window_millis : ℕ
request_freshness_window_millis = 10_000

pub record SignedEnvelope (T : Type 0) : Type 0 where
  pub verifying_key : List ℕ
  pub rdns : Text
  pub timestamp_millis : ℕ
  pub signature : List ℕ
  pub body : T

pub data ProbeBody : Type 0 where
  probe_body : ProbeBody

pub record RegisterBody : Type 0 where
  pub domain : DomainName

pub record SetRecordsBody : Type 0 where
  pub domain : DomainName
  pub records : List Record

pub data ClientRequest : Type 0 where
  probe : SignedEnvelope ProbeBody → ClientRequest
  register : SignedEnvelope RegisterBody → ClientRequest
  set_records : SignedEnvelope SetRecordsBody → ClientRequest

pub data ClientResponse : Type 0 where
  probe_ack : ClientResponse
  registered : (token : RegistrationToken) → ClientResponse
  records_set : ClientResponse
  error : (message : Text) → ClientResponse

pub data RequestAuthError : Type 0 where
  malformed_key malformed_signature invalid_signature stale : RequestAuthError

-- The `#[error]` texts.
unfoldable pub auth_error_text : RequestAuthError → Text
auth_error_text malformed_key = codes "malformed public key"
auth_error_text malformed_signature = codes "malformed signature"
auth_error_text invalid_signature =
    codes "signature does not verify against the supplied public key"
auth_error_text stale = codes "request timestamp is outside the freshness window"

unfoldable pub probe_message : ℕ → List ℕ
probe_message timestamp_millis = as_bytes (codes "binda-probe:" ++ decimal timestamp_millis)

unfoldable pub register_message : DomainName → ℕ → List ℕ
register_message domain timestamp_millis =
    as_bytes (codes "binda-register:" ++ (domain ++ (b':' ∷ decimal timestamp_millis)))

unfoldable pub set_records_message : Externals → DomainName → List Record → ℕ → List ℕ
set_records_message x domain records timestamp_millis =
    as_bytes
      (codes "binda-set-records:" ++ (domain ++ (b':' ∷ (decimal timestamp_millis ++ (b':' ∷ [])))))
    ++ elim (x.records_json records) [ none ↦ [] | some json ↦ json ]

-- `abs_diff`
unfoldable pub is_fresh : ℕ → ℕ → Bool
is_fresh timestamp_millis now_millis =
    leb (now_millis - timestamp_millis + (timestamp_millis - now_millis))
      request_freshness_window_millis

pub data AuthResult : Type 0 where
  ok : ClientIdentity → AuthResult
  err : RequestAuthError → AuthResult

unfoldable pub authenticate : {T : Type 0} → Externals → SignedEnvelope T → List ℕ → ℕ → AuthResult
unfolding is_fresh verify
authenticate x envelope message now_millis =
    if not (is_fresh envelope.timestamp_millis now_millis)
    then err stale
    else (if not (length envelope.verifying_key == 32)
        then err malformed_key
        else (if not (x.valid_key envelope.verifying_key)
            then err malformed_key
            else (if not (x.valid_signature envelope.signature)
                then err malformed_signature
                else (let identity : ClientIdentity = record {
                  verifying_key = envelope.verifying_key;
                  rdns = envelope.rdns;
                } in
                    if verify x identity message envelope.signature
                    then ok identity
                    else err invalid_signature))))
