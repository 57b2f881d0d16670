-- ===== src/Samples.antt =====
-- Inputs that the tests of several modules share.
use binda.Prelude.{
  ℕ, zero, suc, ◌+◌, ◌-◌, ◌*◌, ◌/◌, Bool, true, Option, none, some, List, [], ◌∷◌, arith, leb,
  if◌then◌else◌, nat_eq, list_eq,
}
use binda.Text.{codes, Text}
use binda.Token.{RegistrationToken}
use binda.Client.{Externals, ClientIdentity}
use binda.ClientApi.{SignedEnvelope}
use binda.Gossip.{RegistrationRumor}
use binda.Store.{Registration}
use binda.RateLimit.{FloatOps, IsFloat}
use binda.Demo.{SigningKey}

-- Every key and signature is well formed, and each verifies or none does.
abbrev pub externals : Bool → Externals
externals answer = record {
  valid_key = λ bytes. true;
  valid_signature = λ bytes. true;
  verify = λ k m s. answer;
  records_json = λ rs. some [];
}

abbrev pub replicate : ℕ → ℕ → List ℕ
replicate zero b = []
replicate (suc n) b = b ∷ replicate n b

-- A key of 32 bytes.
abbrev pub key_bytes : ℕ → List ℕ
key_bytes b = replicate 32 b

abbrev pub host : Text
host = codes "a.net"

abbrev pub client : ℕ → ClientIdentity
client b = record { verifying_key = key_bytes b; rdns = host }

abbrev pub token : ℕ → ℕ → RegistrationToken
token t b = record { issued_at_millis = t; nonce = b ∷ replicate 7 0 }

abbrev pub name : Text
name = codes "x"

abbrev pub envelope : {T : Type 0} → ℕ → ℕ → T → SignedEnvelope T
envelope b t body = record {
  verifying_key = key_bytes b;
  rdns = host;
  timestamp_millis = t;
  signature = [];
  body = body;
}

-- A rumor of the host's under a client key.
abbrev pub rumor : ℕ → Text → Text → RegistrationRumor
rumor t d k = record {
  domain = d;
  token = token t 0;
  client_key = k;
  owner_key = key_bytes 1;
  rdns = host;
  registration_timestamp_millis = t;
  registration_signature = [];
  probe_timestamp_millis = t;
  probe_signature = [];
  records = [];
  records_timestamp_millis = none;
  records_signature = none;
}

abbrev pub registration : ℕ → Text → Text → Option RegistrationRumor → Registration
registration t k q r = record {
  client_key = k;
  quota_key = q;
  token = token t 0;
  records = [];
  rumor = r;
}

abbrev least : ℕ → ℕ → ℕ
least a b = if leb a b then a else b

-- Whole tokens in place of floats.
abbrev pub whole : FloatOps ℕ
whole = record {
  of_nat = λ n. n;
  add = λ a b. a + b;
  sub = λ a b. a - b;
  mul = λ a b. a * b;
  min = least;
  le = leb;
  secs = λ nanos. nanos / 1_000_000_000;
}

pub whole-IsFloat : IsFloat whole
whole-IsFloat = record {
  of_nat-le = λ n. ground arith;
  min-le = λ a b h. ground arith;
  sub_one-le = λ a b h. ground arith;
}

-- A key whose signatures are empty, which each verifies where all do.
abbrev pub signing_key : SigningKey
signing_key = record { verifying_key = key_bytes 1; sign = λ message. [] }
