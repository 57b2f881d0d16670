-- ===== src/Store/Register.antt =====
-- The store's `register`, `resolve_collision` and `set_records`: crates/binda-core/src/store.rs.
use binda.Prelude.{
  ℕ, Bool, true, false, not, none, some, List, [], if◌then◌else◌, ◌==◌, nat_eq, list_eq,
}
use binda.Prelude.Map.{lookup, insert, contains_key, update}
use binda.Text.{Text}
use binda.Token.{RegistrationToken, issue, token_eq}
use binda.Collision.{negotiate_locally}
use binda.Domain.{DomainName}
use binda.Zone.{Record}
use binda.Client.{Externals, ClientIdentity, key, quota_key}
use binda.Liveness.{is_live, can_register, increment_registration}
use binda.Store.{
  Registration, RegistrationError, not_live, registration_limit_reached, RegistryStore,
  reclaim_stale,
}

pub data RegisterResult : Type 0 where
  ok : RegistrationToken → RegisterResult
  err : RegistrationError → RegisterResult

-- The registration that `register` adds.
abbrev pub fresh_registration : ClientIdentity → RegistrationToken → Registration
fresh_registration client token = record {
  client_key = key client;
  quota_key = quota_key client;
  token = token;
  records = [];
  rumor = none;
}

-- `register`, with the new token's random bytes as an argument.
unfoldable pub register :
    Externals
    → RegistryStore
    → DomainName
    → ClientIdentity
    → ℕ
    → List ℕ
    → RegistryStore × RegisterResult
unfolding reclaim_stale issue
register x s domain client now nonce =
    if not (is_live s.liveness client now)
    then (s, err not_live)
    else (let s' = reclaim_stale x now s in
        if contains_key domain s'.registrations
        then (s', err registration_limit_reached)
        else (if not (can_register s'.liveness client now)
            then (s', err registration_limit_reached)
            else (let token = issue now nonce in
                (
                  record s' {
                    registrations =
                        insert domain (fresh_registration client token) s'.registrations;
                    liveness = increment_registration s'.liveness client;
                  },
                  ok token,
                ))))

-- `resolve_collision`; a claim is its client key, quota key and token.
unfoldable pub resolve_collision :
    RegistryStore
    → DomainName
    → Text × Text × RegistrationToken
    → Text × Text × RegistrationToken
    → RegistryStore
resolve_collision s domain a b =
    let winner_token = negotiate_locally a.2 b.2 in
    let (client_key, quota_key, token) = if winner_token == a.2 then a else b in
    record s {
      registrations =
          insert domain
            (record {
              client_key = client_key;
              quota_key = quota_key;
              token = token;
              records = [];
              rumor = none;
            })
            s.registrations;
    }

unfoldable pub set_records :
    RegistryStore → DomainName → ClientIdentity → List Record → RegistryStore × Bool
set_records s domain client records = elim (lookup domain s.registrations) [
  | some reg ↦
      if reg.client_key == key client
      then (
        record s {
          registrations = update domain (λ g. record g { records = records }) s.registrations;
        },
        true,
      )
      else (s, false)
  | none ↦ (s, false)
]
