-- ===== src/ClientApi/Tests.antt =====
-- Instances for crates/binda-core/src/client_api.rs.
use binda.Prelude.{ℕ, ◌≡◌, refl, ◌↔◌, true, arith, nat_eq, list_eq}
use binda.Text.{codes}
use binda.ClientApi.{SignedEnvelope, ProbeBody, probe_body, probe_message, authenticate, ok}
use binda.ClientApi.Auth.{IsAuthentic, identity_of, authenticate-ok_iff}
use binda.ClientApi.Messages.{register_message-injective}
use binda.Samples.{externals, envelope, client}

abbrev twelve : ℕ
twelve = 12

abbrev request : SignedEnvelope ProbeBody
request = envelope 1 1_000 probe_body

authenticate-ok_iff_example :
    (authenticate (externals true) request (probe_message 1_000) 5_000 ≡ ok (client 1)) ↔ (
      IsAuthentic (externals true) request (probe_message 1_000) 5_000
      × (client 1 ≡ identity_of request))
authenticate-ok_iff_example =
    authenticate-ok_iff (externals true) request (probe_message 1_000) 5_000 (client 1)

register_message-injective_example : (codes "a:b" ≡ codes "a:b") × (twelve ≡ twelve)
register_message-injective_example =
    register_message-injective (codes "a:b") (codes "a:b") twelve twelve (ground arith)
      (ground arith) (omega arith) (omega arith) refl
