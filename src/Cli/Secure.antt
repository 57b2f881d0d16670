-- ===== src/Cli/Secure.antt =====
-- A node that was started without the insecure flag checks hostnames: crates/binda/src/main.rs,
-- through crates/binda/src/node.rs and crates/binda-core/src/api.rs.
use binda.Prelude.{
  ℕ, ◌≡◌, refl, ap, ◌∙◌, inl, inr, Bool, false, Option, some, List, Bool-cases, Eq, nat_eq, list_eq,
}
use binda.Text.{Text}
use binda.Client.{Externals}
use binda.ClientApi.{SignedEnvelope, RegisterBody}
use binda.ClientApi
use binda.RateLimit.{FloatOps, allow_at, new}
use binda.Fcrdns.{IpAddr}
use binda.Fcrdns.Lookup.{is_forward_confirmed}
use binda.Fcrdns.Verifier.{Send, fcrdns_verifier, verify, ask_resolvers, default_resolvers}
use binda.Api.{handle_client_request}
use binda.Api.Panic.{handle_register_unconfirmed}
use binda.Node.{Node}
use binda.Node.Listeners.{answer_client, rdns_verified}
use binda.Cli.{Args, parsed, parse_args_from}
use binda.Cli.Flags.{Lacks, insecure, parse_args_from-secure}
use binda.Cli.Startup.{start}

module _ {F K : Type 0} ⦃e : Eq K⦄ (f : FloatOps F) where
  start_secure :
      (args : Args K)
      → args.insecure_skip_rdns_verification ≡ false
      → (start f args).0.rdns_verifier ≡ fcrdns_verifier
  unfolding start new
  start_secure args h = rw (h) refl

  module _ (x : Externals) (verifier : K → Text → Bool) (node : Node F K) (from : K)
      (request : SignedEnvelope RegisterBody) (refused : verifier from request.rdns ≡ false) where
    answer_client_unconfirmed :
        (now instant : ℕ) (nonce : List ℕ)
        → (answer_client f x verifier node now instant nonce from
            (some (ClientApi.register request))).0.store
          ≡ node.store
    unfolding answer_client handle_client_request rdns_verified
    answer_client_unconfirmed now instant nonce =
        elim (Bool-cases (allow_at f node.api_limiter from instant).1) [
          | inr q ↦ rw (q, answer_client) refl
          | inl q ↦
              rw (q, answer_client, refused)
                (handle_register_unconfirmed x node.store now nonce request).0
        ]

  -- Unless the insecure flag is among the arguments, the node that starts refuses, in every state and
  -- at all times, a registration whose hostname does not forward-confirm for the address that it
  -- comes from: the store stays as it was.
  pub start_refuses_unconfirmed :
      (parse : Text → Option K) (gossip_addr resolver_addr api_addr : K) (ss : List Text)
      (args : Args K) (x : Externals) (send : Send) (ids : Text → ℕ → ℕ) (ip_of : K → IpAddr)
      (node : Node F K) (now instant : ℕ) (nonce : List ℕ) (from : K)
      (request : SignedEnvelope RegisterBody)
      → Lacks insecure ss
      → parse_args_from parse gossip_addr resolver_addr api_addr ss ≡ parsed args
      → is_forward_confirmed (ask_resolvers send ids default_resolvers) (ip_of from) request.rdns
        ≡ false
      → (answer_client f x
          (λ k. verify send ids (start f args).0.rdns_verifier (ip_of k))
          node
          now
          instant
          nonce
          from
          (some (ClientApi.register request))).0.store
        ≡ node.store
  unfolding verify
  start_refuses_unconfirmed parse g r a ss args x send ids ip_of node now instant nonce from request
        l h unconfirmed =
      let checks = start_secure args (parse_args_from-secure parse g r a ss args l h) in
      answer_client_unconfirmed x (λ k. verify send ids (start f args).0.rdns_verifier (ip_of k))
        node from request
        (ap (λ v. verify send ids v (ip_of from) request.rdns) checks ∙ unconfirmed) now instant
        nonce
