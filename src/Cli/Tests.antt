-- ===== src/Cli/Tests.antt =====
-- Instances for crates/binda/src/main.rs, with lengths for addresses.
use binda.Prelude.{
  ℕ, ◌≡◌, refl, true, false, Option, none, some, List, [], ◌∷◌, length, nat_eq, list_eq,
}
use binda.Text.{Text, codes}
use binda.Cli.{
  Args, parsed, panicked, flag_of, store_addr, set_flag, requires_address, invalid_address,
  parse_loop, parse_args_from,
}
use binda.Cli.Startup.{start}
use binda.Cli.Secure.{start_refuses_unconfirmed}
use binda.Fcrdns.{v4}
use binda.Fcrdns.Verifier.{Send, ask_resolvers, default_resolvers, replies, verify}
use binda.Fcrdns.Lookup.{is_forward_confirmed, reverse_lookup}
use binda.Fcrdns.Response.{query}
use binda.ClientApi.{SignedEnvelope, RegisterBody}
use binda.ClientApi
use binda.Node.{Node}
use binda.Node.Listeners.{answer_client}
use binda.Samples.{externals, envelope, name, host, whole}

program : Unit {0}
unfolding flag_of store_addr set_flag requires_address invalid_address parse_loop parse_args_from
program = tt

abbrev parse : Text → Option ℕ
parse [] = none
parse (c ∷ s) = some (length (c ∷ s))

abbrev arguments : List Text
arguments = codes "--peer" ∷ codes "a" ∷ codes "--peer" ∷ codes "bc" ∷ codes "--verbose" ∷ []

abbrev result : Args ℕ
result = record {
  gossip_addr = 10;
  resolver_addr = 11;
  api_addr = 12;
  dns_addr = none;
  peers = 1 ∷ 2 ∷ [];
  insecure_skip_rdns_verification = false;
}

parses : parse_args_from parse 10 11 12 arguments ≡ parsed result
unfolding program
parses = refl

value_missing :
    parse_args_from parse 10 11 12 (codes "--dns" ∷ [])
    ≡ panicked (codes "--dns requires an address")
unfolding program
value_missing = refl

-- No resolver answers.
abbrev silent : Send
silent resolver request = none

unconfirmed :
    is_forward_confirmed
      (ask_resolvers silent (λ n t. 7) default_resolvers)
      (v4 (10 ∷ 0 ∷ 0 ∷ 1 ∷ []))
      host
    ≡ false
unfolding is_forward_confirmed reverse_lookup ask_resolvers default_resolvers replies query
unconfirmed = refl

abbrev request : SignedEnvelope RegisterBody
request = envelope 1 5 (record { domain = name })

abbrev node : Node ℕ ℕ
node = (start whole result).0.node

start_refuses_unconfirmed_example :
    (answer_client whole
      (externals true)
      (λ k.
        verify silent (λ n t. 7) (start whole result).0.rdns_verifier (v4 (10 ∷ 0 ∷ 0 ∷ k ∷ [])))
      node
      5
      6
      []
      1
      (some (ClientApi.register request))).0.store
    ≡ node.store
start_refuses_unconfirmed_example =
    start_refuses_unconfirmed whole parse 10 11 12 arguments result (externals true) silent
      (λ n t. 7) (λ k. v4 (10 ∷ 0 ∷ 0 ∷ k ∷ [])) node 5 6 [] 1 request
      (refl, (refl, (refl, (refl, (refl, tt))))) parses unconfirmed
