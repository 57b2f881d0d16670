-- ===== src/Cli.antt =====
-- The command line: crates/binda/src/main.rs. The parser of socket addresses is a parameter, and an
-- `expect` that fails is an outcome.
pub mod Flags
pub mod Startup
pub mod Secure
mod Tests
use binda.Prelude.{
  ℕ, zero, suc, ◌+◌, ◌-◌, ◌*◌, ◌/◌, ◌%◌, ◌^◌, ◌≤◌, ◌<◌, compare, Ordering, ◌≡◌, refl, sym, ap, ◌∙◌,
  ◌≢◌, ◌↔◌, ◌⊎◌, inl, inr, Bool, true, false, ◌&&◌, ◌||◌, not, Option, none, some, List, [], ◌∷◌,
  ◌++◌, map, arith, ltb, leb, if◌then◌else◌, Bool-cases, Option-cases, length, Eq, ◌==◌, nat_eq,
  list_eq, list_eq_iff, ==_refl, length-append,
}
use binda.Text.{Text, codes}

-- What starts the node, with addresses of type `K`.
pub record Args (K : Type 0) : Type 0 where
  pub gossip_addr : K
  pub resolver_addr : K
  pub api_addr : K
  pub dns_addr : Option K
  pub peers : List K
  pub insecure_skip_rdns_verification : Bool

-- The arms of the match on a flag.
pub data Flag : Type 0 where
  gossip resolver api dns peer insecure_skip_rdns_verification unrecognized : Flag

unfoldable pub flag_of : Text → Flag
flag_of s =
    if s == codes "--gossip"
    then gossip
    else (if s == codes "--resolver"
        then resolver
        else (if s == codes "--api"
            then api
            else (if s == codes "--dns"
                then dns
                else (if s == codes "--peer"
                    then peer
                    else (if s == codes "--insecure-skip-rdns-verification"
                        then insecure_skip_rdns_verification
                        else unrecognized)))))

-- What was parsed, or the failed `expect` with its message.
pub data Outcome (K : Type 0) : Type 0 where
  parsed : Args K → Outcome K
  panicked : Text → Outcome K

-- The value of a flag, put where it belongs; a flag that takes none changes nothing.
unfoldable pub store_addr : {K : Type 0} → Flag → K → Args K → Args K
store_addr gossip addr args = record args { gossip_addr = addr }
store_addr resolver addr args = record args { resolver_addr = addr }
store_addr api addr args = record args { api_addr = addr }
store_addr dns addr args = record args { dns_addr = some addr }
store_addr peer addr args = record args { peers = args.peers ++ (addr ∷ []) }
store_addr insecure_skip_rdns_verification addr args = args
store_addr unrecognized addr args = args

-- Whether an address follows.
abbrev pub takes_address : Flag → Bool
takes_address insecure_skip_rdns_verification = false
takes_address unrecognized = false
takes_address _ = true

unfoldable pub set_flag : {K : Type 0} → Flag → Args K → Args K
set_flag insecure_skip_rdns_verification args = record args {
  insecure_skip_rdns_verification = true;
}
set_flag _ args = args

-- The messages of `expect`.
unfoldable pub requires_address : Text → Text
requires_address flag = flag ++ codes " requires an address"

unfoldable pub invalid_address : Text → Text
invalid_address flag = codes "invalid " ++ (flag ++ codes " address")

-- The loop over the arguments.
unfoldable pub parse_loop : {K : Type 0} → (Text → Option K) → Args K → List Text → Outcome K
unfolding flag_of store_addr set_flag requires_address invalid_address
parse_loop parse args [] = parsed args
parse_loop parse args (flag ∷ []) = elim (takes_address (flag_of flag)) [
  | true ↦ panicked (requires_address flag)
  | false ↦ parsed (set_flag (flag_of flag) args)
]
parse_loop parse args (flag ∷ value ∷ rest) = elim (takes_address (flag_of flag)) [
  | false ↦ parse_loop parse (set_flag (flag_of flag) args) (value ∷ rest)
  | true ↦ elim (parse value) [
    | none ↦ panicked (invalid_address flag)
    | some addr ↦ parse_loop parse (store_addr (flag_of flag) addr args) rest
  ]
]

-- `parse_args_from`, with the three default addresses as `parse` reads them.
unfoldable pub parse_args_from :
    {K : Type 0} → (Text → Option K) → K → K → K → List Text → Outcome K
unfolding parse_loop
parse_args_from parse gossip_addr resolver_addr api_addr args =
    parse_loop parse
      (record {
        gossip_addr = gossip_addr;
        resolver_addr = resolver_addr;
        api_addr = api_addr;
        dns_addr = none;
        peers = [];
        insecure_skip_rdns_verification = false;
      })
      args
