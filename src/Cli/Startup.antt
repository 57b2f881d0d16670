-- ===== src/Cli/Startup.antt =====
-- What `main` starts: crates/binda/src/main.rs, with the constructors of crates/binda/src/node.rs. A
-- listener's task is the address that it binds; the tasks run for ever.
use binda.Prelude.{Option, List, if◌then◌else◌, Eq, nat_eq, list_eq}
use binda.RateLimit.{FloatOps}
use binda.Fcrdns.Verifier.{RdnsVerifier, fcrdns_verifier, allow_all_verifier}
use binda.Node.{Node}
use binda.Node.Listeners.{new_with_verifier}
use binda.Cli.{Args}

-- A node, with what it checks hostnames by.
pub record Started (F K : Type 0) : Type 0 where
  pub node : Node F K
  pub rdns_verifier : RdnsVerifier

module _ {F K : Type 0} ⦃e : Eq K⦄ (f : FloatOps F) where
  -- `Node::new`
  unfoldable pub new : List K → Started F K
  unfolding new_with_verifier
  new peers = record { node = new_with_verifier f peers; rdns_verifier = fcrdns_verifier }

  unfoldable pub new_allowing_any_rdns : List K → Started F K
  unfolding new_with_verifier
  new_allowing_any_rdns peers = record {
    node = new_with_verifier f peers;
    rdns_verifier = allow_all_verifier;
  }

pub record ListenerTasks (K : Type 0) : Type 0 where
  pub gossip : K
  pub resolver : K
  pub api : K
  pub dns : Option K

unfoldable pub spawn_listener_tasks : {K : Type 0} → Args K → ListenerTasks K
spawn_listener_tasks args = record {
  gossip = args.gossip_addr;
  resolver = args.resolver_addr;
  api = args.api_addr;
  dns = args.dns_addr;
}

-- `main`, after the arguments were parsed.
unfoldable pub start :
    {F K : Type 0} ⦃e : Eq K⦄ → FloatOps F → Args K → Started F K × ListenerTasks K
unfolding new new_allowing_any_rdns spawn_listener_tasks
start f args = (
  if args.insecure_skip_rdns_verification
      then new_allowing_any_rdns f args.peers
      else new f args.peers,
  spawn_listener_tasks args,
)
