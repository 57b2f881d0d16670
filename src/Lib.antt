-- ===== src/Lib.antt =====
-- A verification library for BINDA, a peer-to-peer name registry: nodes register names for clients
-- that prove that they are live, gossip the registrations as signed rumors, settle collisions
-- without a coordinator, and answer lookups.
--
-- The program's parts, each with the module that models it:
-- * crates/binda-core/src/token.rs, Token: registration tokens and their ordering key.
-- * crates/binda-core/src/collision.rs, Collision: who wins of two claims.
-- * crates/binda-core/src/domain.rs, Domain, and zone.rs, Zone: names and records.
-- * crates/binda-core/src/client.rs, Client, and client_api.rs, ClientApi: identities, signed
--   requests, and their authentication.
-- * crates/binda-core/src/gossip.rs, Gossip: rumors, challenges, and the checks on messages.
-- * crates/binda-core/src/liveness.rs, Liveness: which hosts have probed within the window.
--   Liveness.Abstract says it without the maps.
-- * crates/binda-core/src/store.rs, Store: the registrations, the claims of each host, admission
--   (Store.Register), replication (Store.Evidence) and reclamation. Store.Reach has the calls as
--   steps; Store.Names and Store.Retained are about which of a host's claims stay,
--   Store.Keyed about whose a name is, Store.Leases and Store.Mirror about the registrations that
--   claims give, Store.Reclaim and Store.Tracked about reclamation, and Store.Forged about leases
--   whose token was replaced.
-- * crates/binda-core/src/api.rs, Api: what a node answers to a client's request.
-- * crates/binda-core/src/rate_limit.rs, RateLimit: token buckets.
-- * crates/binda-core/src/dns.rs, Dns: the lookup protocol on the wire.
-- * crates/binda-core/src/wire.rs, Wire: frames and their size limit.
-- * crates/binda-core/src/ntp.rs, Ntp: the disciplined clock, and Ntp.Rounds: its synchronisation.
-- * crates/binda-core/src/fcrdns.rs, Fcrdns: forward-confirmed reverse DNS, with Fcrdns.Response for
--   what resolvers send, Fcrdns.Lookup for the check, Fcrdns.Verifier for who makes it,
--   Fcrdns.Reply for a reference encoding of a resolver's reply, Fcrdns.Names for when two names are
--   the same and Fcrdns.Addresses for what a forward lookup gives.
-- * crates/binda/src/peers.rs, Peers: the address book, and main.rs, Cli: the command line, and
--   Cli.Startup: what it starts.
-- * crates/binda/src/node.rs, Node and Node.Listeners: the gossip handlers and one round of each
--   listener, which joins the parts above; crates/binda-core/src/resolver.rs has one's answer.
--   Node.Reach has the messages as steps; Node.Quota is about the cap on registrations.
-- * crates/binda/examples/client_demo.rs, Demo: the example client's requests and its query.
-- Prelude has the shared helpers (maps, byte strings, sorting), Text has strings as lists of
-- Unicode scalar values with UTF-8, and Samples has inputs for the tests.
--
-- How the model reads the code: a method that changes an object takes its state and gives the new
-- one; an operation keeps the source's name, except RegistryStore::lookup, which is Store.find. A
-- HashMap is an association list, and where Rust leaves its order open the list's order stands for
-- it. Random bytes, coins and the time are arguments: an operation is given one reading of the
-- clock for all that it does. ed25519 verification and JSON are parameters (Client.Externals,
-- Wire.Json), as are signing (Demo.SigningKey), TOML (Zone.Toml), f64 (RateLimit.FloatOps), the
-- parsers of addresses (Dns.AddrParser, and an argument of Cli) and what resolvers send
-- (Fcrdns.Verifier.Send). Lengths and times are natural numbers; a cast that cuts a number to its
-- width is written out, and a saturating subtraction stops at 0.
--
-- Fuel: Dns.read_labels has a round for each byte of the message, since each label uses four or more.
-- Fcrdns.read_labels has 33 rounds for each byte and 33 more, since a name has at most 32 jumps and
-- the bytes between two jumps are read once.
--
-- Not modelled: sockets, tasks, locks and threads (a message is handled to its end before the next),
-- logging and printing, and the sockets of the demo client.
pub mod Prelude
pub mod Text
pub mod Token
pub mod Collision
pub mod Domain
pub mod Zone
pub mod Client
pub mod ClientApi
pub mod Gossip
pub mod Liveness
pub mod Store
pub mod Api
pub mod RateLimit
pub mod Dns
pub mod Wire
pub mod Peers
pub mod Node
pub mod Ntp
pub mod Fcrdns
pub mod Samples
pub mod Cli
pub mod Demo
