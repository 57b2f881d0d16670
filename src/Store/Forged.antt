-- ===== src/Store/Forged.antt =====
-- A lease whose token was replaced on the way: crates/binda-core/src/store.rs, with the checks of
-- crates/binda-core/src/gossip.rs.
use binda.Prelude.{nat_eq, list_eq}
use binda.Text.{Text}
use binda.Token.{token_eq}
