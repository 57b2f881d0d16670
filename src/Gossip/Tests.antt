-- ===== src/Gossip/Tests.antt =====
-- Instances for crates/binda-core/src/gossip.rs.
use binda.Prelude.{◌≡◌, ◌↔◌, true, nat_eq, list_eq}
use binda.Text.{codes}
use binda.Gossip.{RegistrationRumor, is_authorized}
use binda.Gossip.Authority.{IsSigned, is_authorized_iff}
use binda.Samples.{externals, rumor, name}

abbrev rumor_a : RegistrationRumor
rumor_a = rumor 5 name (codes "k")

is_authorized_iff_example :
    (is_authorized (externals true) rumor_a ≡ true) ↔ IsSigned (externals true) rumor_a
is_authorized_iff_example = is_authorized_iff (externals true) rumor_a
