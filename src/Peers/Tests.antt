-- ===== src/Peers/Tests.antt =====
-- Instances for crates/binda/src/peers.rs.
use binda.Prelude.{ℕ, ◌≡◌, refl, List, [], ◌∷◌, nat_eq, list_eq}
use binda.Peers.{learn, known}

abbrev book : List ℕ
book = 9000 ∷ []

learns_once : learn (learn book 9001) 9001 ≡ 9000 ∷ 9001 ∷ []
unfolding learn known
learns_once = refl
