-- ===== src/Domain/Tests.antt =====
-- Tests and instances for crates/binda-core/src/domain.rs.
use binda.Prelude.{◌≡◌, refl, ◌↔◌, [], ◌∷◌, arith, nat_eq, list_eq}
use binda.Text.{codes}
use binda.Text.Split.{split, join}
use binda.Domain.{
  empty, non_printable_char, empty_label, ok, err, new, labels, refused, first_refused, any_empty,
}
use binda.Domain.Valid.{IsDomain, new-ok_iff, new_undotted}

program : Unit {0}
unfolding new labels refused first_refused any_empty split join
program = tt

accepts_dotted : new (codes "a.b") ≡ ok (codes "a.b")
unfolding program
accepts_dotted = refl

rejects_control_chars : new (b'e' ∷ 7 ∷ b'x' ∷ []) ≡ err (non_printable_char 1)
unfolding program
rejects_control_chars = refl

rejects_empty_labels :
    (new (codes "a..b") ≡ err empty_label)
    × (new (codes ".a") ≡ err empty_label)
    × (new (codes "a.") ≡ err empty_label)
    × (new [] ≡ err empty)
unfolding program
rejects_empty_labels = (refl, refl, refl, refl)

-- A no-break space, and a zero-width space.
new_undotted_example : new (0xa0 ∷ 0x200b ∷ []) ≡ ok (0xa0 ∷ 0x200b ∷ [])
unfolding program
new_undotted_example = new_undotted 0xa0 (0x200b ∷ []) (ground arith) (refl, (refl, tt))

new-ok_iff_example :
    (new (codes "a.b") ≡ ok (codes "a.b")) ↔ (IsDomain (codes "a.b") × (codes "a.b" ≡ codes "a.b"))
new-ok_iff_example = new-ok_iff (codes "a.b") (codes "a.b")
