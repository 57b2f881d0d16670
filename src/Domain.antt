-- ===== src/Domain.antt =====
-- Domain names: crates/binda-core/src/domain.rs. A `DomainName` is the text that it wraps.
pub mod Valid
mod Tests
use binda.Prelude.{
  ℕ, zero, suc, ◌+◌, ◌-◌, ◌*◌, ◌/◌, ◌%◌, ◌^◌, ◌≤◌, ◌<◌, compare, Ordering, ◌≡◌, refl, sym, ap, ◌∙◌,
  ◌≢◌, ◌↔◌, ◌⊎◌, inl, inr, Bool, true, false, ◌&&◌, ◌||◌, not, Option, none, some, List, [], ◌∷◌,
  ◌++◌, map, arith, ltb, leb, if◌then◌else◌, Bool-cases, Option-cases, length, Eq, ◌==◌, nat_eq,
  list_eq, list_eq_iff, ==_refl, length-append,
}
use binda.Text.{Text, is_control}
use binda.Text.Split.{split}
use binda.Text.Utf8.{encode_char}

abbrev pub DomainName : Type 0
DomainName = Text

pub data DomainNameError : Type 0 where
  empty : DomainNameError
  non_printable_char : (offset : ℕ) → DomainNameError
  empty_label : DomainNameError

pub data Result : Type 0 where
  ok : DomainName → Result
  err : DomainNameError → Result

-- The test of one character.
unfoldable pub refused : ℕ → Bool
unfolding is_control
refused ch = is_control ch || ch == b' '

-- The loop over `char_indices`; an index is the offset of the character's first byte.
unfoldable pub first_refused : ℕ → Text → Option ℕ
unfolding refused encode_char
first_refused offset [] = none
first_refused offset (ch ∷ rest) =
    let later = first_refused (offset + length (encode_char ch)) rest in
    if refused ch then some offset else later

-- `any(|label| label.is_empty())`
unfoldable pub any_empty : List Text → Bool
any_empty [] = false
any_empty ([] ∷ labels) = true
any_empty ((c ∷ s) ∷ labels) = any_empty labels

-- `DomainName::new`
unfoldable pub new : Text → Result
new [] = err empty
new (c ∷ s) = elim (first_refused 0 (c ∷ s)) [
  | some offset ↦ err (non_printable_char offset)
  | none ↦ if any_empty (split b'.' (c ∷ s)) then err empty_label else ok (c ∷ s)
]

unfoldable pub labels : DomainName → List Text
labels d = split b'.' d

unfoldable pub as_str : DomainName → Text
as_str d = d

-- `Display`
unfoldable pub fmt : DomainName → Text
fmt d = d

-- `TryFrom`
unfoldable pub try_from : Text → Result
unfolding new
try_from value = new value
