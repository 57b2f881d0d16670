-- ===== src/Text.antt =====
-- The text operations that the program takes from the standard library, over Unicode scalar values:
-- a `String` is the list of its scalar values, and its bytes are their UTF-8 form.
pub mod Utf8
pub mod Split
pub mod Decimal
mod Tests
use Prim.Native.Char.{code}
use Prim.Native.String.{String}
use binda.Prelude.{
  ℕ, zero, suc, ◌+◌, ◌-◌, ◌*◌, ◌/◌, ◌%◌, ◌≤◌, ◌<◌, ◌≡◌, Bool, true, false, ◌&&◌, ◌||◌, List, [],
  ◌∷◌, ◌++◌, map, ltb, leb, ◌==◌, nat_eq, if◌then◌else◌,
}

abbrev pub Text : Type 0
Text = List ℕ

-- A literal of the source.
abbrev pub codes : String → Text
codes String.[] = []
codes (String.◌∷◌ c s) = code c ∷ codes s

-- A `char`: a code point that is no surrogate.
abbrev pub is_scalar : ℕ → Bool
is_scalar c = ltb c 0xd800 || (leb 0xe000 c && ltb c 0x110000)

abbrev pub IsText : Text → Type 0
IsText [] = Unit
IsText (c ∷ s) = (is_scalar c ≡ true) × IsText s

-- `char::is_control`: the general category Cc.
unfoldable pub is_control : ℕ → Bool
is_control c = ltb c 0x20 || (leb 0x7f c && leb c 0x9f)

-- `char::is_whitespace`
unfoldable pub is_whitespace : ℕ → Bool
is_whitespace c =
    (leb 9 c && leb c 13)
    || c == 0x20
    || c == 0x85
    || c == 0xa0
    || c == 0x1680
    || (leb 0x2000 c && leb c 0x200a)
    || c == 0x2028
    || c == 0x2029
    || c == 0x202f
    || c == 0x205f
    || c == 0x3000

-- `trim_start_matches`
unfoldable pub drop_while : (ℕ → Bool) → Text → Text
drop_while p [] = []
drop_while p (c ∷ s) = if p c then drop_while p s else c ∷ s

-- `trim_end_matches`
unfoldable pub trim_end_matches : (ℕ → Bool) → Text → Text
trim_end_matches p [] = []
trim_end_matches p (c ∷ s) =
    let rest = trim_end_matches p s in
    elim rest [ [] ↦ if p c then [] else c ∷ [] | d ∷ r ↦ c ∷ d ∷ r ]

-- `trim`
unfoldable pub trim : Text → Text
trim s = trim_end_matches is_whitespace (drop_while is_whitespace s)

unfoldable pub ascii_lower : ℕ → ℕ
ascii_lower c = if leb b'A' c && leb c b'Z' then c + 32 else c

-- `to_ascii_lowercase`
unfoldable pub to_ascii_lowercase : Text → Text
to_ascii_lowercase s = map ascii_lower s

-- `{b:02x}`
unfoldable pub hex_digit : ℕ → ℕ
hex_digit d = if ltb d 10 then b'0' + d else b'a' + d - 10
