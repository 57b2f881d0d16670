-- ===== src/Text/Tests.antt =====
-- Runs of UTF-8, splitting and decimal numbers.
use binda.Prelude.{◌≡◌, refl, none, some, [], ◌∷◌, nat_eq, list_eq}
use binda.Text.{
  codes, trim, trim_end_matches, is_whitespace, drop_while, to_ascii_lowercase, ascii_lower,
}
use binda.Text.Utf8.{
  encode_char, as_bytes, first_byte, next_byte, decode, all_valid, replace_invalid, from_utf8,
  from_utf8_lossy,
}
use binda.Text.Split.{split, join}
use binda.Text.Decimal.{decimal, decimal_onto, read_decimal}

program : Unit {0}
unfolding encode_char as_bytes first_byte next_byte decode all_valid replace_invalid from_utf8
    from_utf8_lossy split join decimal_onto read_decimal trim trim_end_matches is_whitespace
    drop_while to_ascii_lowercase ascii_lower
program = tt

encodes : as_bytes (0xE9 ∷ 0x1F600 ∷ []) ≡ 0xC3 ∷ 0xA9 ∷ 0xF0 ∷ 0x9F ∷ 0x98 ∷ 0x80 ∷ []
unfolding program
encodes = refl

decodes : from_utf8 (0xC3 ∷ 0xA9 ∷ []) ≡ some (0xE9 ∷ [])
unfolding program
decodes = refl

refuses : (from_utf8 (0xC0 ∷ 0x80 ∷ []) ≡ none) × (from_utf8 (0xED ∷ 0xA0 ∷ 0x80 ∷ []) ≡ none)
unfolding program
refuses = (refl, refl)

replaces :
    from_utf8_lossy (0xFF ∷ b'a' ∷ 0xE2 ∷ 0x82 ∷ b'b' ∷ []) ≡ 0xFFFD ∷ b'a' ∷ 0xFFFD ∷ b'b' ∷ []
unfolding program
replaces = refl

splits : split b'.' (codes "a..b") ≡ codes "a" ∷ [] ∷ codes "b" ∷ []
unfolding program
splits = refl

prints : decimal 1_700_000_000_123 ≡ codes "1700000000123"
unfolding program
prints = refl

trims : to_ascii_lowercase (trim (codes "  A.Net ")) ≡ codes "a.net"
unfolding program
trims = refl
