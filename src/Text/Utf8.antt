-- ===== src/Text/Utf8.antt =====
-- UTF-8: `as_bytes`, `str::from_utf8` and `String::from_utf8_lossy`. The decoder reads one byte at a
-- time, as the standard library's does: a sequence that breaks off is one error, and the byte that
-- broke it is read again as the first of the next.
use mathlib.Core.List.{append_assoc}
use binda.Prelude.Bytes.{IsBytes, IsBytes-append}
use binda.Prelude.{
  ℕ, zero, suc, ◌+◌, ◌-◌, ◌*◌, ◌/◌, ◌%◌, ◌≡◌, true, ◌&&◌, List, [], ◌∷◌, ◌++◌, ltb, leb, ◌==◌,
  nat_eq, if◌then◌else◌, Option, none, some, arith, map, refl, ap, ◌∙◌,
}
use binda.Text.{Text, is_scalar, IsText}

unfoldable pub encode_char : ℕ → List ℕ
encode_char c =
    if ltb c 0x80
    then c ∷ []
    else (if ltb c 0x800
        then (0xc0 + c / 64) ∷ (0x80 + c % 64) ∷ []
        else (if ltb c 0x10000
            then (0xe0 + c / 4096) ∷ (0x80 + c / 64 % 64) ∷ (0x80 + c % 64) ∷ []
            else (0xf0 + c / 262144)
              ∷ (0x80 + c / 4096 % 64)
              ∷ (0x80 + c / 64 % 64)
              ∷ (0x80 + c % 64)
              ∷ []))

-- `as_bytes`
unfoldable pub as_bytes : Text → List ℕ
as_bytes [] = []
as_bytes (c ∷ s) = encode_char c ++ as_bytes s

-- What the decoder has read of a sequence: nothing, or `value` with `more` bytes to come, the next
-- of which lies between `low` and `high`.
pub data Pending : Type 0 where
  start : Pending
  partial : (more value low high : ℕ) → Pending

-- `none` is an error, `some c` a scalar value.
unfoldable pub first_byte : ℕ → List (Option ℕ) × Pending
first_byte b =
    if ltb b 0x80
    then (some b ∷ [], start)
    else (if leb 0xc2 b && leb b 0xdf
        then ([], partial 0 (b - 0xc0) 0x80 0xbf)
        else (if b == 0xe0
            then ([], partial 1 0 0xa0 0xbf)
            else (if b == 0xed
                then ([], partial 1 13 0x80 0x9f)
                else (if leb 0xe1 b && leb b 0xef
                    then ([], partial 1 (b - 0xe0) 0x80 0xbf)
                    else (if b == 0xf0
                        then ([], partial 2 0 0x90 0xbf)
                        else (if b == 0xf4
                            then ([], partial 2 4 0x80 0x8f)
                            else (if leb 0xf1 b && leb b 0xf3
                                then ([], partial 2 (b - 0xf0) 0x80 0xbf)
                                else (none ∷ [], start))))))))

unfoldable pub next_byte : Pending → ℕ → List (Option ℕ) × Pending
unfolding first_byte
next_byte start b = first_byte b
next_byte (partial zero value low high) b =
    if leb low b && leb b high
    then (some (value * 64 + (b - 0x80)) ∷ [], start)
    else (none ∷ (first_byte b).0, (first_byte b).1)
next_byte (partial (suc more) value low high) b =
    if leb low b && leb b high
    then ([], partial more (value * 64 + (b - 0x80)) 0x80 0xbf)
    else (none ∷ (first_byte b).0, (first_byte b).1)

unfoldable pub decode : Pending → List ℕ → List (Option ℕ)
unfolding next_byte
decode start [] = []
decode (partial more value low high) [] = none ∷ []
decode p (b ∷ bs) = let step = next_byte p b in step.0 ++ decode step.1 bs

unfoldable pub all_valid : List (Option ℕ) → Option Text
all_valid [] = some []
all_valid (none ∷ os) = none
all_valid (some c ∷ os) =
    let rest = all_valid os in elim rest [ none ↦ none | some s ↦ some (c ∷ s) ]

unfoldable pub replace_invalid : List (Option ℕ) → Text
replace_invalid [] = []
replace_invalid (none ∷ os) = 0xfffd ∷ replace_invalid os
replace_invalid (some c ∷ os) = c ∷ replace_invalid os

-- `str::from_utf8`
unfoldable pub from_utf8 : List ℕ → Option Text
unfolding all_valid decode
from_utf8 bs = all_valid (decode start bs)

-- `String::from_utf8_lossy`
unfoldable pub from_utf8_lossy : List ℕ → Text
unfolding replace_invalid decode
from_utf8_lossy bs = replace_invalid (decode start bs)

-- A scalar value's encoding reads back as that value, whatever follows.
pub decode-encode_char :
    (c : ℕ) (rest : List ℕ)
    → is_scalar c ≡ true
    → decode start (encode_char c ++ rest) ≡ some c ∷ decode start rest
unfolding encode_char decode
decode-encode_char c rest h = ground arith

decode_nil : decode start [] ≡ []
unfolding decode
decode_nil = refl

decode-as_bytes : (s : Text) → IsText s → decode start (as_bytes s) ≡ map some s
unfolding as_bytes
decode-as_bytes [] h = decode_nil
decode-as_bytes (c ∷ s) h =
    decode-encode_char c (as_bytes s) h.0 ∙ ap (◌∷◌ (some c)) (decode-as_bytes s h.1)

all_valid-map-some : (s : Text) → all_valid (map some s) ≡ some s
unfolding all_valid
all_valid-map-some [] = refl
all_valid-map-some (c ∷ s) = rw (all_valid-map-some s)

replace_invalid-map-some : (s : Text) → replace_invalid (map some s) ≡ s
unfolding replace_invalid
replace_invalid-map-some [] = refl
replace_invalid-map-some (c ∷ s) = ap (◌∷◌ c) (replace_invalid-map-some s)

-- `from_utf8(s.as_bytes())` is `s`, for every text of scalar values.
pub from_utf8-as_bytes : (s : Text) → IsText s → from_utf8 (as_bytes s) ≡ some s
unfolding from_utf8
from_utf8-as_bytes s h = rw (decode-as_bytes s h) (all_valid-map-some s)

pub from_utf8_lossy-as_bytes : (s : Text) → IsText s → from_utf8_lossy (as_bytes s) ≡ s
unfolding from_utf8_lossy
from_utf8_lossy-as_bytes s h = rw (decode-as_bytes s h) (replace_invalid-map-some s)

-- Texts with the same bytes are equal.
pub as_bytes-injective : (s t : Text) → IsText s → IsText t → as_bytes s ≡ as_bytes t → s ≡ t
as_bytes-injective s t hs ht e = cc (from_utf8-as_bytes s hs, from_utf8-as_bytes t ht)

encode_char-IsBytes : (c : ℕ) → is_scalar c ≡ true → IsBytes (encode_char c)
unfolding encode_char
encode_char-IsBytes c h = ground arith

pub as_bytes-IsBytes : (s : Text) → IsText s → IsBytes (as_bytes s)
unfolding as_bytes
as_bytes-IsBytes [] h = tt
as_bytes-IsBytes (c ∷ s) h =
    IsBytes-append (encode_char c) (as_bytes s) (encode_char-IsBytes c h.0) (as_bytes-IsBytes s h.1)

pub as_bytes-append : (s t : Text) → as_bytes (s ++ t) ≡ as_bytes s ++ as_bytes t
unfolding as_bytes
as_bytes-append [] t = refl
as_bytes-append (c ∷ s) t = rw (as_bytes-append s t, append_assoc)
