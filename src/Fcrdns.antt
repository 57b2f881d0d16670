-- ===== src/Fcrdns.antt =====
-- Forward-confirmed reverse DNS: crates/binda-core/src/fcrdns.rs. Sockets are left out: what a
-- resolver sends back is an argument. A loop over a name takes fuel, `out_of_fuel` where it is used
-- up.
pub mod Response
pub mod Lookup
pub mod Progress
pub mod Names
pub mod Addresses
pub mod Confirmed
pub mod Verifier
pub mod Roundtrip
pub mod Reply
mod Tests
use binda.Prelude.{
  ℕ, zero, suc, ◌+◌, ◌-◌, ◌*◌, ◌/◌, ◌%◌, ◌^◌, ◌≤◌, ◌<◌, compare, Ordering, ◌≡◌, refl, sym, ap, ◌∙◌,
  ◌≢◌, ◌↔◌, ◌⊎◌, inl, inr, Bool, true, false, ◌&&◌, ◌||◌, not, Option, none, some, List, [], ◌∷◌,
  ◌++◌, map, arith, ltb, leb, if◌then◌else◌, Bool-cases, Option-cases, length, Eq, ◌==◌, nat_eq,
  list_eq, list_eq_iff, ==_refl, length-append, take, drop,
}
use Prim.Native.Nat.{bit_or, bit_and}
use binda.Prelude.Bytes.{be, from_be}
use binda.Prelude.Range.{get_range}
use binda.Text.{Text, codes, trim_end_matches, to_ascii_lowercase, hex_digit}
use binda.Text.Split.{split, join}
use binda.Text.Utf8.{as_bytes, from_utf8, from_utf8_lossy}
use binda.Text.Decimal.{decimal}

abbrev pub type_a : ℕ
type_a = 1

abbrev pub type_ptr : ℕ
type_ptr = 12

abbrev pub type_aaaa : ℕ
type_aaaa = 28

abbrev pub class_in : ℕ
class_in = 1

-- An address, as its octets.
pub data IpAddr : Type 0 where
  v4 : (octets : List ℕ) → IpAddr
  v6 : (octets : List ℕ) → IpAddr

pub data Parsed (A : Type 0) : Type 0 where
  done : (value : A) → Parsed A
  refused : Parsed A
  out_of_fuel : Parsed A

infixl 20 ◌>>=◌
unfoldable pub ◌>>=◌ : {A B : Type 0} → Parsed A → (A → Parsed B) → Parsed B
done a >>= f = f a
refused >>= f = refused
out_of_fuel >>= f = out_of_fuel

-- `?` on an `Option`
unfoldable pub some_or_refused : {A : Type 0} → Option A → Parsed A
some_or_refused none = refused
some_or_refused (some a) = done a

unfoldable pub normalize : Text → Text
normalize hostname = to_ascii_lowercase (trim_end_matches (λ c. c == b'.') hostname)

-- The nibbles of the octets, each octet's low one first, in the order of the list.
unfoldable pub nibbles : List ℕ → Text
nibbles [] = []
nibbles (byte ∷ bytes) = hex_digit (byte % 16) ∷ b'.' ∷ hex_digit (byte / 16) ∷ b'.' ∷ nibbles bytes

unfoldable pub reversed_onto : List ℕ → List ℕ → List ℕ
reversed_onto [] acc = acc
reversed_onto (b ∷ bs) acc = reversed_onto bs (b ∷ acc)

unfoldable pub ptr_query_name : IpAddr → Text
unfolding nibbles reversed_onto
ptr_query_name (v4 octets) =
    join b'.' (map decimal (reversed_onto octets [])) ++ codes ".in-addr.arpa"
ptr_query_name (v6 octets) = nibbles (reversed_onto octets []) ++ codes "ip6.arpa"

-- The loop over the labels; `as u8` keeps 8 bits of the length.
unfoldable pub encode_labels : List Text → List ℕ
encode_labels [] = []
encode_labels ([] ∷ ls) = encode_labels ls
encode_labels ((c ∷ l) ∷ ls) =
    (length (as_bytes (c ∷ l)) % 256) ∷ (as_bytes (c ∷ l) ++ encode_labels ls)

unfoldable pub encode_query : ℕ → Text → ℕ → List ℕ
unfolding encode_labels
encode_query id name qtype =
    be 2 id
    ++ (be 2 0x0100
        ++ (be 2 1
            ++ ((0 ∷ 0 ∷ 0 ∷ 0 ∷ 0 ∷ 0 ∷ [])
                ++ (encode_labels (split b'.' name) ++ (0 ∷ (be 2 qtype ++ be 2 class_in))))))

-- `buf.get(pos)?`
unfoldable pub byte_at : List ℕ → ℕ → Parsed ℕ
byte_at [] pos = refused
byte_at (b ∷ bs) zero = done b
byte_at (b ∷ bs) (suc pos) = byte_at bs pos

-- `end_pos`, set where it is not set yet.
abbrev pub first_of : Option ℕ → ℕ → ℕ
first_of none pos = pos
first_of (some p) pos = p

-- A label of `len` bytes at `pos`.
unfoldable pub label_at : List ℕ → ℕ → ℕ → Parsed Text
label_at buf pos len = do
  label ← some_or_refused (get_range buf pos len)
  done (from_utf8_lossy label)

-- The loop of `read_name`.
unfoldable pub read_labels : ℕ → List ℕ → ℕ → Option ℕ → ℕ → List Text → Parsed (List Text × ℕ)
read_labels zero buf pos end_pos jumps found = out_of_fuel
read_labels (suc fuel) buf pos end_pos jumps found = elim (byte_at buf pos) [
  | refused ↦ refused
  | out_of_fuel ↦ out_of_fuel
  | done len ↦
      if len == 0
      then done (found, first_of end_pos (pos + 1))
      else elim (bit_and len 0xC0 == 0xC0) [
        | true ↦ elim (byte_at buf (pos + 1)) [
          | refused ↦ refused
          | out_of_fuel ↦ out_of_fuel
          | done second ↦ elim (ltb 32 (jumps + 1)) [
            | true ↦ refused
            | false ↦
                read_labels fuel buf (bit_or (bit_and len 0x3F * 256) second)
                  (some (first_of end_pos (pos + 2))) (jumps + 1) found
          ]
        ]
        | false ↦ elim (label_at buf (pos + 1) len) [
          | refused ↦ refused
          | out_of_fuel ↦ out_of_fuel
          | done label ↦ read_labels fuel buf (pos + 1 + len) end_pos jumps (found ++ (label ∷ []))
        ]
      ]
]

-- A round for each byte, before each of 32 jumps and after the last.
abbrev pub name_fuel : List ℕ → ℕ
name_fuel buf = 33 * (length buf + 1)

unfoldable pub read_name : List ℕ → ℕ → Parsed (Text × ℕ)
read_name buf start = do
  r ← read_labels (name_fuel buf) buf start none 0 []
  done (join b'.' r.0, r.1)
