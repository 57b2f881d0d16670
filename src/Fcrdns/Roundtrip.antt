-- ===== src/Fcrdns/Roundtrip.antt =====
-- A query for a name, read by the reader of responses: crates/binda-core/src/fcrdns.rs.
use binda.Prelude.{
  ℕ, zero, suc, ◌+◌, ◌*◌, ◌%◌, ◌≤◌, ◌<◌, ◌≡◌, refl, ap, ◌∙◌, inl, inr, Bool, true, false, ◌&&◌, not,
  Option, none, some, List, [], ◌∷◌, ◌++◌, arith, Bool-cases, length, ◌==◌, nat_eq, list_eq,
  length-append, subst,
}
use Prim.Native.Nat.{bit_and}
use mathlib.Core.List.{append_assoc, append-nil}
use binda.Prelude.Range.{Continues, Continues-next, get_range-here, length-goes_on}
use binda.Text.{Text, IsText}
use binda.Text.Split.{join-split, split}
use binda.Text.Utf8.{as_bytes, from_utf8_lossy-as_bytes}
use binda.Fcrdns.{
  done, byte_at, label_at, some_or_refused, ◌>>=◌, read_labels, first_of, read_name, name_fuel,
  encode_labels,
}

-- A label that a query can carry: some text, of a length whose first bits do not make it a pointer.
abbrev pub Fits : List Text → Type 0
Fits [] = Unit
Fits (l ∷ ls) = (IsText l × (0 < length (as_bytes l)) × (length (as_bytes l) < 192)) × Fits ls

length-as_bytes_nil : length (as_bytes []) ≡ 0
unfolding as_bytes
length-as_bytes_nil = refl

-- The lengths below `n` are no pointers.
no_pointers : ℕ → Bool
no_pointers zero = true
no_pointers (suc n) = not (bit_and n 0xC0 == 0xC0) && no_pointers n

no_pointers-below :
    (n len : ℕ) → no_pointers n ≡ true → len < n → (bit_and len 0xC0 == 0xC0) ≡ false
unfolding no_pointers
no_pointers-below zero len h p = absurd (omega arith)
no_pointers-below (suc n) len h p = elim (Bool-cases (len == n)) [
  | inl e ↦ let same : len ≡ n = ground (arith, e) in rw same (ground (arith, h))
  | inr e ↦ no_pointers-below n len (ground (arith, h)) (ground (arith, e))
]

checked : no_pointers 192 ≡ true
unfolding no_pointers
checked = refl

byte_at-here :
    (buf : List ℕ) (pos b : ℕ) (rest : List ℕ)
    → Continues buf pos (b ∷ rest)
    → byte_at buf pos ≡ done b
unfolding byte_at
byte_at-here [] zero b rest c = cc (c.goes_on)
byte_at-here [] (suc pos) b rest c = cc (c.goes_on)
byte_at-here (x ∷ xs) zero b rest c = ap done (cc (c.goes_on))
byte_at-here (x ∷ xs) (suc pos) b rest c =
    byte_at-here xs pos b rest (record { inside = omega (arith, c.inside); goes_on = c.goes_on })

label_at-here :
    (buf : List ℕ) (pos : ℕ) (l : Text) (rest : List ℕ)
    → IsText l
    → Continues buf pos (as_bytes l ++ rest)
    → label_at buf pos (length (as_bytes l)) ≡ done l
unfolding label_at some_or_refused ◌>>=◌
label_at-here buf pos l rest h c =
    rw
      (
        label_at,
        get_range-here buf pos (length (as_bytes l)) (as_bytes l) rest c refl,
        from_utf8_lossy-as_bytes l h,
      )
      refl

-- One round of the loop that reads a label.
read_labels-step :
    (fuel : ℕ) (buf : List ℕ) (pos len : ℕ) (end_pos : Option ℕ) (jumps : ℕ) (found : List Text)
    (l : Text)
    → byte_at buf pos ≡ done len
    → label_at buf (pos + 1) len ≡ done l
    → 0 < len
    → len < 192
    → read_labels (suc fuel) buf pos end_pos jumps found
      ≡ read_labels fuel buf (pos + 1 + len) end_pos jumps (found ++ (l ∷ []))
unfolding read_labels
read_labels-step fuel buf pos len end_pos jumps found l q r p h =
    let some_len : (len == 0) ≡ false = ground (arith, p) in
    rw (read_labels, q, some_len, no_pointers-below 192 len checked h, r) refl

read_labels-encode_labels :
    (ls : List Text) (fuel : ℕ) (buf : List ℕ) (pos : ℕ) (end_pos : Option ℕ) (jumps : ℕ)
    (found : List Text) (rest : List ℕ)
    → Fits ls
    → length ls < fuel
    → Continues buf pos (encode_labels ls ++ (0 ∷ rest))
    → (end : ℕ) × (read_labels fuel buf pos end_pos jumps found
        ≡ done (found ++ ls, first_of end_pos end))
      × Continues buf end rest
unfolding read_labels encode_labels
read_labels-encode_labels ls zero buf pos end_pos jumps found rest f h c = absurd (omega arith)
read_labels-encode_labels [] (suc fuel) buf pos end_pos jumps found rest f h c = (
  pos + 1,
  rw (read_labels, byte_at-here buf pos 0 rest c, append-nil found) refl,
  Continues-next buf pos 1 (0 ∷ []) rest c refl,
)
read_labels-encode_labels ([] ∷ ls) (suc fuel) buf pos end_pos jumps found rest f h c =
    absurd (omega (arith, f.0.1, length-as_bytes_nil))
read_labels-encode_labels ((x ∷ l) ∷ ls) (suc fuel) buf pos end_pos jumps found rest f h c =
    let size = length (as_bytes (x ∷ l)) in
    let tail = as_bytes (x ∷ l) ++ (encode_labels ls ++ (0 ∷ rest)) in
    let one_byte : size % 256 ≡ size = omega (arith, f.0.2) in
    let shape : encode_labels ((x ∷ l) ∷ ls) ++ (0 ∷ rest) ≡ size ∷ tail =
      rw one_byte (ap (◌∷◌ size) (append_assoc (as_bytes (x ∷ l)) (encode_labels ls) (0 ∷ rest))) in
    let here : Continues buf pos (size ∷ tail) = subst (Continues buf pos) shape c in
    let inner : Continues buf (pos + 1) tail =
      Continues-next buf pos 1 (size ∷ []) tail here refl in
    let after =
      Continues-next buf (pos + 1) size (as_bytes (x ∷ l)) (encode_labels ls ++ (0 ∷ rest)) inner
        refl in
    let (end, later, goes) =
      read_labels-encode_labels ls fuel buf (pos + 1 + size) end_pos jumps (found ++ ((x ∷ l) ∷ []))
        rest f.1 (omega arith) after in
    (
      end,
      read_labels-step fuel buf pos size end_pos jumps found (x ∷ l)
            (byte_at-here buf pos size tail here)
            (label_at-here buf (pos + 1) (x ∷ l) (encode_labels ls ++ (0 ∷ rest)) f.0.0 inner) f.0.1
            f.0.2
          ∙ later
          ∙ ap (λ z. done (z, first_of end_pos end)) (append_assoc found ((x ∷ l) ∷ []) ls),
      goes,
    )

length-encode_labels : (ls : List Text) → Fits ls → length ls ≤ length (encode_labels ls)
unfolding encode_labels
length-encode_labels [] f = omega arith
length-encode_labels ([] ∷ ls) f = absurd (omega (arith, f.0.1, length-as_bytes_nil))
length-encode_labels ((x ∷ l) ∷ ls) f =
    omega (arith, length-append (as_bytes (x ∷ l)) (encode_labels ls), length-encode_labels ls f.1)

-- The labels of a name, with the byte that ends them.
abbrev pub name_bytes : Text → List ℕ → List ℕ
name_bytes name rest = encode_labels (split b'.' name) ++ (0 ∷ rest)

enough :
    (buf : List ℕ) (pos : ℕ) (ls : List Text) (rest : List ℕ)
    → Fits ls
    → Continues buf pos (encode_labels ls ++ rest)
    → length ls ≤ length buf
enough buf pos ls rest f c = omega (
  arith,
  length-goes_on buf pos (encode_labels ls ++ rest) c,
  length-append (encode_labels ls) rest,
  length-encode_labels ls f,
)

pub read_name-name_bytes :
    (buf : List ℕ) (pos : ℕ) (name : Text) (rest : List ℕ)
    → Fits (split b'.' name)
    → Continues buf pos (name_bytes name rest)
    → (end : ℕ) × (read_name buf pos ≡ done (name, end)) × Continues buf end rest
unfolding read_name ◌>>=◌
read_name-name_bytes buf pos name rest f c =
    let ls = split b'.' name in
    let (end, read, goes) =
      read_labels-encode_labels ls (name_fuel buf) buf pos none 0 [] rest f
        (omega (arith, enough buf pos ls (0 ∷ rest) f c)) c in
    (end, rw (read_name, read) (ap (λ z. done (z, end)) (join-split b'.' name)), goes)

-- A pointer to the name of the question reads as that name.
pub read_name-pointer :
    (buf : List ℕ) (pos : ℕ) (name : Text) (after rest : List ℕ)
    → Fits (split b'.' name)
    → Continues buf 12 (name_bytes name after)
    → Continues buf pos (0xC0 ∷ 12 ∷ rest)
    → read_name buf pos ≡ done (name, pos + 2)
unfolding read_name read_labels ◌>>=◌
read_name-pointer buf pos name after rest f question c =
    let ls = split b'.' name in
    let first = byte_at-here buf pos 0xC0 (12 ∷ rest) c in
    let second =
      byte_at-here buf (pos + 1) 12 rest
        (Continues-next buf pos 1 (0xC0 ∷ []) (12 ∷ rest) c refl) in
    let (end, read, goes) =
      read_labels-encode_labels ls (33 * length buf + 32) buf 12 (some (pos + 2)) 1 [] after f
        (omega (arith, enough buf 12 ls (0 ∷ after) f question)) question in
    let fuel : name_fuel buf ≡ suc (33 * length buf + 32) = omega arith in
    rw (read_name, fuel, read_labels, first, second, read)
      (ap (λ z. done (z, pos + 2)) (join-split b'.' name))
