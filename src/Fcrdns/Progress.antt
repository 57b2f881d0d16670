-- ===== src/Fcrdns/Progress.antt =====
-- The reader of DNS responses always returns: crates/binda-core/src/fcrdns.rs.
use binda.Prelude.{
  ℕ, zero, suc, ◌+◌, ◌-◌, ◌*◌, ◌/◌, ◌%◌, ◌^◌, ◌≤◌, ◌<◌, ◌≡◌, refl, ap, ◌∙◌, ◌⊎◌, inl, inr, ◌||◌,
  not, Option, none, some, List, [], ◌∷◌, ◌++◌, arith, ltb, leb, Bool-cases, length, ◌==◌, nat_eq,
  list_eq, take, drop,
}
use Prim.Native.Nat.{bit_and}
use native.Mathlib.Nat.{suc-mul}
use binda.Prelude.Range.{get_range}
use binda.Text.{Text}
use binda.Text.Utf8.{from_utf8_lossy}
use binda.Fcrdns.{
  Parsed, done, refused, out_of_fuel, ◌>>=◌, some_or_refused, byte_at, label_at, read_labels,
  name_fuel, read_name,
}
use binda.Fcrdns.Response.{
  read_u16, skip_questions, answer_data, header_u16, read_answer, read_answers, parse_response,
}

-- The parse ends, with a value or a refusal.
abbrev pub Ends : {A : Type 0} → Parsed A → Type 0
Ends (done a) = Unit
Ends refused = Unit
Ends out_of_fuel = ⊥

Ends-bind :
    {A B : Type 0} (p : Parsed A) (f : A → Parsed B)
    → Ends p
    → ((a : A) → Ends (f a))
    → Ends (p >>= f)
unfolding ◌>>=◌
Ends-bind (done a) f p h = h a
Ends-bind refused f p h = tt
Ends-bind out_of_fuel f p h = p

some_or_refused-Ends : {A : Type 0} (o : Option A) → Ends (some_or_refused o)
unfolding some_or_refused
some_or_refused-Ends none = tt
some_or_refused-Ends (some a) = tt

-- What a byte that is read says of the position.
byte_at-cases :
    (buf : List ℕ) (pos : ℕ)
    → (byte_at buf pos ≡ refused) ⊎ ((b : ℕ) × (byte_at buf pos ≡ done b) × (pos < length buf))
unfolding byte_at
byte_at-cases [] pos = inl refl
byte_at-cases (b ∷ bs) zero = inr (b, refl, omega arith)
byte_at-cases (b ∷ bs) (suc pos) = elim (byte_at-cases bs pos) [
  | inl q ↦ inl q
  | inr (c, q, h) ↦ inr (c, q, omega arith)
]

label_at-cases :
    (buf : List ℕ) (pos len : ℕ)
    → (label_at buf pos len ≡ refused)
      ⊎ ((l : Text) × (label_at buf pos len ≡ done l) × (pos + len ≤ length buf))
unfolding label_at get_range some_or_refused ◌>>=◌
label_at-cases buf pos len = elim (Bool-cases (leb (pos + len) (length buf))) [
  | inl q ↦ inr (
    from_utf8_lossy (take len (drop pos buf)),
    rw (label_at, get_range, q) refl,
    ground (arith, q),
  )
  | inr q ↦ inl (rw (label_at, get_range, q) refl)
]

-- The rounds that the loop may still need.
abbrev rounds : List ℕ → ℕ → ℕ → ℕ
rounds buf pos jumps = (32 - jumps) * (length buf + 1) + (length buf - pos) + 1

rounds-jump :
    (buf : List ℕ) (pos to jumps fuel : ℕ)
    → pos < length buf
    → jumps + 1 ≤ 32
    → rounds buf pos jumps ≤ suc fuel
    → rounds buf to (jumps + 1) ≤ fuel
rounds-jump buf pos to jumps fuel p j h =
    let n = length buf + 1 in
    let left : 32 - jumps ≡ suc (32 - (jumps + 1)) = omega arith in
    let step : (32 - jumps) * n ≡ (32 - (jumps + 1)) * n + n =
      ap (λ k. k * n) left ∙ omega (arith, suc-mul (32 - (jumps + 1)) n) in
    omega (arith, step)

read_labels-Ends :
    (fuel : ℕ) (buf : List ℕ) (pos : ℕ) (end_pos : Option ℕ) (jumps : ℕ) (found : List Text)
    → rounds buf pos jumps ≤ fuel
    → Ends (read_labels fuel buf pos end_pos jumps found)
unfolding read_labels
read_labels-Ends zero buf pos end_pos jumps found h = absurd (omega arith)
read_labels-Ends (suc fuel) buf pos end_pos jumps found h = elim (byte_at-cases buf pos) [
  | inl q ↦ rw (read_labels, q) tt
  | inr (len, q, inside) ↦ elim (Bool-cases (len == 0)) [
    | inl z ↦ rw (read_labels, q, z) tt
    | inr z ↦ elim (Bool-cases (bit_and len 0xC0 == 0xC0)) [
      | inr label ↦ elim (label_at-cases buf (pos + 1) len) [
        | inl r ↦ rw (read_labels, q, z, label, r) tt
        | inr (l, r, fits) ↦
            rw (read_labels, q, z, label, r)
              (read_labels-Ends fuel buf (pos + 1 + len) end_pos jumps (found ++ (l ∷ []))
                (omega arith))
      ]
      | inl jump ↦ elim (byte_at-cases buf (pos + 1)) [
        | inl r ↦ rw (read_labels, q, z, jump, r) tt
        | inr (second, r, _) ↦ elim (Bool-cases (ltb 32 (jumps + 1))) [
          | inl many ↦ rw (read_labels, q, z, jump, r, many) tt
          | inr few ↦
              rw (read_labels, q, z, jump, r, few)
                (read_labels-Ends fuel buf _ _ (jumps + 1) found
                  (rounds-jump buf pos _ jumps fuel inside (ground (arith, few)) h))
        ]
      ]
    ]
  ]
]

-- A name is read to its end or refused, wherever it starts and however its pointers loop: the fuel,
-- a round for each byte before each of 32 jumps and after the last, is enough.
read_name-Ends : (buf : List ℕ) (start : ℕ) → Ends (read_name buf start)
unfolding read_name
read_name-Ends buf start =
    Ends-bind (read_labels (name_fuel buf) buf start none 0 []) _
      (read_labels-Ends (name_fuel buf) buf start none 0 [] (omega arith)) (λ r. tt)

read_u16-Ends : (buf : List ℕ) (pos : ℕ) → Ends (read_u16 buf pos)
unfolding read_u16
read_u16-Ends buf pos = Ends-bind _ _ (some_or_refused-Ends (get_range buf pos 2)) (λ r. tt)

skip_questions-Ends : (n : ℕ) (buf : List ℕ) (pos : ℕ) → Ends (skip_questions n buf pos)
unfolding skip_questions
skip_questions-Ends zero buf pos = tt
skip_questions-Ends (suc n) buf pos =
    Ends-bind (read_name buf pos) _ (read_name-Ends buf pos)
      (λ r. skip_questions-Ends n buf (r.1 + 4))

answer_data-Ends :
    (buf : List ℕ) (rtype start rdlength : ℕ) → Ends (answer_data buf rtype start rdlength)
unfolding answer_data
answer_data-Ends buf rtype start rdlength = elim (Bool-cases (rtype == 12)) [
  | inl q ↦
      rw (answer_data, q) (Ends-bind (read_name buf start) _ (read_name-Ends buf start) (λ r. tt))
  | inr q ↦ rw (answer_data, q) (some_or_refused-Ends (get_range buf start rdlength))
]

read_answer-Ends : (buf : List ℕ) (pos : ℕ) → Ends (read_answer buf pos)
unfolding read_answer
read_answer-Ends buf pos = Ends-bind (read_name buf pos) _ (read_name-Ends buf pos) (λ name.
    Ends-bind (read_u16 buf name.1) _ (read_u16-Ends buf name.1) (λ rtype.
      Ends-bind (read_u16 buf (name.1 + 8)) _ (read_u16-Ends buf (name.1 + 8)) (λ rdlength.
        Ends-bind (answer_data buf rtype (name.1 + 10) rdlength) _
          (answer_data-Ends buf rtype (name.1 + 10) rdlength) (λ bytes. tt))))

read_answers-Ends : (n : ℕ) (buf : List ℕ) (pos : ℕ) → Ends (read_answers n buf pos)
unfolding read_answers
read_answers-Ends zero buf pos = tt
read_answers-Ends (suc n) buf pos =
    Ends-bind (read_answer buf pos) _ (read_answer-Ends buf pos)
      (λ r. Ends-bind (read_answers n buf r.2) _ (read_answers-Ends n buf r.2) (λ rest. tt))

-- Every datagram is parsed to answers or refused: no response, however its names point at each other,
-- keeps the reader in a loop.
pub parse_response-Ends : (buf : List ℕ) (expected_id : ℕ) → Ends (parse_response buf expected_id)
unfolding parse_response
parse_response-Ends buf expected_id =
    let read =
      Ends-bind (skip_questions (header_u16 buf 4) buf 12) (read_answers (header_u16 buf 6) buf)
        (skip_questions-Ends (header_u16 buf 4) buf 12)
        (λ pos. read_answers-Ends (header_u16 buf 6) buf pos) in
    elim (Bool-cases (ltb (length buf) 12)) [
      | inl q ↦ rw (parse_response, q) tt
      | inr q ↦ elim (Bool-cases (header_u16 buf 0 == expected_id)) [
        | inr i ↦ rw (parse_response, q, i) tt
        | inl i ↦
            elim (Bool-cases
              (not (header_u16 buf 2 / 2 ^ 15 % 2 == 1) || not (header_u16 buf 2 % 16 == 0))) [
                | inl f ↦ rw (parse_response, q, i, f) tt
                | inr f ↦ rw (parse_response, q, i, f) read
              ]
      ]
    ]
