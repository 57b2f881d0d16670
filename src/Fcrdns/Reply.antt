-- ===== src/Fcrdns/Reply.antt =====
-- What a resolver's reply to a query is read as: crates/binda-core/src/fcrdns.rs.
use binda.Prelude.{
  ℕ, ◌+◌, ◌^◌, ◌≤◌, ◌<◌, ◌≡◌, refl, ap, false, List, [], ◌∷◌, ◌++◌, map, arith, ltb, length, ◌==◌,
  nat_eq, list_eq, ==_refl, drop, subst,
}
use mathlib.Core.List.{append_assoc}
use binda.Prelude.Bytes.{from_be_acc, be, be_onto, from_be-be}
use binda.Prelude.Range.{Continues, Continues-next, get_range-here}
use binda.Text.{Text}
use binda.Text.Split.{split}
use binda.Text.Utf8.{as_bytes}
use binda.Fcrdns.{Parsed, done, some_or_refused, ◌>>=◌, read_name, encode_query, encode_labels}
use binda.Fcrdns.Roundtrip.{Fits, name_bytes, read_name-name_bytes, read_name-pointer}
use binda.Fcrdns.Response.{
  read_u16, skip_questions, answer_data, header_u16, read_answer, read_answers, parse_response,
}

-- A resolver's answer about the name of the question: a name, or the bytes of another type.
pub data Answer : Type 0 where
  ptr : (ttl : ℕ) (name : Text) → Answer
  other : (ttl rtype : ℕ) (bytes : List ℕ) → Answer

abbrev pub answer_type : Answer → ℕ
answer_type (ptr ttl name) = 12
answer_type (other ttl rtype bytes) = rtype

abbrev pub answer_ttl : Answer → ℕ
answer_ttl (ptr ttl name) = ttl
answer_ttl (other ttl rtype bytes) = ttl

abbrev pub rdata : Answer → List ℕ
rdata (ptr ttl name) = name_bytes name []
rdata (other ttl rtype bytes) = bytes

-- What the reader is to make of the answer: its type, and the text of the name or the bytes.
abbrev pub meant : Answer → List ℕ
meant (ptr ttl name) = as_bytes name
meant (other ttl rtype bytes) = bytes

abbrev pub meaning : Answer → ℕ × List ℕ
meaning a = (answer_type a, meant a)

-- An answer that the wire format can carry.
abbrev pub IsAnswer : Answer → Type 0
IsAnswer (ptr ttl name) = Fits (split b'.' name) × (length (name_bytes name []) < 2 ^ 16)
IsAnswer (other ttl rtype bytes) =
    ((rtype < 2 ^ 16) × ((rtype == 12) ≡ false)) × (length bytes < 2 ^ 16)

abbrev pub AllAnswers : List Answer → Type 0
AllAnswers [] = Unit
AllAnswers (a ∷ rest) = IsAnswer a × AllAnswers rest

-- The answer's name is a pointer to the question.
abbrev pub encode_answer : Answer → List ℕ → List ℕ
encode_answer a rest =
    0xC0
    ∷ 12
    ∷ (be 2 (answer_type a)
        ++ (be 2 1 ++ (be 4 (answer_ttl a) ++ (be 2 (length (rdata a)) ++ (rdata a ++ rest)))))

abbrev pub encode_answers : List Answer → List ℕ
encode_answers [] = []
encode_answers (a ∷ rest) = encode_answer a (encode_answers rest)

-- The reply repeats the question of the query.
abbrev pub reply : ℕ → Text → ℕ → List Answer → List ℕ
reply id name qtype answers =
    be 2 id
    ++ (be 2 0x8180
        ++ (be 2 1
            ++ (be 2 (length answers)
                ++ ((0 ∷ 0 ∷ 0 ∷ 0 ∷ [])
                    ++ (drop 12 (encode_query id name qtype) ++ encode_answers answers)))))

read_u16-here :
    (buf : List ℕ) (pos n : ℕ) (rest : List ℕ)
    → n < 2 ^ 16
    → Continues buf pos (be 2 n ++ rest)
    → read_u16 buf pos ≡ done n
unfolding read_u16 some_or_refused ◌>>=◌ be_onto
read_u16-here buf pos n rest h c =
    rw (read_u16, get_range-here buf pos 2 (be 2 n) rest c refl) (ap done (from_be-be 2 n h))

answer_type-fits : (a : Answer) → IsAnswer a → answer_type a < 2 ^ 16
answer_type-fits (ptr ttl name) h = omega arith
answer_type-fits (other ttl rtype bytes) h = h.0.0

rdata-fits : (a : Answer) → IsAnswer a → length (rdata a) < 2 ^ 16
rdata-fits (ptr ttl name) h = h.1
rdata-fits (other ttl rtype bytes) h = h.1

answer_data-rdata :
    (buf : List ℕ) (pos : ℕ) (a : Answer) (rest : List ℕ)
    → IsAnswer a
    → Continues buf pos (rdata a ++ rest)
    → answer_data buf (answer_type a) pos (length (rdata a)) ≡ done (meant a)
unfolding answer_data some_or_refused ◌>>=◌
answer_data-rdata buf pos (ptr ttl name) rest h c =
    let shape = append_assoc (encode_labels (split b'.' name)) (0 ∷ []) rest in
    let (end, read, _) =
      read_name-name_bytes buf pos name rest h.0 (subst (Continues buf pos) shape c) in
    rw (answer_data, read) refl
answer_data-rdata buf pos (other ttl rtype bytes) rest h c =
    rw (answer_data, h.0.1, get_range-here buf pos (length bytes) bytes rest c refl) refl

module _ (buf : List ℕ) (name : Text) (after : List ℕ) (fits : Fits (split b'.' name))
    (question : Continues buf 12 (name_bytes name after)) where
  read_answer-encode_answer :
      (pos : ℕ) (a : Answer) (rest : List ℕ)
      → IsAnswer a
      → Continues buf pos (encode_answer a rest)
      → (end : ℕ) × (read_answer buf pos ≡ done (answer_type a, meant a, end))
        × Continues buf end rest
  unfolding read_answer ◌>>=◌ be_onto
  read_answer-encode_answer pos a rest h c =
      let data_part = rdata a ++ rest in
      let sized = be 2 (length (rdata a)) ++ data_part in
      let typed = be 2 (answer_type a) ++ (be 2 1 ++ (be 4 (answer_ttl a) ++ sized)) in
      let at_type : Continues buf (pos + 2) typed =
        Continues-next buf pos 2 (0xC0 ∷ 12 ∷ []) typed c refl in
      let at_size : Continues buf (pos + 2 + 8) sized =
        Continues-next buf (pos + 2) 8 (be 2 (answer_type a) ++ (be 2 1 ++ be 4 (answer_ttl a)))
          sized at_type refl in
      let at_data : Continues buf (pos + 2 + 10) data_part =
        Continues-next buf (pos + 2) 10
          (be 2 (answer_type a) ++ (be 2 1 ++ (be 4 (answer_ttl a) ++ be 2 (length (rdata a)))))
          data_part at_type refl in
      (
        pos + 2 + 10 + length (rdata a),
        rw
            (
              read_answer,
              read_name-pointer buf pos name after typed fits question c,
              read_u16-here buf (pos + 2) (answer_type a) _ (answer_type-fits a h) at_type,
              read_u16-here buf (pos + 2 + 8) (length (rdata a)) data_part (rdata-fits a h) at_size,
              answer_data-rdata buf (pos + 2 + 10) a rest h at_data,
            )
            refl,
        Continues-next buf (pos + 2 + 10) (length (rdata a)) (rdata a) rest at_data refl,
      )

  read_answers-encode_answers :
      (pos : ℕ) (answers : List Answer)
      → AllAnswers answers
      → Continues buf pos (encode_answers answers)
      → read_answers (length answers) buf pos ≡ done (map meaning answers)
  unfolding read_answers ◌>>=◌
  read_answers-encode_answers pos [] h c = refl
  read_answers-encode_answers pos (a ∷ rest) h c =
      let (end, read, goes) = read_answer-encode_answer pos a (encode_answers rest) h.0 c in
      rw (read_answers, read, read_answers-encode_answers end rest h.1 goes) refl

-- A response without errors to one question is read by its header, the name and what follows.
parse_response-read :
    (buf : List ℕ) (id count end : ℕ) (name : Text) (r : Parsed (List (ℕ × List ℕ)))
    → 12 ≤ length buf
    → header_u16 buf 0 ≡ id
    → header_u16 buf 2 ≡ 0x8180
    → header_u16 buf 4 ≡ 1
    → header_u16 buf 6 ≡ count
    → read_name buf 12 ≡ done (name, end)
    → read_answers count buf (end + 4) ≡ r
    → parse_response buf id ≡ r
unfolding parse_response skip_questions ◌>>=◌
parse_response-read buf id count end name r long i flags one n read answers =
    let fits : ltb (length buf) 12 ≡ false = ground (arith, long) in
    rw (parse_response, fits, i, ==_refl id, flags, one, n, read, answers) refl

-- A reply that repeats the question of the query and points its answers at it is understood in full:
-- every answer is read, in order, with its type and its bytes, or the text of the name of a PTR
-- answer, where the name and the names in the answers have labels that a query can carry and the
-- numbers fit their fields.
pub parse_response-reply :
    (id : ℕ) (name : Text) (qtype : ℕ) (answers : List Answer)
    → id < 2 ^ 16
    → Fits (split b'.' name)
    → length answers < 2 ^ 16
    → AllAnswers answers
    → parse_response (reply id name qtype answers) id ≡ done (map meaning answers)
unfolding encode_query be_onto from_be_acc
parse_response-reply id name qtype answers i fits count h =
    let after = be 2 qtype ++ (be 2 1 ++ encode_answers answers) in
    let buf = reply id name qtype answers in
    let body =
      append_assoc (encode_labels (split b'.' name)) (0 ∷ (be 2 qtype ++ be 2 1))
        (encode_answers answers) in
    let question : Continues buf 12 (name_bytes name after) = record {
      inside = omega arith;
      goes_on = body;
    } in
    let (end, read, goes) = read_name-name_bytes buf 12 name after fits question in
    let at_answers : Continues buf (end + 4) (encode_answers answers) =
      Continues-next buf end 4 (be 2 qtype ++ be 2 1) (encode_answers answers) goes refl in
    parse_response-read buf id (length answers) end name (done (map meaning answers)) (omega arith)
      (from_be-be 2 id i) refl refl (from_be-be 2 (length answers) count) read
      (read_answers-encode_answers buf name after fits question (end + 4) answers h at_answers)
