-- ===== src/Fcrdns/Response.antt =====
-- Responses of DNS resolvers: crates/binda-core/src/fcrdns.rs.
use binda.Prelude.{
  ℕ, zero, suc, ◌+◌, ◌/◌, ◌%◌, ◌^◌, ◌||◌, not, Option, none, some, List, [], ◌∷◌, ltb,
  if◌then◌else◌, length, ◌==◌, nat_eq, list_eq, take, drop,
}
use binda.Prelude.Bytes.{from_be}
use binda.Prelude.Range.{get_range}
use binda.Text.Utf8.{as_bytes}
use binda.Fcrdns.{Parsed, done, refused, out_of_fuel, ◌>>=◌, some_or_refused, read_name, type_ptr}

unfoldable pub read_u16 : List ℕ → ℕ → Parsed ℕ
read_u16 buf pos = do slice ← some_or_refused (get_range buf pos 2); done (from_be slice)

-- The loop over the questions: the position after them.
unfoldable pub skip_questions : ℕ → List ℕ → ℕ → Parsed ℕ
unfolding read_name
skip_questions zero buf pos = done pos
skip_questions (suc n) buf pos = read_name buf pos >>= λ r. skip_questions n buf (r.1 + 4)

-- The data of an answer: the text of a name for a PTR, the bytes of another.
unfoldable pub answer_data : List ℕ → ℕ → ℕ → ℕ → Parsed (List ℕ)
answer_data buf rtype start rdlength =
    if rtype == type_ptr
    then (do r ← read_name buf start; done (as_bytes r.0))
    else some_or_refused (get_range buf start rdlength)

-- One answer: its type, its data and the position after it.
unfoldable pub read_answer : List ℕ → ℕ → Parsed (ℕ × List ℕ × ℕ)
unfolding read_u16 answer_data
read_answer buf pos = do
  name ← read_name buf pos
  rtype ← read_u16 buf name.1
  rdlength ← read_u16 buf (name.1 + 8)
  bytes ← answer_data buf rtype (name.1 + 10) rdlength
  done (rtype, bytes, name.1 + 10 + rdlength)

unfoldable pub read_answers : ℕ → List ℕ → ℕ → Parsed (List (ℕ × List ℕ))
unfolding read_answer
read_answers zero buf pos = done []
read_answers (suc n) buf pos =
    read_answer buf pos >>= λ r. read_answers n buf r.2 >>= λ rest. done ((r.0, r.1) ∷ rest)

-- A number of two bytes of the header.
abbrev pub header_u16 : List ℕ → ℕ → ℕ
header_u16 buf pos = from_be (take 2 (drop pos buf))

unfoldable pub parse_response : List ℕ → ℕ → Parsed (List (ℕ × List ℕ))
unfolding skip_questions read_answers
parse_response buf expected_id =
    if ltb (length buf) 12
    then refused
    else (if not (header_u16 buf 0 == expected_id)
        then refused
        else (if not (header_u16 buf 2 / 2 ^ 15 % 2 == 1) || not (header_u16 buf 2 % 16 == 0)
            then done []
            else (skip_questions (header_u16 buf 4) buf 12
                >>= read_answers (header_u16 buf 6) buf)))

-- `query`: the replies are what each resolver sends to the encoded request, `none` for an error.
unfoldable pub query : ℕ → List (Option (List ℕ)) → Option (List (ℕ × List ℕ))
unfolding parse_response
query id [] = none
query id (none ∷ replies) = query id replies
query id (some reply ∷ replies) = elim (parse_response reply id) [
  | done answers ↦ some answers
  | refused ↦ query id replies
  | out_of_fuel ↦ query id replies
]
