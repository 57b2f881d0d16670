-- ===== src/Fcrdns/Tests.antt =====
-- Instances for crates/binda-core/src/fcrdns.rs.
use binda.Prelude.{
  ℕ, ◌≡◌, refl, ◌↔◌, true, some, List, [], ◌∷◌, map, arith, if◌then◌else◌, ◌==◌, nat_eq, list_eq,
}
use binda.Text.{codes}
use binda.Text.Split.{split}
use binda.Text.Utf8.{as_bytes, encode_char}
use binda.Fcrdns.{done, encode_labels}
use binda.Fcrdns.Roundtrip.{Fits}
use binda.Fcrdns.Reply.{Answer, ptr, other, AllAnswers, reply, meaning, parse_response-reply}
use binda.Fcrdns.{v4, type_ptr}
use binda.Fcrdns.Lookup.{Ask, is_forward_confirmed}
use binda.Fcrdns.Response.{parse_response}
use binda.Fcrdns.Progress.{Ends, parse_response-Ends}
use binda.Fcrdns.Confirmed.{Named, is_forward_confirmed_iff}
use binda.Fcrdns.Addresses.{Gives}
use binda.Fcrdns.{ptr_query_name}

-- A response whose question's name points at itself.
abbrev looping : List ℕ
looping = 0 ∷ 7 ∷ 0x80 ∷ 0 ∷ 0 ∷ 1 ∷ 0 ∷ 0 ∷ 0 ∷ 0 ∷ 0 ∷ 0 ∷ 0xC0 ∷ 12 ∷ []

abbrev network : Ask
network hostname qtype =
    if qtype == type_ptr
    then some ((type_ptr, codes "A.net.") ∷ [])
    else some ((qtype, 10 ∷ 0 ∷ 0 ∷ 1 ∷ []) ∷ [])

parse_response-Ends_example : Ends (parse_response looping 7)
parse_response-Ends_example = parse_response-Ends looping 7

is_forward_confirmed_iff_example :
    (is_forward_confirmed network (v4 (10 ∷ 0 ∷ 0 ∷ 1 ∷ [])) (codes "a.net") ≡ true) ↔ (
      (answers : List (ℕ × List ℕ)) × (network (ptr_query_name (v4 (10 ∷ 0 ∷ 0 ∷ 1 ∷ []))) 12
        ≡ some answers)
      × Named (codes "a.net") answers
      × Gives network (codes "a.net") (v4 (10 ∷ 0 ∷ 0 ∷ 1 ∷ [])))
is_forward_confirmed_iff_example =
    is_forward_confirmed_iff network (v4 (10 ∷ 0 ∷ 0 ∷ 1 ∷ [])) (codes "a.net")

program : Unit {0}
unfolding split as_bytes encode_char
program = tt

-- A name and an address, for one question.
abbrev two_answers : List Answer
two_answers = ptr 60 (codes "a.b") ∷ other 60 1 (10 ∷ 0 ∷ 0 ∷ 1 ∷ []) ∷ []

carried : Fits (split b'.' (codes "a.b"))
unfolding program
carried = ground arith

two_answers-AllAnswers : AllAnswers two_answers
unfolding program encode_labels
two_answers-AllAnswers = ((carried, omega arith), (((omega arith, refl), omega arith), tt))

parse_response-reply_example :
    parse_response (reply 513 (codes "a.b") 12 two_answers) 513 ≡ done (map meaning two_answers)
parse_response-reply_example =
    parse_response-reply 513 (codes "a.b") 12 two_answers (omega arith) carried (omega arith)
      two_answers-AllAnswers
