-- ===== src/Fcrdns/Lookup.antt =====
-- Reverse and forward lookups and the check that joins them: crates/binda-core/src/fcrdns.rs.
use binda.Prelude.{
  ℕ, Bool, false, ◌||◌, not, Option, none, some, List, [], ◌∷◌, ◌++◌, if◌then◌else◌, length, ◌==◌,
  nat_eq, list_eq,
}
use binda.Text.{Text}
use binda.Text.Utf8.{from_utf8}
use binda.Fcrdns.{IpAddr, v4, v6, normalize, ptr_query_name, type_a, type_ptr, type_aaaa}

-- The PTR names among the answers.
unfoldable pub ptr_names : List (ℕ × List ℕ) → List Text
ptr_names [] = []
ptr_names ((rtype, bytes) ∷ answers) = elim (from_utf8 bytes) [
  | none ↦ ptr_names answers
  | some name ↦ if rtype == type_ptr then name ∷ ptr_names answers else ptr_names answers
]

-- `parse_a` and `parse_aaaa`
unfoldable pub parse_address : ℕ → List ℕ → Option IpAddr
parse_address qtype bytes =
    if qtype == type_a
    then (if length bytes == 4 then some (v4 bytes) else none)
    else (if length bytes == 16 then some (v6 bytes) else none)

-- The addresses among the answers to a query of the type.
unfoldable pub addresses : ℕ → List (ℕ × List ℕ) → List IpAddr
unfolding parse_address
addresses qtype [] = []
addresses qtype ((rtype, bytes) ∷ answers) =
    let rest = addresses qtype answers in
    if not (rtype == qtype)
    then rest
    else elim (parse_address qtype bytes) [ none ↦ rest | some ip ↦ ip ∷ rest ]

unfoldable pub answers_or_none : Option (List (ℕ × List ℕ)) → List (ℕ × List ℕ)
answers_or_none none = []
answers_or_none (some answers) = answers

-- What `query` gives for a name and a type, over the network.
abbrev pub Ask : Type 0
Ask = Text → ℕ → Option (List (ℕ × List ℕ))

unfoldable pub reverse_lookup : Ask → IpAddr → Option (List Text)
unfolding ptr_query_name ptr_names
reverse_lookup ask ip = elim (ask (ptr_query_name ip) type_ptr) [
  | none ↦ none
  | some answers ↦ some (ptr_names answers)
]

unfoldable pub forward_lookup : Ask → Text → List IpAddr
unfolding addresses answers_or_none
forward_lookup ask hostname =
    addresses type_a (answers_or_none (ask hostname type_a))
    ++ addresses type_aaaa (answers_or_none (ask hostname type_aaaa))

unfoldable pub any_name : Text → List Text → Bool
unfolding normalize
any_name claimed [] = false
any_name claimed (name ∷ names) = normalize name == claimed || any_name claimed names

abbrev pub same_ip : IpAddr → IpAddr → Bool
same_ip (v4 a) (v4 b) = a == b
same_ip (v6 a) (v6 b) = a == b
same_ip _ _ = false

unfoldable pub contains_ip : List IpAddr → IpAddr → Bool
contains_ip [] ip = false
contains_ip (i ∷ is) ip = same_ip i ip || contains_ip is ip

unfoldable pub is_forward_confirmed : Ask → IpAddr → Text → Bool
unfolding reverse_lookup forward_lookup any_name contains_ip
is_forward_confirmed ask source_ip claimed_rdns = elim (reverse_lookup ask source_ip) [
  | none ↦ false
  | some names ↦
      if not (any_name (normalize claimed_rdns) names)
      then false
      else contains_ip (forward_lookup ask claimed_rdns) source_ip
]
