-- ===== src/Dns/Roundtrip.antt =====
-- A response read as a query gives the question back: crates/binda-core/src/dns.rs.
use binda.Prelude.{
  ℕ, zero, suc, ◌+◌, ◌%◌, ◌^◌, ◌≤◌, ◌<◌, ◌≡◌, refl, sym, ap, ◌∙◌, Bool, false, some, List, [], ◌∷◌,
  ◌++◌, arith, ltb, length, nat_eq, list_eq, length-append, drop, subst, take,
}
use native.Mathlib.Omega.{arith}
use mathlib.Core.List.{append_assoc, append-nil}
use binda.Prelude.Bytes.{be, be_onto, from_be, from_be-be, length-be_onto}
use binda.Prelude.Range.{Continues, Continues-next, get_range-here, take-append_self}
use binda.Text.{Text, IsText}
use binda.Text.Split.{join-split}
use binda.Text.Utf8.{as_bytes, from_utf8-as_bytes}
use binda.Domain.{DomainName, labels}
use binda.Domain
use binda.Zone.{Record}
use binda.Dns.{
  DnsQuery, Result, ok, AddrParser, read_uint, read_label, read_labels, finish_query,
  checked_domain, parse_query, encode_labels, encode_domain_labels,
}
use binda.Dns.Response.{build_response, encode_answers, concat, response_flags}

read_uint-be :
    (w n : ℕ) (bytes : List ℕ) (pos : ℕ) (rest : List ℕ)
    → n < 256 ^ w
    → Continues bytes pos (be w n ++ rest)
    → read_uint w bytes pos ≡ ok n
unfolding read_uint
read_uint-be w n bytes pos rest h c =
    rw (get_range-here bytes pos w (be w n) rest c (omega (arith, length-be_onto w n [])))
      (ap ok (from_be-be w n h))

read_label-as_bytes :
    (label : Text) (bytes : List ℕ) (pos : ℕ) (rest : List ℕ)
    → IsText label
    → Continues bytes pos (as_bytes label ++ rest)
    → read_label bytes pos (length (as_bytes label)) ≡ ok label
unfolding read_label
read_label-as_bytes label bytes pos rest h c =
    rw (get_range-here bytes pos (length (as_bytes label)) (as_bytes label) rest c refl)
      (rw (from_utf8-as_bytes label h))

-- A label that the wire format can carry: some text, of a length that fits 32 bits.
abbrev pub Fits : List Text → Type 0
Fits [] = Unit
Fits (l ∷ ls) = (IsText l × (0 < length (as_bytes l)) × (length (as_bytes l) < 2 ^ 32)) × Fits ls

-- A width's bytes are as many.
length-be : (w n : ℕ) → length (be w n) ≡ w
length-be w n = omega (arith, length-be_onto w n [])

Nat_mod_small : (n : ℕ) → n < 2 ^ 32 → n % 2 ^ 32 ≡ n
Nat_mod_small n h = omega arith

-- One round of the loop that reads a label.
read_labels-step :
    (fuel : ℕ) (bytes : List ℕ) (pos : ℕ) (found : List Text) (l : Text) (size : ℕ)
    → read_uint 4 bytes pos ≡ ok size
    → read_label bytes (pos + 4) size ≡ ok l
    → 0 < size
    → read_labels (suc fuel) bytes pos found
      ≡ read_labels fuel bytes (pos + 4 + size) (found ++ (l ∷ []))
unfolding read_labels
read_labels-step fuel bytes pos found l zero q r p = absurd (omega arith)
read_labels-step fuel bytes pos found l (suc n) q r p = rw (q, read_labels) (rw (r) refl)

-- The encoded labels read back, from wherever they stand, with fuel for one round each and one more.
read_labels-encode_labels :
    (ls : List Text) (fuel : ℕ) (bytes : List ℕ) (pos : ℕ) (found : List Text) (rest : List ℕ)
    → Fits ls
    → length ls < fuel
    → Continues bytes pos (encode_labels ls ++ rest)
    → (end : ℕ) × (read_labels fuel bytes pos found ≡ some (ok (found ++ ls, end)))
      × Continues bytes end rest
unfolding read_labels encode_labels
read_labels-encode_labels ls zero bytes pos found rest f h c = absurd (omega arith)
read_labels-encode_labels [] (suc fuel) bytes pos found rest f h c = (
  pos + 4,
  rw (read_labels, read_uint-be 4 0 bytes pos rest (omega arith) c, append-nil found),
  Continues-next bytes pos 4 (be 4 0) rest c (length-be 4 0),
)
read_labels-encode_labels (l ∷ ls) (suc fuel) bytes pos found rest f h c =
    let size = length (as_bytes l) in
    let tail = as_bytes l ++ (encode_labels ls ++ rest) in
    let shape : encode_labels (l ∷ ls) ++ rest ≡ be 4 size ++ tail = rw (Nat_mod_small size f.0.2) (
      append_assoc (be 4 size) (as_bytes l ++ encode_labels ls) rest
      ∙ ap (λ z. be 4 size ++ z) (append_assoc (as_bytes l) (encode_labels ls) rest)) in
    let here : Continues bytes pos (be 4 size ++ tail) = subst (Continues bytes pos) shape c in
    let inner : Continues bytes (pos + 4) tail =
      Continues-next bytes pos 4 (be 4 size) tail here (length-be 4 size) in
    let after =
      Continues-next bytes (pos + 4) size (as_bytes l) (encode_labels ls ++ rest) inner refl in
    let (end, later, goes) =
      read_labels-encode_labels ls fuel bytes (pos + 4 + size) (found ++ (l ∷ [])) rest f.1
        (omega arith) after in
    (
      end,
      read_labels-step fuel bytes pos found l size (read_uint-be 4 size bytes pos tail f.0.2 here)
            (read_label-as_bytes l bytes (pos + 4) (encode_labels ls ++ rest) f.0.0 inner) f.0.1
          ∙ later
          ∙ ap (λ z. some (ok (z, end))) (append_assoc found (l ∷ []) ls),
      goes,
    )

length-encode_labels : (ls : List Text) → length ls + 4 ≤ length (encode_labels ls)
unfolding encode_labels
length-encode_labels [] = omega (arith, length-be 4 0)
length-encode_labels (l ∷ ls) =
    let size = length (as_bytes l) % 2 ^ 32 in
    omega (
      arith,
      length-append (be 4 size) (as_bytes l ++ encode_labels ls),
      length-append (as_bytes l) (encode_labels ls),
      length-be 4 size,
      length-encode_labels ls,
    )

-- A number of two bytes that stands in the header.
from_be-take :
    (bytes : List ℕ) (n : ℕ) (rest : List ℕ)
    → n < 2 ^ 16
    → bytes ≡ be 2 n ++ rest
    → from_be (take 2 bytes) ≡ n
from_be-take bytes n rest h e =
    ap (λ z. from_be (take 2 z)) e
    ∙ ap (λ k. from_be (take k (be 2 n ++ rest))) (sym (length-be 2 n))
    ∙ ap from_be (take-append_self (be 2 n) rest)
    ∙ from_be-be 2 n h

checked_domain-ok : (d : DomainName) → Domain.new d ≡ Domain.ok d → checked_domain d ≡ ok d
unfolding checked_domain
checked_domain-ok d v = rw (checked_domain, v) refl

-- After the labels, the type and the class give the query back.
finish_query-question :
    (bytes : List ℕ) (end : ℕ) (rest : List ℕ) (q : DnsQuery)
    → q.qtype < 2 ^ 16
    → q.qclass < 2 ^ 16
    → Domain.new q.domain ≡ Domain.ok q.domain
    → Continues bytes end (be 2 q.qtype ++ (be 2 q.qclass ++ rest))
    → finish_query bytes q.id (labels q.domain, end) ≡ ok q
unfolding finish_query labels
finish_query-question bytes end rest q t k v c =
    rw
      (
        read_uint-be 2 q.qtype bytes end (be 2 q.qclass ++ rest) t c,
        read_uint-be 2 q.qclass bytes (end + 2) rest k (
            Continues-next bytes end 2 (be 2 q.qtype) (be 2 q.qclass ++ rest) c
              (length-be 2 q.qtype)),
        join-split b'.' q.domain,
        checked_domain-ok q.domain v,
      )
      refl

-- A message is read by its header, its labels and what stands after them.
parse_query-read :
    (bytes : List ℕ) (id end : ℕ) (found : List Text) (r : Result DnsQuery)
    → 12 ≤ length bytes
    → from_be (take 2 bytes) ≡ id
    → from_be (take 2 (drop 4 bytes)) ≡ 1
    → read_labels (length bytes) bytes 12 [] ≡ some (ok (found, end))
    → finish_query bytes id (found, end) ≡ r
    → parse_query bytes ≡ some r
unfolding parse_query
parse_query-read bytes id end found r long i one read done =
    let fits : ltb (length bytes) 12 ≡ false = ground (arith, long) in
    rw (parse_query, fits, one, read, i) (ap some done)

module _ (id flags count answers zero_a zero_b : ℕ) (body : List ℕ) where
  -- A header, in front of a body.
  abbrev pub header : List ℕ
  header =
      be 2 id
      ++ (be 2 flags ++ (be 2 count ++ (be 2 answers ++ (be 2 zero_a ++ (be 2 zero_b ++ body)))))

  length-header : length header ≡ 12 + length body
  length-header = omega (
    arith,
    length-append (be 2 id) _,
    length-append (be 2 flags) _,
    length-append (be 2 count) _,
    length-append (be 2 answers) _,
    length-append (be 2 zero_a) _,
    length-append (be 2 zero_b) body,
    length-be 2 id,
    length-be 2 flags,
    length-be 2 count,
    length-be 2 answers,
    length-be 2 zero_a,
    length-be 2 zero_b,
  )

  drop-header : drop 12 header ≡ body
  unfolding be_onto
  drop-header = refl

  header-id : id < 2 ^ 16 → from_be (take 2 header) ≡ id
  header-id h = from_be-take header id _ h refl

  drop-header_four :
      drop 4 header ≡ be 2 count ++ (be 2 answers ++ (be 2 zero_a ++ (be 2 zero_b ++ body)))
  unfolding be_onto
  drop-header_four = refl

  header-count : count < 2 ^ 16 → from_be (take 2 (drop 4 header)) ≡ count
  header-count h = from_be-take (drop 4 header) count _ h drop-header_four

-- A message with one question reads as that question, whatever its flags and counts and whatever
-- follows, where the query's numbers fit their fields and its domain is valid with labels that the
-- wire format can carry.
pub parse_query-question :
    (flags answers zero_a zero_b : ℕ) (q : DnsQuery) (rest : List ℕ)
    → q.id < 2 ^ 16
    → q.qtype < 2 ^ 16
    → q.qclass < 2 ^ 16
    → Domain.new q.domain ≡ Domain.ok q.domain
    → Fits (labels q.domain)
    → parse_query (
        header q.id flags 1 answers zero_a zero_b
          (encode_labels (labels q.domain) ++ (be 2 q.qtype ++ (be 2 q.qclass ++ rest))))
      ≡ some (ok q)
parse_query-question flags answers zero_a zero_b q rest i t k v fits =
    let question = be 2 q.qtype ++ (be 2 q.qclass ++ rest) in
    let body = encode_labels (labels q.domain) ++ question in
    let bytes = header q.id flags 1 answers zero_a zero_b body in
    let size : length bytes ≡ 12 + length body =
      length-header q.id flags 1 answers zero_a zero_b body in
    let at : Continues bytes 12 body = record {
      inside = omega (arith, size);
      goes_on = drop-header q.id flags 1 answers zero_a zero_b body;
    } in
    let enough : length (labels q.domain) < length bytes = omega (
      arith,
      size,
      length-append (encode_labels (labels q.domain)) question,
      length-encode_labels (labels q.domain),
    ) in
    let (end, read, after) =
      read_labels-encode_labels (labels q.domain) (length bytes) bytes 12 [] question fits enough
        at in
    parse_query-read bytes q.id end (labels q.domain) (ok q) (omega (arith, size))
      (header-id q.id flags 1 answers zero_a zero_b body i)
      (header-count q.id flags 1 answers zero_a zero_b body (omega arith)) read
      (finish_query-question bytes end rest q t k v after)

-- A response echoes its question: read as a query, it gives the query that it answers, whatever
-- the answers are, where the query's numbers fit their fields and its domain is valid with labels
-- that the wire format can carry.
pub parse_query-build_response :
    (p : AddrParser) (q : DnsQuery) (domain_exists : Bool) (records : List Record)
    → q.id < 2 ^ 16
    → q.qtype < 2 ^ 16
    → q.qclass < 2 ^ 16
    → Domain.new q.domain ≡ Domain.ok q.domain
    → Fits (labels q.domain)
    → parse_query (build_response p q domain_exists records) ≡ some (ok q)
unfolding build_response encode_domain_labels
parse_query-build_response p q domain_exists records =
    let encoded = encode_answers p q.domain records in
    parse_query-question (response_flags domain_exists) (length encoded % 2 ^ 16) 0 0 q
      (concat encoded)
