-- ===== src/Domain/Valid.antt =====
-- Which texts `DomainName::new` accepts, and which error it gives: crates/binda-core/src/domain.rs.
use binda.Prelude.{
  ℕ, ◌+◌, ◌<◌, ◌≡◌, refl, sym, ap, ◌∙◌, ◌≢◌, ◌↔◌, ◌⊎◌, inl, inr, true, false, Option, none, some,
  List, [], ◌∷◌, ◌++◌, arith, Bool-cases, length, nat_eq, list_eq, length-append, subst,
}
use binda.Text.{Text, is_control}
use binda.Text.Split.{split, join, join-split, Avoids, split-Avoids, split-AllAvoid, AllAvoid}
use binda.Text.Utf8.{encode_char, as_bytes}
use binda.Domain.{
  DomainNameError, empty, non_printable_char, empty_label, ok, err, new, labels, refused,
  first_refused, any_empty,
}

-- No control character, U+0000 to U+001F and U+007F to U+009F, and no ASCII space, U+0020.
abbrev pub AllPrintable : Text → Type 0
AllPrintable [] = Unit
AllPrintable (c ∷ s) = (0x20 < c) × ((c < 0x7F) ⊎ (0x9F < c)) × AllPrintable s

abbrev pub NoneEmpty : List Text → Type 0
NoneEmpty [] = Unit
NoneEmpty (s ∷ ss) = (s ≢ []) × NoneEmpty ss

-- The rule for names: some text, with no control character, no ASCII space and no empty piece between
-- its dots.
pub record IsDomain (d : Text) : Type 0 where
  pub some_text : d ≢ []
  pub printable : AllPrintable d
  pub pieces : NoneEmpty (split b'.' d)

first_refused-none : (n : ℕ) (s : Text) → first_refused n s ≡ none → AllPrintable s
unfolding first_refused refused is_control
first_refused-none n [] h = tt
first_refused-none n (c ∷ s) h = ground (arith, first_refused-none (n + length (encode_char c)) s)

first_refused_of_AllPrintable : (n : ℕ) (s : Text) → AllPrintable s → first_refused n s ≡ none
unfolding first_refused refused is_control
first_refused_of_AllPrintable n [] h = refl
first_refused_of_AllPrintable n (c ∷ s) h =
    ground (arith, first_refused_of_AllPrintable (n + length (encode_char c)) s)

any_empty-NoneEmpty : (ss : List Text) → any_empty ss ≡ false → NoneEmpty ss
unfolding any_empty
any_empty-NoneEmpty [] h = tt
any_empty-NoneEmpty ([] ∷ ss) h = cc
any_empty-NoneEmpty ((c ∷ s) ∷ ss) h = (λ e. cc, any_empty-NoneEmpty ss h)

any_empty_of_NoneEmpty : (ss : List Text) → NoneEmpty ss → any_empty ss ≡ false
unfolding any_empty
any_empty_of_NoneEmpty [] h = refl
any_empty_of_NoneEmpty ([] ∷ ss) h = absurd (h.0 refl)
any_empty_of_NoneEmpty ((c ∷ s) ∷ ss) h = any_empty_of_NoneEmpty ss h.1

accepted_IsDomain :
    (c : ℕ) (s : Text)
    → first_refused 0 (c ∷ s) ≡ none
    → any_empty (split b'.' (c ∷ s)) ≡ false
    → IsDomain (c ∷ s)
accepted_IsDomain c s h k = record {
  some_text = λ e. cc;
  printable = first_refused-none 0 (c ∷ s) h;
  pieces = any_empty-NoneEmpty (split b'.' (c ∷ s)) k;
}

new-ok_sound : (d e : Text) → new d ≡ ok e → IsDomain d × (d ≡ e)
unfolding new
new-ok_sound [] e h = cc
new-ok_sound (c ∷ s) e h = ground (arith, accepted_IsDomain c s)

new-ok_complete : (d : Text) → IsDomain d → new d ≡ ok d
unfolding new
new-ok_complete [] v = absurd (v.some_text refl)
new-ok_complete (c ∷ s) v = ground (
  arith,
  first_refused_of_AllPrintable 0 (c ∷ s) v.printable,
  any_empty_of_NoneEmpty (split b'.' (c ∷ s)) v.pieces,
)

-- A text is accepted exactly if it is not empty, has no control character (U+0000 to U+001F and U+007F
-- to U+009F), no ASCII space and no empty piece between its dots, and then it is kept as it is.
pub new-ok_iff : (d e : Text) → (new d ≡ ok e) ↔ (IsDomain d × (d ≡ e))
new-ok_iff d e = (new-ok_sound d e, λ h. new-ok_complete d h.0 ∙ ap ok h.1)

-- `s` stands in front of the character `c`, which is the first to be refused, at a byte offset.
pub data FirstRefused : Text → ℕ → Type 0 where
  at :
      (s : Text) (c : ℕ) (t d : Text) (offset : ℕ)
      → AllPrintable s
      → refused c ≡ true
      → s ++ c ∷ t ≡ d
      → length (as_bytes s) ≡ offset
      → FirstRefused d offset

abbrev pub ErrorFits : Text → DomainNameError → Type 0
ErrorFits d empty = d ≡ []
ErrorFits d (non_printable_char offset) = FirstRefused d offset
ErrorFits d empty_label = AllPrintable d × (any_empty (labels d) ≡ true)

printable_of_refused :
    (c : ℕ) (s : Text) → refused c ≡ false → AllPrintable s → AllPrintable (c ∷ s)
unfolding refused is_control
printable_of_refused c s h a = ground arith

first_refused-some :
    (n o : ℕ) (d : Text)
    → first_refused n d ≡ some o
    → (s : Text) × (c : ℕ) × (t : Text) × AllPrintable s
      × (refused c ≡ true)
      × (s ++ c ∷ t ≡ d)
      × (n + length (as_bytes s) ≡ o)
unfolding first_refused as_bytes
first_refused-some n o [] h = cc
first_refused-some n o (c ∷ d) h = elim (Bool-cases (refused c)) [
  | inl bad ↦ ([], c, d, tt, bad, refl, ground arith)
  | inr good ↦
      let (s, c', t, a, r, e, l) =
        first_refused-some (n + length (encode_char c)) o d (ground arith) in
      (
        c ∷ s,
        c',
        t,
        printable_of_refused c s good a,
        r,
        ap (◌∷◌ c) e,
        omega (arith, l, length-append (encode_char c) (as_bytes s)),
      )
]

-- Each error says what is wrong with the text: it is empty, or the offset is that of its first
-- refused character, in bytes and with only printable ones before it, or all characters are
-- printable and a label is empty.
pub new-err : (d : Text) (e : DomainNameError) → new d ≡ err e → ErrorFits d e
unfolding new labels
new-err [] e h = ground arith
new-err (c ∷ s) e h = refusal (first_refused 0 (c ∷ s)) refl
  where
    refusal : (o : Option ℕ) → first_refused 0 (c ∷ s) ≡ o → ErrorFits (c ∷ s) e
    refusal none p =
        let e' : empty_label ≡ e = ground arith in
        subst (ErrorFits (c ∷ s)) e' (first_refused-none 0 (c ∷ s) p, ground arith)
    refusal (some o) p =
        let e' : non_printable_char o ≡ e = ground arith in
        let (u, b, t, a, r, k, l) = first_refused-some 0 o (c ∷ s) p in
        subst (ErrorFits (c ∷ s)) e' (at u b t (c ∷ s) o a r k (omega arith))

-- Of an accepted name the labels are not empty and hold no dot, and joined by dots they are the name.
pub labels-ok :
    (d e : Text)
    → new d ≡ ok e
    → NoneEmpty (labels e) × AllAvoid b'.' (labels e) × (join b'.' (labels e) ≡ d)
unfolding labels
labels-ok d e h =
    let (v, same) = (new-ok_iff d e).0 h in
    subst
      (λ x.
        NoneEmpty (split b'.' x) × AllAvoid b'.' (split b'.' x) × (join b'.' (split b'.' x) ≡ d))
      same (v.pieces, split-AllAvoid b'.' d, join-split b'.' d)

-- Every text that is not empty is accepted if it has no dot and all its characters are above U+0020
-- and not among U+007F to U+009F: so are U+00A0, U+2003, U+200B and all other spaces and invisible
-- characters above U+009F.
pub new_undotted :
    (c : ℕ) (s : Text) → AllPrintable (c ∷ s) → Avoids b'.' (c ∷ s) → new (c ∷ s) ≡ ok (c ∷ s)
new_undotted c s h k = new-ok_complete (c ∷ s) (record {
  some_text = λ e. cc;
  printable = h;
  pieces = subst NoneEmpty (sym (split-Avoids b'.' (c ∷ s) k)) (λ e. cc, tt);
})
