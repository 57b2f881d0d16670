-- ===== src/Fcrdns/Names.antt =====
-- When two host names are compared as the same: `normalize` of crates/binda-core/src/fcrdns.rs.
use binda.Prelude.{
  ℕ, ◌+◌, ◌≤◌, ◌≡◌, refl, sym, ap, ◌∙◌, ◌↔◌, ◌⊎◌, inl, inr, [], ◌∷◌, arith, Bool-cases, ◌==◌,
  nat_eq, list_eq,
}
use binda.Text.{Text, trim_end_matches, to_ascii_lowercase, ascii_lower}
use binda.Fcrdns.{normalize}

-- `c` is an upper-case ASCII letter, U+0041 to U+005A, and `d` the same letter in lower case.
abbrev pub Lowers : ℕ → ℕ → Type 0
Lowers c d = (0x41 ≤ c) × (c ≤ 0x5A) × (d ≡ c + 0x20)

abbrev pub SameLetter : ℕ → ℕ → Type 0
SameLetter c d = (c ≡ d) ⊎ Lowers c d ⊎ Lowers d c

abbrev pub AllDots : Text → Type 0
AllDots [] = Unit
AllDots (c ∷ s) = (c ≡ 0x2E) × AllDots s

-- The names are the same, letter for letter and up to ASCII case, until at most dots are left of
-- either.
abbrev pub SameName : Text → Text → Type 0
SameName [] t = AllDots t
SameName (c ∷ s) [] = AllDots (c ∷ s)
SameName (c ∷ s) (d ∷ t) = (AllDots (c ∷ s) × AllDots (d ∷ t)) ⊎ (SameLetter c d × SameName s t)

ascii_lower_sound : (c d : ℕ) → ascii_lower c ≡ ascii_lower d → SameLetter c d
unfolding ascii_lower
ascii_lower_sound c d h = ground arith

ascii_lower_complete : (c d : ℕ) → SameLetter c d → ascii_lower c ≡ ascii_lower d
unfolding ascii_lower
ascii_lower_complete c d h = ground arith

ascii_lower_dot : (c d : ℕ) → ascii_lower c ≡ ascii_lower d → c ≡ 0x2E → d ≡ 0x2E
unfolding ascii_lower
ascii_lower_dot c d h e = ground arith

abbrev trimmed : Text → Text
trimmed s = trim_end_matches (λ c. c == b'.') s

trim-cases :
    (s : Text)
    → (AllDots s × (trimmed s ≡ []))
      ⊎ ((¬ AllDots s) × ((d : ℕ) × (r : Text) × (trimmed s ≡ d ∷ r)))
unfolding trim_end_matches
trim-cases [] = inl (tt, refl)
trim-cases (c ∷ s) = elim (trim-cases s) [
  | inr (more, (d, r, q)) ↦ inr (λ h. more h.1, (c, d ∷ r, rw (q) refl))
  | inl (dots, q) ↦ elim (Bool-cases (c == b'.')) [
    | inl e ↦ inl ((ground (arith, e), dots), rw (q, e) refl)
    | inr e ↦ inr (λ h. ground (arith, e, h.0), (c, [], rw (q, e) refl))
  ]
]

-- A name normalizes to nothing if it is all dots, and else its first letter and the rest do.
normalize-cases :
    (c : ℕ) (s : Text)
    → (AllDots (c ∷ s) × (normalize (c ∷ s) ≡ []))
      ⊎ ((¬ AllDots (c ∷ s)) × (normalize (c ∷ s) ≡ ascii_lower c ∷ normalize s))
unfolding normalize to_ascii_lowercase trim_end_matches
normalize-cases c s = elim (trim-cases s) [
  | inr (more, (d, r, q)) ↦ inr (λ h. more h.1, rw (q) refl)
  | inl (dots, q) ↦ elim (Bool-cases (c == b'.')) [
    | inl e ↦ inl ((ground (arith, e), dots), rw (q, e) refl)
    | inr e ↦ inr (λ h. ground (arith, e, h.0), rw (q, e) refl)
  ]
]

normalize_nil : normalize [] ≡ []
unfolding normalize to_ascii_lowercase trim_end_matches
normalize_nil = refl

normalize-AllDots : (s : Text) → normalize s ≡ [] → AllDots s
normalize-AllDots [] h = tt
normalize-AllDots (c ∷ s) h = elim (normalize-cases c s) [
  | inl (dots, q) ↦ dots
  | inr (more, q) ↦ cc
]

normalize_of_AllDots : (s : Text) → AllDots s → normalize s ≡ []
normalize_of_AllDots [] h = normalize_nil
normalize_of_AllDots (c ∷ s) h = elim (normalize-cases c s) [
  | inl (dots, q) ↦ q
  | inr (more, q) ↦ absurd (more h)
]

-- Dots at the end stay dots under a letter of the same case.
still_dots :
    (c d : ℕ) (s t : Text)
    → ascii_lower c ≡ ascii_lower d
    → normalize s ≡ normalize t
    → AllDots (c ∷ s)
    → AllDots (d ∷ t)
still_dots c d s t e h dots =
    (ascii_lower_dot c d e dots.0, normalize-AllDots t (sym h ∙ normalize_of_AllDots s dots.1))

normalize_cons :
    (c d : ℕ) (s t : Text)
    → ascii_lower c ≡ ascii_lower d
    → normalize s ≡ normalize t
    → normalize (c ∷ s) ≡ normalize (d ∷ t)
normalize_cons c d s t e h = elim (normalize-cases c s) [
  | inl (dots, q) ↦ q ∙ sym (normalize_of_AllDots (d ∷ t) (still_dots c d s t e h dots))
  | inr (more, q) ↦ elim (normalize-cases d t) [
    | inl (dots, r) ↦ absurd (more (still_dots d c t s (sym e) (sym h) dots))
    | inr (_, r) ↦ q ∙ ap (◌∷◌ (ascii_lower c)) h ∙ ap (λ z. z ∷ normalize t) e ∙ sym r
  ]
]

normalize_sound : (s t : Text) → normalize s ≡ normalize t → SameName s t
normalize_sound [] t h = normalize-AllDots t (sym h ∙ normalize_nil)
normalize_sound (c ∷ s) [] h = normalize-AllDots (c ∷ s) (h ∙ normalize_nil)
normalize_sound (c ∷ s) (d ∷ t) h = elim (normalize-cases c s) [
  | inl (dots, q) ↦ inl (dots, normalize-AllDots (d ∷ t) (sym h ∙ q))
  | inr (more, q) ↦ elim (normalize-cases d t) [
    | inl (dots, r) ↦ absurd (more (normalize-AllDots (c ∷ s) (h ∙ r)))
    | inr (_, r) ↦ inr (ascii_lower_sound c d (cc (h, q, r)), normalize_sound s t (cc (h, q, r)))
  ]
]

normalize_complete : (s t : Text) → SameName s t → normalize s ≡ normalize t
normalize_complete [] t h = normalize_nil ∙ sym (normalize_of_AllDots t h)
normalize_complete (c ∷ s) [] h = normalize_of_AllDots (c ∷ s) h ∙ sym normalize_nil
normalize_complete (c ∷ s) (d ∷ t) (inl (left, right)) =
    normalize_of_AllDots (c ∷ s) left ∙ sym (normalize_of_AllDots (d ∷ t) right)
normalize_complete (c ∷ s) (d ∷ t) (inr (letters, rest)) =
    normalize_cons c d s t (ascii_lower_complete c d letters) (normalize_complete s t rest)

-- Two names normalize to the same text exactly if they are the same up to ASCII case and dots at the
-- end.
pub normalize-SameName_iff : (s t : Text) → (normalize s ≡ normalize t) ↔ SameName s t
normalize-SameName_iff s t = (normalize_sound s t, normalize_complete s t)
