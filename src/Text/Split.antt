-- ===== src/Text/Split.antt =====
-- `split` and `join` at one separator.
use binda.Prelude.{
  ℕ, ◌≡◌, refl, ap, ◌∙◌, false, List, [], ◌∷◌, ◌++◌, ◌==◌, nat_eq, if◌then◌else◌, arith, Bool-cases,
  inl, inr,
}
use binda.Text.{Text}

-- `c` in front of the first piece.
abbrev pub push_front : ℕ → List Text → List Text
push_front c [] = (c ∷ []) ∷ []
push_front c (s ∷ ss) = (c ∷ s) ∷ ss

unfoldable pub split : ℕ → Text → List Text
split sep [] = [] ∷ []
split sep (c ∷ s) = let rest = split sep s in if c == sep then [] ∷ rest else push_front c rest

unfoldable pub join : ℕ → List Text → Text
join sep [] = []
join sep (s ∷ []) = s
join sep (s ∷ s' ∷ ss) = s ++ sep ∷ join sep (s' ∷ ss)

-- The separator does not occur.
abbrev pub Avoids : ℕ → Text → Type 0
Avoids sep [] = Unit
Avoids sep (c ∷ s) = ((c == sep) ≡ false) × Avoids sep s

abbrev pub AllAvoid : ℕ → List Text → Type 0
AllAvoid sep [] = Unit
AllAvoid sep (s ∷ ss) = Avoids sep s × AllAvoid sep ss

join-one : (sep : ℕ) (s : Text) → join sep (s ∷ []) ≡ s
unfolding join
join-one sep s = refl

join-nil_cons :
    (sep : ℕ) (ss : List Text) (s : Text) → join sep ([] ∷ s ∷ ss) ≡ sep ∷ join sep (s ∷ ss)
unfolding join
join-nil_cons sep ss s = refl

split-ne_nil : (sep : ℕ) (s : Text) → (t : Text) × (ts : List Text) × (split sep s ≡ t ∷ ts)
unfolding split
split-ne_nil sep [] = ([], [], refl)
split-ne_nil sep (c ∷ s) =
    let (t, ts, e) = split-ne_nil sep s in
    elim (Bool-cases (c == sep)) [
      | inl h ↦ ([], t ∷ ts, rw (h, e))
      | inr h ↦ (c ∷ t, ts, rw (h, e))
    ]

join-push_front :
    (sep c : ℕ) (t : Text) (ts : List Text) → join sep ((c ∷ t) ∷ ts) ≡ c ∷ join sep (t ∷ ts)
unfolding join
join-push_front sep c t [] = refl
join-push_front sep c t (u ∷ ts) = refl

-- Joining the pieces gives the text back.
pub join-split : (sep : ℕ) (s : Text) → join sep (split sep s) ≡ s
unfolding split
join-split sep [] = join-one sep []
join-split sep (c ∷ s) =
    let (t, ts, e) = split-ne_nil sep s in
    ground (arith, e, join-split sep s, join-push_front sep c t ts, join-nil_cons sep ts t)

pub split-AllAvoid : (sep : ℕ) (s : Text) → AllAvoid sep (split sep s)
unfolding split
split-AllAvoid sep [] = (tt, tt)
split-AllAvoid sep (c ∷ s) =
    let (t, ts, e) = split-ne_nil sep s in ground (arith, e, split-AllAvoid sep s)

split-append : (sep : ℕ) (s t : Text) → Avoids sep s → split sep (s ++ sep ∷ t) ≡ s ∷ split sep t
unfolding split
split-append sep [] t h = ground arith
split-append sep (c ∷ s) t h = ground (arith, split-append sep s t h.1)

pub split-Avoids : (sep : ℕ) (s : Text) → Avoids sep s → split sep s ≡ s ∷ []
unfolding split
split-Avoids sep [] h = refl
split-Avoids sep (c ∷ s) h = ground (arith, split-Avoids sep s h.1)

-- Splitting the joined pieces gives the pieces back, if there is one and none has the separator.
pub split-join :
    (sep : ℕ) (s : Text) (ss : List Text)
    → AllAvoid sep (s ∷ ss)
    → split sep (join sep (s ∷ ss)) ≡ s ∷ ss
unfolding join
split-join sep s [] h = split-Avoids sep s h.0
split-join sep s (t ∷ ss) h =
    split-append sep s (join sep (t ∷ ss)) h.0 ∙ ap (◌∷◌ s) (split-join sep t ss h.1)
