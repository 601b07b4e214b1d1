-- ===== src/Transactions/Trimmed.antt =====
-- A trimmed text has nothing left to trim.
use pecunia.Prelude.{◌≡◌, refl, sym, ap, ◌∙◌, inl, inr, false, [], ◌∷◌, ◌++◌, reverse, Bool-cases}
use mathlib.Core.List.{reverse-append, reverse-reverse}
use mathlib.Core.Path.{subst}
use pecunia.Prelude.Text.{Text, is_space, trim_start, trim}

-- A text that begins with no white space.
abbrev pub Starts : Text → Type 0
Starts [] = Unit
Starts (c ∷ s) = is_space c ≡ false

trim_start-Starts : (s : Text) → Starts (trim_start s)
unfolding trim_start
trim_start-Starts [] = tt
trim_start-Starts (c ∷ s) = elim (Bool-cases (is_space c)) [
  | inl e ↦ rw e (trim_start-Starts s)
  | inr e ↦ rw e e
]

trim_start-eq : (s : Text) → Starts s → trim_start s ≡ s
unfolding trim_start
trim_start-eq [] h = refl
trim_start-eq (c ∷ s) h = rw h refl

-- What is trimmed off the start is a prefix.
trim_start-suffix : (s : Text) → (before : Text) × (s ≡ before ++ trim_start s)
unfolding trim_start
trim_start-suffix [] = ([], refl)
trim_start-suffix (c ∷ s) = elim (Bool-cases (is_space c)) [
  | inl e ↦ rw e (c ∷ (trim_start-suffix s).0, ap (λ r. c ∷ r) (trim_start-suffix s).1)
  | inr e ↦ rw e ([], refl)
]

Starts-append : (s t : Text) → Starts (s ++ t) → Starts s
Starts-append [] t h = tt
Starts-append (c ∷ s) t h = h

module _ (s : Text) where
  abbrev left : Text
  left = trim_start s

  abbrev right : Text
  right = trim_start (reverse left)

  trim_shape : trim s ≡ reverse right
  unfolding trim
  trim_shape = refl

  -- What is left after both ends are trimmed is a prefix of what is left after the first.
  left-eq : left ≡ reverse right ++ reverse (trim_start-suffix (reverse left)).0
  left-eq =
      sym (reverse-reverse left)
      ∙ ap reverse (trim_start-suffix (reverse left)).1
      ∙ reverse-append (trim_start-suffix (reverse left)).0 right

  trimmed-Starts : Starts (reverse right)
  trimmed-Starts =
      Starts-append (reverse right) (reverse (trim_start-suffix (reverse left)).0)
        (subst Starts left-eq (trim_start-Starts s))

  trim_trimmed : trim (reverse right) ≡ reverse right
  unfolding trim
  trim_trimmed =
      ap (λ r. reverse (trim_start (reverse r))) (trim_start-eq (reverse right) trimmed-Starts)
      ∙ ap (λ r. reverse (trim_start r)) (reverse-reverse right)
      ∙ ap reverse (trim_start-eq right (trim_start-Starts (reverse left)))

  pub trim-trim : trim (trim s) ≡ trim s
  trim-trim = ap trim trim_shape ∙ trim_trimmed ∙ sym trim_shape
