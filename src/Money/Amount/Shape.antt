-- ===== src/Money/Amount/Shape.antt =====
-- The texts that the pattern accepts, as a grammar: an optional minus sign, digits, and optionally
-- a point and more digits; and the pieces that the conversion takes them apart into.
use pecunia.Prelude.{
  ◌==◌, ==_iff, ℕ, Bool, true, false, Option, none, some, [], ◌∷◌, ◌++◌, if◌then◌else◌, ◌≡◌, refl,
  ap, ◌∙◌, arith, Bool-cases, inl, inr, append-nil,
}
use pecunia.Prelude.Text.{Text, is_digit, split_on}
use pecunia.Prelude.Text.Decimal.{Digits}
use pecunia.Money.Amount.{
  is_empty, starts_with_minus, skip_digits, skip_dot, skip_minus, decimal_input_pattern,
  fraction_of,
}

-- A point and the digits after it, if there are any.
abbrev pub pointed : Option Text → Text
pointed none = []
pointed (some fraction) = b'.' ∷ fraction

abbrev pub unsigned : Text → Option Text → Text
unsigned whole fraction = whole ++ pointed fraction

abbrev pub written : Bool → Text → Option Text → Text
written negative whole fraction =
    if negative then b'-' ∷ unsigned whole fraction else unsigned whole fraction

abbrev pub DigitsIn : Option Text → Type 0
DigitsIn none = Unit
DigitsIn (some fraction) = Digits fraction

-- `t` is a decimal, and how it is put together.
pub record Decimal (t : Text) : Type 0 where
  pub negative : Bool
  pub whole : Text
  pub fraction : Option Text
  pub whole_digits : Digits whole
  pub fraction_digits : DigitsIn fraction
  pub spelled : t ≡ written negative whole fraction

pub skip_digits-append : (w r : Text) → Digits w → skip_digits (w ++ r) ≡ skip_digits r
skip_digits-append [] r h = refl
skip_digits-append (c ∷ w) r h = rw h.0 (skip_digits-append w r h.1)

pub skip_digits_all : (w : Text) → Digits w → skip_digits w ≡ []
skip_digits_all [] h = refl
skip_digits_all (c ∷ w) h = rw h.0 (skip_digits_all w h.1)

skip_minus-unsigned :
    (w : Text) (f : Option Text) → Digits w → skip_minus (unsigned w f) ≡ unsigned w f
skip_minus-unsigned [] none h = refl
skip_minus-unsigned [] (some f) h = refl
skip_minus-unsigned (c ∷ w) f h = ground (arith, h.0)

pub skip_minus-written :
    (n : Bool) (w : Text) (f : Option Text) → Digits w → skip_minus (written n w f) ≡ unsigned w f
skip_minus-written true w f h = refl
skip_minus-written false w f h = skip_minus-unsigned w f h

pattern-unsigned :
    (w : Text) (f : Option Text)
    → Digits w
    → DigitsIn f
    → is_empty (skip_digits (skip_dot (skip_digits (unsigned w f)))) ≡ true
pattern-unsigned w none h k = rw (skip_digits-append w [] h)
pattern-unsigned w (some f) h k = rw (skip_digits-append w (b'.' ∷ f) h, skip_digits_all f k)

pub pattern-written :
    (n : Bool) (w : Text) (f : Option Text)
    → Digits w
    → DigitsIn f
    → decimal_input_pattern (written n w f) ≡ true
unfolding decimal_input_pattern
pattern-written n w f h k = rw (skip_minus-written n w f h) (pattern-unsigned w f h k)

-- The digits at the front of a text, and what follows them.
pub record Span (t : Text) : Type 0 where
  pub front : Text
  pub back : Text
  pub front_digits : Digits front
  pub back_is : skip_digits t ≡ back
  pub stops : skip_digits back ≡ back
  pub joined : t ≡ front ++ back

pub Span-of : (t : Text) → Span t
Span-of [] = record {
  front = [];
  back = [];
  front_digits = tt;
  back_is = refl;
  stops = refl;
  joined = refl;
}
Span-of (c ∷ t) = elim (Bool-cases (is_digit c)) [
  | inl e ↦
      let s = Span-of t in
      record {
        front = c ∷ s.front;
        back = s.back;
        front_digits = (e, s.front_digits);
        back_is = rw e s.back_is;
        stops = s.stops;
        joined = ap (λ r. c ∷ r) s.joined;
      }
  | inr e ↦ record {
    front = [];
    back = c ∷ t;
    front_digits = tt;
    back_is = rw e refl;
    stops = rw e refl;
    joined = refl;
  }
]

empty_lem : (t : Text) → is_empty t ≡ true → t ≡ []
empty_lem [] h = refl
empty_lem (c ∷ t) h = cc

all-Digits : (t : Text) → is_empty (skip_digits t) ≡ true → Digits t
all-Digits t h =
    let s = Span-of t in
    let e : s.back ≡ [] = empty_lem s.back (rw s.back_is at h) in
    let j : t ≡ s.front = s.joined ∙ ap (λ r. s.front ++ r) e ∙ append-nil s.front in
    rw j s.front_digits

-- What may follow the first digits: nothing, or a point and digits.
pub record Tail (t : Text) : Type 0 where
  pub fraction : Option Text
  pub fraction_digits : DigitsIn fraction
  pub spelled : t ≡ pointed fraction

pub Tail-of_pattern :
    (t : Text) → skip_digits t ≡ t → is_empty (skip_digits (skip_dot t)) ≡ true → Tail t
Tail-of_pattern [] s h = record { fraction = none; fraction_digits = tt; spelled = refl }
Tail-of_pattern (c ∷ t) s h = elim (Bool-cases (c == b'.')) [
  | inl e ↦ record {
    fraction = some t;
    fraction_digits = all-Digits t (rw e at h);
    spelled = ap (λ (d : ℕ). d ∷ t) ((==_iff c b'.').0 e);
  }
  | inr e ↦ absurd (not_empty (rw (e, s) at h))
]
  where
    not_empty : is_empty (c ∷ t) ≡ true → ⊥
    not_empty q = cc

Decimal-unsigned :
    (n : Bool) (t u : Text)
    → t ≡ (if n then b'-' ∷ u else u)
    → is_empty (skip_digits (skip_dot (skip_digits u))) ≡ true
    → Decimal t
Decimal-unsigned n t u e h =
    let s = Span-of u in
    let r = Tail-of_pattern s.back s.stops (rw s.back_is at h) in
    let j : u ≡ unsigned s.front r.fraction = s.joined ∙ ap (λ x. s.front ++ x) r.spelled in
    record {
      negative = n;
      whole = s.front;
      fraction = r.fraction;
      whole_digits = s.front_digits;
      fraction_digits = r.fraction_digits;
      spelled = e ∙ signed n u _ j;
    }
  where
    signed :
        (n : Bool) (u v : Text) → u ≡ v → (if n then b'-' ∷ u else u) ≡ (if n then b'-' ∷ v else v)
    signed n u v e = ap (λ (x : Text). if n then b'-' ∷ x else x) e

minus_split : (t : Text) → t ≡ (if starts_with_minus t then b'-' ∷ skip_minus t else skip_minus t)
minus_split [] = refl
minus_split (c ∷ t) = ground arith

-- The pattern accepts exactly the decimals.
pub pattern-Decimal : (t : Text) → decimal_input_pattern t ≡ true → Decimal t
unfolding decimal_input_pattern
pattern-Decimal t h = Decimal-unsigned (starts_with_minus t) t (skip_minus t) (minus_split t) h

split_on-Digits : (w : Text) → Digits w → split_on b'.' w ≡ (w, [])
unfolding split_on
split_on-Digits [] h = refl
split_on-Digits (c ∷ w) h = ground (arith, split_on-Digits w h.1)

split_on-point : (w f : Text) → Digits w → Digits f → split_on b'.' (w ++ b'.' ∷ f) ≡ (w, f ∷ [])
unfolding split_on
split_on-point [] f h k = rw (split_on-Digits f k)
split_on-point (c ∷ w) f h k = ground (arith, split_on-point w f h.1 k)

abbrev pub digits_after : Option Text → Text
digits_after none = []
digits_after (some f) = f

-- Splitting at the point gives the whole part and the fraction.
pub split_on-unsigned :
    (w : Text) (f : Option Text)
    → Digits w
    → DigitsIn f
    → ((split_on b'.' (unsigned w f)).0 ≡ w)
      × (fraction_of (split_on b'.' (unsigned w f)) ≡ digits_after f)
split_on-unsigned w none h k = rw (append-nil w, split_on-Digits w h) (refl, refl)
split_on-unsigned w (some f) h k = rw (split_on-point w f h k) (refl, refl)
