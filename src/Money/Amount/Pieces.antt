-- ===== src/Money/Amount/Pieces.antt =====
-- The pieces of a typed decimal and the number that the conversion makes of them.
use pecunia.Prelude.{
  suc, ℕ, zero, ◌+◌, ◌-◌, ◌*◌, ◌^◌, ◌≤◌, ◌<◌, ◌≡◌, refl, ap, ◌∙◌, Bool, Option, none, some, [], ◌∷◌,
  ◌++◌, arith, length, get_elem?, take, replicate, length-append, length-replicate, if◌then◌else◌,
}
use native.Mathlib.Nat.{pow-suc, pow-zero, add-zero, add-suc}
use pecunia.Money.Amount.Shape.{
  DigitsIn, digits_after, written, split_on-unsigned, skip_minus-written,
}
use pecunia.Prelude.Text.{Text, value, pad_end}
use pecunia.Prelude.Text.Decimal.{Digits, value-append, value_zeros}
use pecunia.Money.Amount.{
  or_zero, rounds_up, length, take, get_elem?, ◌∷◌, none, some, [], convert, Option, Bool,
}

pub pow_ten_add : (a b : ℕ) → 10 ^ (a + b) ≡ 10 ^ a * 10 ^ b
pow_ten_add a zero = rw (add-zero a, pow-zero 10) (omega arith)
pow_ten_add a (suc b) =
    rw (add-suc a b, pow-suc 10 (a + b), pow-suc 10 b, pow_ten_add a b) (omega arith)

pub pow_ten_pos : (d : ℕ) → 0 < 10 ^ d
pow_ten_pos zero = rw (pow-zero 10) (omega arith)
pow_ten_pos (suc d) = rw (pow-suc 10 d) (omega (arith, pow_ten_pos d))

-- A list cut at an index inside it.
pub record Cut (s : Text) (d : ℕ) : Type 0 where
  pub front : Text
  pub here : ℕ
  pub back : Text
  pub front_long : length front ≡ d
  pub front_is : take d s ≡ front
  pub here_is : get_elem? s d ≡ some here
  pub joined : s ≡ front ++ here ∷ back

pub cut : (s : Text) (d : ℕ) → d < length s → Cut s d
cut [] d h = elim h [ ]
cut (c ∷ s) zero h = record {
  front = [];
  here = c;
  back = s;
  front_long = refl;
  front_is = refl;
  here_is = refl;
  joined = refl;
}
cut (c ∷ s) (suc d) h =
    let k = cut s d (omega arith) in
    record {
      front = c ∷ k.front;
      here = k.here;
      back = k.back;
      front_long = ap suc k.front_long;
      front_is = ap (λ r. c ∷ r) k.front_is;
      here_is = k.here_is;
      joined = ap (λ r. c ∷ r) k.joined;
    }

pub take-append_front : (s t : Text) (d : ℕ) → d ≤ length s → take d (s ++ t) ≡ take d s
take-append_front s t zero h = refl
take-append_front [] t (suc d) h = elim h [ ]
take-append_front (c ∷ s) t (suc d) h = ap (λ r. c ∷ r) (take-append_front s t d (omega arith))

take_all : (s : Text) (d : ℕ) → length s ≤ d → take d s ≡ s
take_all [] zero h = refl
take_all [] (suc d) h = refl
take_all (c ∷ s) zero h = elim h [ ]
take_all (c ∷ s) (suc d) h = ap (λ r. c ∷ r) (take_all s d (omega arith))

pub get_elem?_past : (s : Text) (d : ℕ) → length s ≤ d → get_elem? s d ≡ none
get_elem?_past [] d h = refl
get_elem?_past (c ∷ s) zero h = elim h [ ]
get_elem?_past (c ∷ s) (suc d) h = get_elem?_past s d (omega arith)

pub value-or_zero :
    (w : Text) (t : Text) → value (or_zero w ++ t) ≡ value w * 10 ^ length t + value t
value-or_zero [] t = omega (arith)
value-or_zero (c ∷ w) t = value-append (c ∷ w) t

-- The number that `convert` makes of the pieces.
abbrev pub minor_of : Text → Text → ℕ → ℕ
minor_of w f d =
    let minor = value (or_zero w ++ take d (pad_end d b'0' f)) in
    if rounds_up (get_elem? f d) then minor + 1 else minor

-- No digit is lost when there are at most d of them.
pub minor_of_short :
    (w f : Text) (d : ℕ) → length f ≤ d → minor_of w f d * 10 ^ length f ≡ value (w ++ f) * 10 ^ d
minor_of_short w f d h =
    let z : Text = replicate (d - length f) b'0' in
    let lz : length z ≡ d - length f = length-replicate (d - length f) b'0' in
    let whole : take d (f ++ z) ≡ f ++ z =
      take_all (f ++ z) d (omega (arith, length-append f z, lz)) in
    let p : 10 ^ d ≡ 10 ^ length f * 10 ^ (d - length f) =
      ap (λ (n : ℕ). 10 ^ n) (omega arith) ∙ pow_ten_add (length f) (d - length f) in
    let v : value (f ++ z) ≡ value f * 10 ^ (d - length f) =
      value-append f z
      ∙ omega (arith, value_zeros (d - length f), ap (λ (n : ℕ). value f * 10 ^ n) lz) in
    let lw : length (f ++ z) ≡ d = omega (arith, length-append f z, lz) in
    let total : value (or_zero w ++ (f ++ z)) ≡ value w * 10 ^ d + value f * 10 ^ (d - length f) =
      value-or_zero w (f ++ z) ∙ rw (lw, v) refl in
    rw (get_elem?_past f d h, whole, total, value-append w f)
      (omega (
        arith,
        ap (λ (t : ℕ). value f * t) p,
        ap (λ (t : ℕ). value w * 10 ^ length f * t) p,
        ap (λ (t : ℕ). value w * t) p,
      ))

pub convert-written :
    (n : Bool) (w : Text) (f : Option Text) (d : ℕ)
    → Digits w
    → DigitsIn f
    → convert (written n w f) d ≡ minor_of w (digits_after f) d
unfolding convert
convert-written n w f d h k =
    let (whole, fraction) = split_on-unsigned w f h k in
    rw (skip_minus-written n w f h, whole, fraction) refl
