-- ===== src/Quantity/Accepted.antt =====
-- The quantities that are accepted.
use pecunia.Prelude.{
  ℕ, ◌+◌, ◌-◌, ◌^◌, ◌≤◌, ◌<◌, String, ◌≡◌, refl, sym, ap, ◌∙◌, ◌↔◌, Bool, true, false, not, ◌&&◌,
  ◌||◌, Option, none, some, [], ◌∷◌, ◌++◌, append-nil, arith, length, leb, ◌==◌, if◌then◌else◌,
  ltb→lt, lt→ltb, leb→le,
}
use pecunia.Prelude.Text.{Text, codes, split_on, value}
use pecunia.Prelude.Text.Decimal.{Digits}
use pecunia.Money.Amount.{is_empty, skip_digits, skip_dot, fraction_of}
use pecunia.Money.Amount.Shape.{
  pointed, unsigned, DigitsIn, Span-of, Tail-of_pattern, skip_digits-append, skip_digits_all,
  digits_after, split_on-unsigned,
}
use pecunia.Forms.{trimmed}
use pecunia.Quantity.{
  short_digits, quantity_pattern, is_point, is_finite, is_positive, accepts, parse_quantity,
}

-- A quantity: digits, and optionally a point and at most eight digits; it is more than zero, and a
-- double can hold it.
pub record IsQuantity (t : Text) : Type 0 where
  pub whole : Text
  pub fraction : Option Text
  pub whole_digits : Digits whole
  pub fraction_digits : DigitsIn fraction
  pub short : length (digits_after fraction) ≤ 8
  pub spelled : t ≡ unsigned whole fraction
  pub finite : value whole < 2 ^ 1024 - 2 ^ 970
  pub positive : 0 < value whole + value (digits_after fraction)

abbrev limit : ℕ
limit = 2 ^ 1024 - 2 ^ 970

at_most : (n m : ℕ) → n ≤ m → leb n m ≡ true
at_most n m h = ground arith

pattern-unsigned :
    (w : Text) (f : Option Text)
    → Digits w
    → DigitsIn f
    → length (digits_after f) ≤ 8
    → quantity_pattern (unsigned w f) ≡ true
pattern-unsigned w none h k s = rw (append-nil w, skip_digits_all w h) refl
pattern-unsigned w (some f) h k s =
    rw (skip_digits-append w (b'.' ∷ f) h, skip_digits_all f k, at_most (length f) 8 s) refl

-- A text that is empty or a lone point has no value.
not_blank :
    (w : Text) (f : Option Text)
    → Digits w
    → 0 < value w + value (digits_after f)
    → (is_empty (unsigned w f) ≡ false) × (is_point (unsigned w f) ≡ false)
not_blank [] none h p = absurd (omega (arith, p))
not_blank [] (some []) h p = absurd (omega (arith, p))
not_blank [] (some (c ∷ f)) h p = (refl, refl)
not_blank (c ∷ w) f h p = (refl, ground (arith, h.0))

positive_parts : (a b : ℕ) → 0 < a + b → (not (a == 0) || not (b == 0)) ≡ true
positive_parts a b h = ground arith

parts_positive : (a b : ℕ) → (not (a == 0) || not (b == 0)) ≡ true → 0 < a + b
parts_positive a b h = ground arith

accepts-unsigned : (t : Text) → IsQuantity t → accepts t ≡ true
unfolding accepts
accepts-unsigned t q =
    let parts = split_on-unsigned q.whole q.fraction q.whole_digits q.fraction_digits in
    let blank = not_blank q.whole q.fraction q.whole_digits q.positive in
    rw
      (
        q.spelled,
        blank.0,
        blank.1,
        pattern-unsigned q.whole q.fraction q.whole_digits q.fraction_digits q.short,
        parts.0,
        parts.1,
        lt→ltb (value q.whole) limit q.finite,
        positive_parts (value q.whole) (value (digits_after q.fraction)) q.positive,
      )
      refl

and_both : (a b : Bool) → (a && b) ≡ true → (a ≡ true) × (b ≡ true)
and_both true b h = (refl, h)
and_both false b h = cc

empty_lem : (t : Text) → is_empty t ≡ true → t ≡ []
empty_lem [] h = refl
empty_lem (c ∷ t) h = cc

digits_short :
    (f : Option Text) → short_digits (skip_dot (pointed f)) ≡ true → length (digits_after f) ≤ 8
digits_short none h = omega arith
digits_short (some f) h =
    leb→le (length f) 8 (and_both (is_empty (skip_digits f)) (leb (length f) 8) h).1

-- The parts of a text that the pattern accepts.
record Parts (t : Text) : Type 0 where
  whole : Text
  fraction : Option Text
  whole_digits : Digits whole
  fraction_digits : DigitsIn fraction
  short : length (digits_after fraction) ≤ 8
  spelled : t ≡ unsigned whole fraction

Parts-of_pattern : (t : Text) → quantity_pattern t ≡ true → Parts t
Parts-of_pattern t h =
    let s = Span-of t in
    let p : short_digits (skip_dot s.back) ≡ true = rw s.back_is at h in
    let r =
      Tail-of_pattern s.back s.stops
        (and_both (is_empty (skip_digits (skip_dot s.back))) (leb (length (skip_dot s.back)) 8)
          p).0 in
    record {
      whole = s.front;
      fraction = r.fraction;
      whole_digits = s.front_digits;
      fraction_digits = r.fraction_digits;
      short = digits_short r.fraction (rw r.spelled at p);
      spelled = s.joined ∙ ap (λ x. s.front ++ x) r.spelled;
    }

accepts-IsQuantity : (t : Text) → accepts t ≡ true → IsQuantity t
unfolding accepts
accepts-IsQuantity t h =
    let cut = split_on b'.' t in
    let positive = is_positive cut.0 (fraction_of cut) in
    let counts = is_finite cut.0 && positive in
    let a = and_both (not (is_empty t)) (not (is_point t) && (quantity_pattern t && counts)) h in
    let b = and_both (not (is_point t)) (quantity_pattern t && counts) a.1 in
    let c = and_both (quantity_pattern t) counts b.1 in
    let d = and_both (is_finite cut.0) positive c.1 in
    let p = Parts-of_pattern t c.0 in
    let parts = split_on-unsigned p.whole p.fraction p.whole_digits p.fraction_digits in
    record {
      whole = p.whole;
      fraction = p.fraction;
      whole_digits = p.whole_digits;
      fraction_digits = p.fraction_digits;
      short = p.short;
      spelled = p.spelled;
      finite = ltb→lt (value p.whole) limit (rw (p.spelled, parts.0) at d.0);
      positive =
          parts_positive (value p.whole) (value (digits_after p.fraction))
            (rw (p.spelled, parts.0, parts.1) at d.1);
    }

guarded :
    (b : Bool) (t q : String)
    → ◌≡◌ {A = Option String} (if b then some t else none) (some q)
    → (b ≡ true) × (q ≡ t)
guarded true t q h = (refl, cc)
guarded false t q h = cc

-- `parseQuantity` answers a text exactly if that text is the trimmed input and is a quantity:
-- digits, and optionally a point and at most eight digits, that are more than zero and that a
-- double can hold.
pub parse_quantity-IsQuantity :
    (input q : String)
    → (parse_quantity input ≡ some q) ↔ ((q ≡ trimmed input) × IsQuantity (codes q))
unfolding parse_quantity
parse_quantity-IsQuantity input q = (there, back)
  where
    there : parse_quantity input ≡ some q → (q ≡ trimmed input) × IsQuantity (codes q)
    there h =
        let g = guarded (accepts (codes (trimmed input))) (trimmed input) q h in
        (g.1, rw g.1 (accepts-IsQuantity (codes (trimmed input)) g.0))

    back : (q ≡ trimmed input) × IsQuantity (codes q) → parse_quantity input ≡ some q
    back h = rw (sym h.0, accepts-unsigned (codes q) h.1) refl
