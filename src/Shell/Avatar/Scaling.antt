-- ===== src/Shell/Avatar/Scaling.antt =====
-- The size that an image is scaled to.
use pecunia.Prelude.{
  ◌==◌, ◌||◌, false, true, ◌≡◌, min, max, sym, refl, ◌+◌, ◌*◌, ◌≤◌, leb, ℕ, ◌<◌, arith,
}
use mathlib.Core.Path.{subst}
use native.Mathlib.Decide.{dec_le}
use native.Mathlib.Nat.{div-mul-le_self, lt-div-mul-add, mul-le-mul_right, mul-le-mul_left}
use pecunia.Shell.Avatar.{Size, scaled, fit_within}

-- The exact length n * bound / longest, rounded half up.
pub record Rounds (n bound longest r : ℕ) : Type 0 where
  pub at_least : r * (2 * longest) ≤ 2 * (n * bound) + longest
  pub below : 2 * (n * bound) + longest < (r + 1) * (2 * longest)

pub scaled-Rounds :
    (n bound longest : ℕ) → bound < longest → Rounds n bound longest (scaled n bound longest)
unfolding scaled
scaled-Rounds n bound longest h =
    let e : leb longest bound ≡ false = ground arith in
    rw e (record {
      at_least = div-mul-le_self (2 * (n * bound) + longest) (2 * longest);
      below =
          omega
            (arith, lt-div-mul-add {a = 2 * (n * bound) + longest} {b = 2 * longest} (omega arith));
    })

-- A quotient below the next number.
below_next : (r b k : ℕ) → r * k < (b + 1) * k → r ≤ b
below_next r b k h = elim (dec_le r b) [
  | yes p ↦ p
  | no n ↦ absurd (omega (arith, mul-le-mul_right {m = b + 1} {n = r} k (omega arith)))
]

Rounds-le_bound :
    (n bound longest r : ℕ) → Rounds n bound longest r → n ≤ longest → 0 < longest → r ≤ bound
Rounds-le_bound n bound longest r h k p =
    below_next r bound (2 * longest)
      (omega (arith, h.at_least, mul-le-mul_right {m = n} {n = longest} bound k))

Rounds-le : (n bound longest r : ℕ) → Rounds n bound longest r → bound < longest → r ≤ n
Rounds-le n bound longest r h k =
    below_next r n (2 * longest)
      (omega (arith, h.at_least, mul-le-mul_left {m = bound} {n = longest} n (omega arith)))

Rounds-ge : (bound longest r : ℕ) → Rounds longest bound longest r → 0 < longest → bound ≤ r
Rounds-ge bound longest r h p = below_next bound r (2 * longest) (omega (arith, h.below))

-- A size that fits a square of the given bound as the source of the given sides does.
pub record Fits (width height bound : ℕ) (size : Size) : Type 0 where
  pub width_fits : size.width ≤ bound
  pub height_fits : size.height ≤ bound
  pub width_not_up : size.width ≤ width
  pub height_not_up : size.height ≤ height
  pub longest_side : max size.width size.height ≡ min bound (max width height)
  pub width_in_ratio : bound < max width height → Rounds width bound (max width height) size.width
  pub height_in_ratio :
      bound < max width height → Rounds height bound (max width height) size.height

-- The facts of one scaled side.
record Side (n bound longest r : ℕ) : Type 0 where
  fits : r ≤ bound
  not_up : r ≤ n
  longest_fits : n ≡ longest → r ≡ min bound longest
  in_ratio : bound < longest → Rounds n bound longest r

scaled_small : (n bound longest : ℕ) → longest ≤ bound → scaled n bound longest ≡ n
unfolding scaled
scaled_small n bound longest h = let e : leb longest bound ≡ true = ground arith in rw e refl

small-Side : (n bound longest : ℕ) → n ≤ longest → longest ≤ bound → Side n bound longest n
small-Side n bound longest k h = record {
  fits = omega arith;
  not_up = omega arith;
  longest_fits = λ q. omega arith;
  in_ratio = λ l. absurd (omega arith);
}

rounded-Side :
    (n bound longest r : ℕ)
    → n ≤ longest
    → bound < longest
    → Rounds n bound longest r
    → Side n bound longest r
rounded-Side n bound longest r k h q =
    let fits : r ≤ bound = Rounds-le_bound n bound longest r q k (omega arith) in
    record {
      fits = fits;
      not_up = Rounds-le n bound longest r q h;
      longest_fits = λ e. omega (
        arith,
        fits,
        Rounds-ge bound longest r (subst (λ m. Rounds m bound longest r) e q) (omega arith),
      );
      in_ratio = λ l. q;
    }

scaled-Side : (n bound longest : ℕ) → n ≤ longest → Side n bound longest (scaled n bound longest)
scaled-Side n bound longest k = elim (dec_le longest bound) [
  | yes h ↦
      subst (Side n bound longest) (sym (scaled_small n bound longest h))
        (small-Side n bound longest k h)
  | no m ↦
      let h : bound < longest = omega arith in
      rounded-Side n bound longest (scaled n bound longest) k h (scaled-Rounds n bound longest h)
]

longest_lem :
    (w h bound a b : ℕ)
    → Side w bound (max w h) a
    → Side h bound (max w h) b
    → max a b ≡ min bound (max w h)
longest_lem w h bound a b s t = elim (dec_le h w) [
  | yes p ↦ omega (arith, s.longest_fits (omega arith), t.fits, t.not_up)
  | no n ↦ omega (arith, t.longest_fits (omega arith), s.fits, s.not_up)
]

-- An image with two positive sides is scaled to a size within the square of the bound that is no
-- larger than the image; its longest side is the shorter of the bound and the image's longest
-- side, and where the image does not fit, both sides are the exact scaled lengths, rounded half
-- up.
pub fit_within-Fits :
    (width height bound : ℕ)
    → 0 < width
    → 0 < height
    → Fits width height bound (fit_within width height bound)
unfolding fit_within
fit_within-Fits width height bound p q =
    let e : (width == 0 || height == 0) ≡ false = ground arith in
    let s = scaled-Side width bound (max width height) (omega arith) in
    let t = scaled-Side height bound (max width height) (omega arith) in
    rw e (record {
      width_fits = s.fits;
      height_fits = t.fits;
      width_not_up = s.not_up;
      height_not_up = t.not_up;
      longest_side =
          longest_lem width height bound (scaled width bound (max width height))
            (scaled height bound (max width height)) s t;
      width_in_ratio = s.in_ratio;
      height_in_ratio = t.in_ratio;
    })
