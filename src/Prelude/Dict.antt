-- ===== src/Prelude/Dict.antt =====
-- JavaScript's `Map` and plain objects with string keys, as association lists in insertion order.
-- The keys of the program's objects are currency codes, so no key is a name of
-- `Object.prototype` or an array index.
use Prim.Native.String.{String}
use mathlib.Core.Path.{◌≡◌, refl, subst, sym}
use mathlib.Core.Logic.{inl, inr}
use mathlib.Core.Bool.{Bool, true, false, not, ◌||◌, ◌&&◌}
use mathlib.Core.Option.{Option, none, some}
use mathlib.Core.List.{◌++◌, List, [], ◌∷◌}
use native.Mathlib.Omega.{arith}
use text.Mathlib.Text.{◌==◌ as str_eq}
use text.Mathlib.TextEquality.{eq_iff as str_eq_iff}
use text.Mathlib.TextPositions.{eq_refl as str_eq_refl}
use pecunia.Prelude.Tests.{Bool-cases, if◌then◌else◌}
use pecunia.Prelude.Lists.{filter}

abbrev pub Dict {ℓ} : Type ℓ → Type ℓ
Dict V = List (String × V)

-- `xs.includes(k)`
abbrev pub member : String → List String → Bool
member k [] = false
member k (x ∷ xs) = str_eq x k || member k xs

-- The distinct strings of a list, each where it first stands.
abbrev pub distinct : List String → List String
distinct [] = []
distinct (x ∷ xs) = x ∷ filter (λ y. not (str_eq x y)) (distinct xs)

module _ {ℓ} {V : Type ℓ} where
  -- `m.get(k)`
  unfoldable pub lookup : String → Dict V → Option V
  lookup k [] = none
  lookup k ((j, v) ∷ m) = if str_eq j k then some v else lookup k m

  -- `m.set(k, v)`: a key that is there keeps its place.
  unfoldable pub insert : String → V → Dict V → Dict V
  insert k v [] = (k, v) ∷ []
  insert k v ((j, w) ∷ m) = if str_eq j k then (j, v) ∷ m else (j, w) ∷ insert k v m

  -- `Object.keys(m)`
  abbrev pub keys : Dict V → List String
  keys [] = []
  keys ((k, v) ∷ m) = k ∷ keys m

  pub lookup-insert :
      (k j : String) (v : V) (m : Dict V)
      → lookup j (insert k v m) ≡ (if str_eq k j then some v else lookup j m)
  unfolding lookup insert
  lookup-insert k j v [] = refl
  lookup-insert k j v ((i, w) ∷ m) =
      ground (arith, str_eq_iff k j, str_eq_iff i k, str_eq_iff i j, lookup-insert k j v m)

  -- `v ?? d`
  abbrev pub or_else : V → Option V → V
  or_else d none = d
  or_else d (some v) = v

  -- `m.has(k)`
  abbrev pub is_some : Option V → Bool
  is_some none = false
  is_some (some v) = true

pub is_some-lookup {ℓ} :
    {V : Type ℓ} (k : String) (m : Dict V) → is_some (lookup k m) ≡ member k (keys m)
unfolding lookup
is_some-lookup k [] = refl
is_some-lookup k ((j, v) ∷ m) = ground (arith, is_some-lookup k m)

pub lookup_absent {ℓ} :
    {V : Type ℓ} (k : String) (m : Dict V) → member k (keys m) ≡ false → lookup k m ≡ none
unfolding lookup
lookup_absent k [] h = refl
lookup_absent k ((j, v) ∷ m) h = ground (arith, lookup_absent k m)

pub member-append :
    (k : String) (xs ys : List String) → member k (xs ++ ys) ≡ (member k xs || member k ys)
member-append k [] ys = refl
member-append k (x ∷ xs) ys = ground (arith, member-append k xs ys)

pub member-filter :
    (k : String) (p : String → Bool) (xs : List String)
    → member k (filter p xs) ≡ (p k && member k xs)
member-filter k p [] = ground arith
member-filter k p (x ∷ xs) = elim (Bool-cases (str_eq x k)) [
  | inl e ↦
      subst (λ (z : String). member k (filter p (z ∷ xs)) ≡ (p k && member k (z ∷ xs)))
        (sym ((str_eq_iff x k).0 e)) (ground (arith, str_eq_refl k, member-filter k p xs))
  | inr e ↦ rw e (ground (arith, e, member-filter k p xs))
]

pub member-distinct : (k : String) (xs : List String) → member k (distinct xs) ≡ member k xs
member-distinct k [] = refl
member-distinct k (x ∷ xs) =
    ground (arith, member-distinct k xs, member-filter k (λ y. not (str_eq x y)) (distinct xs))
