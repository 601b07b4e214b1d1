-- ===== src/Forms/Goal/Sent.antt =====
-- What the form of a goal sends.
use pecunia.Prelude.{
  ℕ, String, ◌≡◌, refl, sym, ap, ◌∙◌, ◌≢◌, ◌↔◌, Bool, true, false, not, ◌&&◌, Option, none, some,
  str_eq, All, if◌then◌else◌,
}
use pecunia.Prelude.Int.{ℤ, pos}
use pecunia.Prelude.Text.{trim}
use pecunia.Money.{Intl}
use pecunia.Money.Amount.{amount_to_minor}
use pecunia.Api.{Json, null, string, number}
use pecunia.Hooks.{Mutation, nullable, encoded_if}
use pecunia.Hooks.Goals.{entries_of_create_goal, entries_of_update_goal}
use pecunia.Forms.{stays, refused, sends, trimmed, with_amount_error, with_second_error}
use pecunia.Forms.Goal.{
  GoalForm, effective_currency, mutation_by, is_manual, is_empty, with_parsed, with_target,
  goal_submission, create_payload, update_payload, unless_null,
}

-- Whether the form gives the current progress: a manual goal whose field is not blank.
abbrev pub gives_progress : GoalForm → Bool
gives_progress form = is_manual form.source_kind && not (is_empty (trim form.manual_current))

-- The progress that is sent.
pub data Progress (intl : Intl) (form : GoalForm) : Option ℤ → Type 0 where
  no_progress : gives_progress form ≡ false → Progress intl form none
  progress :
      gives_progress form ≡ true
      → (n : ℕ) → amount_to_minor intl form.manual_current (effective_currency form) ≡ some n
      → Progress intl form (some (pos n))

module _ (intl : Intl) (form : GoalForm) where
  -- The mutation is what the form sends: it has a name, and its amounts are read in the currency of
  -- the source.
  abbrev pub Sends : Mutation → Type 0
  Sends m =
      (str_eq (trimmed form.name) "" ≡ false)
      × ((target : ℕ) × (current : Option ℤ) × (amount_to_minor intl form.target
              (effective_currency form)
            ≡ some target)
          × Progress intl form current
          × (m ≡ mutation_by form form.goal_id target current))

  -- What is left of it once the name is given and the target is read.
  abbrev Rest : ℕ → Mutation → Type 0
  Rest target m =
      (current : Option ℤ) × Progress intl form current
      × (m ≡ mutation_by form form.goal_id target current)

  sends_inj : (m n : Mutation) → sends m ≡ sends n → n ≡ m
  sends_inj m n e = cc

  of_parsed :
      (m : Mutation) (target : ℕ) (o : Option ℕ)
      → gives_progress form ≡ true
      → amount_to_minor intl form.manual_current (effective_currency form) ≡ o
      → with_parsed form target o ≡ sends m
      → Rest target m
  of_parsed m target none g k e = absurd (clash e)
    where
      clash : refused (with_second_error "Enter a valid amount.") ≡ sends m → ⊥
      clash z = cc
  of_parsed m target (some n) g k e = (some (pos n), progress g n k, sends_inj _ m e)

  of_progress :
      (m : Mutation) (target : ℕ) (b : Bool)
      → gives_progress form ≡ b
      → (if b
          then with_parsed form target
              (amount_to_minor intl form.manual_current (effective_currency form))
          else sends (mutation_by form form.goal_id target none))
        ≡ sends m
      → Rest target m
  of_progress m target true g e = of_parsed m target _ g refl e
  of_progress m target false g e = (none, no_progress g, sends_inj _ m e)

  of_target :
      (m : Mutation) (o : Option ℕ)
      → amount_to_minor intl form.target (effective_currency form) ≡ o
      → with_target intl form o ≡ sends m
      → (target : ℕ) × (amount_to_minor intl form.target (effective_currency form) ≡ some target)
        × Rest target m
  of_target m none k e = absurd (clash e)
    where
      clash : refused (with_amount_error "Enter a valid amount.") ≡ sends m → ⊥
      clash z = cc
  of_target m (some target) k e = (target, k, of_progress m target (gives_progress form) refl e)

  of_name :
      (m : Mutation) (b : Bool)
      → str_eq (trimmed form.name) "" ≡ b
      → (if b
          then stays
          else with_target intl form (amount_to_minor intl form.target (effective_currency form)))
        ≡ sends m
      → Sends m
  of_name m true h e = absurd (clash e)
    where
      clash : stays ≡ sends m → ⊥
      clash z = cc
  of_name m false h e = let r = of_target m _ refl e in (h, (r.0, r.2.0, r.1, r.2.1, r.2.2))

  to_rest :
      (target : ℕ) (current : Option ℤ)
      → Progress intl form current
      → with_target intl form (some target) ≡ sends (mutation_by form form.goal_id target current)
  to_rest target current (no_progress g) = rw g refl
  to_rest target current (progress g n k) = rw g (ap (with_parsed form target) k)

  -- A goal is sent exactly when its name is not blank, its target reads as an amount in the
  -- currency of its source, and, for a manual goal with a progress that is not blank, that reads as
  -- an amount too; what is sent has these values, and no progress for any other goal.
  pub goal_submission-Sends : (m : Mutation) → (goal_submission intl form ≡ sends m) ↔ Sends m
  unfolding goal_submission
  goal_submission-Sends m = (
    λ e. of_name m (str_eq (trimmed form.name) "") refl e,
    λ r.
        rw r.0
          (ap (with_target intl form) r.1.2 ∙ to_rest r.1.0 r.1.1 r.1.3 ∙ ap sends (sym r.1.4)),
  )

-- An optional value that is left out where it is null is not sent as null.
abbrev IsGiven : {A : Type 0} → (A → Json) → Option A → Type 0
IsGiven encode o = encoded_if (nullable encode) (unless_null o) ≢ some null

string-IsGiven : (o : Option String) → IsGiven string o
string-IsGiven none e = cc
string-IsGiven (some s) e = cc

number-IsGiven : (o : Option ℤ) → IsGiven number o
number-IsGiven none e = cc
number-IsGiven (some n) e = cc

-- A new goal is sent without any null, and an edit with every key, null for what it clears.
pub goal_bodies :
    (form : GoalForm) (target : ℕ) (current : Option ℤ)
    → All
        (λ (e : String × Option Json). e.1 ≢ some null)
        (entries_of_create_goal (create_payload form target current))
      × All
          (λ (e : String × Option Json). e.1 ≢ none)
          (entries_of_update_goal (update_payload form target current))
goal_bodies form target current = (
  (
    (λ e. cc),
    (
      (λ e. cc),
      ((λ e. cc), (string-IsGiven _, ((λ e. cc), (string-IsGiven _, (number-IsGiven _, _))))),
    ),
  ),
  ((λ e. cc), ((λ e. cc), ((λ e. cc), ((λ e. cc), ((λ e. cc), ((λ e. cc), ((λ e. cc), _))))))),
)
