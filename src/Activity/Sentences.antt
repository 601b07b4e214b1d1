-- ===== src/Activity/Sentences.antt =====
-- Which activities render as a sentence.
use pecunia.Prelude.{
  false≢true, ◌||◌, if◌then◌else◌, Bool, true, false, map, refl, ℕ, String, ◌≡◌, sym, ap, ◌∙◌, ◌≢◌,
  inl, inr, Option, none, some, [], ◌∷◌, ◌++◌, append_assoc, str_eq, Bool-cases,
}
use pecunia.Prelude.Text.{trim, Text, codes}
use pecunia.Money.{Intl}
use pecunia.Api.{Json, null, boolean, number, string, array, object, Fields, find_field}
use pecunia.Activity.{
  throws_inherited, upper, with_type, quoted, sentence, amounting, text_param, money_param,
  humanize_template_key, strip, spaced, Template, account_created, transaction_created,
  transaction_imported, asset_created, valuation_changed, project_created, target_reached,
  budget_created, unknown, inherited_to_string, inherited_constructor, inherited_other, changing,
  Rendered, text, range_error, template_of, render, render_activity,
}

-- A sentence: it ends with a full stop, after at least one character.
abbrev pub IsSentence : Text → Type 0
IsSentence t = (body : Text) × (t ≡ body ++ codes ".") × (body ≢ [])

prepend : (s t : Text) → IsSentence t → IsSentence (s ++ t)
prepend s t (body, e, n) = (
  s ++ body,
  ap (λ r. s ++ r) e ∙ sym (append_assoc s body (codes ".")),
  λ q. n (tail_empty s body q),
)
  where
    tail_empty : (s b : Text) → s ++ b ≡ [] → b ≡ []
    tail_empty [] b q = q
    tail_empty (c ∷ s) b q = absurd (cons_nil (s ++ b) q)
      where
        cons_nil : (r : Text) → ◌≡◌ {A = Text} (c ∷ r) [] → ⊥
        cons_nil r p = cc

stop : (c : ℕ) (s : Text) → IsSentence ((c ∷ s) ++ codes ".")
stop c s = (c ∷ s, refl, λ q. cons_nil q)
  where
    cons_nil : ◌≡◌ {A = Text} (c ∷ s) [] → ⊥
    cons_nil p = cc

-- A text that begins with a character, another one, then a full stop.
stopped : (c : ℕ) (s t : Text) → IsSentence ((c ∷ s) ++ (t ++ codes "."))
stopped c s t = ((c ∷ s) ++ t, sym (append_assoc (c ∷ s) t (codes ".")), λ q. cons_nil q)
  where
    cons_nil : ◌≡◌ {A = Text} (c ∷ s ++ t) [] → ⊥
    cons_nil p = cc

sentence-IsSentence : (t : Text) → IsSentence (sentence t)
sentence-IsSentence [] = stop b'A' (codes "ctivity recorded")
sentence-IsSentence (c ∷ s) = stop (upper c) s

abbrev has_text : Text → Bool
has_text [] = false
has_text (c ∷ s) = true

of_false : {A : Type 0} → false ≡ true → A
of_false q = absurd (false≢true q)

word_stop : (v : Text) → has_text v ≡ true → IsSentence (v ++ codes ".")
word_stop [] h = of_false h
word_stop (c ∷ s) h = stop c s

word_stopped : (v t : Text) → has_text v ≡ true → IsSentence (v ++ (t ++ codes "."))
word_stopped [] t h = of_false h
word_stopped (c ∷ s) t h = stopped c s t

-- Whether the key of the template is a member of `Object.prototype`.
abbrev pub is_inherited : Template → Bool
is_inherited account_created = false
is_inherited transaction_created = false
is_inherited transaction_imported = false
is_inherited asset_created = false
is_inherited valuation_changed = false
is_inherited project_created = false
is_inherited target_reached = false
is_inherited budget_created = false
is_inherited inherited_to_string = true
is_inherited inherited_constructor = true
is_inherited inherited_other = true
is_inherited unknown = false

-- How an activity renders, by whether its key is a member of every object, and by whether the
-- currency and the locale are accepted.
pub data Renders (member : Bool) (accepted : Bool) : Rendered → Type 0 where
  a_sentence : (t : Text) → IsSentence t → Renders member accepted (text t)
  malformed : accepted ≡ false → Renders member accepted range_error
  inherited : member ≡ true → (r : Rendered) → Renders member accepted r

amounting-Renders :
    (member : Bool) (accepted : Bool) (subject amount : Text) (middle : String)
    → has_text (codes middle) ≡ true
    → Renders member accepted (amounting subject middle (if accepted then some amount else none))
amounting-Renders member true subject amount middle h =
    a_sentence _ (
      prepend subject (codes middle ++ (amount ++ codes "."))
        (word_stopped (codes middle) amount h))
amounting-Renders member false subject amount middle h = malformed refl

changing-Renders :
    (member : Bool) (accepted : Bool) (asset from to : Text)
    → Renders member accepted
        (changing asset (if accepted then some from else none) (if accepted then some to else none))
changing-Renders member true asset from to =
    amounting-Renders member true (asset ++ (codes " valuation changed · " ++ from)) to " → " refl
changing-Renders member false asset from to = malformed refl

-- The subject and what was done to it, with the type where there is one.
with_type-IsSentence :
    (subject : Text) (verb : String) (type : Option Json)
    → IsSentence (codes verb ++ codes ".")
    → IsSentence (with_type subject verb type)
with_type-IsSentence subject verb (some (string type)) h = elim (Bool-cases (str_eq type "")) [
  | inl e ↦ rw e (prepend subject (codes verb ++ codes ".") h)
  | inr e ↦ rw e (
      prepend subject _ (
        prepend (codes verb) _
          (prepend (codes " (") _ (prepend (codes type) (codes ").") (stop b')' [])))))
]
with_type-IsSentence subject verb (some null) h = prepend subject _ h
with_type-IsSentence subject verb (some (boolean b)) h = prepend subject _ h
with_type-IsSentence subject verb (some (number n)) h = prepend subject _ h
with_type-IsSentence subject verb (some (array elements)) h = prepend subject _ h
with_type-IsSentence subject verb (some (object entries)) h = prepend subject _ h
with_type-IsSentence subject verb none h = prepend subject _ h

render-Renders :
    (intl : Intl) (accepts : String → Option String → Bool) (template : Template) (key : Text)
    (params : Fields) (locale : Option String)
    → Renders
        (is_inherited template)
        (accepts (text_param params "currency" "USD") locale)
        (render intl accepts template key params locale)
unfolding render money_param humanize_template_key
render-Renders intl accepts account_created key params locale = a_sentence _ (
    with_type-IsSentence (quoted "Account" (text_param params "name" "—")) " created"
      (find_field "type" params) (word_stop (codes " created") refl))
render-Renders intl accepts transaction_created key params locale =
    amounting-Renders _ _ (quoted "Transaction" (text_param params "description" "—")) _
      " recorded — " refl
render-Renders intl accepts transaction_imported key params locale =
    amounting-Renders _ _ (quoted "Transaction" (text_param params "description" "—")) _
      " imported — " refl
render-Renders intl accepts asset_created key params locale = a_sentence _ (
    with_type-IsSentence (quoted "Asset" (text_param params "name" "—")) " added"
      (find_field "type" params) (word_stop (codes " added") refl))
render-Renders intl accepts valuation_changed key params locale = changing-Renders _ _ _ _ _
render-Renders intl accepts project_created key params locale =
    amounting-Renders _ _ (quoted "Project" (text_param params "name" "—")) _ " created — target "
      refl
render-Renders intl accepts target_reached key params locale =
    amounting-Renders _ _ (quoted "Project" (text_param params "project" "—")) _
      " reached its target of " refl
render-Renders intl accepts budget_created key params locale =
    amounting-Renders _ _ (quoted "Budget" (text_param params "name" "—")) _ " created — " refl
render-Renders intl accepts inherited_to_string key params locale = inherited refl _
render-Renders intl accepts inherited_constructor key params locale = inherited refl _
render-Renders intl accepts inherited_other key params locale = inherited refl _
render-Renders intl accepts unknown key params locale =
    a_sentence _ (sentence-IsSentence (trim (map spaced (strip (codes "activity.") key key))))

-- The members of `Object.prototype`.
abbrev pub is_member : String → Bool
is_member key = str_eq key "toString" || (str_eq key "constructor" || throws_inherited key)

pass :
    (b : Bool) (template rest : Template) {member : Bool}
    → is_inherited template ≡ false
    → (is_inherited rest ≡ true → member ≡ true)
    → is_inherited (if b then template else rest) ≡ true
    → member ≡ true
pass true template rest h k e = of_false (sym h ∙ e)
pass false template rest h k e = k e

inherited_of-is_member :
    (a b c : Bool)
    → is_inherited (
        if a
        then inherited_to_string
        else if b
        then inherited_constructor
        else if c
        then inherited_other
        else unknown)
      ≡ true
    → (a || (b || c)) ≡ true
inherited_of-is_member true b c e = refl
inherited_of-is_member false true c e = refl
inherited_of-is_member false false true e = refl
inherited_of-is_member false false false e = of_false e

-- Only a member is inherited.
template_of-is_member :
    (key : String) → is_inherited (template_of key) ≡ true → is_member key ≡ true
unfolding template_of
template_of-is_member key = pass (str_eq key "activity.account.created") account_created _ refl (
    pass (str_eq key "activity.transaction.created") transaction_created _ refl (
      pass (str_eq key "activity.transaction.imported") transaction_imported _ refl (
        pass (str_eq key "activity.asset.created") asset_created _ refl (
          pass (str_eq key "activity.asset.valuation_changed") valuation_changed _ refl (
            pass (str_eq key "activity.project.created") project_created _ refl (
              pass (str_eq key "activity.project.target_reached") target_reached _ refl (
                pass (str_eq key "activity.budget.created") budget_created _ refl (
                  inherited_of-is_member (str_eq key "toString") (str_eq key "constructor")
                    (throws_inherited key)))))))))

for_member :
    {m n accepted : Bool} {r : Rendered}
    → (m ≡ true → n ≡ true)
    → Renders m accepted r
    → Renders n accepted r
for_member f (a_sentence t h) = a_sentence t h
for_member f (malformed h) = malformed h
for_member f (inherited h r) = inherited (f h) r

-- Whatever the template key and the parameters, missing ones and ones of another type included, an
-- activity renders as a text that is not blank and ends with a full stop, with two exceptions: a
-- key that is a member of `Object.prototype`, and a RangeError, which is thrown only where the
-- formatter does not accept the currency parameter and the locale.
pub render_activity-Renders :
    (intl : Intl) (accepts : String → Option String → Bool) (template_key : String)
    (params : Fields) (locale : Option String)
    → Renders
        (is_member template_key)
        (accepts (text_param params "currency" "USD") locale)
        (render_activity intl accepts template_key params locale)
unfolding render_activity
render_activity-Renders intl accepts template_key params locale =
    for_member (template_of-is_member template_key)
      (render-Renders intl accepts (template_of template_key) (codes template_key) params locale)
