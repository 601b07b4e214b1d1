-- ===== src/Setup/Tests.antt =====
-- A wizard whose stored draft was malformed.
use pecunia.Prelude.{◌≡◌, refl, true, none, some}
use pecunia.Api.{string, field, no_fields}
use pecunia.Setup.{PartialDraft, Wizard, empty_draft, read_stored_draft, update, clear}
use pecunia.Setup.Draft.{Resumes, update-Resumes}

abbrev wizard : Wizard
wizard = record { draft = empty_draft; storage = record { available = true; stored = some none } }

abbrev partial : PartialDraft
partial = record {
  owner_name = some "Ana";
  owner_email = none;
  preferences = some (field "locale" (string "pt-BR") no_fields);
}

draft_example :
    Resumes (update (λ i. "0") partial wizard)
    × (read_stored_draft (clear wizard).storage ≡ empty_draft)
draft_example = update-Resumes (λ i. "0") partial wizard refl
