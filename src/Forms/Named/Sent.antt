-- ===== src/Forms/Named/Sent.antt =====
-- What the forms with a name and no amount send.
use pecunia.Prelude.{String, ◌≡◌, ◌↔◌, false, str_eq}
use pecunia.Hooks.{Mutation}
use pecunia.Forms.{Submission, sends, trimmed}

abbrev pub SendsNamed : Submission → String → Mutation → Type 0
SendsNamed submission name mutation =
    (m : Mutation) → (submission ≡ sends m) ↔ ((str_eq (trimmed name) "" ≡ false) × (m ≡ mutation))
