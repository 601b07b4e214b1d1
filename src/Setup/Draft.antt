-- ===== src/Setup/Draft.antt =====
-- A draft that was updated is read back, and holds nothing but its three fields.
use pecunia.Prelude.{ℕ, String, ◌≡◌, refl, true, some, List, [], ◌∷◌}
use pecunia.Api.{Json, object, Fields, no_fields, field}
use pecunia.Setup.{
  PartialDraft, Wizard, empty_draft, json_of, next_draft, read_stored_draft, persist_draft, update,
  clear,
}

abbrev pub field_names : Json → List String
field_names (object entries) = names entries
  where
    names : Fields → List String
    names no_fields = []
    names (field k j rest) = k ∷ names rest
field_names j = []

-- What an operation leaves of an available storage: the draft it has, and only its three fields.
pub record Resumes (w : Wizard) : Type 0 where
  pub reads_back : read_stored_draft w.storage ≡ w.draft
  pub only_fields :
      (j : Json) × (w.storage.stored ≡ some (some j))
      × (field_names j ≡ "ownerName" ∷ "ownerEmail" ∷ "preferences" ∷ [])

-- With an available storage, an update leaves a storage that reads back as the updated draft, and
-- whose stored value has the fields ownerName, ownerEmail and preferences and no other; a clear
-- leaves one that reads back as the empty draft.
pub update-Resumes :
    (index_name : ℕ → String) (partial : PartialDraft) (w : Wizard)
    → w.storage.available ≡ true
    → Resumes (update index_name partial w) × (read_stored_draft (clear w).storage ≡ empty_draft)
unfolding update persist_draft read_stored_draft next_draft clear
update-Resumes index_name partial w h = (
  record {
    reads_back = rw h refl;
    only_fields = (json_of (update index_name partial w).draft, rw h refl, refl);
  },
  rw h refl,
)
