-- ===== src/Circle/Store/Sections.antt =====
-- infrastructure/store.go: CreateSection, UpdateSection and SetSectionStatus.
use backend_demo.Prelude.{ℕ, ◌+◌, Option, none, some, ◌==◌, u64}
use backend_demo.Platform.Errors.{
  Result, ok, err, Tx, ◌>>=◌, ◌>>◌, pure, lift, query, exec, guard, transaction,
}
use backend_demo.Platform.Text.{Text, codes}
use backend_demo.Circle.Post.{Section, SectionStatus, section_active, section_archived}
use backend_demo.Circle.Rule.{valid_parent, can_archive_section, can_activate_section}
use backend_demo.Circle.Input.{SectionInput}
use backend_demo.Circle.Database.{Database}
use backend_demo.Circle.Store.{
  Services, optional_string, lock_section, write_section_event, normalized, normalize_section_error,
  version_conflict, invalid_hierarchy, invalid_section_state,
}

unfoldable pub new_section : ℕ → SectionInput → Section
new_section actor input = record {
  id = 0;
  parent_id = input.parent_id;
  slug = input.slug;
  name = input.name;
  description = optional_string input.description;
  icon_url = optional_string input.icon_url;
  cover_url = optional_string input.cover_url;
  sort_order = input.sort_order;
  status = section_active;
  created_by = actor;
  updated_by = actor;
  version = 1;
}

unfoldable pub edited_section : ℕ → SectionInput → Section → Section
edited_section actor input x = record x {
  name = input.name;
  description = optional_string input.description;
  icon_url = optional_string input.icon_url;
  cover_url = optional_string input.cover_url;
  sort_order = input.sort_order;
  updated_by = actor;
  version = u64 (x.version + 1);
}

unfoldable pub moved_section : ℕ → SectionStatus → Section → Section
moved_section actor status x = record x {
  status = status;
  updated_by = actor;
  version = u64 (x.version + 1);
}

abbrev status_event : SectionStatus → Text
status_event section_active = codes "campus_circle.section_activated"
status_event section_archived = codes "campus_circle.section_archived"

abbrev pub some_parent : Result Section → Result (Option Section)
some_parent (ok x) = ok (some x)
some_parent (err e) = err e

module _ {S : Type 0} (db : Database S) (env : Services) where
  unfoldable pub section_parent : Option ℕ → S → Result (Option Section)
  unfolding lock_section
  section_parent none s = ok none
  section_parent (some p) s = some_parent (lock_section db p s)

  unfoldable pub create_section_tx : ℕ → SectionInput → Tx S Section
  unfolding section_parent new_section write_section_event
  create_section_tx actor input = do
    parent ← query (section_parent input.parent_id)
    lift (guard (valid_parent 0 input.parent_id parent) invalid_hierarchy)
    x ← db.create_section (new_section actor input)
    write_section_event db env x (codes "campus_circle.section_created")
    pure x

  unfoldable pub create_section : ℕ → SectionInput → S → Result Section × S
  unfolding create_section_tx
  create_section actor input s =
      normalized normalize_section_error (transaction (create_section_tx actor input) s)

  unfoldable pub update_section_tx : ℕ → ℕ → ℕ → SectionInput → Tx S Section
  unfolding lock_section edited_section write_section_event
  update_section_tx id actor version input = do
    x ← query (lock_section db id)
    lift (guard (x.version == version) version_conflict)
    exec (db.save_section (edited_section actor input x))
    write_section_event db env (edited_section actor input x)
        (codes "campus_circle.section_updated")
    pure (edited_section actor input x)

  unfoldable pub update_section : ℕ → ℕ → ℕ → SectionInput → S → Result Section × S
  unfolding update_section_tx
  update_section id actor version input s =
      normalized normalize_section_error (transaction (update_section_tx id actor version input) s)

  -- `validateSectionTransition`, with the parent of a section that is activated.
  abbrev pub activation_parent : Section → Option ℕ → Tx S (Unit {0})
  activation_parent x none = pure tt
  activation_parent x (some p) = do
    parent ← query (section_parent (some p))
    lift (guard (valid_parent x.id (some p) parent) invalid_hierarchy)
    pure tt

  unfoldable pub validate_section_transition : Section → SectionStatus → Tx S (Unit {0})
  unfolding section_parent
  validate_section_transition x section_archived =
      lift (guard (can_archive_section x.status) invalid_section_state)
  validate_section_transition x section_active = do
    lift (guard (can_activate_section x.status) invalid_section_state)
    activation_parent x x.parent_id

  unfoldable pub set_section_status_tx : ℕ → ℕ → ℕ → SectionStatus → Tx S Section
  unfolding lock_section validate_section_transition moved_section write_section_event
  set_section_status_tx id actor version status = do
    x ← query (lock_section db id)
    lift (guard (x.version == version) version_conflict)
    validate_section_transition x status
    exec (db.save_section (moved_section actor status x))
    write_section_event db env (moved_section actor status x) (status_event status)
    pure (moved_section actor status x)

  unfoldable pub set_section_status : ℕ → ℕ → ℕ → SectionStatus → S → Result Section × S
  unfolding set_section_status_tx
  set_section_status id actor version status s =
      normalized normalize_section_error
        (transaction (set_section_status_tx id actor version status) s)
