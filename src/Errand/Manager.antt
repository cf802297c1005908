-- ===== src/Errand/Manager.antt =====
-- application/manager.go: the manager validates the input of a task and hands on to the store.
pub mod Calls
pub mod Effects
pub mod Moves
pub mod History
pub mod Kept
pub mod Final
use backend_demo.Prelude.{ℕ, List}
use backend_demo.Platform.Errors.{app, Result, err}
use backend_demo.Errand.Task.{Task, TaskInput, Relation, Action}
use backend_demo.Errand.Rule.{
  Verdict, valid, invalid, validate_task_input, validate_task_update_input, viewer_relation,
  available_actions,
}
use backend_demo.Errand.Database.{Database}
use backend_demo.Errand.Store.{Services}
use backend_demo.Errand.Store
use backend_demo.Errand.Store.Moderation

module _ {S : Type 0} where
  abbrev pub if_valid : Verdict → (S → Result Task × S) → S → Result Task × S
  if_valid valid m s = m s
  if_valid (invalid reason) m s = (err (app 400 "invalid_errand"), s)

module _ {S : Type 0} (db : Database S) (env : Services) where
  unfoldable pub create : ℕ → TaskInput → ℕ → S → Result Task × S
  create requester input now s =
      if_valid (validate_task_input input now) (Store.create db env requester input) s

  unfoldable pub update : ℕ → ℕ → ℕ → TaskInput → ℕ → S → Result Task × S
  update id requester version input now s =
      if_valid (validate_task_update_input input now)
        (Moderation.update db env id requester version input) s

-- The relation of the viewer and the actions that are offered.
unfoldable pub viewer_context : Task → ℕ → ℕ → Relation × List Action
viewer_context task viewer now = (viewer_relation task viewer, available_actions task viewer now)
