-- ===== src/Errand/Visible.antt =====
-- infrastructure/store.go: `GetVisible`. Its condition is what gorm makes of
-- `Where(id).Where(approved).Or(requester)`: AND binds more tightly than OR.
use backend_demo.Prelude.{ℕ, Bool, ◌&&◌, ◌||◌, ◌==◌, if◌then◌else◌}
use backend_demo.Platform.Errors.{Result, map_err}
use backend_demo.Errand.Task.{Task, is_approved}
use backend_demo.Errand.Database.{Database}
use backend_demo.Errand.Store.{task_not_found}

unfoldable pub is_visible : ℕ → ℕ → Task → Bool
is_visible id viewer task =
    if viewer == 0
    then (task.id == id) && is_approved task.review_status
    else ((task.id == id) && is_approved task.review_status) || (task.requester_id == viewer)

module _ {S : Type 0} (db : Database S) where
  unfoldable pub get_visible : ℕ → ℕ → S → Result Task
  unfolding is_visible
  get_visible id viewer s = map_err task_not_found (db.task_where (is_visible id viewer) s)
