-- ===== src/Activity/Manager.antt =====
-- application/manager.go: input is validated before the store sees it. `now` is the reading of the
-- manager's clock.
pub mod Calls
pub mod Places
pub mod History
use backend_demo.Prelude.{ℕ, Bool, true, false, if◌then◌else◌}
use backend_demo.Platform.Errors.{app, Result, err}
use backend_demo.Platform.Text.{Text, is_empty, trim}
use backend_demo.Activity.Entry.{Activity, ActivityInput}
use backend_demo.Activity.Rule.{Verdict, valid, invalid, validate_activity_input}
use backend_demo.Activity.Database.{Database}
use backend_demo.Activity.Store as Store
use backend_demo.Activity.Store.{Services}
use backend_demo.Activity.Store.Lifecycle as Lifecycle

abbrev pub if_valid : {S : Type 0} → Verdict → (S → Result Activity × S) → S → Result Activity × S
if_valid valid m s = m s
if_valid (invalid reason) m s = (err (app 400 "invalid_activity"), s)

module _ {S : Type 0} (db : Database S) (env : Services) where
  unfoldable pub create : ℕ → ActivityInput → ℕ → S → Result Activity × S
  create actor input now =
      if_valid (validate_activity_input input true now) (Store.create db env actor input)

  unfoldable pub update : ℕ → ℕ → ℕ → ActivityInput → ℕ → S → Result Activity × S
  update id actor version input now =
      if_valid (validate_activity_input input false now)
        (Lifecycle.update db env id actor version input)

  -- `Approve` and `Reject`; only the first reads the clock.
  unfoldable pub approve : ℕ → ℕ → ℕ → Text → ℕ → S → Result Activity × S
  approve id actor version comment now = Lifecycle.review db env id actor version true comment now

  unfoldable pub reject : ℕ → ℕ → ℕ → Text → S → Result Activity × S
  reject id actor version comment s =
      if is_empty (trim comment)
      then (err (app 400 "invalid_activity_review"), s)
      else Lifecycle.review db env id actor version false comment 0 s
