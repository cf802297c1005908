-- ===== src/Errand/Manager/Calls.antt =====
-- The calls on the errand manager, one after another: a history of the module. Each call comes with
-- the reading of the clock, and an acceptance with the order number that is drawn.
use backend_demo.Prelude.{ℕ, Bool, List, [], ◌∷◌}
use backend_demo.Platform.Errors.{Result}
use backend_demo.Platform.Text.{Text}
use backend_demo.Errand.Task.{TaskInput}
use backend_demo.Errand.Database.{Database}
use backend_demo.Errand.Store.{Services}
use backend_demo.Errand.Store.Moderation.{submit_review, review, revoke_review}
use backend_demo.Errand.Store.Lifecycle.{accept, pickup, deliver}
use backend_demo.Errand.Store.Finish.{Outcome, finish, finish_order}
use backend_demo.Errand.Manager.{create, update}

-- `finishes` is Complete and Cancel by its outcome, and `finishes_order` is CompleteOrder and
-- CancelOrder.
pub data Call : Type 0 where
  creates : ℕ → TaskInput → Call
  updates : ℕ → ℕ → ℕ → TaskInput → Call
  submits : ℕ → ℕ → ℕ → Call
  reviews : ℕ → ℕ → ℕ → Bool → Text → Call
  revokes : ℕ → ℕ → ℕ → Text → Call
  accepts : ℕ → ℕ → ℕ → Text → Result Text → Call
  picks_up delivers : ℕ → ℕ → ℕ → Call
  finishes finishes_order : Outcome → ℕ → ℕ → ℕ → Call

module _ {S : Type 0} (db : Database S) (env : Services) where
  -- The state after a call at the time `now`.
  unfoldable pub perform : ℕ → Call → S → S
  perform now (creates requester input) s = (create db env requester input now s).1
  perform now (updates id requester version input) s =
      (update db env id requester version input now s).1
  perform now (submits id requester version) s = (submit_review db env id requester version s).1
  perform now (reviews id admin version approved reason) s =
      (review db env id admin version approved reason now s).1
  perform now (revokes id admin version reason) s =
      (revoke_review db env id admin version reason now s).1
  perform now (accepts id runner version key fresh_no) s =
      (accept db env id runner version key now fresh_no s).1
  perform now (picks_up id runner version) s = (pickup db env id runner version now s).1
  perform now (delivers id runner version) s = (deliver db env id runner version now s).1
  perform now (finishes outcome id actor version) s =
      (finish db env outcome id actor version now s).1
  perform now (finishes_order outcome id actor version) s =
      (finish_order db env outcome id actor version now s).1

  unfoldable pub history : List (ℕ × Call) → S → S
  unfolding perform
  history [] s = s
  history ((now, call) ∷ calls) s = history calls (perform now call s)
