-- ===== src/Activity/Manager/Calls.antt =====
-- The calls on the activity manager that change something, one after another: a history of the
-- module. Each call has its arguments and the reading of the clock.
use backend_demo.Prelude.{ℕ, List, [], ◌∷◌}
use backend_demo.Platform.Text.{Text}
use backend_demo.Activity.Entry.{ActivityInput}
use backend_demo.Activity.Database.{Database}
use backend_demo.Activity.Store.{Services}
use backend_demo.Activity.Store.Lifecycle.{publish, submit_review, cancel, finish}
use backend_demo.Activity.Store.Registrations.{register, cancel_registration}
use backend_demo.Activity.Manager.{create, update, approve, reject}

pub data Call : Type 0 where
  creates : ℕ → ActivityInput → Call
  updates : ℕ → ℕ → ℕ → ActivityInput → Call
  submits publishes cancels finishes withdraws : ℕ → ℕ → ℕ → Call
  approves rejects : ℕ → ℕ → ℕ → Text → Call
  registers : ℕ → ℕ → Text → Call

module _ {S : Type 0} (db : Database S) (env : Services) where
  -- The state after a call at the time `now`.
  unfoldable pub perform : ℕ → Call → S → S
  perform now (creates actor input) s = (create db env actor input now s).1
  perform now (updates id actor version input) s = (update db env id actor version input now s).1
  perform now (submits id actor version) s = (submit_review db env id actor version s).1
  perform now (publishes id actor version) s = (publish db env id actor version now s).1
  perform now (cancels id actor version) s = (cancel db env id actor version s).1
  perform now (finishes id actor version) s = (finish db env id actor version now s).1
  perform now (approves id actor version comment) s =
      (approve db env id actor version comment now s).1
  perform now (rejects id actor version comment) s = (reject db env id actor version comment s).1
  perform now (registers id user key) s = (register db env id user key now s).1
  perform now (withdraws id user version) s = (cancel_registration db env id user version now s).1

  unfoldable pub history : List (ℕ × Call) → S → S
  unfolding perform
  history [] s = s
  history ((now, call) ∷ calls) s = history calls (perform now call s)
