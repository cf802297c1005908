-- ===== src/Errand/Store/Finish.antt =====
-- infrastructure/store.go: `finish`, which completes or cancels a task and the order behind it, and
-- the entries through the order.
use backend_demo.Prelude.{
  ℕ, ◌+◌, Bool, true, false, ◌&&◌, not, Option, none, some, ◌==◌, u64, ◌++◌, if◌then◌else◌,
}
use backend_demo.Platform.Errors.{
  app, Result, ok, err, Tx, ◌>>=◌, ◌>>◌, pure, lift, query, exec, map_err, transaction,
}
use backend_demo.Platform.Text.{codes}
use backend_demo.Trade.{
  Order, TradeStatus, status_completed, status_cancelled, fulfillment_delivered,
}
use backend_demo.Errand.Task.{
  Task, TaskStatus, task_accepted, task_completed, task_cancelled, is_open, is_delivered,
}
use backend_demo.Errand.Rule.{is_runner}
use backend_demo.Errand.Database.{Database}
use backend_demo.Errand.Store.{
  Services, task_not_found, task_event, order_event, create_task_transition,
  create_order_transition, key_of, task_word, trade_word,
}

-- The two targets of `finish`.
pub data Outcome : Type 0 where
  completes cancels : Outcome

abbrev pub target : Outcome → TaskStatus
target completes = task_completed
target cancels = task_cancelled

abbrev pub trade_target : Outcome → TradeStatus
trade_target completes = status_completed
trade_target cancels = status_cancelled

abbrev is_accepted : TaskStatus → Bool
is_accepted task_accepted = true
is_accepted _ = false

-- What `finish` asks of the task, after its version.
unfoldable pub finishable_as : Outcome → ℕ → Task → Result (Unit {0})
finishable_as completes actor task =
    if not (is_delivered task.status)
    then err (app 409 "invalid_errand_state")
    else if not (task.requester_id == actor)
    then err (app 403 "not_requester")
    else ok tt
finishable_as cancels actor task =
    if not (is_open task.status) && not (is_accepted task.status)
    then err (app 409 "invalid_errand_state")
    else if not (task.requester_id == actor) && not (is_runner task.runner_id actor)
    then err (app 403 "not_task_party")
    else ok tt

unfoldable pub finishable : Outcome → ℕ → ℕ → Task → Result (Unit {0})
unfolding finishable_as
finishable outcome actor version task =
    if not (task.version == version)
    then err (app 409 "version_conflict")
    else finishable_as outcome actor task

unfoldable pub finished : Outcome → ℕ → Task → Task
finished completes now t = record t {
  status = task_completed;
  completed_at = some now;
  version = u64 (t.version + 1);
}
finished cancels now t = record t {
  status = task_cancelled;
  cancelled_at = some now;
  version = u64 (t.version + 1);
}

unfoldable pub closed : Outcome → ℕ → Order → Order
closed completes now o = record o {
  trade_status = status_completed;
  completed_at = some now;
  fulfillment_status = fulfillment_delivered;
  version = u64 (o.version + 1);
}
closed cancels now o = record o {
  trade_status = status_cancelled;
  cancelled_at = some now;
  version = u64 (o.version + 1);
}

module _ {S : Type 0} (db : Database S) (env : Services) where
  unfoldable pub close_order : Outcome → ℕ → ℕ → ℕ → Tx S (Option Order)
  unfolding closed
  close_order outcome actor now id = do
    order ← query (db.first_order id)
    exec (db.save_order (closed outcome now order))
    exec (
        create_order_transition db env (closed outcome now order) (some order.trade_status)
          (trade_target outcome) actor (task_word (target outcome))
          (key_of (codes "order." ++ trade_word (trade_target outcome)) order.id
            (u64 (order.version + 1))))
    order_event db env (closed outcome now order)
        (codes "order." ++ trade_word (trade_target outcome))
        (key_of (codes "order." ++ trade_word (trade_target outcome)) order.id
          (u64 (order.version + 1)))
    pure (some (closed outcome now order))

  -- The order of the task, if it has one.
  unfoldable pub close_linked : Outcome → ℕ → ℕ → Option ℕ → Tx S (Option Order)
  unfolding close_order
  close_linked outcome actor now none = pure none
  close_linked outcome actor now (some id) = close_order outcome actor now id

  unfoldable pub finish_tx : Outcome → ℕ → ℕ → ℕ → ℕ → Tx S (Task × Option Order)
  unfolding finishable finished close_linked
  finish_tx outcome id actor version now = do
    task ← query λ s. map_err task_not_found (db.first_task id s)
    lift (finishable outcome actor version task)
    exec (db.save_task (finished outcome now task))
    order ← close_linked outcome actor now task.trade_order_id
    exec (
        create_task_transition db env (finished outcome now task) task.status (target outcome) actor
          (task_word (target outcome))
          (key_of (codes "errand." ++ task_word (target outcome)) task.id (u64 (task.version + 1))))
    task_event db env (finished outcome now task) (codes "errand." ++ task_word (target outcome))
        (key_of (codes "errand." ++ task_word (target outcome)) task.id (u64 (task.version + 1)))
    pure (finished outcome now task, order)

module _ {S : Type 0} (db : Database S) (env : Services) where
  -- `Complete` and `Cancel`, by the outcome.
  unfoldable pub finish : Outcome → ℕ → ℕ → ℕ → ℕ → S → Result (Task × Option Order) × S
  unfolding finish_tx
  finish outcome id actor version now = transaction (finish_tx db env outcome id actor version now)

  abbrev pub finish_order_found :
      Outcome → ℕ → ℕ → ℕ → Result Task → Result Order → S → Result (Task × Option Order) × S
  finish_order_found outcome actor version now (err e) order s = (err e, s)
  finish_order_found outcome actor version now (ok task) (err e) s = (err e, s)
  finish_order_found outcome actor version now (ok task) (ok order) s =
      if not (order.version == version)
      then (err (app 409 "version_conflict"), s)
      else finish outcome task.id actor task.version now s

  -- `CompleteOrder` and `CancelOrder`: the task is read outside the transaction, and its version
  -- guards what is done with it.
  unfoldable pub finish_order : Outcome → ℕ → ℕ → ℕ → ℕ → S → Result (Task × Option Order) × S
  unfolding finish
  finish_order outcome order_id actor version now s =
      finish_order_found outcome actor version now
        (map_err task_not_found (db.task_by_order order_id s)) (db.first_order order_id s) s
