-- ===== src/Errand/Store/Lifecycle.antt =====
-- infrastructure/store.go: a task is accepted, picked up, delivered, and completed or cancelled,
-- and its trade order with it.
use backend_demo.Prelude.{
  ℕ, ◌+◌, Bool, ◌&&◌, ◌||◌, not, Option, none, some, ltb, ◌==◌, u64, ◌++◌, if◌then◌else◌,
}
use backend_demo.Platform.Errors.{
  app, record_not_found, Result, ok, err, Tx, ◌>>=◌, ◌>>◌, pure, lift, query, exec, guard, map_err,
  transaction,
}
use backend_demo.Platform.Text.{Text, codes, is_empty, trim, byte_len, decimal}
use backend_demo.Trade.{
  Order, order_type_errand, resource_errand_task, payment_offline, status_confirmed,
  fulfillment_in_progress, is_errand_task,
}
use backend_demo.Errand.Task.{
  Task, TaskStatus, task_open, task_accepted, task_picked_up, task_delivered, is_open, is_approved,
}
use backend_demo.Errand.Rule.{is_runner}
use backend_demo.Errand.Database.{Database}
use backend_demo.Errand.Store.{
  Services, task_not_found, task_event, order_event, create_task_transition,
  create_order_transition, key_of, mutate_tx,
}

-- `key == "" || len(key) > 128`, of the trimmed key.
unfoldable pub valid_key : Text → Bool
valid_key key = not (is_empty (trim key) || ltb 128 (byte_len (trim key)))

unfoldable pub order_key : Task → Text → Text
order_key task key = codes "errand:" ++ (decimal task.id ++ (codes ":" ++ trim key))

abbrev pub optional_order : Result Order → Result (Option Order)
optional_order (ok o) = ok (some o)
optional_order (err record_not_found) = ok none
optional_order (err e) = err e

-- Does the order that holds the key belong to this acceptance?
unfoldable pub replays : ℕ → Task → Order → Bool
replays runner task order =
    is_errand_task order.resource_type
    && (order.resource_id == task.id)
    && (order.seller_id == runner)
    && is_runner task.trade_order_id order.id

-- What `Accept` asks of the task, in its order.
unfoldable pub acceptable : ℕ → ℕ → ℕ → Task → Result (Unit {0})
acceptable runner version now task =
    if not (task.version == version)
    then err (app 409 "version_conflict")
    else if not (is_open task.status)
    then err (app 409 "errand_unavailable")
    else if not (is_approved task.review_status)
    then err (app 409 "errand_unavailable")
    else if not (ltb now task.deadline)
    then err (app 409 "errand_expired")
    else if task.requester_id == runner
    then err (app 403 "self_accept")
    else ok tt

unfoldable pub new_order : ℕ → Task → Text → Text → Text → Order
new_order runner task number snapshot key = record {
  id = 0;
  order_no = number;
  order_type = order_type_errand;
  resource_type = resource_errand_task;
  resource_id = task.id;
  buyer_id = task.requester_id;
  seller_id = runner;
  amount_cents = task.reward_cents;
  currency = task.currency;
  payment_mode = payment_offline;
  trade_status = status_confirmed;
  fulfillment_status = fulfillment_in_progress;
  title_snapshot = task.title;
  resource_snapshot = snapshot;
  idempotency_key = key;
  expires_at = none;
  paid_at = none;
  completed_at = none;
  cancelled_at = none;
  closed_at = none;
  version = 1;
}

unfoldable pub accepted : ℕ → ℕ → ℕ → Task → Task
accepted runner order now t = record t {
  status = task_accepted;
  runner_id = some runner;
  trade_order_id = some order;
  accepted_at = some now;
  version = u64 (t.version + 1);
}

module _ {S : Type 0} (db : Database S) (env : Services) where
  -- `Accept` without an earlier order. `fresh_no` is what `newOrderNo` returns.
  unfoldable pub accept_new : ℕ → ℕ → Text → ℕ → Result Text → Task → Tx S (Task × Order)
  unfolding acceptable new_order accepted
  accept_new runner version key now fresh_no task = do
    lift (acceptable runner version now task)
    snapshot ← lift (env.snapshot task)
    number ← lift fresh_no
    order ← db.create_order (new_order runner task number snapshot key)
    exec (db.save_task (accepted runner order.id now task))
    exec (
        create_order_transition db env order none status_confirmed runner (codes "created")
          (codes "order.created:" ++ key))
    exec (
        create_task_transition db env (accepted runner order.id now task) task_open task_accepted
          runner (codes "accepted") (codes "errand.accepted:" ++ key))
    order_event db env order (codes "order.created") (codes "order.created:" ++ key)
    task_event db env (accepted runner order.id now task) (codes "errand.accepted")
        (key_of (codes "errand.accepted") task.id (u64 (task.version + 1)))
    pure (accepted runner order.id now task, order)

  unfoldable pub accept_found :
      ℕ → ℕ → Text → ℕ → Result Text → Task → Option Order → Tx S (Task × Order)
  unfolding replays accept_new
  accept_found runner version key now fresh_no task none =
      accept_new runner version key now fresh_no task
  accept_found runner version key now fresh_no task (some order) = do
    lift (guard (replays runner task order) (app 409 "idempotency_key_reused"))
    pure (task, order)

  unfoldable pub accept_tx : ℕ → ℕ → ℕ → Text → ℕ → Result Text → Tx S (Task × Order)
  unfolding order_key accept_found
  accept_tx id runner version key now fresh_no = do
    task ← query λ s. map_err task_not_found (db.first_task id s)
    found ← query λ s. optional_order (db.find_order task.requester_id (order_key task key) s)
    accept_found runner version (order_key task key) now fresh_no task found

  unfoldable pub accept : ℕ → ℕ → ℕ → Text → ℕ → Result Text → S → Result (Task × Order) × S
  unfolding accept_tx valid_key
  accept id runner version key now fresh_no s =
      if valid_key key
      then transaction (accept_tx id runner version key now fresh_no) s
      else (err (app 400 "invalid_idempotency_key"), s)

-- The time that a runner's step records: `PickedUpAt` or else `DeliveredAt`.
unfoldable pub advanced : TaskStatus → ℕ → Task → Task
advanced task_picked_up now t = record t {
  status = task_picked_up;
  picked_up_at = some now;
  version = u64 (t.version + 1);
}
advanced to now t = record t { status = to; delivered_at = some now; version = u64 (t.version + 1) }

module _ {S : Type 0} (db : Database S) (env : Services) where
  -- `tx.Save(task)`, the row of the transition and the event.
  unfoldable pub move_task : Task → TaskStatus → ℕ → Text → Tx S Task
  move_task task from actor word = do
    exec (db.save_task task)
    exec (
        create_task_transition db env task from task.status actor word
          (key_of (codes "errand." ++ word) task.id task.version))
    task_event db env task (codes "errand." ++ word)
        (key_of (codes "errand." ++ word) task.id task.version)
    pure task

  unfoldable pub runner_tx : ℕ → ℕ → ℕ → TaskStatus → TaskStatus → ℕ → Text → Tx S Task
  unfolding mutate_tx advanced move_task
  runner_tx id runner version from to now word = mutate_tx db id 0 version from λ task. do
    lift (guard (is_runner task.runner_id runner) (app 403 "not_runner"))
    move_task (advanced to now task) from runner word

module _ {S : Type 0} (db : Database S) (env : Services) where
  unfoldable pub pickup : ℕ → ℕ → ℕ → ℕ → S → Result Task × S
  unfolding runner_tx
  pickup id runner version now =
      transaction
        (runner_tx db env id runner version task_accepted task_picked_up now (codes "picked_up"))

  unfoldable pub deliver : ℕ → ℕ → ℕ → ℕ → S → Result Task × S
  unfolding runner_tx
  deliver id runner version now =
      transaction
        (runner_tx db env id runner version task_picked_up task_delivered now (codes "delivered"))
