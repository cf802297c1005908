-- ===== src/Errand/Store.antt =====
-- infrastructure/store.go: the pieces that the transactions on a task are made of.
pub mod Moderation
pub mod Lifecycle
pub mod Finish
pub mod Linked
pub mod Steps
pub mod Effects
pub mod Outcomes
pub mod Consistent
pub mod Replay
pub mod Final
use backend_demo.Prelude.{
  ℕ, Bool, not, ◌&&◌, Option, none, some, List, [], ◌∷◌, ◌++◌, ◌==◌, u64, if◌then◌else◌,
}
use backend_demo.Platform.Errors.{
  Error, app, record_not_found, Result, ok, err, Tx, ◌>>=◌, ◌>>◌, pure, lift, query, exec, map_err,
  transaction,
}
use backend_demo.Platform.Text.{Text, codes, trim, decimal}
use backend_demo.Platform.Events.{Host, write_with_key}
use backend_demo.Trade.{
  Order, OrderTransition, TradeStatus, status_confirmed, status_completed, status_cancelled,
  status_expired,
}
use backend_demo.Errand.Task.{
  Task, TaskInput, TaskStatus, task_open, task_accepted, task_picked_up, task_delivered,
  task_completed, task_cancelled, Transition, review_pending, same_status,
}
use backend_demo.Errand.Database.{Database}

abbrev pub task_not_found : Error → Error
task_not_found record_not_found = app 404 "errand_not_found"
task_not_found e = e

pub record TaskPayload : Type 0 where
  pub task_id : ℕ
  pub status : TaskStatus
  pub version : ℕ

-- Services of the host: the JSON of events and snapshots, the digest, the clock, and the cipher of
-- the contacts.
pub record Services : Type 0 where
  pub task_host : Host TaskPayload
  pub order_host : Host Order
  pub snapshot : Task → Result Text
  pub encrypt : Text → Text → Result Text
  pub decrypt : Text → Text → Result Text

unfoldable pub task_contact_aad : ℕ → Text
task_contact_aad id = codes "errand-task:" ++ decimal id

-- The spelling of the statuses, which go into keys and event types.
unfoldable pub task_word : TaskStatus → Text
task_word task_open = codes "open"
task_word task_accepted = codes "accepted"
task_word task_picked_up = codes "picked_up"
task_word task_delivered = codes "delivered"
task_word task_completed = codes "completed"
task_word task_cancelled = codes "cancelled"

unfoldable pub trade_word : TradeStatus → Text
trade_word status_confirmed = codes "confirmed"
trade_word status_completed = codes "completed"
trade_word status_cancelled = codes "cancelled"
trade_word status_expired = codes "expired"

-- `fmt.Sprintf("<kind>:%d:%d", id, version)`.
unfoldable pub key_of : Text → ℕ → ℕ → Text
key_of kind id version = kind ++ (codes ":" ++ (decimal id ++ (codes ":" ++ decimal version)))

abbrev pub actor_of : ℕ → Option ℕ
actor_of actor = if actor == 0 then none else some actor

module _ {S : Type 0} (db : Database S) (env : Services) where
  unfoldable pub create_task_transition :
      Task → TaskStatus → TaskStatus → ℕ → Text → Text → S → Result S
  create_task_transition task from to actor reason key = db.create_task_transition (record {
    task_id = task.id;
    from_status = from;
    to_status = to;
    actor_id = actor_of actor;
    reason = reason;
    idempotency_key = key;
  })

  unfoldable pub create_order_transition :
      Order → Option TradeStatus → TradeStatus → ℕ → Text → Text → S → Result S
  create_order_transition order from to actor reason key = db.create_order_transition (record {
    order_id = order.id;
    from_status = from;
    to_status = to;
    actor_id = actor_of actor;
    reason_code = reason;
    idempotency_key = key;
  })

  unfoldable pub task_event : Task → Text → Text → Tx S (Unit {0})
  task_event task kind key =
      write_with_key env.task_host db.events (codes "errand") task.id kind key
        (record { task_id = task.id; status = task.status; version = task.version })

  unfoldable pub order_event : Order → Text → Text → Tx S (Unit {0})
  order_event order kind key =
      write_with_key env.order_host db.events (codes "order") order.id kind key order

-- The task that `Create` inserts.
unfoldable pub new_task : ℕ → TaskInput → Task
new_task requester input = record {
  id = 0;
  title = trim input.title;
  description = trim input.description;
  reward_cents = input.reward_cents;
  currency = codes "CNY";
  pickup_location = trim input.pickup_location;
  dropoff_location = trim input.dropoff_location;
  deadline = input.deadline;
  status = task_open;
  review_status = review_pending;
  review_reason = none;
  reviewed_by = none;
  reviewed_at = none;
  requester_id = requester;
  contact_type = trim input.contact.kind;
  contact_ciphertext = [];
  runner_id = none;
  trade_order_id = none;
  accepted_at = none;
  picked_up_at = none;
  delivered_at = none;
  completed_at = none;
  cancelled_at = none;
  version = 1;
}

module _ {S : Type 0} (db : Database S) (env : Services) where
  unfoldable pub create_tx : ℕ → TaskInput → Tx S Task
  unfolding new_task task_event
  create_tx requester input = do
    task ← db.create_task (new_task requester input)
    ciphertext ← lift (env.encrypt (trim input.contact.value) (task_contact_aad task.id))
    exec (db.save_task (record task { contact_ciphertext = ciphertext }))
    task_event db env (record task { contact_ciphertext = ciphertext }) (codes "errand.created")
        (codes "errand.created:" ++ decimal task.id)
    pure (record task { contact_ciphertext = ciphertext })

  unfoldable pub create : ℕ → TaskInput → S → Result Task × S
  unfolding create_tx
  create requester input = transaction (create_tx requester input)

-- What `mutate` asks of the task, in its order.
unfoldable pub mutable : ℕ → ℕ → TaskStatus → Task → Result (Unit {0})
mutable requester version status task =
    if not (requester == 0) && not (task.requester_id == requester)
    then err (app 403 "not_requester")
    else if not (task.version == version)
    then err (app 409 "version_conflict")
    else if not (same_status task.status status)
    then err (app 409 "invalid_errand_state")
    else ok tt

module _ {S : Type 0} (db : Database S) where
  unfoldable pub mutate_tx : ℕ → ℕ → ℕ → TaskStatus → (Task → Tx S Task) → Tx S Task
  unfolding mutable
  mutate_tx id requester version status change = do
    task ← query λ s. map_err task_not_found (db.first_task id s)
    lift (mutable requester version status task)
    change task
