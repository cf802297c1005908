-- ===== src/Errand/Task.antt =====
-- domain/errand_tasks.gen.go, domain/errand_transitions.gen.go and the constants of domain/rule.go.
-- Times are instants on one line, so that `UTC()` changes nothing; the columns `created_at` and
-- `updated_at` are left out.
use backend_demo.Prelude.{ℕ, ℤ, Bool, true, false, Option}
use backend_demo.Platform.Text.{Text}

pub data TaskStatus : Type 0 where
  task_open task_accepted task_picked_up task_delivered task_completed task_cancelled : TaskStatus

pub data ReviewStatus : Type 0 where
  review_pending review_approved review_rejected review_draft : ReviewStatus

pub data Relation : Type 0 where
  publisher runner none : Relation

pub data Action : Type 0 where
  accept edit submit_review pickup deliver complete cancel : Action

pub record Task : Type 0 where
  pub id : ℕ
  pub title : Text
  pub description : Text
  pub reward_cents : ℤ
  pub currency : Text
  pub pickup_location : Text
  pub dropoff_location : Text
  pub deadline : ℕ
  pub status : TaskStatus
  pub review_status : ReviewStatus
  pub review_reason : Option Text
  pub reviewed_by : Option ℕ
  pub reviewed_at : Option ℕ
  pub requester_id : ℕ
  pub contact_type : Text
  pub contact_ciphertext : Text
  pub runner_id : Option ℕ
  pub trade_order_id : Option ℕ
  pub accepted_at : Option ℕ
  pub picked_up_at : Option ℕ
  pub delivered_at : Option ℕ
  pub completed_at : Option ℕ
  pub cancelled_at : Option ℕ
  pub version : ℕ

pub record Transition : Type 0 where
  pub task_id : ℕ
  pub from_status : TaskStatus
  pub to_status : TaskStatus
  pub actor_id : Option ℕ
  pub reason : Text
  pub idempotency_key : Text

pub record ContactInput : Type 0 where
  pub kind : Text
  pub value : Text
  pub provided : Bool

pub record TaskInput : Type 0 where
  pub title : Text
  pub description : Text
  pub pickup_location : Text
  pub dropoff_location : Text
  pub reward_cents : ℤ
  pub deadline : ℕ
  pub contact : ContactInput

abbrev pub is_open : TaskStatus → Bool
is_open task_open = true
is_open _ = false

abbrev pub is_delivered : TaskStatus → Bool
is_delivered task_delivered = true
is_delivered _ = false

-- Completed or cancelled.
abbrev pub is_ended : TaskStatus → Bool
is_ended task_completed = true
is_ended task_cancelled = true
is_ended _ = false

-- Accepted, picked up or delivered: a runner is at work.
abbrev pub is_running : TaskStatus → Bool
is_running task_accepted = true
is_running task_picked_up = true
is_running task_delivered = true
is_running _ = false

abbrev pub same_status : TaskStatus → TaskStatus → Bool
same_status task_open task_open = true
same_status task_accepted task_accepted = true
same_status task_picked_up task_picked_up = true
same_status task_delivered task_delivered = true
same_status task_completed task_completed = true
same_status task_cancelled task_cancelled = true
same_status _ _ = false

abbrev pub is_pending : ReviewStatus → Bool
is_pending review_pending = true
is_pending _ = false

abbrev pub is_approved : ReviewStatus → Bool
is_approved review_approved = true
is_approved _ = false

abbrev pub is_rejected : ReviewStatus → Bool
is_rejected review_rejected = true
is_rejected _ = false

abbrev pub is_draft : ReviewStatus → Bool
is_draft review_draft = true
is_draft _ = false
