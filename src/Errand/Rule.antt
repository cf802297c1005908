-- ===== src/Errand/Rule.antt =====
-- domain/rule.go: what a task may say, how its status moves, and what its viewer may do.
pub mod Actions
pub mod Validation
use backend_demo.Prelude.{
  ℕ, pos, Bool, true, false, ◌&&◌, ◌||◌, not, Option, none, some, List, [], ◌∷◌, ◌++◌, length, ltb,
  leb_ℤ, ◌==◌, if◌then◌else◌,
}
use backend_demo.Platform.Text.{Text, codes, text_eq, is_empty, trim}
use backend_demo.Errand.Task.{
  Task, TaskInput, ContactInput, TaskStatus, task_open, task_accepted, task_picked_up,
  task_delivered, task_completed, task_cancelled, ReviewStatus, Relation, Action, is_open,
  is_approved, is_rejected, is_draft,
}

-- The errors of the validators, by their messages.
pub data Invalid : Type 0 where
  bad_title bad_description bad_pickup bad_dropoff bad_reward bad_deadline : Invalid
  no_contact bad_contact_type bad_contact : Invalid

pub data Verdict : Type 0 where
  valid : Verdict
  invalid : Invalid → Verdict

-- `if err := v; err != nil { return err }; return w`.
abbrev and_then : Verdict → Verdict → Verdict
and_then valid w = w
and_then (invalid e) w = invalid e

-- `n == 0 || n > limit`, of the trimmed text.
out_of_bounds : ℕ → Text → Bool
out_of_bounds limit s = let n = length (trim s) in (n == 0) || ltb limit n

task_content_verdict : TaskInput → ℕ → Verdict
unfolding out_of_bounds
task_content_verdict input now =
    if out_of_bounds 200 input.title
    then invalid bad_title
    else if out_of_bounds 20000 input.description
    then invalid bad_description
    else if out_of_bounds 500 input.pickup_location
    then invalid bad_pickup
    else if out_of_bounds 500 input.dropoff_location
    then invalid bad_dropoff
    else if leb_ℤ input.reward_cents (pos 0)
    then invalid bad_reward
    else if not (ltb now input.deadline)
    then invalid bad_deadline
    else valid

unfoldable pub validate_contact_input : ContactInput → Bool → Verdict
unfolding out_of_bounds
validate_contact_input input required =
    if not input.provided
    then if required then invalid no_contact else valid
    else let kind = trim input.kind in
      if not (text_eq kind (codes "phone"))
        && not (text_eq kind (codes "wechat"))
        && not (text_eq kind (codes "qq"))
      then invalid bad_contact_type
      else if out_of_bounds 128 input.value
      then invalid bad_contact
      else valid

unfoldable pub validate_task_input : TaskInput → ℕ → Verdict
unfolding task_content_verdict validate_contact_input
validate_task_input input now =
    and_then (task_content_verdict input now) (validate_contact_input input.contact true)

unfoldable pub validate_task_update_input : TaskInput → ℕ → Verdict
unfolding task_content_verdict validate_contact_input
validate_task_update_input input now =
    and_then (task_content_verdict input now) (validate_contact_input input.contact false)

-- `task.RunnerId != nil && *task.RunnerId == user`.
abbrev pub is_runner : Option ℕ → ℕ → Bool
is_runner none user = false
is_runner (some r) user = r == user

unfoldable pub viewer_relation : Task → ℕ → Relation
viewer_relation task viewer =
    if viewer == 0
    then Relation.none
    else if task.requester_id == viewer
    then Relation.publisher
    else if is_runner task.runner_id viewer
    then Relation.runner
    else Relation.none

unfoldable pub can_edit : TaskStatus → ReviewStatus → Bool
can_edit status review =
    if not (is_open status)
    then false
    else is_draft review || is_rejected review || is_approved review

unfoldable pub can_transition : TaskStatus → TaskStatus → Bool
can_transition task_open task_accepted = true
can_transition task_open task_cancelled = true
can_transition task_accepted task_picked_up = true
can_transition task_accepted task_cancelled = true
can_transition task_picked_up task_delivered = true
can_transition task_delivered task_completed = true
can_transition _ _ = false

abbrev open_actions : Relation → Task → ℕ → ℕ → List Action
open_actions Relation.publisher task viewer now =
    (if can_edit task.status task.review_status then Action.edit ∷ [] else [])
    ++ ((if is_draft task.review_status || is_rejected task.review_status
          then Action.submit_review ∷ []
          else [])
        ++ Action.cancel ∷ [])
open_actions Relation.runner task viewer now = []
open_actions Relation.none task viewer now =
    if not (viewer == 0) && is_approved task.review_status && ltb now task.deadline
    then Action.accept ∷ []
    else []

abbrev accepted_actions : Relation → List Action
accepted_actions Relation.publisher = Action.cancel ∷ []
accepted_actions Relation.runner = Action.pickup ∷ Action.cancel ∷ []
accepted_actions Relation.none = []

abbrev picked_up_actions : Relation → List Action
picked_up_actions Relation.runner = Action.deliver ∷ []
picked_up_actions _ = []

abbrev delivered_actions : Relation → List Action
delivered_actions Relation.publisher = Action.complete ∷ []
delivered_actions _ = []

-- The `switch` on the status.
abbrev status_actions : TaskStatus → Relation → Task → ℕ → ℕ → List Action
status_actions task_open relation task viewer now = open_actions relation task viewer now
status_actions task_accepted relation task viewer now = accepted_actions relation
status_actions task_picked_up relation task viewer now = picked_up_actions relation
status_actions task_delivered relation task viewer now = delivered_actions relation
status_actions _ relation task viewer now = []

unfoldable pub available_actions : Task → ℕ → ℕ → List Action
unfolding viewer_relation can_edit
available_actions task viewer now =
    status_actions task.status (viewer_relation task viewer) task viewer now
