-- ===== src/Errand/Rule/Actions.antt =====
-- The actions that the rules offer to a viewer against what the store accepts.
use backend_demo.Prelude.{ℕ, Bool, true, false, ◌||◌, ◌≡◌, ◌≢◌, ◌↔◌, none, List, any, arith}
use backend_demo.Platform.Errors.{ok}
use backend_demo.Errand.Task.{
  Task, Action, task_open, task_accepted, task_picked_up, is_draft, is_rejected,
}
use backend_demo.Errand.Rule.{available_actions, is_runner, can_edit}
use backend_demo.Errand.Store.{mutable}
use backend_demo.Errand.Store.Lifecycle.{acceptable}
use backend_demo.Errand.Store.Finish.{Outcome, finishable}

abbrev action_eq : Action → Action → Bool
action_eq Action.accept Action.accept = true
action_eq Action.edit Action.edit = true
action_eq Action.submit_review Action.submit_review = true
action_eq Action.pickup Action.pickup = true
action_eq Action.deliver Action.deliver = true
action_eq Action.complete Action.complete = true
action_eq Action.cancel Action.cancel = true
action_eq _ _ = false

-- Is the action offered?
abbrev pub offers : Action → List Action → Bool
offers a = any (action_eq a)

module _ (t : Task) (viewer now : ℕ) where
  -- On a task that has no runner while it is open, a viewer is offered to accept exactly when he is
  -- signed in (not viewer 0) and the store, asked with the task's current version, lets him.
  pub available_actions-accept :
      (t.status ≡ task_open → t.runner_id ≡ none)
      → (offers Action.accept (available_actions t viewer now) ≡ true)
        ↔ ((viewer ≢ 0) × (acceptable viewer t.version now t ≡ ok tt))
  unfolding available_actions acceptable
  available_actions-accept free = (λ o. ground arith, λ o. ground (arith, free))

  -- A viewer is offered to edit exactly when he is signed in and both tests of Update pass at the
  -- current version.
  pub available_actions-can_edit : (offers Action.edit (available_actions t viewer now) ≡ true) ↔ (
      (viewer ≢ 0)
      × (mutable viewer t.version task_open t ≡ ok tt)
      × (can_edit t.status t.review_status ≡ true))
  unfolding available_actions mutable can_edit
  available_actions-can_edit = (λ o. ground arith, λ o. ground arith)

  -- A viewer is offered to submit for review exactly when he is signed in and both tests of
  -- SubmitReview pass.
  pub available_actions-resubmit :
      (offers Action.submit_review (available_actions t viewer now) ≡ true) ↔ (
        (viewer ≢ 0)
        × (mutable viewer t.version task_open t ≡ ok tt)
        × ((is_draft t.review_status || is_rejected t.review_status) ≡ true))
  unfolding available_actions mutable
  available_actions-resubmit = (λ o. ground arith, λ o. ground arith)

  -- On a task whose runner is not its requester, a viewer is offered to pick up exactly when he is
  -- signed in and the store lets him, and to deliver likewise.
  pub available_actions-runner :
      is_runner t.runner_id t.requester_id ≡ false
      → ((offers Action.pickup (available_actions t viewer now) ≡ true) ↔ (
          (viewer ≢ 0)
          × (mutable 0 t.version task_accepted t ≡ ok tt)
          × (is_runner t.runner_id viewer ≡ true)))
        × ((offers Action.deliver (available_actions t viewer now) ≡ true) ↔ (
            (viewer ≢ 0)
            × (mutable 0 t.version task_picked_up t ≡ ok tt)
            × (is_runner t.runner_id viewer ≡ true)))
  unfolding available_actions mutable
  available_actions-runner apart = (
    (λ o. ground arith, λ o. ground (arith, apart)),
    (λ o. ground arith, λ o. ground (arith, apart)),
  )

  -- On a task that has no runner while it is open, a viewer is offered to complete exactly when he
  -- is signed in and the store lets him, and to cancel likewise.
  pub available_actions-finish :
      (t.status ≡ task_open → t.runner_id ≡ none)
      → ((offers Action.complete (available_actions t viewer now) ≡ true)
          ↔ ((viewer ≢ 0) × (finishable Outcome.completes viewer t.version t ≡ ok tt)))
        × ((offers Action.cancel (available_actions t viewer now) ≡ true)
            ↔ ((viewer ≢ 0) × (finishable Outcome.cancels viewer t.version t ≡ ok tt)))
  unfolding available_actions finishable
  available_actions-finish free =
      ((λ o. ground arith, λ o. ground arith), (λ o. ground arith, λ o. ground (arith, free)))
