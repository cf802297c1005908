-- ===== src/Errand/RuleTests.antt =====
-- The rules of errands at concrete tasks and inputs.
use backend_demo.Prelude.{◌≢◌, ℕ, true, false, ◌≡◌, ◌↔◌, ◌⊎◌, refl, some, []}
use backend_demo.Platform.Errors.{ok}
use backend_demo.Platform.Text.{codes, is_empty, trim}
use backend_demo.Errand.Task.{Action, task_open, task_accepted, task_picked_up, review_approved}
use backend_demo.Errand.Rule.{
  available_actions, can_edit, is_runner, valid, validate_task_input, validate_task_update_input,
}
use backend_demo.Errand.Rule.Actions.{
  offers, available_actions-accept, available_actions-can_edit, available_actions-runner,
  available_actions-finish,
}
use backend_demo.Errand.Rule.Validation.{ContentOk, ContactOk, validate_task_input_iff}
use backend_demo.Errand.Search.{
  MineSearch, valid_mine_relation, valid_task_status, valid_review_status, normalize_mine_search,
  normalize_mine_search-stable,
}
use backend_demo.Errand.Store.{mutable}
use backend_demo.Errand.Store.Lifecycle.{acceptable}
use backend_demo.Errand.Store.Finish.{Outcome, finishable}
use backend_demo.Errand.Tests.{parcel, bound, request}

available_actions-accept_example :
    (offers Action.accept (available_actions parcel 5 10) ≡ true)
    ↔ ((◌≢◌ {A = ℕ} 5 0) × (acceptable 5 1 10 parcel ≡ ok tt))
available_actions-accept_example = available_actions-accept parcel 5 10 (λ _. refl)

available_actions-can_edit_example : (offers Action.edit (available_actions parcel 7 10) ≡ true) ↔ (
    (◌≢◌ {A = ℕ} 7 0)
    × (mutable 7 1 task_open parcel ≡ ok tt)
    × (can_edit task_open review_approved ≡ true))
available_actions-can_edit_example = available_actions-can_edit parcel 7 10

available_actions-runner_example :
    ((offers Action.pickup (available_actions bound 5 10) ≡ true) ↔ (
      (◌≢◌ {A = ℕ} 5 0)
      × (mutable 0 2 task_accepted bound ≡ ok tt)
      × (is_runner (some 5) 5 ≡ true)))
    × ((offers Action.deliver (available_actions bound 5 10) ≡ true) ↔ (
        (◌≢◌ {A = ℕ} 5 0)
        × (mutable 0 2 task_picked_up bound ≡ ok tt)
        × (is_runner (some 5) 5 ≡ true)))
available_actions-runner_example = available_actions-runner bound 5 10 refl

available_actions-finish_example :
    ((offers Action.complete (available_actions bound 7 10) ≡ true)
      ↔ ((◌≢◌ {A = ℕ} 7 0) × (finishable Outcome.completes 7 2 bound ≡ ok tt)))
    × ((offers Action.cancel (available_actions bound 7 10) ≡ true)
        ↔ ((◌≢◌ {A = ℕ} 7 0) × (finishable Outcome.cancels 7 2 bound ≡ ok tt)))
available_actions-finish_example = available_actions-finish bound 7 10 (λ h. cc (h))

validate_task_input_iff_example :
    ((validate_task_input request 10 ≡ valid)
      ↔ (ContentOk request 10 × (request.contact.provided ≡ true) × ContactOk request.contact))
    × ((validate_task_update_input request 10 ≡ valid)
        ↔ (ContentOk request 10 × ((request.contact.provided ≡ false) ⊎ ContactOk request.contact)))
validate_task_input_iff_example = validate_task_input_iff request 10

abbrev filters : MineSearch
filters = record { relation = codes " accepted"; status = []; review_status = codes "draft " }

abbrev normal_filters : MineSearch
normal_filters = record { relation = codes "accepted"; status = []; review_status = codes "draft" }

normalize_mine_search-stable_example :
    (normalize_mine_search normal_filters ≡ some normal_filters)
    × (valid_mine_relation (codes "accepted") ≡ true)
    × ((is_empty [] ≡ true) ⊎ (valid_task_status [] ≡ true))
    × ((is_empty (codes "draft") ≡ true) ⊎ (valid_review_status (codes "draft") ≡ true))
unfolding normalize_mine_search trim is_empty
normalize_mine_search-stable_example = normalize_mine_search-stable filters refl
