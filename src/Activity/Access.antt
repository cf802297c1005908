-- ===== src/Activity/Access.antt =====
-- Who is offered what on an activity, and what the rules allow together.
use backend_demo.Prelude.{
  ℕ, pos, ltb_ℤ, leb_ℤ, Bool, true, false, ◌≡◌, ◌≢◌, ◌↔◌, ◌⊎◌, ◌<◌, ◌≤◌, List, any, arith,
}
use backend_demo.Activity.Entry.{Activity, ActivityInput, Registration, Action, is_active}
use backend_demo.Activity.Rule.{
  valid, validate_activity_input, is_publicly_visible, visible_to_viewer, registration_allowed,
  cancellation_allowed, available_actions,
}

abbrev action_eq : Action → Action → Bool
action_eq Action.edit Action.edit = true
action_eq Action.submit_review Action.submit_review = true
action_eq Action.cancel Action.cancel = true
action_eq Action.register Action.register = true
action_eq Action.cancel_registration Action.cancel_registration = true
action_eq _ _ = false

abbrev pub offers : Action → List Action → Bool
offers a = any (action_eq a)

-- A viewer is offered to register exactly when he is signed in (not viewer 0), is neither the
-- publisher nor registered, and the rule for registrations allows it now; it does so on a published
-- and approved activity, within the time of signing up, while a place is free.
pub available_actions-register :
    (a : Activity) (viewer : ℕ) (registered : Bool) (now : ℕ)
    → ((offers Action.register (available_actions a viewer registered now) ≡ true) ↔ (
        (viewer ≢ 0)
        × (a.created_by ≢ viewer)
        × (registered ≡ false)
        × (registration_allowed a now ≡ valid)))
      × ((registration_allowed a now ≡ valid) ↔ (
          (is_publicly_visible a.status a.review_status ≡ true)
          × (a.signup_start_at ≤ now)
          × (now ≤ a.signup_end_at)
          × (leb_ℤ a.capacity a.registered_count ≡ false)))
unfolding available_actions registration_allowed
available_actions-register a viewer registered now =
    ((λ o. ground arith, λ o. ground arith), (λ o. ground arith, λ o. ground arith))

-- A signed-in viewer (not viewer 0) who did not publish the activity is offered to cancel a
-- registration exactly when the rule for cancellations allows it.
pub available_actions-cancel_registration :
    (a : Activity) (r : Registration) (viewer now : ℕ)
    → viewer ≢ 0
    → a.created_by ≢ viewer
    → (offers Action.cancel_registration (available_actions a viewer (is_active r.status) now)
        ≡ true)
      ↔ (cancellation_allowed r a now ≡ valid)
unfolding available_actions cancellation_allowed
available_actions-cancel_registration a r viewer now known other =
    (λ o. ground arith, λ o. ground arith)

-- Every viewer to whom an action is offered may see the activity.
pub available_actions-visible_to_viewer :
    (a : Activity) (action : Action) (viewer : ℕ) (registered : Bool) (now : ℕ)
    → offers action (available_actions a viewer registered now) ≡ true
    → visible_to_viewer a.status a.review_status a.created_by viewer registered ≡ true
unfolding available_actions visible_to_viewer registration_allowed
available_actions-visible_to_viewer a action viewer registered now o = ground arith

-- The times of a valid activity are in order, it has a place, and it has not ended.
pub validate_activity_input-ordered :
    (input : ActivityInput) (required : Bool) (now : ℕ)
    → validate_activity_input input required now ≡ valid
    → (input.signup_start_at < input.signup_end_at)
      × (input.signup_end_at < input.start_at)
      × (input.start_at < input.end_at)
      × (now < input.end_at)
      × (ltb_ℤ input.capacity (pos 1) ≡ false)
      × ((required ≡ false) ⊎ (input.contact.provided ≡ true))
unfolding validate_activity_input
validate_activity_input-ordered input required now h = ground arith
