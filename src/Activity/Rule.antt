-- ===== src/Activity/Rule.antt =====
-- domain/rule.go: what an activity may say, how it moves, and who may sign up for it.
use backend_demo.Prelude.{
  ℕ, ℤ, pos, leb_ℤ, ltb_ℤ, Bool, true, false, ◌&&◌, ◌||◌, not, List, [], ◌∷◌, ◌++◌, length, ltb,
  ◌==◌, if◌then◌else◌,
}
use backend_demo.Platform.Text.{Text, codes, text_eq, is_empty, trim}
use backend_demo.Activity.Entry.{
  Activity, Registration, ActivityInput, ContactInput, ActivityStatus, ReviewStatus, Relation,
  Action, is_draft, is_published, is_unreviewed, is_pending, is_approved, is_rejected, is_active,
}

-- The errors of the rules, by their messages.
pub data Invalid : Type 0 where
  bad_title bad_summary bad_body bad_location bad_capacity : Invalid
  late_signup_start late_signup_end late_start past_end : Invalid
  no_contact bad_contact_type bad_contact : Invalid
  few_places long_comment : Invalid
  closed_activity outside_signup no_place no_registration started : Invalid

pub data Verdict : Type 0 where
  valid : Verdict
  invalid : Invalid → Verdict

abbrev out_of_bounds : ℕ → Text → Bool
out_of_bounds limit s = (length (trim s) == 0) || ltb limit (length (trim s))

unfoldable pub validate_contact_input : ContactInput → Bool → Verdict
validate_contact_input input required =
    if not input.provided
    then if required then invalid no_contact else valid
    else if not (text_eq (trim input.kind) (codes "phone"))
        && not (text_eq (trim input.kind) (codes "wechat"))
        && not (text_eq (trim input.kind) (codes "qq"))
    then invalid bad_contact_type
    else if out_of_bounds 128 input.value
    then invalid bad_contact
    else valid

unfoldable pub validate_activity_input : ActivityInput → Bool → ℕ → Verdict
unfolding validate_contact_input
validate_activity_input input required now =
    if out_of_bounds 200 input.title
    then invalid bad_title
    else if out_of_bounds 500 input.summary
    then invalid bad_summary
    else if out_of_bounds 20000 input.body
    then invalid bad_body
    else if out_of_bounds 500 input.location
    then invalid bad_location
    else if ltb_ℤ input.capacity (pos 1)
    then invalid bad_capacity
    else if not (ltb input.signup_start_at input.signup_end_at)
    then invalid late_signup_start
    else if not (ltb input.signup_end_at input.start_at)
    then invalid late_signup_end
    else if not (ltb input.start_at input.end_at)
    then invalid late_start
    else if not (ltb now input.end_at)
    then invalid past_end
    else validate_contact_input input.contact required

unfoldable pub can_edit : ActivityStatus → ReviewStatus → Bool
can_edit status review = is_draft status && (is_unreviewed review || is_rejected review)

unfoldable pub can_submit_review : ActivityStatus → ReviewStatus → Bool
can_submit_review status review = is_draft status && is_unreviewed review

unfoldable pub can_approve : ActivityStatus → ReviewStatus → Bool
can_approve status review = is_draft status && is_pending review

unfoldable pub can_reject : ActivityStatus → ReviewStatus → Bool
can_reject status review = is_draft status && is_pending review

unfoldable pub can_publish : ActivityStatus → ReviewStatus → Bool
can_publish status review = is_draft status && is_approved review

unfoldable pub can_cancel : ActivityStatus → Bool
can_cancel status = is_draft status || is_published status

unfoldable pub can_finish : ActivityStatus → Bool
can_finish status = is_published status

unfoldable pub is_publicly_visible : ActivityStatus → ReviewStatus → Bool
is_publicly_visible status review = is_published status && is_approved review

unfoldable pub visible_to_viewer : ActivityStatus → ReviewStatus → ℕ → ℕ → Bool → Bool
unfolding is_publicly_visible
visible_to_viewer status review owner viewer registered =
    if is_publicly_visible status review
    then true
    else if viewer == 0
    then false
    else if not (owner == 0) && (owner == viewer)
    then true
    else registered

unfoldable pub validate_capacity_update : ℤ → ℤ → Verdict
validate_capacity_update capacity registered =
    if ltb_ℤ capacity (pos 1)
    then invalid bad_capacity
    else if ltb_ℤ capacity registered
    then invalid few_places
    else valid

unfoldable pub validate_review_comment : Text → Verdict
validate_review_comment s =
    if is_empty (trim s)
    then valid
    else if ltb 500 (length (trim s))
    then invalid long_comment
    else valid

unfoldable pub registration_allowed : Activity → ℕ → Verdict
unfolding is_publicly_visible
registration_allowed activity now =
    if not (is_publicly_visible activity.status activity.review_status)
    then invalid closed_activity
    else if ltb now activity.signup_start_at || ltb activity.signup_end_at now
    then invalid outside_signup
    else if leb_ℤ activity.capacity activity.registered_count
    then invalid no_place
    else valid

unfoldable pub cancellation_allowed : Registration → Activity → ℕ → Verdict
cancellation_allowed registration activity now =
    if not (is_active registration.status)
    then invalid no_registration
    else if not (ltb now activity.start_at)
    then invalid started
    else valid

unfoldable pub viewer_relation : Activity → ℕ → Bool → Relation
viewer_relation activity viewer registered =
    if viewer == 0
    then Relation.none
    else if activity.created_by == viewer
    then Relation.publisher
    else if registered
    then Relation.participant
    else Relation.none

abbrev pub is_valid : Verdict → Bool
is_valid valid = true
is_valid (invalid _) = false

unfoldable pub relation_actions : Relation → Activity → ℕ → ℕ → List Action
unfolding can_edit can_submit_review can_cancel registration_allowed
relation_actions Relation.publisher activity viewer now =
    (if can_edit activity.status activity.review_status then Action.edit ∷ [] else [])
    ++ ((if can_submit_review activity.status activity.review_status
          then Action.submit_review ∷ []
          else [])
        ++ (if can_cancel activity.status then Action.cancel ∷ [] else []))
relation_actions Relation.participant activity viewer now =
    if ltb now activity.start_at then Action.cancel_registration ∷ [] else []
relation_actions Relation.none activity viewer now =
    if not (viewer == 0) && is_valid (registration_allowed activity now)
    then Action.register ∷ []
    else []

unfoldable pub available_actions : Activity → ℕ → Bool → ℕ → List Action
unfolding viewer_relation relation_actions
available_actions activity viewer registered now =
    relation_actions (viewer_relation activity viewer registered) activity viewer now
