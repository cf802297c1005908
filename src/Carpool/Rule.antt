-- ===== src/Carpool/Rule.antt =====
-- domain/rule.go: what a trip may say, and what its viewer may do with it.
pub mod Actions
pub mod Validation
use backend_demo.Prelude.{
  ℕ, pos, Bool, true, false, ◌&&◌, ◌||◌, not, List, [], ◌∷◌, ◌++◌, length, ltb, ltb_ℤ, eq_ℤ, ◌==◌,
  if◌then◌else◌,
}
use backend_demo.Platform.Text.{Text, codes, text_eq, is_empty, trim, byte_len}
use backend_demo.Carpool.Trip.{
  Trip, TripInput, TripStatus, ReviewStatus, Relation, Action, is_open, is_full, is_approved,
  is_rejected, is_draft,
}

-- The errors of `validateTripInput`, by their messages.
pub data Invalid : Type 0 where
  blank_field long_field bad_seats departed bad_contact_type bad_contact : Invalid

pub data Verdict : Type 0 where
  valid : Verdict
  invalid : Invalid → Verdict

contact_verdict : TripInput → Verdict
contact_verdict input =
    let kind = trim input.contact_type in
    let contact = trim input.contact in
    if text_eq kind (codes "phone") || text_eq kind (codes "wechat") || text_eq kind (codes "qq")
    then if is_empty contact || ltb 200 (byte_len contact) then invalid bad_contact else valid
    else invalid bad_contact_type

validate : TripInput → ℕ → Bool → Verdict
unfolding contact_verdict
validate input now contact_required =
    let title = trim input.title in
    let origin = trim input.origin in
    let destination = trim input.destination in
    if is_empty title || is_empty origin || is_empty destination
    then invalid blank_field
    else if ltb 200 (length title) || ltb 500 (length origin) || ltb 500 (length destination)
    then invalid long_field
    else if ltb_ℤ input.total_seats (pos 1) || ltb_ℤ (pos 20) input.total_seats
    then invalid bad_seats
    else if not (ltb now input.departure_at)
    then invalid departed
    else if not contact_required && not input.contact_provided
    then valid
    else contact_verdict input

unfoldable pub validate_trip_input : TripInput → ℕ → Verdict
unfolding validate
validate_trip_input input now = validate input now true

unfoldable pub validate_trip_update_input : TripInput → ℕ → Verdict
unfolding validate
validate_trip_update_input input now = validate input now false

unfoldable pub viewer_relation : Trip → ℕ → Bool → Relation
viewer_relation trip viewer joined =
    if viewer == 0
    then Relation.none
    else if trip.organizer_id == viewer
    then Relation.organizer
    else if joined
    then Relation.participant
    else Relation.none

abbrev organizer_actions : Trip → List Action
organizer_actions trip =
    if not (is_open trip.status) && not (is_full trip.status)
    then []
    else (if is_open trip.status && eq_ℤ trip.occupied_seats (pos 0)
        then Action.edit
          ∷ (if is_draft trip.review_status || is_rejected trip.review_status
              then Action.submit_review ∷ []
              else [])
        else [])
      ++ Action.cancel ∷ []

abbrev relation_actions : Relation → Trip → ℕ → List Action
relation_actions Relation.organizer trip viewer = organizer_actions trip
relation_actions Relation.participant trip viewer =
    if is_open trip.status || is_full trip.status then Action.leave ∷ [] else []
relation_actions Relation.none trip viewer =
    if not (viewer == 0)
      && is_approved trip.review_status
      && (is_open trip.status || is_full trip.status)
      && ltb_ℤ trip.occupied_seats trip.total_seats
    then Action.join ∷ []
    else []

unfoldable pub available_actions : Trip → ℕ → Bool → ℕ → List Action
unfolding viewer_relation
available_actions trip viewer joined now =
    if not (ltb now trip.departure_at)
    then []
    else relation_actions (viewer_relation trip viewer joined) trip viewer
