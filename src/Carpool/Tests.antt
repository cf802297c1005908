-- ===== src/Carpool/Tests.antt =====
-- One trip in memory: runs of the operations, and the theorems at work on it.
use backend_demo.Prelude.{
  ℕ, pos, eq_ℤ, ◌||◌, Bool, true, false, ◌≡◌, ◌≢◌, ◌⊎◌, ◌↔◌, refl, none, some, List, [], ◌∷◌, arith,
}
use backend_demo.Platform.Errors.{ok, statements}
use backend_demo.Platform.Text.{codes, decimal, is_empty}
use backend_demo.Platform.Events.{Host, write_with_key}
use backend_demo.Carpool.Trip.{
  Trip, TripInput, Participant, Action, is_draft, is_rejected, trip_open, trip_completed,
  review_approved, is_ended, is_joined,
}
use backend_demo.Carpool.Rule.{valid, validate_trip_input, available_actions}
use backend_demo.Carpool.Rule.Validation.{ContentOk, ContactOk, validate_trip_input_iff}
use backend_demo.Carpool.Rule.Actions.{
  offers, available_actions-join, available_actions-leave, available_actions-cancel,
  available_actions-edit, available_actions-submit_review,
}
use backend_demo.Carpool.Database.{is_due, find_participant}
use backend_demo.Carpool.Memory.{Memory, memory, memory-Lawful}
use backend_demo.Carpool.Store.{Cipher, TripPayload, record_trip, get_trip, event, event_source}
use backend_demo.Carpool.Store.Moderation.{reviewable}
use backend_demo.Carpool.Store.Seats.{
  join, leave, cancel, joinable, leavable, cancellable, complete_one, complete_due,
}
use backend_demo.Carpool.Store.Capacity.{SeatsOk, AllSeatsOk}
use backend_demo.Carpool.Store.Versions.{join-stale}
use backend_demo.Carpool.Store.Visibility.{get_trip-contact}
use backend_demo.Carpool.Manager.Calls.{Call, joins, leaves, history}
use backend_demo.Carpool.Manager.History.{history-SeatsOk}
use backend_demo.Carpool.Manager.Completion.{complete_due-is_due}

abbrev host : Host TripPayload
host = record { marshal = λ p. ok []; digest = λ t. t; time = 0 }

abbrev cipher : Cipher
cipher = record { encrypt = λ text aad. ok text; decrypt = λ text aad. ok text }

-- Member 7 offers two seats at 100.
abbrev ride : Trip
ride = record {
  id = 1;
  title = codes "home";
  origin = codes "campus";
  destination = codes "station";
  departure_at = 100;
  total_seats = pos 2;
  occupied_seats = pos 0;
  status = trip_open;
  review_status = review_approved;
  review_reason = none;
  reviewed_by = some 1;
  reviewed_at = some 5;
  organizer_id = 7;
  contact_type = codes "qq";
  contact_ciphertext = codes "123";
  version = 1;
}

abbrev garage : Memory
garage = record { rows = ride ∷ []; participants = []; next = 2 }

garage-AllSeatsOk : AllSeatsOk (memory.tables garage)
garage-AllSeatsOk id t h = ground arith

-- The bundle of what a run computes through.
runs : Unit {0}
unfolding history event_source is_empty join leave cancel get_trip complete_due complete_one
    record_trip event write_with_key statements decimal
runs = tt

join_once :
    (join memory host cipher 1 5 1 10 garage).0
    ≡ ok (record ride { occupied_seats = pos 1; version = 2 })
unfolding runs
join_once = refl

-- The garage after member 5 has joined.
abbrev shared : Memory
shared = (join memory host cipher 1 5 1 10 garage).1

joins_once : List (ℕ × ℕ × Call)
joins_once = (10, 10, joins 1 5 1) ∷ (20, 20, leaves 1 6 2) ∷ []

history-SeatsOk_example : SeatsOk (record ride { occupied_seats = pos 1; version = 2 }) 1
unfolding runs joins_once
history-SeatsOk_example =
    history-SeatsOk memory host cipher memory-Lawful joins_once garage garage-AllSeatsOk 1
      (record ride { occupied_seats = pos 1; version = 2 }) refl

join-stale_example :
    ((join memory host cipher 1 6 1 11 shared).0 ≢ ok ride)
    × ((leave memory host cipher 1 6 1 11 shared).0 ≢ ok ride)
    × ((cancel memory host cipher 1 6 1 11 shared).0 ≢ ok ride)
join-stale_example =
    join-stale memory host cipher memory-Lawful 1 5 1 10 6 11 garage {w = ride} (omega arith)
      join_once

available_actions-join_example :
    (offers Action.join (available_actions ride 5 false 10) ≡ true)
    ↔ ((◌≢◌ {A = ℕ} 5 0) × (◌≡◌ {A = Bool} false false) × (joinable 5 1 10 ride ≡ ok tt))
available_actions-join_example = available_actions-join ride 5 false 10

get_trip-contact_example :
    (ride.organizer_id ≡ 7)
    ⊎ ((is_ended trip_open ≡ false)
        × ((p : Participant) × (find_participant 1 7 [] ≡ some p) × (is_joined p.status ≡ true)))
unfolding runs
get_trip-contact_example = get_trip-contact memory host cipher memory-Lawful 1 7 garage ride refl

complete_due-is_due_example :
    is_due 200 (record ride { status = trip_completed; version = 2 }) ≡ false
unfolding runs
complete_due-is_due_example =
    complete_due-is_due memory host cipher memory-Lawful 200 garage (ride ∷ []) {k = 1} refl
      (omega arith) refl 1 (record ride { status = trip_completed; version = 2 }) refl

available_actions-leave_example :
    (offers Action.leave (available_actions ride 5 true 10) ≡ true) ↔ (
      (◌≢◌ {A = ℕ} 5 0)
      × (◌≡◌ {A = Bool} true true)
      × (ride.organizer_id ≢ 5)
      × (leavable 1 10 ride ≡ ok tt))
available_actions-leave_example = available_actions-leave ride 5 true 10

available_actions-cancel_example :
    (offers Action.cancel (available_actions ride 7 false 10) ≡ true)
    ↔ ((◌≢◌ {A = ℕ} 7 0) × (cancellable 7 1 10 ride ≡ ok tt))
available_actions-cancel_example = available_actions-cancel ride 7 false 10

available_actions-edit_example : (offers Action.edit (available_actions ride 7 false 10) ≡ true) ↔ (
    (◌≢◌ {A = ℕ} 7 0)
    × (reviewable 7 1 10 ride ≡ ok tt)
    × (eq_ℤ ride.occupied_seats (pos 0) ≡ true))
available_actions-edit_example = available_actions-edit ride 7 false 10

available_actions-submit_review_example :
    (offers Action.submit_review (available_actions ride 7 false 10) ≡ true) ↔ (
      (◌≢◌ {A = ℕ} 7 0)
      × (reviewable 7 1 10 ride ≡ ok tt)
      × ((is_draft ride.review_status || is_rejected ride.review_status) ≡ true))
available_actions-submit_review_example =
    available_actions-submit_review ride 0 7 false 10 (garage-AllSeatsOk 1 ride refl)

abbrev offer : TripInput
offer = record {
  title = codes "ride";
  origin = codes "gate";
  destination = codes "station";
  contact_type = codes "qq";
  contact = codes "123";
  departure_at = 100;
  total_seats = pos 2;
  contact_provided = true;
}

validate_trip_input_iff_example :
    (validate_trip_input offer 10 ≡ valid) ↔ (ContentOk offer 10 × ContactOk offer)
validate_trip_input_iff_example = validate_trip_input_iff offer 10
