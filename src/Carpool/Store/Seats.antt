-- ===== src/Carpool/Store/Seats.antt =====
-- infrastructure/store.go: the operations that take and release seats, and those that end a trip.
use backend_demo.Prelude.{
  ℕ, suc, ltb, leb_ℤ, ◌==◌, Bool, true, false, ◌&&◌, ◌||◌, not, Option, none, some, List, [], ◌∷◌,
  if◌then◌else◌,
}
use backend_demo.Platform.Errors.{
  Error, app, Result, ok, err, Tx, ◌>>=◌, ◌>>◌, pure, lift, query, exec, guard, map_err, conflict,
  transaction,
}
use backend_demo.Platform.Text.{codes}
use backend_demo.Platform.Events.{Host}
use backend_demo.Carpool.Trip.{
  Trip, Participant, trip_completed, trip_cancelled, is_open, is_full, is_joined, is_approved,
}
use backend_demo.Carpool.Database.{Database, is_due}
use backend_demo.Carpool.Store.{
  Cipher, TripPayload, not_found, optional, has_joined, record_trip, seat_taken, seat_released,
  ended, rejoined, left, new_participant,
}

-- What `Join` asks of the trip, in its order.
unfoldable pub joinable : ℕ → ℕ → ℕ → Trip → Result (Unit {0})
joinable user version now trip =
    if not (trip.version == version)
    then err (conflict "version_conflict")
    else if trip.organizer_id == user
    then err (app 403 "self_join")
    else if not (is_open trip.status) && not (is_full trip.status)
    then err (conflict "trip_unavailable")
    else if not (is_approved trip.review_status)
    then err (conflict "trip_unavailable")
    else if not (ltb now trip.departure_at)
    then err (conflict "trip_departed")
    else if leb_ℤ trip.total_seats trip.occupied_seats
    then err (conflict "trip_full")
    else ok tt

-- What `changeParticipant` asks of the trip.
unfoldable pub leavable : ℕ → ℕ → Trip → Result (Unit {0})
leavable version now trip =
    if not (trip.version == version)
    then err (conflict "version_conflict")
    else if (not (is_open trip.status) && not (is_full trip.status))
        || not (ltb now trip.departure_at)
    then err (conflict "trip_unavailable")
    else ok tt

-- What `Cancel` asks of the trip.
unfoldable pub cancellable : ℕ → ℕ → ℕ → Trip → Result (Unit {0})
cancellable user version now trip =
    if not (trip.version == version)
    then err (conflict "version_conflict")
    else if not (trip.organizer_id == user)
    then err (app 403 "not_organizer")
    else if (not (is_open trip.status) && not (is_full trip.status))
        || not (ltb now trip.departure_at)
    then err (conflict "trip_unavailable")
    else ok tt

-- The participant's row of `Join`: a new one, or the old one taken up again.
module _ {S : Type 0} (db : Database S) where
  unfoldable pub enrol : ℕ → ℕ → ℕ → Option Participant → S → Result S
  unfolding new_participant rejoined
  enrol id user now none = db.create_participant (new_participant id user now)
  enrol id user now (some p) = db.save_participant (rejoined now p)

-- The row that `changeParticipant` releases.
abbrev pub leaver : Option Participant → Result Participant
leaver none = err (app 403 "not_participant")
leaver (some p) = if is_joined p.status then ok p else err (app 403 "not_participant")

module _ {S : Type 0} (db : Database S) (host : Host TripPayload) (cipher : Cipher) where
  unfoldable pub join_tx : ℕ → ℕ → ℕ → ℕ → Tx S Trip
  unfolding joinable enrol seat_taken record_trip
  join_tx id user version now = do
    trip ← query λ s. map_err not_found (db.first_trip id s)
    lift (joinable user version now trip)
    p ← query λ s. optional (db.first_participant id user s)
    lift (guard (not (has_joined p)) (conflict "already_joined"))
    exec (enrol db id user now p)
    record_trip db host cipher (seat_taken trip) (codes "carpool.joined")

  unfoldable pub join : ℕ → ℕ → ℕ → ℕ → S → Result Trip × S
  unfolding join_tx
  join id user version now = transaction (join_tx id user version now)

  unfoldable pub leave_tx : ℕ → ℕ → ℕ → ℕ → Tx S Trip
  unfolding leavable left seat_released record_trip
  leave_tx id user version now = do
    trip ← query λ s. map_err not_found (db.first_trip id s)
    lift (leavable version now trip)
    row ← query λ s. optional (db.first_participant id user s)
    p ← lift (leaver row)
    exec (db.save_participant (left now p))
    record_trip db host cipher (seat_released trip) (codes "carpool.left")

  -- `Leave`, which is `changeParticipant`.
  unfoldable pub leave : ℕ → ℕ → ℕ → ℕ → S → Result Trip × S
  unfolding leave_tx
  leave id user version now = transaction (leave_tx id user version now)

  unfoldable pub cancel_tx : ℕ → ℕ → ℕ → ℕ → Tx S Trip
  unfolding cancellable ended record_trip
  cancel_tx id user version now = do
    trip ← query λ s. map_err not_found (db.first_trip id s)
    lift (cancellable user version now trip)
    record_trip db host cipher (ended trip_cancelled trip) (codes "carpool.cancelled")

  unfoldable pub cancel : ℕ → ℕ → ℕ → ℕ → S → Result Trip × S
  unfolding cancel_tx
  cancel id user version now = transaction (cancel_tx id user version now)

  -- The transaction of `CompleteDue` on one row: whether the trip was changed.
  unfoldable pub complete_found : ℕ → Trip → Tx S Bool
  unfolding ended record_trip
  complete_found now trip =
      if is_due now trip
      then (do
        _ ← record_trip db host cipher (ended trip_completed trip) (codes "carpool.completed")
        pure true)
      else pure false

  unfoldable pub complete_one_tx : ℕ → ℕ → Tx S Bool
  unfolding complete_found
  complete_one_tx now id = do trip ← query (db.first_trip id); complete_found now trip

  unfoldable pub complete_one : ℕ → ℕ → S → Result Bool × S
  unfolding complete_one_tx
  complete_one now id = transaction (complete_one_tx now id)

-- A round of the loop of `CompleteDue`: an error ends it, with the trips completed so far.
module _ {S : Type 0} where
  abbrev pub after_round :
      Result Bool → ℕ → S → (ℕ → (ℕ × Option Error) × S) → (ℕ × Option Error) × S
  after_round (err e) completed s rest = ((completed, some e), s)
  after_round (ok true) completed s rest = rest (suc completed)
  after_round (ok false) completed s rest = rest completed

  abbrev pub with_rows :
      Result (List Trip) → S → (List Trip → (ℕ × Option Error) × S) → (ℕ × Option Error) × S
  with_rows (err e) s loop = ((0, some e), s)
  with_rows (ok rows) s loop = loop rows

module _ {S : Type 0} (db : Database S) (host : Host TripPayload) (cipher : Cipher) where
  unfoldable pub complete_rows : ℕ → List Trip → ℕ → S → (ℕ × Option Error) × S
  complete_rows now [] completed s = ((completed, none), s)
  complete_rows now (row ∷ rows) completed s =
      let step = complete_one db host cipher now row.id s in
      after_round step.0 completed step.1 (λ n. complete_rows now rows n step.1)

  unfoldable pub complete_due : ℕ → S → (ℕ × Option Error) × S
  unfolding complete_rows
  complete_due now s = with_rows (db.due_trips now 100 s) s (λ rows. complete_rows now rows 0 s)
