-- ===== src/Carpool/Store.antt =====
-- infrastructure/store.go: the transactions on a trip.
pub mod Moderation
pub mod Seats
pub mod Effects
pub mod Capacity
pub mod Revisions
pub mod Versions
pub mod Visibility
use backend_demo.Prelude.{
  ℕ, zero, suc, ◌+◌, ℤ, pos, suc_ℤ, pred_ℤ, leb_ℤ, eq_ℤ, Bool, true, false, ◌&&◌, ◌||◌, not, Option,
  none, some, List, [], ◌∷◌, ◌++◌, ltb, ◌==◌, u64, if◌then◌else◌,
}
use backend_demo.Platform.Errors.{
  Error, app, record_not_found, Result, ok, err, Tx, ◌>>=◌, ◌>>◌, pure, lift, raise, query, exec,
  guard, map_err, conflict, is_not_found, transaction,
}
use backend_demo.Platform.Text.{Text, codes, is_empty, trim, decimal}
use backend_demo.Platform.Events.{Host, write_with_key}
use backend_demo.Carpool.Trip.{
  Trip, Participant, TripInput, TripStatus, trip_open, trip_full, trip_completed, trip_cancelled,
  ParticipantStatus, participant_joined, participant_left, ReviewStatus, review_pending,
  review_approved, review_rejected, review_draft, is_open, is_full, is_ended, is_joined, is_pending,
  is_approved, is_rejected, is_draft,
}
use backend_demo.Carpool.Database.{Database}

abbrev pub not_found : Error → Error
not_found record_not_found = app 404 "carpool_trip_not_found"
not_found e = e

-- The payload of a trip's events.
pub record TripPayload : Type 0 where
  pub trip_id : ℕ
  pub status : TripStatus
  pub version : ℕ

-- The cipher of the configuration centre.
pub record Cipher : Type 0 where
  pub encrypt : Text → Text → Result Text
  pub decrypt : Text → Text → Result Text

unfoldable pub contact_aad : ℕ → Text
contact_aad id = codes "carpool-trip:" ++ decimal id

unfoldable pub event_source : Text → Trip → Text
event_source kind trip =
    codes "carpool."
    ++ (kind ++ (codes ":" ++ (decimal trip.id ++ (codes ":" ++ decimal trip.version))))

-- The assignments to the trip, by the operation that makes them.
unfoldable pub new_trip : ℕ → TripInput → Trip
new_trip organizer input = record {
  id = 0;
  title = trim input.title;
  origin = trim input.origin;
  destination = trim input.destination;
  departure_at = input.departure_at;
  total_seats = input.total_seats;
  occupied_seats = pos 0;
  status = trip_open;
  review_status = review_pending;
  review_reason = none;
  reviewed_by = none;
  reviewed_at = none;
  organizer_id = organizer;
  contact_type = trim input.contact_type;
  contact_ciphertext = [];
  version = 1;
}

unfoldable pub edited : TripInput → Trip → Trip
edited input t = record t {
  title = trim input.title;
  origin = trim input.origin;
  destination = trim input.destination;
  departure_at = input.departure_at;
  total_seats = input.total_seats;
}

unfoldable pub redrafted : Trip → Trip
redrafted t = record t {
  review_status = review_draft;
  review_reason = none;
  reviewed_by = none;
  reviewed_at = none;
  version = u64 (t.version + 1);
}

unfoldable pub submitted : Trip → Trip
submitted t = record t {
  review_status = review_pending;
  review_reason = none;
  reviewed_by = none;
  reviewed_at = none;
  version = u64 (t.version + 1);
}

unfoldable pub reviewed : ℕ → Bool → Text → ℕ → Trip → Trip
reviewed admin approved reason now t = record t {
  review_status = (if approved then review_approved else review_rejected);
  review_reason = (if approved then none else some reason);
  reviewed_by = some admin;
  reviewed_at = some now;
  version = u64 (t.version + 1);
}

unfoldable pub revoked : ℕ → Text → ℕ → Trip → Trip
revoked admin reason now t = record t {
  review_status = review_pending;
  review_reason = some reason;
  reviewed_by = some admin;
  reviewed_at = some now;
  version = u64 (t.version + 1);
}

unfoldable pub seat_taken : Trip → Trip
unfolding suc_ℤ
seat_taken t =
    let occupied = suc_ℤ t.occupied_seats in
    record t {
      occupied_seats = occupied;
      version = u64 (t.version + 1);
      status = (if eq_ℤ occupied t.total_seats then trip_full else t.status);
    }

unfoldable pub seat_released : Trip → Trip
unfolding pred_ℤ
seat_released t = record t {
  occupied_seats = pred_ℤ t.occupied_seats;
  status = trip_open;
  version = u64 (t.version + 1);
}

unfoldable pub ended : TripStatus → Trip → Trip
ended status t = record t { status = status; version = u64 (t.version + 1) }

unfoldable pub rejoined : ℕ → Participant → Participant
rejoined now p = record p {
  status = participant_joined;
  joined_at = now;
  cancelled_at = none;
  version = u64 (p.version + 1);
}

unfoldable pub left : ℕ → Participant → Participant
left now p = record p {
  status = participant_left;
  cancelled_at = some now;
  version = u64 (p.version + 1);
}

unfoldable pub new_participant : ℕ → ℕ → ℕ → Participant
new_participant trip user now = record {
  trip_id = trip;
  user_id = user;
  status = participant_joined;
  joined_at = now;
  cancelled_at = none;
  version = 1;
}

-- Of the lookup of a participant: no row is no error.
abbrev pub optional : Result Participant → Result (Option Participant)
optional (ok p) = ok (some p)
optional (err record_not_found) = ok none
optional (err e) = err e

abbrev pub has_joined : Option Participant → Bool
has_joined none = false
has_joined (some p) = is_joined p.status

module _ {S : Type 0} (db : Database S) (host : Host TripPayload) (cipher : Cipher) where
  unfoldable pub event : Trip → Text → Tx S (Unit {0})
  event trip kind =
      write_with_key host db.events (codes "carpool_trip") trip.id kind (event_source kind trip)
        (record { trip_id = trip.id; status = trip.status; version = trip.version })

  -- `tx.Save(trip)` and the event, the end of every transaction.
  unfoldable pub record_trip : Trip → Text → Tx S Trip
  record_trip trip kind = do exec (db.save_trip trip); event trip kind; pure trip

  unfoldable pub reveal_contact : Trip → Result Text
  reveal_contact trip = cipher.decrypt trip.contact_ciphertext (contact_aad trip.id)

  unfoldable pub create_trip : ℕ → TripInput → S → Result Trip × S
  unfolding new_trip record_trip
  create_trip organizer input = transaction do
    trip ← db.create_trip (new_trip organizer input)
    ciphertext ← lift (cipher.encrypt (trim input.contact) (contact_aad trip.id))
    record_trip (record trip { contact_ciphertext = ciphertext }) (codes "carpool.created")

  -- The trip, and whether the viewer may see the contact in plain text.
  unfoldable pub get_trip : ℕ → ℕ → S → Result (Trip × Bool)
  get_trip id viewer s = elim (map_err not_found (db.first_trip id s)) [
    | err e ↦ err e
    | ok trip ↦
        if not (is_approved trip.review_status) && not (trip.organizer_id == viewer)
        then err (not_found record_not_found)
        else let owner = trip.organizer_id == viewer in
          if not owner && not (is_ended trip.status)
          then elim (optional (db.first_participant id viewer s)) [
            | ok p ↦ ok (trip, has_joined p)
            | err e ↦ err e
          ]
          else ok (trip, owner)
  ]
