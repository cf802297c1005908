-- ===== src/Carpool/Trip.antt =====
-- domain/carpool_trips.gen.go, domain/carpool_participants.gen.go and the constants of
-- domain/rule.go. Times are instants on one line, so that `UTC()` changes nothing; the columns
-- `created_at` and `updated_at` are left out.
use backend_demo.Prelude.{ℕ, ℤ, Bool, true, false, Option}
use backend_demo.Platform.Text.{Text}

pub data TripStatus : Type 0 where
  trip_open trip_full trip_completed trip_cancelled : TripStatus

pub data ParticipantStatus : Type 0 where
  participant_joined participant_left : ParticipantStatus

pub data ReviewStatus : Type 0 where
  review_pending review_approved review_rejected review_draft : ReviewStatus

pub data Relation : Type 0 where
  organizer participant none : Relation

pub data Action : Type 0 where
  edit submit_review cancel join leave : Action

pub record Trip : Type 0 where
  pub id : ℕ
  pub title : Text
  pub origin : Text
  pub destination : Text
  pub departure_at : ℕ
  pub total_seats : ℤ
  pub occupied_seats : ℤ
  pub status : TripStatus
  pub review_status : ReviewStatus
  pub review_reason : Option Text
  pub reviewed_by : Option ℕ
  pub reviewed_at : Option ℕ
  pub organizer_id : ℕ
  pub contact_type : Text
  pub contact_ciphertext : Text
  pub version : ℕ

pub record Participant : Type 0 where
  pub trip_id : ℕ
  pub user_id : ℕ
  pub status : ParticipantStatus
  pub joined_at : ℕ
  pub cancelled_at : Option ℕ
  pub version : ℕ

pub record TripInput : Type 0 where
  pub title : Text
  pub origin : Text
  pub destination : Text
  pub contact_type : Text
  pub contact : Text
  pub departure_at : ℕ
  pub total_seats : ℤ
  pub contact_provided : Bool

-- The tests `status == TripOpen`, `status == TripFull` and their like.
abbrev pub is_open : TripStatus → Bool
is_open trip_open = true
is_open _ = false

abbrev pub is_full : TripStatus → Bool
is_full trip_full = true
is_full _ = false

abbrev pub is_ended : TripStatus → Bool
is_ended trip_completed = true
is_ended trip_cancelled = true
is_ended _ = false

abbrev pub is_joined : ParticipantStatus → Bool
is_joined participant_joined = true
is_joined participant_left = false

abbrev pub is_pending : ReviewStatus → Bool
is_pending review_pending = true
is_pending _ = false

abbrev pub is_approved : ReviewStatus → Bool
is_approved review_approved = true
is_approved _ = false

abbrev pub is_rejected : ReviewStatus → Bool
is_rejected review_rejected = true
is_rejected _ = false

abbrev pub is_draft : ReviewStatus → Bool
is_draft review_draft = true
is_draft _ = false
