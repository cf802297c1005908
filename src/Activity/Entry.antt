-- ===== src/Activity/Entry.antt =====
-- domain/activities.gen.go, domain/activity_registrations.gen.go and the constants of
-- domain/rule.go. Times are instants on one line; `created_at` and `updated_at` are left out.
use backend_demo.Prelude.{ℕ, ℤ, Bool, true, false, Option}
use backend_demo.Platform.Text.{Text}

pub data ActivityStatus : Type 0 where
  activity_draft activity_published activity_cancelled activity_finished : ActivityStatus

pub data ReviewStatus : Type 0 where
  review_draft review_pending review_approved review_rejected : ReviewStatus

pub data RegistrationStatus : Type 0 where
  registration_active registration_cancelled : RegistrationStatus

pub data Relation : Type 0 where
  publisher participant none : Relation

pub data Action : Type 0 where
  edit submit_review cancel register cancel_registration : Action

pub record Activity : Type 0 where
  pub id : ℕ
  pub title : Text
  pub summary : Text
  pub body : Text
  pub location : Text
  pub signup_start_at : ℕ
  pub signup_end_at : ℕ
  pub start_at : ℕ
  pub end_at : ℕ
  pub capacity : ℤ
  pub registered_count : ℤ
  pub status : ActivityStatus
  pub review_status : ReviewStatus
  pub review_comment : Option Text
  pub contact_type : Text
  pub contact_ciphertext : Text
  pub created_by : ℕ
  pub updated_by : ℕ
  pub version : ℕ

pub record Registration : Type 0 where
  pub id : ℕ
  pub activity_id : ℕ
  pub user_id : ℕ
  pub status : RegistrationStatus
  pub registered_at : ℕ
  pub cancelled_at : Option ℕ
  pub idempotency_key : Text
  pub version : ℕ

pub record ContactInput : Type 0 where
  pub kind : Text
  pub value : Text
  pub provided : Bool

pub record ActivityInput : Type 0 where
  pub title : Text
  pub summary : Text
  pub body : Text
  pub location : Text
  pub signup_start_at : ℕ
  pub signup_end_at : ℕ
  pub start_at : ℕ
  pub end_at : ℕ
  pub capacity : ℤ
  pub contact : ContactInput

abbrev pub is_draft : ActivityStatus → Bool
is_draft activity_draft = true
is_draft _ = false

abbrev pub is_published : ActivityStatus → Bool
is_published activity_published = true
is_published _ = false

abbrev pub is_unreviewed : ReviewStatus → Bool
is_unreviewed review_draft = true
is_unreviewed _ = false

abbrev pub is_pending : ReviewStatus → Bool
is_pending review_pending = true
is_pending _ = false

abbrev pub is_approved : ReviewStatus → Bool
is_approved review_approved = true
is_approved _ = false

abbrev pub is_rejected : ReviewStatus → Bool
is_rejected review_rejected = true
is_rejected _ = false

abbrev pub is_active : RegistrationStatus → Bool
is_active registration_active = true
is_active registration_cancelled = false
