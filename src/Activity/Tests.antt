-- ===== src/Activity/Tests.antt =====
-- One activity, and the theorems at work on it.
use backend_demo.Prelude.{ℕ, pos, leb_ℤ, Bool, true, false, ◌≡◌, ◌≢◌, ◌↔◌, ◌≤◌, refl, none, arith}
use backend_demo.Platform.Text.{codes}
use backend_demo.Activity.Entry.{
  Activity, Registration, Action, activity_published, review_approved, registration_active,
  is_active,
}
use backend_demo.Activity.Rule.{
  valid, is_publicly_visible, visible_to_viewer, registration_allowed, cancellation_allowed,
  available_actions,
}
use backend_demo.Activity.Access.{
  offers, available_actions-register, available_actions-cancel_registration,
  available_actions-visible_to_viewer,
}

-- Member 7 holds a talk at 50, and one may sign up from 10 to 40.
abbrev pub talk : Activity
talk = record {
  id = 1;
  title = codes "talk";
  summary = codes "a talk";
  body = codes "about";
  location = codes "hall";
  signup_start_at = 10;
  signup_end_at = 40;
  start_at = 50;
  end_at = 60;
  capacity = pos 2;
  registered_count = pos 1;
  status = activity_published;
  review_status = review_approved;
  review_comment = none;
  contact_type = codes "qq";
  contact_ciphertext = codes "123";
  created_by = 7;
  updated_by = 7;
  version = 1;
}

abbrev pub seat : Registration
seat = record {
  id = 1;
  activity_id = 1;
  user_id = 5;
  status = registration_active;
  registered_at = 20;
  cancelled_at = none;
  idempotency_key = codes "k";
  version = 1;
}

available_actions-register_example :
    ((offers Action.register (available_actions talk 5 false 20) ≡ true) ↔ (
      (◌≢◌ {A = ℕ} 5 0)
      × (talk.created_by ≢ 5)
      × (◌≡◌ {A = Bool} false false)
      × (registration_allowed talk 20 ≡ valid)))
    × ((registration_allowed talk 20 ≡ valid) ↔ (
        (is_publicly_visible talk.status talk.review_status ≡ true)
        × (10 ≤ 20)
        × (20 ≤ 40)
        × (leb_ℤ talk.capacity talk.registered_count ≡ false)))
available_actions-register_example = available_actions-register talk 5 false 20

available_actions-cancel_registration_example :
    (offers Action.cancel_registration (available_actions talk 5 (is_active seat.status) 20) ≡ true)
    ↔ (cancellation_allowed seat talk 20 ≡ valid)
available_actions-cancel_registration_example =
    available_actions-cancel_registration talk seat 5 20 (omega arith) (omega arith)

available_actions-visible_to_viewer_example :
    visible_to_viewer activity_published review_approved 7 5 false ≡ true
unfolding available_actions
available_actions-visible_to_viewer_example =
    available_actions-visible_to_viewer talk Action.register 5 false 20 refl
