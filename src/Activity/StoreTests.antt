-- ===== src/Activity/StoreTests.antt =====
-- One activity in memory: runs of the store and of the manager, and the theorems at work on them.
use backend_demo.Prelude.{
  ℕ, pos, true, false, ◌≡◌, ◌⊎◌, refl, none, some, List, [], ◌∷◌, ◌==◌, if◌then◌else◌, arith,
}
use backend_demo.Platform.Errors.{Result, ok, statements}
use backend_demo.Platform.Text.{codes, decimal, is_empty, byte_len, trim, Text}
use backend_demo.Platform.Events.{write_event}
use backend_demo.Platform.Privacy.{mask_contact}
use backend_demo.Activity.Entry.{Activity, Registration}
use backend_demo.Activity.Rule.{
  is_publicly_visible, registration_allowed, cancellation_allowed, visible_to_viewer,
}
use backend_demo.Activity.Database.{registered}
use backend_demo.Activity.Memory.{Memory, memory, memory-Lawful}
use backend_demo.Activity.Store.{Services, activity_event, registration_event}
use backend_demo.Activity.Store.Registrations.{
  register, cancel_registration, enrol, new_registration, place_taken,
}
use backend_demo.Activity.Store.Reads.{contact, get_public, is_over}
use backend_demo.Activity.Store.Capacity.{CapacityOk, AllCapacityOk}
use backend_demo.Activity.Store.Replay.{register-repeated}
use backend_demo.Activity.Store.Privacy.{Registered, contact-Registered, get_public-visible}
use backend_demo.Activity.Manager.Calls.{Call, registers, withdraws, history}
use backend_demo.Activity.Manager.History.{history-CapacityOk}
use backend_demo.Activity.Tests.{talk, seat}

abbrev services : Services
services = record {
  activity_host = record { marshal = λ p. ok []; digest = λ t. t; time = 0 };
  registration_host = record { marshal = λ p. ok []; digest = λ t. t; time = 0 };
  encrypt = λ text aad. ok text;
  decrypt = λ text aad. ok text;
}

-- The talk, for which member 5 has signed up.
abbrev hall : Memory
hall = record {
  rows = λ i. if i == 1 then some talk else none;
  registrations = seat ∷ [];
  next = 2;
}

hall-AllCapacityOk : AllCapacityOk (memory.tables hall)
hall-AllCapacityOk id a h = ground arith

runs : Unit {0}
unfolding registration_allowed cancellation_allowed visible_to_viewer history is_empty byte_len trim
    register cancel_registration enrol new_registration place_taken activity_event
    registration_event write_event statements decimal
runs = tt

abbrev calls : List (ℕ × Call)
calls = (20, registers 1 6 (codes "x")) ∷ (30, withdraws 1 5 1) ∷ []

history-CapacityOk_example :
    CapacityOk talk
      (registered 1 (memory.tables (history memory services calls hall)).registrations)
unfolding runs
history-CapacityOk_example =
    history-CapacityOk memory services memory-Lawful calls hall hall-AllCapacityOk 1 talk refl

-- Member 6 signs up at 20.
abbrev signed_up : Result (Registration × Activity) × Memory
signed_up = register memory services 1 6 (codes " x") 20 hall

abbrev newcomer : Registration × Activity
newcomer = (
  record seat { id = 3; user_id = 6; registered_at = 20; idempotency_key = codes "x" },
  record talk { registered_count = pos 2 },
)

-- Then member 5 withdraws.
abbrev later : Memory
later = history memory services ((22, withdraws 1 5 1) ∷ []) signed_up.1

abbrev replayed : Registration × Activity
replayed = (newcomer.0, talk)

register-repeated_example :
    (newcomer.0 ≡ newcomer.0)
    × ((memory.tables later).activities 1 ≡ some talk)
    × ((register memory services 1 6 (codes " x") 25 later).1 ≡ later)
unfolding runs
register-repeated_example =
    register-repeated memory services memory-Lawful 1 6 (codes " x") 20 25 hall later {u = newcomer}
      {w = replayed} refl refl refl

contact-Registered_example :
    (◌≡◌ {A = Text} (codes "123") [])
    ⊎ (codes "123" ≡ mask_contact (codes "123"))
    ⊎ ((is_over talk.status ≡ false)
        × ((talk.created_by ≡ 5) ⊎ Registered memory services memory-Lawful 1 5 hall))
unfolding runs contact
contact-Registered_example =
    contact-Registered memory services memory-Lawful talk 5 (codes "123") hall refl refl

get_public-visible_example :
    (is_publicly_visible talk.status talk.review_status ≡ true)
    ⊎ (talk.created_by ≡ 5)
    ⊎ Registered memory services memory-Lawful 1 5 hall
unfolding runs get_public
get_public-visible_example = get_public-visible memory services memory-Lawful 1 5 hall refl
