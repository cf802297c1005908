-- ===== src/Errand/Tests.antt =====
-- One task in memory: runs of the operations, and the theorems at work on it.
use backend_demo.Prelude.{
  Option, ◌≢◌, ℕ, pos, true, false, ◌≡◌, ◌⊎◌, refl, subst, none, some, List, [], ◌∷◌, arith,
}
use backend_demo.Platform.Errors.{Result, ok, statements}
use backend_demo.Platform.Text.{codes, decimal, is_empty, byte_len, trim}
use backend_demo.Platform.Privacy.{mask_contact}
use backend_demo.Platform.Events.{write_with_key}
use backend_demo.Trade.{
  Order, order_type_errand, resource_errand_task, payment_offline, status_confirmed,
  fulfillment_in_progress,
}
use backend_demo.Errand.Task.{
  Task, TaskInput, is_ended, is_running, task_cancelled, task_open, task_accepted, task_picked_up,
  review_approved,
}
use backend_demo.Errand.Rule.{is_runner}
use backend_demo.Errand.Contact.{contact, decrypt_contact, contact-private}
use backend_demo.Errand.Memory.{Memory, memory, memory-Lawful}
use backend_demo.Errand.Store.{
  Services, task_event, order_event, create_task_transition, create_order_transition, key_of,
  task_word, trade_word, mutable,
}
use backend_demo.Errand.Store.Lifecycle.{
  accept, pickup, deliver, acceptable, valid_key, order_key, new_order, accepted, advanced, replays,
}
use backend_demo.Errand.Store.Finish.{Outcome, finishable, finished, close_linked, finish}
use backend_demo.Errand.Manager.Final.{finish-final}
use backend_demo.Errand.Store.Moderation.{update, submit_review, review, revoke_review}
use backend_demo.Errand.Store.Linked.{TaskOk}
use backend_demo.Errand.Store.Consistent.{Consistent}
use backend_demo.Errand.Store.Replay.{accept-repeated}
use backend_demo.Errand.Manager.Calls.{Call, accepts, picks_up, delivers, finishes, history}
use backend_demo.Errand.Manager.History.{history-Consistent}

abbrev services : Services
services = record {
  task_host = record { marshal = λ p. ok []; digest = λ t. t; time = 0 };
  order_host = record { marshal = λ p. ok []; digest = λ t. t; time = 0 };
  snapshot = λ t. ok [];
  encrypt = λ text aad. ok text;
  decrypt = λ text aad. ok text;
}

-- Member 7 asks for a parcel by 100.
abbrev pub parcel : Task
parcel = record {
  id = 1;
  title = codes "parcel";
  description = codes "box";
  reward_cents = pos 500;
  currency = codes "CNY";
  pickup_location = codes "gate";
  dropoff_location = codes "dorm";
  deadline = 100;
  status = task_open;
  review_status = review_approved;
  review_reason = none;
  reviewed_by = some 1;
  reviewed_at = some 5;
  requester_id = 7;
  contact_type = codes "qq";
  contact_ciphertext = codes "123";
  runner_id = none;
  trade_order_id = none;
  accepted_at = none;
  picked_up_at = none;
  delivered_at = none;
  completed_at = none;
  cancelled_at = none;
  version = 1;
}

abbrev depot : Memory
depot = record { tasks = parcel ∷ []; orders = []; task_log = []; order_log = []; next = 2 }

parcel-TaskOk : TaskOk (λ _. none) parcel
parcel-TaskOk = record { free = λ _. (refl, refl); taken = λ h. cc (h); backed = λ _ h. cc (h) }

depot-Consistent : Consistent (memory.tables depot)
depot-Consistent = record {
  agree = record {
    keyed = λ id t h. ground arith;
    each = λ id t h. subst (TaskOk (λ _. none)) (only id t h) parcel-TaskOk;
  };
  task_moves = refl;
  order_moves = refl;
}
  where
    only : (id : ℕ) (t : Task) → (memory.tables depot).tasks id ≡ some t → parcel ≡ t
    only id t h = ground arith

-- The bundle of what a run computes through.
runs : Unit {0}
unfolding history accept pickup valid_key order_key new_order accepted advanced replays acceptable
    mutable task_event order_event create_task_transition create_order_transition key_of task_word
    trade_word write_with_key statements decimal is_empty byte_len trim
runs = tt

calls : List (ℕ × Call)
calls =
    (10, accepts 1 5 1 (codes "k") (ok (codes "n")))
    ∷ (20, picks_up 1 5 2)
    ∷ (30, delivers 1 5 3)
    ∷ (40, finishes Outcome.completes 1 7 4)
    ∷ []

history-Consistent_example : Consistent (memory.tables (history memory services calls depot))
history-Consistent_example =
    history-Consistent memory services memory-Lawful calls depot depot-Consistent

abbrev first_run : Result (Task × Order) × Memory
first_run = accept memory services 1 5 1 (codes "k") 10 (ok (codes "n")) depot

-- What the first acceptance returns.
abbrev pub bound : Task
bound = record parcel {
  status = task_accepted;
  runner_id = some 5;
  trade_order_id = some 2;
  accepted_at = some 10;
  version = 2;
}

-- The order of the first acceptance, under the key "errand:1:k".
abbrev deal : Order
deal = record {
  id = 2;
  order_no = codes "n";
  order_type = order_type_errand;
  resource_type = resource_errand_task;
  resource_id = 1;
  buyer_id = 7;
  seller_id = 5;
  amount_cents = pos 500;
  currency = codes "CNY";
  payment_mode = payment_offline;
  trade_status = status_confirmed;
  fulfillment_status = fulfillment_in_progress;
  title_snapshot = codes "parcel";
  resource_snapshot = [];
  idempotency_key = codes "errand:1:k";
  expires_at = none;
  paid_at = none;
  completed_at = none;
  cancelled_at = none;
  closed_at = none;
  version = 1;
}

accepts_once : first_run.0 ≡ ok (bound, deal)
unfolding runs
accepts_once = refl

-- Then member 5 picks the parcel up.
abbrev later : Memory
later = history memory services ((30, picks_up 1 5 2) ∷ []) first_run.1

abbrev picked : Task
picked = record bound { status = task_picked_up; picked_up_at = some 30; version = 3 }

accepts_again :
    (accept memory services 1 5 9 (codes "k") 60 (ok (codes "m")) later).0 ≡ ok (picked, deal)
unfolding runs
accepts_again = refl

is_picked :
    ((memory.tables later).tasks 1 ≡ some picked) × ((memory.tables later).orders 2 ≡ some deal)
unfolding runs
is_picked = (refl, refl)

accept-repeated_example :
    (◌≡◌ {A = Task × Order} (picked, deal) (picked, deal))
    × ((accept memory services 1 5 9 (codes "k") 60 (ok (codes "m")) later).1 ≡ later)
accept-repeated_example =
    accept-repeated memory services memory-Lawful 1 5 1 (codes "k") 10 (ok (codes "n")) 5 9 60
      (ok (codes "m")) depot later picked deal accepts_once is_picked.0 is_picked.1 refl refl refl
      refl accepts_again

abbrev pub request : TaskInput
request = record {
  title = codes "parcel";
  description = codes "box";
  pickup_location = codes "gate";
  dropoff_location = codes "dorm";
  reward_cents = pos 500;
  deadline = 100;
  contact = record { kind = codes "qq"; value = codes "123"; provided = true };
}

contact-private_example :
    (codes "1*3" ≡ mask_contact (codes "123"))
    ⊎ ((is_ended parcel.status ≡ false) × (parcel.requester_id ≡ 5))
    ⊎ ((is_running parcel.status ≡ true) × (is_runner parcel.runner_id 5 ≡ true))
    ⊎ (is_empty (codes "123") ≡ true)
unfolding runs decrypt_contact contact mask_contact
contact-private_example =
    contact-private services parcel 5 (codes "123")
      {details = record { kind = codes "qq"; value = codes "1*3" }} refl refl

-- Member 7 cancels the parcel.
abbrev cancelled_run : Result (Task × Option Order) × Memory
cancelled_run = finish memory services Outcome.cancels 1 7 1 10 depot

abbrev cancelled_parcel : Task
cancelled_parcel = record parcel { status = task_cancelled; cancelled_at = some 10; version = 2 }

cancels_once : cancelled_run.0 ≡ ok (cancelled_parcel, none)
unfolding runs finish finishable finished close_linked
cancels_once = refl

-- Somebody accepts, and the requester cancels again.
abbrev after_end : List (ℕ × Call)
after_end =
    (20, accepts 1 5 2 (codes "k") (ok (codes "n"))) ∷ (30, finishes Outcome.cancels 1 7 2) ∷ []

finish-final_example :
    let s' = history memory services after_end cancelled_run.1 in
    ((memory.tables s').tasks 1 ≡ some cancelled_parcel)
    × (is_ended task_cancelled ≡ true)
    × ((finish memory services Outcome.cancels 1 7 2 40 s').0 ≢ ok (parcel, none))
    × ((pickup memory services 1 7 2 40 s').0 ≢ ok parcel)
    × ((deliver memory services 1 7 2 40 s').0 ≢ ok parcel)
    × ((update memory services 1 7 2 request s').0 ≢ ok parcel)
    × ((submit_review memory services 1 7 2 s').0 ≢ ok parcel)
    × ((review memory services 1 7 2 true (codes "x") 40 s').0 ≢ ok parcel)
    × ((revoke_review memory services 1 7 2 (codes "x") 40 s').0 ≢ ok parcel)
finish-final_example =
    finish-final memory services memory-Lawful Outcome.cancels 1 7 1 10 after_end Outcome.cancels 7
      2 40 request true (codes "x") depot {w = (parcel, none)} {v = parcel} cancels_once
