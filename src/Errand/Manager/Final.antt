-- ===== src/Errand/Manager/Final.antt =====
-- A task that was completed or cancelled stays as it is, whatever calls follow.
use backend_demo.Prelude.{
  ℕ, Bool, true, ◌≡◌, ◌≢◌, refl, sym, ◌∙◌, ap, List, [], ◌∷◌, ◌==◌, Bool-cases, ==_iff, Option,
  some, inl, inr,
}
use backend_demo.Platform.Errors.{
  Result, ok, err, Tx, Runs, transaction, transaction-Runs, transaction_keeps,
}
use backend_demo.Platform.Text.{Text}
use backend_demo.Trade.{Order}
use backend_demo.Errand.Task.{
  Task, TaskInput, task_open, task_accepted, task_picked_up, task_delivered, is_ended,
}
use backend_demo.Errand.Rule.{
  Verdict, valid, invalid, validate_task_input, validate_task_update_input,
}
use backend_demo.Errand.Database.{Database, Lawful}
use backend_demo.Errand.Store.{Services}
use backend_demo.Errand.Store
use backend_demo.Errand.Store.Moderation.{
  submit_review, review, revoke_review, update_tx, submit_review_tx, review_tx, revoke_review_tx,
}
use backend_demo.Errand.Store.Moderation
use backend_demo.Errand.Store.Lifecycle.{accept, pickup, deliver, runner_tx, valid_key}
use backend_demo.Errand.Store.Finish.{Outcome, finished, finish, finish_order, finish_order_found}
use backend_demo.Errand.Store.Outcomes.{finish_tx-Runs}
use backend_demo.Errand.Store.Consistent.{finished-id}
use backend_demo.Errand.Store.Final.{
  finished-ended, Finished-tasks, mutate_tx-ended, finish_tx-ended,
}
use backend_demo.Errand.Manager.{if_valid, create, update}
use backend_demo.Errand.Manager.Calls.{
  Call, creates, updates, submits, reviews, revokes, accepts, picks_up, delivers, finishes,
  finishes_order, perform, history,
}
use backend_demo.Errand.Manager.Kept.{
  Kept, create_tx-Kept, update_tx-Kept, submit_review_tx-Kept, review_tx-Kept,
  revoke_review_tx-Kept, accept_tx-Kept, runner_tx-Kept, finish_tx-Kept,
}

module _ {S : Type 0} (db : Database S) (env : Services) (law : Lawful db) (id : ℕ) (t : Task)
    (over : is_ended t.status ≡ true) where
  transaction-Kept :
      {A : Type 0} (m : Tx S A) (s : S)
      → ((u : A) (s' : S)
          → Runs m s u s'
          → Kept db env law id t over s
          → Kept db env law id t over s')
      → Kept db env law id t over s
      → Kept db env law id t over (transaction m s).1
  transaction-Kept m s keeps v =
      transaction_keeps (Kept db env law id t over) m s v
        (λ a h. keeps a _ (transaction-Runs m s h) v)

  if_valid-Kept :
      (verdict : Verdict) (m : S → Result Task × S) (s : S)
      → Kept db env law id t over s
      → Kept db env law id t over (m s).1
      → Kept db env law id t over (if_valid verdict m s).1
  if_valid-Kept valid m s v kept = kept
  if_valid-Kept (invalid reason) m s v kept = v

  accept-Kept :
      (n runner version : ℕ) (key : Text) (now : ℕ) (fresh_no : Result Text) (s : S)
      → Kept db env law id t over s
      → Kept db env law id t over (accept db env n runner version key now fresh_no s).1
  unfolding accept
  accept-Kept n runner version key now fresh_no s v = elim (Bool-cases (valid_key key)) [
    | inl allowed ↦ rw allowed (
        transaction-Kept _ s
          (λ _ _. accept_tx-Kept db env law id t over n runner version key now fresh_no) v)
    | inr no_ ↦ rw no_ v
  ]

  finish-Kept :
      (outcome : Outcome) (n actor version now : ℕ) (s : S)
      → Kept db env law id t over s
      → Kept db env law id t over (finish db env outcome n actor version now s).1
  unfolding finish
  finish-Kept outcome n actor version now s v =
      transaction-Kept _ s (λ _ _. finish_tx-Kept db env law id t over outcome n actor version now)
        v

  finish_order_found-Kept :
      (outcome : Outcome) (actor version now : ℕ) (task : Result Task) (order : Result Order)
      (s : S)
      → Kept db env law id t over s
      → Kept db env law id t over
          (finish_order_found db env outcome actor version now task order s).1
  finish_order_found-Kept outcome actor version now (err e) order s v = v
  finish_order_found-Kept outcome actor version now (ok task) (err e) s v = v
  finish_order_found-Kept outcome actor version now (ok task) (ok order) s v =
      elim (Bool-cases (order.version == version)) [
        | inl same ↦ rw same (finish-Kept outcome task.id actor task.version now s v)
        | inr stale ↦ rw stale v
      ]

  perform-Kept :
      (now : ℕ) (call : Call) (s : S)
      → Kept db env law id t over s
      → Kept db env law id t over (perform db env now call s)
  unfolding perform create update Store.create Moderation.update submit_review review revoke_review
      pickup deliver finish_order
  perform-Kept now (creates requester input) s v =
      if_valid-Kept (validate_task_input input now) (Store.create db env requester input) s v
        (transaction-Kept _ s (λ _ _. create_tx-Kept db env law id t over requester input) v)
  perform-Kept now (updates n requester version input) s v =
      if_valid-Kept (validate_task_update_input input now)
        (Moderation.update db env n requester version input) s v
        (transaction-Kept _ s (λ _ _. update_tx-Kept db env law id t over n requester version input)
          v)
  perform-Kept now (submits n requester version) s v =
      transaction-Kept _ s (λ _ _. submit_review_tx-Kept db env law id t over n requester version) v
  perform-Kept now (reviews n admin version approved reason) s v =
      transaction-Kept _ s
        (λ _ _. review_tx-Kept db env law id t over n admin version approved reason now) v
  perform-Kept now (revokes n admin version reason) s v =
      transaction-Kept _ s
        (λ _ _. revoke_review_tx-Kept db env law id t over n admin version reason now) v
  perform-Kept now (accepts n runner version key fresh_no) s v =
      accept-Kept n runner version key now fresh_no s v
  perform-Kept now (picks_up n runner version) s v =
      transaction-Kept _ s
        (λ _ _.
          runner_tx-Kept db env law id t over n runner version task_accepted task_picked_up now _
            refl)
        v
  perform-Kept now (delivers n runner version) s v =
      transaction-Kept _ s
        (λ _ _.
          runner_tx-Kept db env law id t over n runner version task_picked_up task_delivered now _
            refl)
        v
  perform-Kept now (finishes outcome n actor version) s v =
      finish-Kept outcome n actor version now s v
  perform-Kept now (finishes_order outcome n actor version) s v =
      finish_order_found-Kept outcome actor version now _ _ s v

  history-Kept :
      (calls : List (ℕ × Call)) (s : S)
      → Kept db env law id t over s
      → Kept db env law id t over (history db env calls s)
  unfolding history
  history-Kept [] s v = v
  history-Kept ((now, call) ∷ calls) s v =
      history-Kept calls (perform db env now call s) (perform-Kept now call s v)

module _ {S : Type 0} (db : Database S) (env : Services) (law : Lawful db) where
  finish-stored :
      (outcome : Outcome) (id actor version now : ℕ) (s : S) {u : Task × Option Order}
      → (finish db env outcome id actor version now s).0 ≡ ok u
      → (is_ended u.0.status ≡ true)
        × ((db.tables (finish db env outcome id actor version now s).1).tasks id ≡ some u.0)
  unfolding finish
  finish-stored outcome id actor version now s {u} h =
      let (t, found, f) =
        finish_tx-Runs db env law outcome id actor version now (transaction-Runs _ s h) in
      let number : (id == (finished outcome now t).id) ≡ true =
        (==_iff id (finished outcome now t).id).1
          (sym (finished-id outcome now t ∙ law.keyed s id t found)) in
      (
        ap (λ (x : Task). is_ended x.status) f.result ∙ finished-ended outcome now t,
        ap (λ g. g id) (Finished-tasks db env law outcome actor version now t u.0 s _ f)
            ∙ rw number (ap (λ x. some x) (sym f.result)),
      )

  -- Once a task was completed or cancelled, its row is, after any history of calls on the manager,
  -- exactly as it was left; and then the task is neither completed, cancelled, picked up,
  -- delivered, changed, submitted for review, reviewed nor taken back from its review, by anybody,
  -- at any time and with any version.
  pub finish-final :
      (outcome : Outcome) (id actor version now : ℕ) (calls : List (ℕ × Call)) (outcome' : Outcome)
      (other version' now' : ℕ) (input : TaskInput) (approved : Bool) (reason : Text) (s : S)
      {u w : Task × Option Order} {v : Task}
      → (finish db env outcome id actor version now s).0 ≡ ok u
      → let s' = history db env calls (finish db env outcome id actor version now s).1 in
        ((db.tables s').tasks id ≡ some u.0)
        × (is_ended u.0.status ≡ true)
        × ((finish db env outcome' id other version' now' s').0 ≢ ok w)
        × ((pickup db env id other version' now' s').0 ≢ ok v)
        × ((deliver db env id other version' now' s').0 ≢ ok v)
        × ((Moderation.update db env id other version' input s').0 ≢ ok v)
        × ((submit_review db env id other version' s').0 ≢ ok v)
        × ((review db env id other version' approved reason now' s').0 ≢ ok v)
        × ((revoke_review db env id other version' reason now' s').0 ≢ ok v)
  unfolding finish pickup deliver Moderation.update submit_review review revoke_review runner_tx
      update_tx submit_review_tx review_tx revoke_review_tx
  finish-final outcome id actor version now calls outcome' other version' now' input approved reason
        s {u} h =
      let (over, stored) = finish-stored outcome id actor version now s h in
      let s' = history db env calls (finish db env outcome id actor version now s).1 in
      let e = history-Kept db env law id u.0 over calls _ stored in
      (
        e,
        over,
        λ k.
            finish_tx-ended db env law outcome' id other version' now' e over
              (transaction-Runs _ s' k),
        λ k.
            mutate_tx-ended db env law id 0 version' task_accepted _ e over refl
              (transaction-Runs _ s' k),
        λ k.
            mutate_tx-ended db env law id 0 version' task_picked_up _ e over refl
              (transaction-Runs _ s' k),
        λ k.
            mutate_tx-ended db env law id other version' task_open _ e over refl
              (transaction-Runs _ s' k),
        λ k.
            mutate_tx-ended db env law id other version' task_open _ e over refl
              (transaction-Runs _ s' k),
        λ k.
            mutate_tx-ended db env law id 0 version' task_open _ e over refl
              (transaction-Runs _ s' k),
        λ k.
            mutate_tx-ended db env law id 0 version' task_open _ e over refl
              (transaction-Runs _ s' k),
      )
