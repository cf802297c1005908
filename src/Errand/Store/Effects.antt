-- ===== src/Errand/Store/Effects.antt =====
-- What the transactions on a task leave in the tables when they succeed.
use backend_demo.Prelude.{ap, ℕ, ◌≡◌, refl, ◌∙◌, inl, inr, Option, some}
use backend_demo.Platform.Errors.{
  ok, Tx, Reads, Runs, pure-Runs, >>-Runs, query-Runs, exec-Runs, check-Runs, map_err,
  map_err-eq-ok,
}
use backend_demo.Platform.Text.{Text}
use backend_demo.Platform.Events.Effects.{write_with_key-Runs}
use backend_demo.Trade.{Order, OrderTransition, TradeStatus}
use backend_demo.Errand.Task.{Task, TaskStatus, Transition}
use backend_demo.Errand.Database.{Database, Lawful, put_task, log_task, log_order}
use backend_demo.Errand.Store.{
  Services, task_not_found, task_event, order_event, create_task_transition,
  create_order_transition, mutable, mutate_tx,
}
use backend_demo.Errand.Store.Moderation.{record_task}
use backend_demo.Errand.Store.Lifecycle.{move_task}

module _ {S : Type 0} (db : Database S) (env : Services) (law : Lawful db) where
  pub task_event-tables :
      (t : Task) (kind key : Text) {s s' : S}
      → Runs (task_event db env t kind key) s tt s'
      → db.tables s' ≡ db.tables s
  unfolding task_event
  task_event-tables t kind key {s} {s'} h =
      elim (write_with_key-Runs env.task_host db.events _ _ _ _ _ s s' h) [
        | inl (e, inserted) ↦ law.insert_ok e s s' inserted
        | inr same ↦ rw same
      ]

  pub order_event-tables :
      (o : Order) (kind key : Text) {s s' : S}
      → Runs (order_event db env o kind key) s tt s'
      → db.tables s' ≡ db.tables s
  unfolding order_event
  order_event-tables o kind key {s} {s'} h =
      elim (write_with_key-Runs env.order_host db.events _ _ _ _ _ s s' h) [
        | inl (e, inserted) ↦ law.insert_ok e s s' inserted
        | inr same ↦ rw same
      ]

  pub found_task :
      (id : ℕ) (s : S) {t : Task}
      → Reads (λ s. map_err task_not_found (db.first_task id s)) s t
      → (db.tables s).tasks id ≡ some t
  found_task id s {t} h =
      law.first_task_ok id s t (map_err-eq-ok task_not_found (db.first_task id s) h.result)

  pub mutate_tx-Runs :
      (id requester version : ℕ) (status : TaskStatus) (change : Task → Tx S Task) {s : S}
      {u : Task} {s' : S}
      → Runs (mutate_tx db id requester version status change) s u s'
      → (t : Task) × ((db.tables s).tasks id ≡ some t)
        × (mutable requester version status t ≡ ok tt)
        × Runs (change t) s u s'
  unfolding mutate_tx
  mutate_tx-Runs id requester version status change {s} h =
      let (t, found, h1) = query-Runs h in
      let (passed, h2) = check-Runs h1 in (t, found_task id s found, passed, h2)

  pub record_task-Runs :
      (t : Task) (kind : Text) {s : S} {u : Task} {s' : S}
      → Runs (record_task db env t kind) s u s'
      → (u ≡ t) × (db.tables s' ≡ put_task t (db.tables s))
  unfolding record_task
  record_task-Runs t kind {s} h =
      let (s1, saved, h1) = exec-Runs h in
      let (s2, wrote, h2) = >>-Runs h1 in
      let (same, last) = pure-Runs h2 in
      (
        same,
        ap db.tables last ∙ task_event-tables t _ _ wrote ∙ law.save_task_ok t s s1 saved.result,
      )

  -- A row of the transitions of a task.
  abbrev pub HasMove : Transition → Task → TaskStatus → TaskStatus → Type 0
  HasMove x t from to = (x.task_id ≡ t.id) × (x.from_status ≡ from) × (x.to_status ≡ to)

  pub logged :
      (t : Task) (from to : TaskStatus) (actor : ℕ) (reason key : Text) (s s' : S)
      → create_task_transition db env t from to actor reason key s ≡ ok s'
      → (x : Transition) × HasMove x t from to × (db.tables s' ≡ log_task x (db.tables s))
  unfolding create_task_transition
  logged t from to actor reason key s s' h =
      (_, (refl, refl, refl), law.create_task_transition_ok _ s s' h)

  abbrev pub HasOrderMove : OrderTransition → Order → Option TradeStatus → TradeStatus → Type 0
  HasOrderMove y o from to = (y.order_id ≡ o.id) × (y.from_status ≡ from) × (y.to_status ≡ to)

  pub order_logged :
      (o : Order) (from : Option TradeStatus) (to : TradeStatus) (actor : ℕ) (reason key : Text)
      (s s' : S)
      → create_order_transition db env o from to actor reason key s ≡ ok s'
      → (y : OrderTransition) × HasOrderMove y o from to
        × (db.tables s' ≡ log_order y (db.tables s))
  unfolding create_order_transition
  order_logged o from to actor reason key s s' h =
      (_, (refl, refl, refl), law.create_order_transition_ok _ s s' h)

  pub move_task-Runs :
      (t : Task) (from : TaskStatus) (actor : ℕ) (word : Text) {s : S} {u : Task} {s' : S}
      → Runs (move_task db env t from actor word) s u s'
      → (x : Transition) × (u ≡ t)
        × HasMove x t from t.status
        × (db.tables s' ≡ log_task x (put_task t (db.tables s)))
  unfolding move_task
  move_task-Runs t from actor word {s} h =
      let (s1, saved, h1) = exec-Runs h in
      let (s2, noted, h2) = exec-Runs h1 in
      let (s3, wrote, h3) = >>-Runs h2 in
      let (same, last) = pure-Runs h3 in
      let (x, move, put) = logged t from t.status actor word _ s1 s2 noted.result in
      (
        x,
        same,
        move,
        ap db.tables last
            ∙ task_event-tables t _ _ wrote
            ∙ put
            ∙ ap (log_task x) (law.save_task_ok t s s1 saved.result),
      )
