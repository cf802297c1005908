-- ===== src/Errand/Store/Outcomes.antt =====
-- What an acceptance and a completion or cancellation leave in the tables when they succeed.
use backend_demo.Prelude.{ap, ℕ, true, ◌≡◌, refl, ◌∙◌, ◌⊎◌, inl, inr, Option, none, some}
use backend_demo.Platform.Errors.{
  Result, ok, Runs, pure-Runs, >>-Runs, >>=-Runs, guard-Runs, query-Runs, exec-Runs, lift-Runs,
  check-Runs,
}
use backend_demo.Platform.Text.{Text}
use backend_demo.Trade.{Order, OrderTransition, status_confirmed}
use backend_demo.Errand.Task.{Task, Transition, task_open, task_accepted}
use backend_demo.Errand.Database.{Database, Lawful, put_task, put_order, log_task, log_order}
use backend_demo.Errand.Store.{Services}
use backend_demo.Errand.Store.Lifecycle.{
  acceptable, new_order, accepted, accept_new, accept_found, accept_tx, replays, order_key,
}
use backend_demo.Errand.Store.Finish.{
  Outcome, target, trade_target, finishable, finished, closed, close_order, close_linked, finish_tx,
}
use backend_demo.Errand.Store.Effects.{
  task_event-tables, order_event-tables, found_task, HasMove, logged, HasOrderMove, order_logged,
}

module _ {S : Type 0} (db : Database S) (env : Services) (law : Lawful db) where
  -- A new acceptance creates the order, binds the task to it and records both moves.
  pub record Accepted (runner version now : ℕ) (key : Text) (t : Task) (s : S) (u : Task)
      (p : Order) (s' : S) : Type 0 where
    pub passed : acceptable runner version now t ≡ ok tt
    pub number : Text
    pub snapshot : Text
    pub made : p ≡ record (new_order runner t number snapshot key) { id = p.id }
    pub fresh : (db.tables s).orders p.id ≡ none
    pub result : u ≡ accepted runner p.id now t
    pub move : Transition
    pub moved : HasMove db env law move u task_open task_accepted
    pub order_move : OrderTransition
    pub order_moved : HasOrderMove db env law order_move p none status_confirmed
    pub put :
        db.tables s' ≡ log_task move (log_order order_move (put_task u (put_order p (db.tables s))))

  pub accept_new-Runs :
      (runner version : ℕ) (key : Text) (now : ℕ) (fresh_no : Result Text) (t : Task) {s : S}
      {u : Task × Order} {s' : S}
      → Runs (accept_new db env runner version key now fresh_no t) s u s'
      → Accepted runner version now key t s u.0 u.1 s'
  unfolding accept_new
  accept_new-Runs runner version key now fresh_no t {s} {u} {s'} h =
      let (passed, h1) = check-Runs h in
      let (snapshot, _, h2) = lift-Runs h1 in
      let (number, _, h3) = lift-Runs h2 in
      let (p, s1, created, h4) = >>=-Runs h3 in
      let (s2, saved, h5) = exec-Runs h4 in
      let (s3, noted_order, h6) = exec-Runs h5 in
      let (s4, noted, h7) = exec-Runs h6 in
      let (s5, wrote_order, h8) = >>-Runs h7 in
      let (s6, wrote, h9) = >>-Runs h8 in
      let (same, last) = pure-Runs h9 in
      let (made, fresh, put) = law.create_order_ok _ p s s1 created.result in
      let v = accepted runner p.id now t in
      let (y, order_moved, y_put) =
        order_logged db env law p none status_confirmed runner _ _ s2 s3 noted_order.result in
      let (x, moved, x_put) =
        logged db env law v task_open task_accepted runner _ _ s3 s4 noted.result in
      let all : db.tables s' ≡ log_task x (log_order y (put_task v (put_order p (db.tables s)))) =
        ap db.tables last
        ∙ task_event-tables db env law v _ _ wrote
        ∙ order_event-tables db env law p _ _ wrote_order
        ∙ x_put
        ∙ ap (log_task x) (
            y_put
            ∙ ap (log_order y) (law.save_task_ok v s1 s2 saved.result ∙ ap (put_task v) put)) in
      rw same (record {
        passed = passed;
        number = number;
        snapshot = snapshot;
        made = made;
        fresh = fresh;
        result = refl;
        move = x;
        moved = moved;
        order_move = y;
        order_moved = order_moved;
        put = all;
      })

  pub accept_found-Runs :
      (runner version : ℕ) (key : Text) (now : ℕ) (fresh_no : Result Text) (t : Task)
      (found : Option Order) {s : S} {u : Task × Order} {s' : S}
      → Runs (accept_found db env runner version key now fresh_no t found) s u s'
      → ((found ≡ some u.1) × (replays runner t u.1 ≡ true) × (u.0 ≡ t) × (s' ≡ s))
        ⊎ ((found ≡ none) × Accepted runner version now key t s u.0 u.1 s')
  unfolding accept_found
  accept_found-Runs runner version key now fresh_no t none h =
      inr (refl, accept_new-Runs runner version key now fresh_no t h)
  accept_found-Runs runner version key now fresh_no t (some o) {s} {u} h =
      let (matching, h1) = guard-Runs _ h in
      let (same, last) = pure-Runs h1 in
      inl (rw same refl, rw same matching, ap (λ (x : Task × Order). x.0) same, last)

  -- An acceptance finds the task, and either its own earlier order, when nothing changes, or none.
  pub accept_tx-Runs :
      (id runner version : ℕ) (key : Text) (now : ℕ) (fresh_no : Result Text) {s : S}
      {u : Task × Order} {s' : S}
      → Runs (accept_tx db env id runner version key now fresh_no) s u s'
      → (t : Task) × ((db.tables s).tasks id ≡ some t)
        × (((replays runner t u.1 ≡ true) × (u.0 ≡ t) × (s' ≡ s))
            ⊎ Accepted runner version now (order_key t key) t s u.0 u.1 s')
  unfolding accept_tx
  accept_tx-Runs id runner version key now fresh_no {s} h =
      let (t, present, h1) = query-Runs h in
      let (found, _, h2) = query-Runs h1 in
      (
        t,
        found_task db env law id s present,
        elim (accept_found-Runs runner version (order_key t key) now fresh_no t found h2) [
          | inl (_, matching, same, last) ↦ inl (matching, same, last)
          | inr (_, made) ↦ inr made
        ],
      )

  -- The order that is closed with its task, and the row of its move.
  pub record Closed (outcome : Outcome) (now id : ℕ) (s s' : S) : Type 0 where
    pub order : Order
    pub there : (db.tables s).orders id ≡ some order
    pub order_move : OrderTransition
    pub order_moved :
        HasOrderMove db env law order_move
          (closed outcome now order)
          (some order.trade_status)
          (trade_target outcome)
    pub put :
        db.tables s' ≡ log_order order_move (put_order (closed outcome now order) (db.tables s))

  close_order-Runs :
      (outcome : Outcome) (actor now id : ℕ) {s : S} {u : Option Order} {s' : S}
      → Runs (close_order db env outcome actor now id) s u s'
      → Closed outcome now id s s'
  unfolding close_order
  close_order-Runs outcome actor now id {s} {u} {s'} h =
      let (o, found, h1) = query-Runs h in
      let (s1, saved, h2) = exec-Runs h1 in
      let (s2, noted, h3) = exec-Runs h2 in
      let (s3, wrote, h4) = >>-Runs h3 in
      let (_, last) = pure-Runs h4 in
      let o' = closed outcome now o in
      let (y, moved, put) =
        order_logged db env law o' (some o.trade_status) (trade_target outcome) actor _ _ s1 s2
          noted.result in
      let all : db.tables s' ≡ log_order y (put_order o' (db.tables s)) =
        ap db.tables last
        ∙ order_event-tables db env law o' _ _ wrote
        ∙ put
        ∙ ap (log_order y) (law.save_order_ok o' s s1 saved.result) in
      record {
        order = o;
        there = law.first_order_ok id s o found.result;
        order_move = y;
        order_moved = moved;
        put = all;
      }

  close_linked-Runs :
      (outcome : Outcome) (actor now : ℕ) (link : Option ℕ) {s : S} {u : Option Order} {s' : S}
      → Runs (close_linked db env outcome actor now link) s u s'
      → ((link ≡ none) × (s' ≡ s)) ⊎ ((id : ℕ) × (link ≡ some id) × Closed outcome now id s s')
  unfolding close_linked
  close_linked-Runs outcome actor now none h = inl (refl, (pure-Runs h).1)
  close_linked-Runs outcome actor now (some id) h =
      inr (id, refl, close_order-Runs outcome actor now id h)

  -- The end of a task: the state between is that after the task is saved.
  pub record Finished (outcome : Outcome) (actor version now : ℕ) (t : Task) (s : S) (u : Task)
      (s' : S) : Type 0 where
    pub passed : finishable outcome actor version t ≡ ok tt
    pub result : u ≡ finished outcome now t
    pub between : S
    pub between_put : db.tables between ≡ put_task (finished outcome now t) (db.tables s)
    pub after : S
    pub order :
        ((t.trade_order_id ≡ none) × (after ≡ between))
        ⊎ ((id : ℕ) × (t.trade_order_id ≡ some id) × Closed outcome now id between after)
    pub move : Transition
    pub moved : HasMove db env law move (finished outcome now t) t.status (target outcome)
    pub put : db.tables s' ≡ log_task move (db.tables after)

  pub finish_tx-Runs :
      (outcome : Outcome) (id actor version now : ℕ) {s : S} {u : Task × Option Order} {s' : S}
      → Runs (finish_tx db env outcome id actor version now) s u s'
      → (t : Task) × ((db.tables s).tasks id ≡ some t)
        × Finished outcome actor version now t s u.0 s'
  unfolding finish_tx
  finish_tx-Runs outcome id actor version now {s} {u} {s'} h =
      let (t, present, h1) = query-Runs h in
      let (passed, h2) = check-Runs h1 in
      let (s1, saved, h3) = exec-Runs h2 in
      let (o, s2, settled, h4) = >>=-Runs h3 in
      let (s3, noted, h5) = exec-Runs h4 in
      let (s4, wrote, h6) = >>-Runs h5 in
      let (same, last) = pure-Runs h6 in
      let t' = finished outcome now t in
      let (x, moved, put) =
        logged db env law t' t.status (target outcome) actor _ _ s2 s3 noted.result in
      let all : db.tables s' ≡ log_task x (db.tables s2) =
        ap db.tables last ∙ task_event-tables db env law t' _ _ wrote ∙ put in
      (
        t,
        found_task db env law id s present,
        record {
          passed = passed;
          result = ap (λ (p : Task × Option Order). p.0) same;
          between = s1;
          between_put = law.save_task_ok t' s s1 saved.result;
          after = s2;
          order = close_linked-Runs outcome actor now t.trade_order_id settled;
          move = x;
          moved = moved;
          put = all;
        },
      )
