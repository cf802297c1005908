-- ===== src/Errand/Manager/Moves.antt =====
-- The runner's steps, an acceptance and the end of a task leave tables that agree.
use backend_demo.Prelude.{ℕ, true, ◌≡◌, refl, sym, ◌∙◌, ap, subst, inl, inr, Option, some}
use backend_demo.Platform.Errors.{Result, ok, Runs, guard-Runs}
use backend_demo.Platform.Text.{Text}
use backend_demo.Trade.{Order}
use backend_demo.Errand.Task.{Task, TaskStatus, task_accepted, task_picked_up, task_delivered}
use backend_demo.Errand.Rule.{can_transition}
use backend_demo.Errand.Database.{Database, Lawful, Tables, put_task, put_order, log_order}
use backend_demo.Errand.Store.{Services, mutable}
use backend_demo.Errand.Store.Lifecycle.{advanced, runner_tx, accept_tx, order_key}
use backend_demo.Errand.Store.Finish.{Outcome, finishable, finished, closed, finish_tx}
use backend_demo.Errand.Store.Linked.{TaskOk, OrderOk}
use backend_demo.Errand.Store.Steps.{picked_up-TaskOk, delivered-TaskOk, finished-can_transition}
use backend_demo.Errand.Store.Effects.{mutate_tx-Runs, move_task-Runs}
use backend_demo.Errand.Store.Outcomes.{Accepted, Closed, accept_tx-Runs, finish_tx-Runs}
use backend_demo.Errand.Store.Consistent.{
  Consistent, is_legal_move, log_task-Consistent, log_order-Consistent, put_task-Consistent,
  accepted-Consistent, cancelled-Consistent, finished-Consistent,
}
use backend_demo.Errand.Manager.Effects.{Sound}

-- A step of the runner: which statuses it joins, and that the task stays sound.
pub record Step (from to : TaskStatus) : Type 0 where
  pub legal : can_transition from to ≡ true
  pub keeps :
      (orders : ℕ → Option Order) (version now : ℕ) (t : Task)
      → mutable 0 version from t ≡ ok tt
      → TaskOk orders t
      → TaskOk orders (advanced to now t)
  pub reaches : (now : ℕ) (t : Task) → (advanced to now t).status ≡ to

pub picks_up-Step : Step task_accepted task_picked_up
unfolding can_transition advanced
picks_up-Step = record {
  legal = refl;
  keeps = λ orders version now t. picked_up-TaskOk orders 0 version now t;
  reaches = λ now t. refl;
}

pub delivers-Step : Step task_picked_up task_delivered
unfolding can_transition advanced
delivers-Step = record {
  legal = refl;
  keeps = λ orders version now t. delivered-TaskOk orders 0 version now t;
  reaches = λ now t. refl;
}

module _ {S : Type 0} (db : Database S) (env : Services) (law : Lawful db) where
  pub runner_tx-Sound :
      (id runner version : ℕ) (from to : TaskStatus) (now : ℕ) (word : Text) {s s' : S} {u : Task}
      → Step from to
      → Runs (runner_tx db env id runner version from to now word) s u s'
      → Sound db env law s
      → Sound db env law s'
  unfolding runner_tx
  runner_tx-Sound id runner version from to now word {s} {s'} step h v =
      let (t, found, passed, h1) = mutate_tx-Runs db env law id 0 version from _ h in
      let (_, h2) = guard-Runs _ h1 in
      let (x, _, (_, moved_from, moved_to), put) =
        move_task-Runs db env law (advanced to now t) from runner word h2 in
      subst Consistent (sym put) (
        log_task-Consistent x (put_task (advanced to now t) (db.tables s))
          (ap (λ a. can_transition a x.to_status) moved_from
            ∙ ap (can_transition from) (moved_to ∙ step.reaches now t)
            ∙ step.legal)
          (put_task-Consistent (advanced to now t) (db.tables s)
            (step.keeps (db.tables s).orders version now t passed (v.agree.each id t found)) v))

  Accepted-Sound :
      (runner version now : ℕ) (key : Text) (t u : Task) (p : Order) (s s' : S)
      → Accepted db env law runner version now key t s u p s'
      → Sound db env law s
      → Sound db env law s'
  unfolding can_transition
  Accepted-Sound runner version now key t u p s s' a v =
      let (_, task_from, task_to) = a.moved in
      let (_, order_from, order_to) = a.order_moved in
      subst Consistent (sym a.put) (
        log_task-Consistent a.move _ (rw task_from (rw task_to refl)) (
          log_order-Consistent a.order_move _ (rw order_from (rw order_to refl)) (
            subst (λ w. Consistent (put_task w (put_order p (db.tables s)))) (sym a.result)
              (accepted-Consistent (db.tables s) runner version now t a.number a.snapshot key p
                a.passed a.made a.fresh v))))

  pub accept_tx-Sound :
      (id runner version : ℕ) (key : Text) (now : ℕ) (fresh_no : Result Text) {s s' : S}
      {u : Task × Order}
      → Runs (accept_tx db env id runner version key now fresh_no) s u s'
      → Sound db env law s
      → Sound db env law s'
  accept_tx-Sound id runner version key now fresh_no {s} {s'} {u} h v =
      let (t, found, outcome) = accept_tx-Runs db env law id runner version key now fresh_no h in
      elim outcome [
        | inl (_, _, same) ↦ subst (Sound db env law) (sym same) v
        | inr made ↦ Accepted-Sound runner version now (order_key t key) t u.0 u.1 s s' made v
      ]

  -- The tables after a task and its order are finished, in the order of the statements.
  Closed-Sound :
      (outcome : Outcome) (actor version now id : ℕ) (t : Task) (i : ℕ) (s s1 s2 : S)
      → finishable outcome actor version t ≡ ok tt
      → (db.tables s).tasks id ≡ some t
      → t.trade_order_id ≡ some i
      → db.tables s1 ≡ put_task (finished outcome now t) (db.tables s)
      → Closed db env law outcome now i s1 s2
      → Sound db env law s
      → Sound db env law s2
  Closed-Sound outcome actor version now id t i s s1 s2 passed found linked saved c v =
      let o = c.order in
      let (o', there', about') = (v.agree.each id t found).backed i linked in
      let there : (db.tables s).orders i ≡ some o =
        ap (λ (tb : Tables). tb.orders i) (sym saved) ∙ c.there in
      let same : o' ≡ o = cc (there, there') in
      let about : OrderOk t o = subst (OrderOk t) same about' in
      let number : o.id ≡ i = law.ordered s i o there in
      let (_, from, to) = c.order_moved in
      let both : Consistent
          (put_order (closed outcome now o) (put_task (finished outcome now t) (db.tables s))) =
        finished-Consistent (db.tables s) outcome actor version now id t o passed found
          (linked ∙ ap (λ n. some n) (sym number)) (ap (db.tables s).orders number ∙ there) about
          v in
      subst Consistent
        (sym
          (c.put ∙ ap (λ tb. log_order c.order_move (put_order (closed outcome now o) tb)) saved))
        (log_order-Consistent c.order_move _
          (ap (λ a. is_legal_move a c.order_move.to_status) from
            ∙ ap (is_legal_move (some o.trade_status)) to
            ∙ (finished-can_transition outcome actor version t passed).1 o about)
          both)

  pub finish_tx-Sound :
      (outcome : Outcome) (id actor version now : ℕ) {s s' : S} {u : Task × Option Order}
      → Runs (finish_tx db env outcome id actor version now) s u s'
      → Sound db env law s
      → Sound db env law s'
  finish_tx-Sound outcome id actor version now {s} {s'} h v =
      let (t, found, f) = finish_tx-Runs db env law outcome id actor version now h in
      let (_, from, to) = f.moved in
      let after : Consistent (db.tables f.after) = elim f.order [
        | inl (bare, same) ↦ subst Consistent (sym (ap db.tables same ∙ f.between_put)) (
            cancelled-Consistent (db.tables s) outcome actor version now id t f.passed found bare v)
        | inr (i, linked, c) ↦
            Closed-Sound outcome actor version now id t i s f.between f.after f.passed found linked
              f.between_put c v
      ] in
      subst Consistent (sym f.put) (
        log_task-Consistent f.move (db.tables f.after)
          (ap (λ a. can_transition a f.move.to_status) from
            ∙ ap (can_transition t.status) to
            ∙ (finished-can_transition outcome actor version t f.passed).0)
          after)
