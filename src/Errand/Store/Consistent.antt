-- ===== src/Errand/Store/Consistent.antt =====
-- The tables of the errand module agree with each other: tasks with orders, and both logs with the
-- rules for the statuses.
use backend_demo.Prelude.{
  ℕ, Bool, true, false, ◌&&◌, ◌≡◌, ◌≢◌, refl, sym, ◌∙◌, ap, subst, Option, none, some, List, [],
  ◌∷◌, ◌==◌, arith, if◌then◌else◌,
}
use backend_demo.Platform.Text.{Text}
use backend_demo.Platform.Errors.{ok}
use backend_demo.Trade.{Order, OrderTransition, TradeStatus, status_confirmed}
use backend_demo.Trade
use backend_demo.Errand.Task.{Task, Transition}
use backend_demo.Errand.Rule
use backend_demo.Errand.Database.{Tables, put_task, put_order, log_task, log_order}
use backend_demo.Errand.Store.Lifecycle.{acceptable, new_order, accepted}
use backend_demo.Errand.Store.Finish.{Outcome, finishable, finished, closed}
use backend_demo.Errand.Store.Linked.{OrderOk, TaskOk, AllTasksOk, put_task-AllTasksOk, others_keep}
use backend_demo.Errand.Store.Steps.{
  accepted-TaskOk, cancelled-TaskOk, finished-TaskOk, apart, unbound,
}

-- Every recorded move of a task is one of the rules.
abbrev pub is_legal_log : List Transition → Bool
is_legal_log [] = true
is_legal_log (x ∷ log) = Rule.can_transition x.from_status x.to_status && is_legal_log log

-- A new order is confirmed, and every later move is one of the rules.
abbrev pub is_legal_move : Option TradeStatus → TradeStatus → Bool
is_legal_move none status_confirmed = true
is_legal_move none _ = false
is_legal_move (some from) to = Trade.can_transition from to

abbrev pub is_legal_order_log : List OrderTransition → Bool
is_legal_order_log [] = true
is_legal_order_log (y ∷ log) = is_legal_move y.from_status y.to_status && is_legal_order_log log

pub record Consistent (tb : Tables) : Type 0 where
  pub agree : AllTasksOk tb.tasks tb.orders
  pub task_moves : is_legal_log tb.task_log ≡ true
  pub order_moves : is_legal_order_log tb.order_log ≡ true

-- A task is written whose order is its own, and the move is recorded.
pub log_task-Consistent :
    (x : Transition) (tb : Tables)
    → Rule.can_transition x.from_status x.to_status ≡ true
    → Consistent tb
    → Consistent (log_task x tb)
log_task-Consistent x tb legal v = record {
  agree = v.agree;
  task_moves = ground (arith, legal, v.task_moves);
  order_moves = v.order_moves;
}

pub log_order-Consistent :
    (y : OrderTransition) (tb : Tables)
    → is_legal_move y.from_status y.to_status ≡ true
    → Consistent tb
    → Consistent (log_order y tb)
log_order-Consistent y tb legal v = record {
  agree = v.agree;
  task_moves = v.task_moves;
  order_moves = ground (arith, legal, v.order_moves);
}

pub put_task-Consistent :
    (u : Task) (tb : Tables) → TaskOk tb.orders u → Consistent tb → Consistent (put_task u tb)
put_task-Consistent u tb sound v = record {
  agree = put_task-AllTasksOk tb.tasks tb.orders tb.orders u v.agree sound (λ id t ne h keep. keep);
  task_moves = v.task_moves;
  order_moves = v.order_moves;
}

-- A task is written together with an order that no other task is bound to.
pub put_both-Consistent :
    (u : Task) (p : Order) (tb : Tables)
    → TaskOk (λ i. if i == p.id then some p else tb.orders i) u
    → ((id : ℕ) (t : Task) → id ≢ u.id → tb.tasks id ≡ some t → t.trade_order_id ≢ some p.id)
    → Consistent tb
    → Consistent (put_task u (put_order p tb))
put_both-Consistent u p tb sound alone v = record {
  agree =
      put_task-AllTasksOk tb.tasks tb.orders _ u v.agree sound
        (λ id t ne h keep. others_keep tb.orders p t keep (alone id t ne h));
  task_moves = v.task_moves;
  order_moves = v.order_moves;
}

pub accepted-Consistent :
    (tb : Tables) (runner version now : ℕ) (t : Task) (number snapshot key : Text) (p : Order)
    → acceptable runner version now t ≡ ok tt
    → p ≡ record (new_order runner t number snapshot key) { id = p.id }
    → tb.orders p.id ≡ none
    → Consistent tb
    → Consistent (put_task (accepted runner p.id now t) (put_order p tb))
accepted-Consistent tb runner version now t number snapshot key p passed made fresh v =
    put_both-Consistent (accepted runner p.id now t) p tb
      (accepted-TaskOk tb.orders runner version now t number snapshot key p passed made)
      (λ id u ne h. unbound tb.orders u p.id (v.agree.each id u h) fresh) v

pub finished-id : (outcome : Outcome) (now : ℕ) (t : Task) → (finished outcome now t).id ≡ t.id
unfolding finished
finished-id Outcome.completes now t = refl
finished-id Outcome.cancels now t = refl

pub closed-id : (outcome : Outcome) (now : ℕ) (o : Order) → (closed outcome now o).id ≡ o.id
unfolding closed
closed-id Outcome.completes now o = refl
closed-id Outcome.cancels now o = refl

-- A task is finished, with no order.
pub cancelled-Consistent :
    (tb : Tables) (outcome : Outcome) (actor version now id : ℕ) (t : Task)
    → finishable outcome actor version t ≡ ok tt
    → tb.tasks id ≡ some t
    → t.trade_order_id ≡ none
    → Consistent tb
    → Consistent (put_task (finished outcome now t) tb)
cancelled-Consistent tb outcome actor version now id t passed found bare v =
    put_task-Consistent (finished outcome now t) tb
      (cancelled-TaskOk tb.orders outcome actor version now t passed bare (v.agree.each id t found))
      v

-- A task is finished with its order.
pub finished-Consistent :
    (tb : Tables) (outcome : Outcome) (actor version now id : ℕ) (t : Task) (o : Order)
    → finishable outcome actor version t ≡ ok tt
    → tb.tasks id ≡ some t
    → t.trade_order_id ≡ some o.id
    → tb.orders o.id ≡ some o
    → OrderOk t o
    → Consistent tb
    → Consistent (put_task (finished outcome now t) (put_order (closed outcome now o) tb))
finished-Consistent tb outcome actor version now id t o passed found linked there about v =
    let same = closed-id outcome now o in
    put_both-Consistent (finished outcome now t) (closed outcome now o) tb
      (subst
        (λ n.
          TaskOk (λ i. if i == n then some (closed outcome now o) else tb.orders i)
            (finished outcome now t))
        (sym same)
        (finished-TaskOk tb.orders outcome actor version now t o passed linked same about))
      (λ i u ne h e.
        apart tb.orders t u o o.id (v.agree.each i u h) there about
          (λ shared. ne (sym (v.agree.keyed i u h) ∙ sym shared ∙ sym (finished-id outcome now t)))
          (e ∙ ap (λ n. some n) same))
      v
