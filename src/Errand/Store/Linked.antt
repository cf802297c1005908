-- ===== src/Errand/Store/Linked.antt =====
-- A task and the trade order behind it.
use backend_demo.Prelude.{
  ℕ, Bool, true, false, ◌≡◌, ◌≢◌, sym, ◌∙◌, ap, subst, ◌⊎◌, inl, inr, Option, none, some, ◌==◌,
  ==_iff, Bool-cases, arith, if◌then◌else◌,
}
use backend_demo.Trade.{
  Order, TradeStatus, status_confirmed, status_completed, status_cancelled, resource_errand_task,
}
use backend_demo.Errand.Task.{
  Task, TaskStatus, task_open, task_completed, task_cancelled, is_running,
}

-- The status of the order that fits a status of the task.
abbrev pub trade_status_of : TaskStatus → TradeStatus
trade_status_of task_completed = status_completed
trade_status_of task_cancelled = status_cancelled
trade_status_of _ = status_confirmed

-- Is a runner bound to the task, or was one until it was completed?
abbrev pub is_taken : TaskStatus → Bool
is_taken task_completed = true
is_taken s = is_running s

abbrev pub is_some {ℓ} : {A : Type ℓ} → Option A → Bool
is_some none = false
is_some (some _) = true

-- The order is about the task: its parties, its price and its state are those of the task.
pub record OrderOk (t : Task) (o : Order) : Type 0 where
  pub about : o.resource_type ≡ resource_errand_task
  pub resource : o.resource_id ≡ t.id
  pub buyer : o.buyer_id ≡ t.requester_id
  pub seller : t.runner_id ≡ some o.seller_id
  pub amount : o.amount_cents ≡ t.reward_cents
  pub status : o.trade_status ≡ trade_status_of t.status

abbrev pub Orders : Type 0
Orders = ℕ → Option Order

-- An open task has neither runner nor order, a taken one has an order, and the order of a task is
-- about it.
pub record TaskOk (orders : Orders) (t : Task) : Type 0 where
  pub free : t.status ≡ task_open → (t.trade_order_id ≡ none) × (t.runner_id ≡ none)
  pub taken : is_taken t.status ≡ true → is_some t.trade_order_id ≡ true
  pub backed :
      (id : ℕ) → t.trade_order_id ≡ some id → (o : Order) × (orders id ≡ some o) × OrderOk t o

pub record AllTasksOk (tasks : ℕ → Option Task) (orders : Orders) : Type 0 where
  pub keyed : (id : ℕ) (t : Task) → tasks id ≡ some t → t.id ≡ id
  pub each : (id : ℕ) (t : Task) → tasks id ≡ some t → TaskOk orders t

if_true :
    (b : Bool) (u : Task) (o : Option Task) {t : Task}
    → b ≡ true
    → (if b then some u else o) ≡ some t
    → u ≡ t
if_true b u o e h = ground arith

if_false :
    (b : Bool) (u : Task) (o : Option Task) {t : Task}
    → b ≡ false
    → (if b then some u else o) ≡ some t
    → o ≡ some t
if_false b u o e h = ground arith

-- A task is written, and the orders of the others are still theirs.
pub put_task-AllTasksOk :
    (tasks : ℕ → Option Task) (orders orders' : Orders) (u : Task)
    → AllTasksOk tasks orders
    → TaskOk orders' u
    → ((id : ℕ) (t : Task) → id ≢ u.id → tasks id ≡ some t → TaskOk orders t → TaskOk orders' t)
    → AllTasksOk (λ i. if i == u.id then some u else tasks i) orders'
put_task-AllTasksOk tasks orders orders' u all v others = record {
  keyed = λ id t h. elim (Bool-cases (id == u.id)) [
    | inl here ↦
        ap (λ (x : Task). x.id) (sym (if_true (id == u.id) u (tasks id) here h))
        ∙ sym ((==_iff id u.id).0 here)
    | inr elsewhere ↦ all.keyed id t (if_false (id == u.id) u (tasks id) elsewhere h)
  ];
  each = λ id t h. elim (Bool-cases (id == u.id)) [
    | inl here ↦ subst (TaskOk orders') (if_true (id == u.id) u (tasks id) here h) v
    | inr elsewhere ↦
        let there = if_false (id == u.id) u (tasks id) elsewhere h in
        others id t (ground arith) there (all.each id t there)
  ];
}

-- An order is written that no other task is bound to.
pub others_keep :
    (orders : Orders) (p : Order) (t : Task)
    → TaskOk orders t
    → (t.trade_order_id ≢ some p.id)
    → TaskOk (λ i. if i == p.id then some p else orders i) t
others_keep orders p t v apart = record {
  free = v.free;
  taken = v.taken;
  backed = λ id h.
      let (o, there, about) = v.backed id h in
      (o, elsewhere id o h there (Bool-cases (id == p.id)), about);
}
  where
    elsewhere :
        (id : ℕ) (o : Order)
        → t.trade_order_id ≡ some id
        → orders id ≡ some o
        → ((id == p.id) ≡ true) ⊎ ((id == p.id) ≡ false)
        → (if id == p.id then some p else orders id) ≡ some o
    elsewhere id o h there (inl here) =
        absurd (apart (h ∙ ap (λ n. some n) ((==_iff id p.id).0 here)))
    elsewhere id o h there (inr no_) = rw no_ there
