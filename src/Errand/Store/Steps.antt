-- ===== src/Errand/Store/Steps.antt =====
-- Each change of a task keeps the tasks and the orders in agreement.
use backend_demo.Prelude.{
  ℕ, true, ◌≡◌, ◌≢◌, refl, sym, ◌∙◌, ap, none, some, arith, ◌==◌, ==_refl, if◌then◌else◌,
}
use backend_demo.Platform.Errors.{ok}
use backend_demo.Platform.Text.{Text}
use backend_demo.Trade.{Order, TradeStatus, status_confirmed, status_completed, status_cancelled}
use backend_demo.Trade
use backend_demo.Errand.Task.{Task, task_open, task_accepted, task_picked_up, task_delivered}
use backend_demo.Errand.Rule.{can_transition}
use backend_demo.Errand.Store.{mutable}
use backend_demo.Errand.Store.Lifecycle.{acceptable, new_order, accepted, advanced}
use backend_demo.Errand.Store.Finish.{
  Outcome, completes, cancels, target, trade_target, finishable, finished, closed,
}
use backend_demo.Errand.Store.Linked.{OrderOk, Orders, TaskOk, is_some}

-- A change of an open task that leaves it open and its runner and order alone.
pub record Reworded (t u : Task) : Type 0 where
  pub open_before : t.status ≡ task_open
  pub open_after : u.status ≡ task_open
  pub same_order : u.trade_order_id ≡ t.trade_order_id
  pub same_runner : u.runner_id ≡ t.runner_id

pub Reworded-TaskOk :
    (orders : Orders) (t u : Task) → Reworded t u → TaskOk orders t → TaskOk orders u
Reworded-TaskOk orders t u r v = record {
  free = λ _. (r.same_order ∙ (v.free r.open_before).0, r.same_runner ∙ (v.free r.open_before).1);
  taken = λ h. ground arith;
  backed = λ id h. cc (r.same_order, (v.free r.open_before).0);
}

-- The order of a task that moves on, with the same parties and to a status that the order fits.
moved-TaskOk :
    (orders : Orders) (t u : Task)
    → TaskOk orders t
    → (u.status ≢ task_open)
    → (is_some u.trade_order_id ≡ true)
    → (u.trade_order_id ≡ t.trade_order_id)
    → ((o : Order) → OrderOk t o → OrderOk u o)
    → TaskOk orders u
moved-TaskOk orders t u v closed_ linked same keep = record {
  free = λ h. absurd (closed_ h);
  taken = λ h. linked;
  backed = λ id h. let (o, there, about) = v.backed id (sym same ∙ h) in (o, there, keep o about);
}

pub picked_up-TaskOk :
    (orders : Orders) (requester version now : ℕ) (t : Task)
    → mutable requester version task_accepted t ≡ ok tt
    → TaskOk orders t
    → TaskOk orders (advanced task_picked_up now t)
unfolding advanced mutable
picked_up-TaskOk orders requester version now t passed v =
    moved-TaskOk orders t _ v (λ h. cc (h)) (ground (arith, v.taken)) refl (λ o about. ground arith)

pub delivered-TaskOk :
    (orders : Orders) (requester version now : ℕ) (t : Task)
    → mutable requester version task_picked_up t ≡ ok tt
    → TaskOk orders t
    → TaskOk orders (advanced task_delivered now t)
unfolding advanced mutable
delivered-TaskOk orders requester version now t passed v =
    moved-TaskOk orders t _ v (λ h. cc (h)) (ground (arith, v.taken)) refl (λ o about. ground arith)

-- The order that an acceptance creates is about the accepted task.
pub accepted-TaskOk :
    (orders : Orders) (runner version now : ℕ) (t : Task) (number snapshot key : Text) (p : Order)
    → acceptable runner version now t ≡ ok tt
    → p ≡ record (new_order runner t number snapshot key) { id = p.id }
    → TaskOk (λ i. if i == p.id then some p else orders i) (accepted runner p.id now t)
unfolding acceptable new_order accepted
accepted-TaskOk orders runner version now t number snapshot key p passed made = record {
  free = λ h. cc (h);
  taken = λ h. refl;
  backed = λ id h. (
    p,
    ground arith,
    record {
      about = ap (λ (x : Order). x.resource_type) made;
      resource = ap (λ (x : Order). x.resource_id) made;
      buyer = ap (λ (x : Order). x.buyer_id) made;
      seller = ap (λ (x : Order). some x.seller_id) (sym made);
      amount = ap (λ (x : Order). x.amount_cents) made;
      status = ap (λ (x : Order). x.trade_status) made;
    },
  );
}

-- The order that is closed with its task.
pub finished-OrderOk :
    (outcome : Outcome) (actor version now : ℕ) (t : Task) (o : Order)
    → finishable outcome actor version t ≡ ok tt
    → OrderOk t o
    → OrderOk (finished outcome now t) (closed outcome now o)
unfolding finishable finished closed
finished-OrderOk completes actor version now t o passed v = ground arith
finished-OrderOk cancels actor version now t o passed v = ground arith

-- The move of the task, and of the order, is one that the rules allow.
pub finished-can_transition :
    (outcome : Outcome) (actor version : ℕ) (t : Task)
    → finishable outcome actor version t ≡ ok tt
    → (can_transition t.status (target outcome) ≡ true)
      × ((o : Order)
          → OrderOk t o
          → Trade.can_transition o.trade_status (trade_target outcome) ≡ true)
unfolding finishable can_transition Trade.can_transition
finished-can_transition completes actor version t passed = (ground arith, λ o v. ground arith)
finished-can_transition cancels actor version t passed = (ground arith, λ o v. ground arith)

-- A task without an order is cancelled.
pub cancelled-TaskOk :
    (orders : Orders) (outcome : Outcome) (actor version now : ℕ) (t : Task)
    → finishable outcome actor version t ≡ ok tt
    → t.trade_order_id ≡ none
    → TaskOk orders t
    → TaskOk orders (finished outcome now t)
unfolding finishable finished
cancelled-TaskOk orders completes actor version now t passed bare v =
    absurd (ground (arith, v.taken, bare))
cancelled-TaskOk orders cancels actor version now t passed bare v = record {
  free = λ h. cc (h);
  taken = λ h. cc (h);
  backed = λ id h. cc (h, bare);
}

finished-linked :
    (outcome : Outcome) (now : ℕ) (t : Task) (id : ℕ)
    → t.trade_order_id ≡ some id
    → ((finished outcome now t).status ≢ task_open)
      × ((finished outcome now t).trade_order_id ≡ some id)
unfolding finished
finished-linked completes now t id h = (λ e. cc (e), h)
finished-linked cancels now t id h = (λ e. cc (e), h)

-- A task is finished with its order.
pub finished-TaskOk :
    (orders : Orders) (outcome : Outcome) (actor version now : ℕ) (t : Task) (o : Order)
    → finishable outcome actor version t ≡ ok tt
    → t.trade_order_id ≡ some o.id
    → (closed outcome now o).id ≡ o.id
    → OrderOk t o
    → TaskOk
        (λ i. if i == o.id then some (closed outcome now o) else orders i)
        (finished outcome now t)
finished-TaskOk orders outcome actor version now t o passed linked same about =
    let (moved, link) = finished-linked outcome now t o.id linked in
    record {
      free = λ h. absurd (moved h);
      taken = λ h. rw link refl;
      backed = λ id h. (
        closed outcome now o,
        ground (arith, link, ==_refl id),
        finished-OrderOk outcome actor version now t o passed about,
      );
    }

-- Two tasks do not share an order.
pub apart :
    (orders : Orders) (t u : Task) (o : Order) (id : ℕ)
    → TaskOk orders u
    → orders id ≡ some o
    → OrderOk t o
    → t.id ≢ u.id
    → u.trade_order_id ≢ some id
apart orders t u o id v there about ne h =
    let (o', there', about') = v.backed id h in
    ne (cc (there, there', about.resource, about'.resource))

-- No task is bound to an order that is not there.
pub unbound :
    (orders : Orders) (u : Task) (id : ℕ)
    → TaskOk orders u
    → orders id ≡ none
    → u.trade_order_id ≢ some id
unbound orders u id v missing h = let (o, there, _) = v.backed id h in cc (there, missing)
