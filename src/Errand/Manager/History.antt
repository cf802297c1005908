-- ===== src/Errand/Manager/History.antt =====
-- The tables of the errand module agree after every history of calls on the manager.
use backend_demo.Prelude.{ℕ, List, [], ◌∷◌, ◌==◌, Bool-cases, inl, inr}
use backend_demo.Platform.Errors.{
  Result, ok, err, Tx, Runs, transaction, transaction-Runs, transaction_keeps,
}
use backend_demo.Platform.Text.{Text}
use backend_demo.Trade.{Order}
use backend_demo.Errand.Task.{Task}
use backend_demo.Errand.Rule.{
  Verdict, valid, invalid, validate_task_input, validate_task_update_input,
}
use backend_demo.Errand.Database.{Database, Lawful}
use backend_demo.Errand.Store.{Services}
use backend_demo.Errand.Store
use backend_demo.Errand.Store.Moderation.{submit_review, review, revoke_review}
use backend_demo.Errand.Store.Moderation
use backend_demo.Errand.Store.Lifecycle.{accept, pickup, deliver, valid_key}
use backend_demo.Errand.Store.Finish.{Outcome, finish, finish_order, finish_order_found}
use backend_demo.Errand.Store.Consistent.{Consistent}
use backend_demo.Errand.Manager.{if_valid, create, update}
use backend_demo.Errand.Manager.Calls.{
  Call, creates, updates, submits, reviews, revokes, accepts, picks_up, delivers, finishes,
  finishes_order, perform, history,
}
use backend_demo.Errand.Manager.Effects.{
  Sound, submit_review_tx-Sound, review_tx-Sound, revoke_review_tx-Sound, update_tx-Sound,
  create_tx-Sound,
}
use backend_demo.Errand.Manager.Moves.{
  picks_up-Step, delivers-Step, runner_tx-Sound, accept_tx-Sound, finish_tx-Sound,
}

module _ {S : Type 0} (db : Database S) (env : Services) (law : Lawful db) where
  transaction-Sound :
      {A : Type 0} (m : Tx S A) (s : S)
      → ((u : A) (s' : S) → Runs m s u s' → Sound db env law s → Sound db env law s')
      → Sound db env law s
      → Sound db env law (transaction m s).1
  transaction-Sound m s keeps v =
      transaction_keeps (Sound db env law) m s v (λ a h. keeps a _ (transaction-Runs m s h) v)

  if_valid-Sound :
      (verdict : Verdict) (m : S → Result Task × S) (s : S)
      → Sound db env law s
      → Sound db env law (m s).1
      → Sound db env law (if_valid verdict m s).1
  if_valid-Sound valid m s v kept = kept
  if_valid-Sound (invalid reason) m s v kept = v

  accept-Sound :
      (id runner version : ℕ) (key : Text) (now : ℕ) (fresh_no : Result Text) (s : S)
      → Sound db env law s
      → Sound db env law (accept db env id runner version key now fresh_no s).1
  unfolding accept
  accept-Sound id runner version key now fresh_no s v = elim (Bool-cases (valid_key key)) [
    | inl allowed ↦ rw allowed (
        transaction-Sound _ s (λ _ _. accept_tx-Sound db env law id runner version key now fresh_no)
          v)
    | inr no_ ↦ rw no_ v
  ]

  finish-Sound :
      (outcome : Outcome) (id actor version now : ℕ) (s : S)
      → Sound db env law s
      → Sound db env law (finish db env outcome id actor version now s).1
  unfolding finish
  finish-Sound outcome id actor version now s v =
      transaction-Sound _ s (λ _ _. finish_tx-Sound db env law outcome id actor version now) v

  finish_order_found-Sound :
      (outcome : Outcome) (actor version now : ℕ) (task : Result Task) (order : Result Order)
      (s : S)
      → Sound db env law s
      → Sound db env law (finish_order_found db env outcome actor version now task order s).1
  finish_order_found-Sound outcome actor version now (err e) order s v = v
  finish_order_found-Sound outcome actor version now (ok task) (err e) s v = v
  finish_order_found-Sound outcome actor version now (ok task) (ok order) s v =
      elim (Bool-cases (order.version == version)) [
        | inl same ↦ rw same (finish-Sound outcome task.id actor task.version now s v)
        | inr stale ↦ rw stale v
      ]

  -- One call, at any time and with any arguments, leaves tables that agree.
  perform-Sound :
      (now : ℕ) (call : Call) (s : S)
      → Sound db env law s
      → Sound db env law (perform db env now call s)
  unfolding perform create update Store.create Moderation.update submit_review review revoke_review
      pickup deliver finish_order
  perform-Sound now (creates requester input) s v =
      if_valid-Sound (validate_task_input input now) (Store.create db env requester input) s v
        (transaction-Sound _ s (λ _ _. create_tx-Sound db env law requester input) v)
  perform-Sound now (updates id requester version input) s v =
      if_valid-Sound (validate_task_update_input input now)
        (Moderation.update db env id requester version input) s v
        (transaction-Sound _ s (λ _ _. update_tx-Sound db env law id requester version input) v)
  perform-Sound now (submits id requester version) s v =
      transaction-Sound _ s (λ _ _. submit_review_tx-Sound db env law id requester version) v
  perform-Sound now (reviews id admin version approved reason) s v =
      transaction-Sound _ s (λ _ _. review_tx-Sound db env law id admin version approved reason now)
        v
  perform-Sound now (revokes id admin version reason) s v =
      transaction-Sound _ s (λ _ _. revoke_review_tx-Sound db env law id admin version reason now) v
  perform-Sound now (accepts id runner version key fresh_no) s v =
      accept-Sound id runner version key now fresh_no s v
  perform-Sound now (picks_up id runner version) s v =
      transaction-Sound _ s
        (λ _ _. runner_tx-Sound db env law id runner version _ _ now _ picks_up-Step) v
  perform-Sound now (delivers id runner version) s v =
      transaction-Sound _ s
        (λ _ _. runner_tx-Sound db env law id runner version _ _ now _ delivers-Step) v
  perform-Sound now (finishes outcome id actor version) s v =
      finish-Sound outcome id actor version now s v
  perform-Sound now (finishes_order outcome id actor version) s v =
      finish_order_found-Sound outcome actor version now _ _ s v

  -- Tables that agree still agree after every history of calls: each task has the order that its
  -- status asks for, with its parties, price and state, and both logs hold only moves of the rules.
  pub history-Consistent :
      (calls : List (ℕ × Call)) (s : S)
      → Consistent (db.tables s)
      → Consistent (db.tables (history db env calls s))
  unfolding history
  history-Consistent [] s v = v
  history-Consistent ((now, call) ∷ calls) s v =
      history-Consistent calls (perform db env now call s) (perform-Sound now call s v)
