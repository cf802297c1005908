-- ===== src/Errand/Database.antt =====
-- The statements that the errand store sends to the database, as an interface: what each returns,
-- and what a read sees after a write. Every statement may fail with an error of its own. Rows are
-- locked for update, so transactions on one task run one after the other.
use backend_demo.Prelude.{
  true, ℕ, ◌≡◌, Bool, false, ◌&&◌, Option, none, some, List, ◌∷◌, ◌==◌, if◌then◌else◌,
}
use backend_demo.Platform.Errors.{record_not_found, Result, ok, err}
use backend_demo.Platform.Text.{Text}
use backend_demo.Platform.Events.{Event, EventTable}
use backend_demo.Trade.{Order, OrderTransition}
use backend_demo.Errand.Task.{Task, Transition}

-- What `errand_tasks`, `trade_orders` and the two tables of transitions hold, the newest
-- transition first.
pub record Tables : Type 0 where
  pub tasks : ℕ → Option Task
  pub orders : ℕ → Option Order
  pub task_log : List Transition
  pub order_log : List OrderTransition

abbrev pub put_task : Task → Tables → Tables
put_task t tb = record tb { tasks = λ i. if i == t.id then some t else tb.tasks i }

abbrev pub put_order : Order → Tables → Tables
put_order o tb = record tb { orders = λ i. if i == o.id then some o else tb.orders i }

abbrev pub log_task : Transition → Tables → Tables
log_task x tb = record tb { task_log = x ∷ tb.task_log }

abbrev pub log_order : OrderTransition → Tables → Tables
log_order x tb = record tb { order_log = x ∷ tb.order_log }

-- Is the order the one of this buyer under this key, as keys are compared?
abbrev pub holds_key : (Text → Text → Bool) → ℕ → Text → Order → Bool
holds_key same_key buyer key o = (o.buyer_id == buyer) && same_key o.idempotency_key key

pub record Database (S : Type 0) : Type 0 where
  pub tables : S → Tables
  pub first_task : ℕ → S → Result Task
  pub task_by_order : ℕ → S → Result Task
  pub task_where : (Task → Bool) → S → Result Task
  pub create_task : Task → S → Result (Task × S)
  pub save_task : Task → S → Result S
  pub first_order : ℕ → S → Result Order
  pub find_order : ℕ → Text → S → Result Order
  pub create_order : Order → S → Result (Order × S)
  pub save_order : Order → S → Result S
  pub create_task_transition : Transition → S → Result S
  pub create_order_transition : OrderTransition → S → Result S
  pub events : EventTable S

-- `task_where` is `First` under a condition: the row with the lowest number that meets it.  The
-- documented behaviour: `id` is the primary key, a statement that reports success has done its
-- work, a read that finds no row says so, and a new row takes an unused number. `same_key` is the
-- comparison of keys by the collation of their column, which need not tell apart letters by case
-- and accents.
pub record Lawful {S : Type 0} (db : Database S) : Type 0 where
  pub same_key : Text → Text → Bool
  pub same_key_refl : (key : Text) → same_key key key ≡ true
  pub keyed : (s : S) (id : ℕ) (t : Task) → (db.tables s).tasks id ≡ some t → t.id ≡ id
  pub first_task_ok :
      (id : ℕ) (s : S) (t : Task) → db.first_task id s ≡ ok t → (db.tables s).tasks id ≡ some t
  pub task_where_ok :
      (test : Task → Bool) (s : S) (t : Task)
      → db.task_where test s ≡ ok t
      → ((db.tables s).tasks t.id ≡ some t) × (test t ≡ true)
  pub create_task_ok :
      (t u : Task) (s s' : S)
      → db.create_task t s ≡ ok (u, s')
      → (u ≡ record t { id = u.id })
        × ((db.tables s).tasks u.id ≡ none)
        × (db.tables s' ≡ put_task u (db.tables s))
  pub save_task_ok :
      (t : Task) (s s' : S) → db.save_task t s ≡ ok s' → db.tables s' ≡ put_task t (db.tables s)
  pub first_order_ok :
      (id : ℕ) (s : S) (o : Order) → db.first_order id s ≡ ok o → (db.tables s).orders id ≡ some o
  pub ordered : (s : S) (id : ℕ) (o : Order) → (db.tables s).orders id ≡ some o → o.id ≡ id
  pub find_order_ok :
      (buyer : ℕ) (key : Text) (s : S) (o : Order)
      → db.find_order buyer key s ≡ ok o
      → ((db.tables s).orders o.id ≡ some o) × (holds_key same_key buyer key o ≡ true)
  pub find_order_missing :
      (buyer : ℕ) (key : Text) (s : S) (id : ℕ) (o : Order)
      → db.find_order buyer key s ≡ err record_not_found
      → (db.tables s).orders id ≡ some o
      → holds_key same_key buyer key o ≡ false
  pub create_order_ok :
      (o p : Order) (s s' : S)
      → db.create_order o s ≡ ok (p, s')
      → (p ≡ record o { id = p.id })
        × ((db.tables s).orders p.id ≡ none)
        × (db.tables s' ≡ put_order p (db.tables s))
  pub save_order_ok :
      (o : Order) (s s' : S) → db.save_order o s ≡ ok s' → db.tables s' ≡ put_order o (db.tables s)
  pub create_task_transition_ok :
      (x : Transition) (s s' : S)
      → db.create_task_transition x s ≡ ok s'
      → db.tables s' ≡ log_task x (db.tables s)
  pub create_order_transition_ok :
      (x : OrderTransition) (s s' : S)
      → db.create_order_transition x s ≡ ok s'
      → db.tables s' ≡ log_order x (db.tables s)
  pub insert_ok : (e : Event) (s s' : S) → db.events.insert e s ≡ ok s' → db.tables s' ≡ db.tables s
