-- ===== src/Errand/Memory.antt =====
-- Tasks and orders in memory. It shows that the laws of `Database` can hold, and runs the examples.
use backend_demo.Prelude.{
  ℕ, suc, ◌≡◌, ◌⊎◌, inl, inr, refl, sym, subst, ap, ◌∙◌, Bool, true, false, Option, none, some,
  List, [], ◌∷◌, ◌==◌, if◌then◌else◌, arith,
}
use backend_demo.Platform.Errors.{fault, record_not_found, Result, ok, err}
use backend_demo.Platform.Text.{text_eq, text_eq_refl, Text}
use backend_demo.Trade.{Order, OrderTransition}
use backend_demo.Errand.Task.{Task, Transition}
use backend_demo.Errand.Database.{Database, Lawful, Tables, put_task, put_order, holds_key}

module _ {A : Type 0} where
  abbrev pub find : ℕ → List (A) → (A → ℕ) → Option A
  find id [] num = none
  find id (t ∷ ts) num = if id == num t then some t else find id ts num

  abbrev pub write : A → List A → (A → ℕ) → List A
  write u [] num = u ∷ []
  write u (t ∷ ts) num = if num t == num u then u ∷ ts else t ∷ write u ts num

  abbrev found : Option A → Result A
  found none = err record_not_found
  found (some a) = ok a

  abbrev is_none : Option A → Bool
  is_none none = true
  is_none (some _) = false

  find-num : (id : ℕ) (ts : List A) (num : A → ℕ) {u : A} → find id ts num ≡ some u → num u ≡ id
  find-num id [] num h = cc
  find-num id (t ∷ ts) num {u} h = ground (arith, find-num id ts num {u = u})

  find-write :
      (u : A) (ts : List A) (num : A → ℕ) (i : ℕ)
      → find i (write u ts num) num ≡ (if i == num u then some u else find i ts num)
  find-write u [] num i = refl
  find-write u (t ∷ ts) num i = ground (arith, find-write u ts num i)

  found-ok : (o : Option A) {a : A} → found o ≡ ok a → o ≡ some a
  found-ok none h = cc
  found-ok (some a) h = cc

  found-missing : (o : Option A) → found o ≡ err record_not_found → o ≡ none
  found-missing none h = refl
  found-missing (some a) h = cc

abbrev task_id : Task → ℕ
task_id t = t.id

abbrev order_id : Order → ℕ
order_id o = o.id

pub record Memory : Type 0 where
  pub tasks : List Task
  pub orders : List Order
  pub task_log : List Transition
  pub order_log : List OrderTransition
  pub next : ℕ

abbrev pick : ℕ → Text → Option Order → Option Order → Option Order
pick buyer key none rest = rest
pick buyer key (some p) rest = if holds_key text_eq buyer key p then some p else rest

-- The current row of the first order that holds the key.
abbrev search_in : List Order → ℕ → Text → List Order → Option Order
search_in all buyer key [] = none
search_in all buyer key (o ∷ os) =
    pick buyer key (find o.id all order_id) (search_in all buyer key os)

abbrev has_order : ℕ → Task → Bool
has_order id t = elim t.trade_order_id [ none ↦ false | some i ↦ i == id ]

abbrev by_order : ℕ → List Task → Option Task
by_order id [] = none
by_order id (t ∷ ts) = if has_order id t then some t else by_order id ts

abbrev pick_where : (Task → Bool) → Option Task → Option Task → Option Task
pick_where test none rest = rest
pick_where test (some t) rest = if test t then some t else rest

-- The current row of the first task that meets the test. Rows are in the order of their numbers.
abbrev search_where : List Task → (Task → Bool) → List Task → Option Task
search_where all test [] = none
search_where all test (t ∷ ts) = pick_where test (find t.id all task_id) (search_where all test ts)

abbrev view : Memory → Tables
view m = record {
  tasks = λ i. find i m.tasks task_id;
  orders = λ i. find i m.orders order_id;
  task_log = m.task_log;
  order_log = m.order_log;
}

abbrev pub memory : Database Memory
memory = record {
  tables = view;
  first_task = λ id m. found (find id m.tasks task_id);
  task_by_order = λ id m. found (by_order id m.tasks);
  task_where = λ test m. found (search_where m.tasks test m.tasks);
  create_task = λ t m.
      let u = record t { id = m.next } in
      if is_none (find m.next m.tasks task_id)
      then ok (u, record m { tasks = write u m.tasks task_id; next = suc m.next })
      else err (fault 9);
  save_task = λ t m. ok (record m { tasks = write t m.tasks task_id });
  first_order = λ id m. found (find id m.orders order_id);
  find_order = λ buyer key m. found (search_in m.orders buyer key m.orders);
  create_order = λ o m.
      let p = record o { id = m.next } in
      if is_none (find m.next m.orders order_id)
      then ok (p, record m { orders = write p m.orders order_id; next = suc m.next })
      else err (fault 9);
  save_order = λ o m. ok (record m { orders = write o m.orders order_id });
  create_task_transition = λ x m. ok (record m { task_log = x ∷ m.task_log });
  create_order_transition = λ y m. ok (record m { order_log = y ∷ m.order_log });
  events = record { insert = λ e m. ok m; take = λ k m. err record_not_found };
}

kept_cases :
    {A : Type 0} (b : Bool) (u : A) (rest : Option A) {t : A}
    → (if b then some u else rest) ≡ some t
    → ((b ≡ true) × (u ≡ t)) ⊎ (rest ≡ some t)
kept_cases true u rest h = inl (refl, cc (h))
kept_cases false u rest h = inr h

pick-some :
    (buyer : ℕ) (key : Text) (q rest : Option Order) {o : Order}
    → pick buyer key q rest ≡ some o
    → ((q ≡ some o) × (holds_key text_eq buyer key o ≡ true)) ⊎ (rest ≡ some o)
pick-some buyer key none rest h = inr h
pick-some buyer key (some p) rest h = elim (kept_cases (holds_key text_eq buyer key p) p rest h) [
  | inl (holds, same) ↦
      inl (ap (λ x. some x) same, subst (λ x. holds_key text_eq buyer key x ≡ true) same holds)
  | inr later ↦ inr later
]

-- The row that is searched is one of the table, and holds the key.
search_in-find :
    (all : List Order) (buyer : ℕ) (key : Text) (os : List Order) {o : Order}
    → search_in all buyer key os ≡ some o
    → (find o.id all order_id ≡ some o) × (holds_key text_eq buyer key o ≡ true)
search_in-find all buyer key [] h = cc
search_in-find all buyer key (x ∷ os) {o} h =
    elim (pick-some buyer key (find x.id all order_id) (search_in all buyer key os) h) [
      | inl (first, holds) ↦ (
        subst (λ n. find n all order_id ≡ some o) (sym (find-num x.id all order_id first)) first,
        holds,
      )
      | inr later ↦ search_in-find all buyer key os later
    ]

search_in-none :
    (all : List Order) (buyer : ℕ) (key : Text) (os : List Order) (id : ℕ) {o p : Order}
    → search_in all buyer key os ≡ none
    → find id all order_id ≡ some o
    → find id os order_id ≡ some p
    → holds_key text_eq buyer key o ≡ false
search_in-none all buyer key [] id h there present = cc
search_in-none all buyer key (x ∷ os) id {o} {p} h there present =
    ground (arith, search_in-none all buyer key os id {o = o} {p = p})

pick_where-some :
    (test : Task → Bool) (q rest : Option Task) {t : Task}
    → pick_where test q rest ≡ some t
    → ((q ≡ some t) × (test t ≡ true)) ⊎ (rest ≡ some t)
pick_where-some test none rest h = inr h
pick_where-some test (some u) rest h = elim (kept_cases (test u) u rest h) [
  | inl (meets, same) ↦ inl (ap (λ x. some x) same, subst (λ x. test x ≡ true) same meets)
  | inr later ↦ inr later
]

search_where-find :
    (all : List Task) (test : Task → Bool) (ts : List Task) {t : Task}
    → search_where all test ts ≡ some t
    → (find t.id all task_id ≡ some t) × (test t ≡ true)
search_where-find all test [] h = cc
search_where-find all test (x ∷ ts) {t} h =
    elim (pick_where-some test (find x.id all task_id) (search_where all test ts) h) [
      | inl (first, meets) ↦ (
        subst (λ n. find n all task_id ≡ some t) (sym (find-num x.id all task_id first)) first,
        meets,
      )
      | inr later ↦ search_where-find all test ts later
    ]

put_tasks :
    (u : Task) (m m' : Memory)
    → m' ≡ record m { tasks = write u m.tasks task_id; next = m'.next }
    → view m' ≡ put_task u (view m)
put_tasks u m m' e =
    ap view e ∙ (λ i. record (view m) { tasks = λ j. find-write u m.tasks task_id j i })

put_orders :
    (p : Order) (m m' : Memory)
    → m' ≡ record m { orders = write p m.orders order_id; next = m'.next }
    → view m' ≡ put_order p (view m)
put_orders p m m' e =
    ap view e ∙ (λ i. record (view m) { orders = λ j. find-write p m.orders order_id j i })

stored : (m m' : Memory) → ◌≡◌ {A = Result Memory} (ok m) (ok m') → m' ≡ m
stored m m' h = cc

create_task_memory :
    (t u : Task) (m m' : Memory)
    → memory.create_task t m ≡ ok (u, m')
    → (u ≡ record t { id = u.id })
      × ((view m).tasks u.id ≡ none)
      × (m' ≡ record m { tasks = write u m.tasks task_id; next = m'.next })
create_task_memory t u m m' h = ground arith

create_order_memory :
    (o p : Order) (m m' : Memory)
    → memory.create_order o m ≡ ok (p, m')
    → (p ≡ record o { id = p.id })
      × ((view m).orders p.id ≡ none)
      × (m' ≡ record m { orders = write p m.orders order_id; next = m'.next })
create_order_memory o p m m' h = ground arith

pub memory-Lawful : Lawful memory
memory-Lawful = record {
  same_key = text_eq;
  same_key_refl = text_eq_refl;
  keyed = λ m id t h. find-num id m.tasks task_id h;
  first_task_ok = λ id m t h. found-ok (find id m.tasks task_id) h;
  task_where_ok = λ test m t h.
      search_where-find m.tasks test m.tasks (found-ok (search_where m.tasks test m.tasks) h);
  create_task_ok = λ t u m m' h.
      let (named, fresh, rest) = create_task_memory t u m m' h in
      (named, fresh, put_tasks u m m' rest);
  save_task_ok = λ t m m' h. put_tasks t m m' (
      subst (λ x. x ≡ record m { tasks = write t m.tasks task_id; next = x.next })
        (sym (stored _ m' h)) refl);
  first_order_ok = λ id m o h. found-ok (find id m.orders order_id) h;
  ordered = λ m id o h. find-num id m.orders order_id h;
  find_order_ok = λ buyer key m o h.
      search_in-find m.orders buyer key m.orders
        (found-ok (search_in m.orders buyer key m.orders) h);
  find_order_missing = λ buyer key m id o h there.
      search_in-none m.orders buyer key m.orders id
        (found-missing (search_in m.orders buyer key m.orders) h) there there;
  create_order_ok = λ o p m m' h.
      let (named, fresh, rest) = create_order_memory o p m m' h in
      (named, fresh, put_orders p m m' rest);
  save_order_ok = λ o m m' h. put_orders o m m' (
      subst (λ x. x ≡ record m { orders = write o m.orders order_id; next = x.next })
        (sym (stored _ m' h)) refl);
  create_task_transition_ok = λ x m m' h. ap view (stored _ m' h);
  create_order_transition_ok = λ y m m' h. ap view (stored _ m' h);
  insert_ok = λ e m m' h. ap view (stored m m' h);
}
