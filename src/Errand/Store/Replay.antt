-- ===== src/Errand/Store/Replay.antt =====
-- An acceptance that is sent again.
use backend_demo.Prelude.{
  subst, ℕ, Bool, true, false, ◌≡◌, ◌++◌, refl, sym, ◌∙◌, ap, inl, inr, none, some, ==_refl, arith,
  if◌then◌else◌,
}
use backend_demo.Platform.Errors.{
  app, fault, Result, ok, err, record_not_found, Runs, query-Runs, transaction, transaction-Runs,
}
use backend_demo.Platform.Text.{Text, codes, decimal, trim}
use backend_demo.Trade.{Order}
use backend_demo.Errand.Task.{Task}
use backend_demo.Errand.Database.{Database, Lawful, holds_key}
use backend_demo.Errand.Store.{Services}
use backend_demo.Errand.Store.Lifecycle.{
  accept, accept_tx, replays, order_key, new_order, accepted, optional_order, valid_key,
}
use backend_demo.Errand.Store.Effects.{found_task}
use backend_demo.Errand.Store.Outcomes.{Accepted, accept_found-Runs}

optional_order-none : (r : Result Order) → optional_order r ≡ ok none → r ≡ err record_not_found
optional_order-none (ok o) h = cc
optional_order-none (err record_not_found) h = refl
optional_order-none (err (app status code)) h = cc
optional_order-none (err (fault n)) h = cc

optional_order-some : (r : Result Order) (o : Order) → optional_order r ≡ ok (some o) → r ≡ ok o
optional_order-some (ok p) o h = cc
optional_order-some (err record_not_found) o h = cc
optional_order-some (err (app status code)) o h = cc
optional_order-some (err (fault n)) o h = cc

replays_order :
    (runner : ℕ) (t : Task) (o : Order) → replays runner t o ≡ true → t.trade_order_id ≡ some o.id
unfolding replays
replays_order runner t o h = ground arith

accepted_order :
    (runner id now : ℕ) (t : Task) → (accepted runner id now t).trade_order_id ≡ some id
unfolding accepted
accepted_order runner id now t = refl

-- The key of an order names the task by its number.
order_key_id : (t u : Task) (key : Text) → t.id ≡ u.id → order_key t key ≡ order_key u key
unfolding order_key
order_key_id t u key same = ap (λ n. codes "errand:" ++ (decimal n ++ (codes ":" ++ trim key))) same

accepted_ids :
    (runner id now : ℕ) (t : Task)
    → ((accepted runner id now t).id ≡ t.id)
      × ((accepted runner id now t).requester_id ≡ t.requester_id)
unfolding accepted
accepted_ids runner id now t = (refl, refl)

new_order-key :
    (runner : ℕ) (t : Task) (number snapshot key : Text) (id : ℕ)
    → let o = record (new_order runner t number snapshot key) { id = id } in
      (o.buyer_id ≡ t.requester_id) × (o.idempotency_key ≡ key)
unfolding new_order
new_order-key runner t number snapshot key id = (refl, refl)

holds_key-same :
    (same_key : Text → Text → Bool) (buyer buyer' : ℕ) (key key' : Text) (o p : Order)
    → buyer ≡ buyer'
    → key ≡ key'
    → o.buyer_id ≡ p.buyer_id
    → o.idempotency_key ≡ p.idempotency_key
    → holds_key same_key buyer key o ≡ holds_key same_key buyer' key' p
holds_key-same same_key buyer buyer' key key' o p b k ob ok_ = rw b (rw k (rw ob (rw ok_ refl)))

module _ {S : Type 0} (db : Database S) (env : Services) (law : Lawful db) where
  -- A task with its order, which holds the key.
  record Bound (id : ℕ) (key : Text) (u : Task) (p : Order) : Type 0 where
    named : u.id ≡ id
    linked : u.trade_order_id ≡ some p.id
    keyed : holds_key law.same_key u.requester_id (order_key u key) p ≡ true

  Accepted-Bound :
      (id runner version now : ℕ) (key : Text) (t : Task) (s : S) (p : Order) (s' : S)
      → (db.tables s).tasks id ≡ some t
      → Accepted db env law runner version now
          (order_key t key)
          t
          s
          (accepted runner p.id now t)
          p
          s'
      → Bound id key (accepted runner p.id now t) p
  Accepted-Bound id runner version now key t s p s' found a =
      let u = accepted runner p.id now t in
      let (number, requester) = accepted_ids runner p.id now t in
      let (buyer, held) = new_order-key runner t a.number a.snapshot (order_key t key) p.id in
      record {
        named = number ∙ law.keyed s id t found;
        linked = accepted_order runner p.id now t;
        keyed = ground (
          arith,
          ap (λ (o : Order). o.buyer_id) a.made ∙ buyer ∙ sym requester,
          ==_refl u.requester_id,
          ap (λ (o : Order). law.same_key o.idempotency_key (order_key u key)) a.made
              ∙ ap (λ k. law.same_key k (order_key u key)) held
              ∙ ap (law.same_key (order_key t key)) (order_key_id u t key number)
              ∙ law.same_key_refl (order_key t key),
        );
      }

  accept_tx-Bound :
      (id runner version : ℕ) (key : Text) (now : ℕ) (fresh_no : Result Text) {s : S}
      {u : Task × Order} {s' : S}
      → Runs (accept_tx db env id runner version key now fresh_no) s u s'
      → Bound id key u.0 u.1
  unfolding accept_tx
  accept_tx-Bound id runner version key now fresh_no {s} {u} {s'} h =
      let (t, present, h1) = query-Runs h in
      let (found, looked, h2) = query-Runs h1 in
      let task = found_task db env law id s present in
      elim (accept_found-Runs db env law runner version (order_key t key) now fresh_no t found h2) [
        | inl (same, matching, same_task, _) ↦
            let order = optional_order-some _ u.1 (looked.result ∙ ap (λ o. ok o) same) in
            subst (λ v. Bound id key v u.1) (sym same_task)
              (record {
                named = law.keyed s id t task;
                linked = replays_order runner t u.1 matching;
                keyed = (law.find_order_ok _ _ s u.1 order).1;
              })
        | inr (_, a) ↦
            subst (λ v. Bound id key v u.1) (sym a.result)
              (Accepted-Bound id runner version now key t s u.1 s' task (
                subst (λ v. Accepted db env law runner version now (order_key t key) t s v u.1 s')
                  a.result a))
      ]

  -- Where such a task and its order are stored, an acceptance under the key finds the order.
  Bound-accept_tx :
      (id runner version : ℕ) (key : Text) (now : ℕ) (fresh_no : Result Text) {s : S} {v : Task}
      {q : Order} {w : Task × Order} {s' : S}
      → Bound id key v q
      → (db.tables s).tasks id ≡ some v
      → (db.tables s).orders q.id ≡ some q
      → Runs (accept_tx db env id runner version key now fresh_no) s w s'
      → (w ≡ (v, q)) × (s' ≡ s)
  unfolding accept_tx
  Bound-accept_tx id runner version key now fresh_no {s} {v} {q} {w} {s'} b task order h =
      let (t, present, h1) = query-Runs h in
      let (found, looked, h2) = query-Runs h1 in
      let same : t ≡ v = cc (found_task db env law id s present, task) in
      elim (accept_found-Runs db env law runner version (order_key t key) now fresh_no t found h2) [
        | inl (same_order, matching, same_task, same_state) ↦
            let taken = optional_order-some _ w.1 (looked.result ∙ ap (λ o. ok o) same_order) in
            let stored = (law.find_order_ok _ _ s w.1 taken).0 in
            let link = replays_order runner t w.1 matching in
            ((λ i. ((same_task ∙ same) i, agree t w.1 same link stored i)), same_state)
        | inr (fresh, _) ↦
            let missing =
              subst
                (λ (x : Task).
                  db.find_order x.requester_id (order_key x key) s ≡ err record_not_found)
                same (optional_order-none _ (looked.result ∙ ap (λ o. ok o) fresh)) in
            cc (b.keyed, law.find_order_missing _ _ s q.id q missing order)
      ]
    where
      agree :
          (t : Task) (o : Order)
          → t ≡ v
          → t.trade_order_id ≡ some o.id
          → (db.tables s).orders o.id ≡ some o
          → o ≡ q
      agree t o same link stored = cc (same, link, stored, b.linked, order)

  accept-Runs :
      (id runner version : ℕ) (key : Text) (now : ℕ) (fresh_no : Result Text) (s : S)
      {u : Task × Order}
      → (accept db env id runner version key now fresh_no s).0 ≡ ok u
      → Runs
          (accept_tx db env id runner version key now fresh_no)
          s
          u
          (accept db env id runner version key now fresh_no s).1
  unfolding accept
  accept-Runs id runner version key now fresh_no s {u} h = if_allowed (valid_key key) h
    where
      if_allowed :
          (b : Bool)
          → (if b
              then transaction (accept_tx db env id runner version key now fresh_no) s
              else (err (app 400 "invalid_idempotency_key"), s)).0
            ≡ ok u
          → Runs
              (accept_tx db env id runner version key now fresh_no)
              s
              u
              (if b
                then transaction (accept_tx db env id runner version key now fresh_no) s
                else (err (app 400 "invalid_idempotency_key"), s)).1
      if_allowed true h = transaction-Runs _ s h
      if_allowed false h = cc

  -- After an acceptance succeeded, in every state in which the task has still its requester and its
  -- order, and the order its buyer and its key, whatever else has changed, an acceptance of the
  -- task under the same key, by anybody, at any time and with any version, can only return the task
  -- and the order as they are then, and changes nothing.
  pub accept-repeated :
      (id runner version : ℕ) (key : Text) (now : ℕ) (fresh_no : Result Text)
      (runner' version' now' : ℕ) (fresh_no' : Result Text) (s later : S) (v : Task) (q : Order)
      {u w : Task × Order}
      → (accept db env id runner version key now fresh_no s).0 ≡ ok u
      → (db.tables later).tasks id ≡ some v
      → (db.tables later).orders u.1.id ≡ some q
      → v.requester_id ≡ u.0.requester_id
      → v.trade_order_id ≡ u.0.trade_order_id
      → q.buyer_id ≡ u.1.buyer_id
      → q.idempotency_key ≡ u.1.idempotency_key
      → (accept db env id runner' version' key now' fresh_no' later).0 ≡ ok w
      → (w ≡ (v, q)) × ((accept db env id runner' version' key now' fresh_no' later).1 ≡ later)
  accept-repeated id runner version key now fresh_no runner' version' now' fresh_no' s later v q {u}
        first task order requester link buyer held second =
      let b =
        accept_tx-Bound id runner version key now fresh_no
          (accept-Runs id runner version key now fresh_no s first) in
      let number = law.ordered later u.1.id q order in
      let named = law.keyed later id v task in
      let kept : Bound id key v q = record {
        named = named;
        linked = link ∙ b.linked ∙ ap (λ n. some n) (sym number);
        keyed =
            holds_key-same law.same_key _ _ _ _ q u.1 requester
              (order_key_id v u.0 key (named ∙ sym b.named)) buyer held
            ∙ b.keyed;
      } in
      Bound-accept_tx id runner' version' key now' fresh_no' kept task
        (ap (db.tables later).orders number ∙ order)
        (accept-Runs id runner' version' key now' fresh_no' later second)
