-- ===== src/Activity/Memory.antt =====
-- A database of activities in memory. It shows that the laws of `Database` can hold, and runs the
-- examples.
use backend_demo.Prelude.{
  ℕ, suc, ◌≡◌, ◌≢◌, refl, ap, ◌∙◌, true, false, Option, none, some, List, ◌==◌, ==_iff, Bool-cases,
  inl, inr, if◌then◌else◌, arith,
}
use backend_demo.Platform.Errors.{fault, record_not_found, Result, ok, err}
use backend_demo.Platform.Text.{Text, text_eq, text_eq_refl}
use backend_demo.Activity.Entry.{Activity, Registration, is_active}
use backend_demo.Activity.Database.{
  Database, Lawful, Tables, find_registration, put_row, put_activity, registered,
}

pub record Memory : Type 0 where
  pub rows : ℕ → Option Activity
  pub registrations : List Registration
  pub next : ℕ

-- Rows carry their key.
abbrev named : ℕ → Option Activity → Option Activity
named i none = none
named i (some a) = some (record a { id = i })

abbrev write : Activity → (ℕ → Option Activity) → ℕ → Option Activity
write a rows i = if i == a.id then some a else rows i

abbrev found {ℓ} : {A : Type ℓ} → Option A → Result A
found none = err record_not_found
found (some a) = ok a

abbrev with_key : Text → Option Registration → Result Registration
with_key key none = err record_not_found
with_key key (some r) = if text_eq r.idempotency_key key then ok r else err record_not_found

abbrev active_rows : Option Registration → ℕ
active_rows none = 0
active_rows (some r) = if is_active r.status then 1 else 0

abbrev view : Memory → Tables
view m = record { activities = λ i. named i (m.rows i); registrations = m.registrations }

abbrev pub memory : Database Memory
memory = record {
  tables = view;
  first_activity = λ id m. found (named id (m.rows id));
  first_registration = λ activity user m. found (find_registration activity user m.registrations);
  registration_by_key =
      λ activity user key m. with_key key (find_registration activity user m.registrations);
  count_active =
      λ activity user m. ok (active_rows (find_registration activity user m.registrations));
  create_activity = λ a m.
      let b = record a { id = m.next } in
      if registered m.next m.registrations == 0
      then ok (b, record m { rows = write b m.rows; next = suc m.next })
      else err (fault 9);
  save_activity = λ a m. ok (record m { rows = write a m.rows });
  create_registration = λ r m.
      let q = record r { id = suc m.next } in
      ok (q, record m { registrations = put_row q m.registrations });
  save_registration = λ r m. ok (record m { registrations = put_row r m.registrations });
  events = record { insert = λ e m. ok m; take = λ k m. err record_not_found };
}

named-keyed : (id : ℕ) (o : Option Activity) {a : Activity} → named id o ≡ some a → a.id ≡ id
named-keyed id none h = cc
named-keyed id (some b) h = ground arith

named-write :
    (a : Activity) (rows : ℕ → Option Activity) (i : ℕ)
    → named i (write a rows i) ≡ (if i == a.id then some a else named i (rows i))
named-write a rows i = elim (Bool-cases (i == a.id)) [
  | inl here ↦ rw here (ap (λ (n : ℕ). some (record a { id = n })) ((==_iff i a.id).0 here))
  | inr elsewhere ↦ rw elsewhere refl
]

view-write :
    (a : Activity) (m m' : Memory)
    → m'.rows ≡ write a m.rows
    → m'.registrations ≡ m.registrations
    → view m' ≡ put_activity a (view m)
view-write a m m' r p i = record {
  activities = λ j. (ap (λ (f : ℕ → Option Activity). named j (f j)) r ∙ named-write a m.rows j) i;
  registrations = p i;
}

found-ok {ℓ} : {A : Type ℓ} (o : Option A) {a : A} → found o ≡ ok a → o ≡ some a
found-ok none h = cc
found-ok (some a) h = cc

found-missing {ℓ} : {A : Type ℓ} (o : Option A) → found o ≡ err record_not_found → o ≡ none
found-missing none h = refl
found-missing (some a) h = cc

with_key-ok :
    (key : Text) (o : Option Registration) {r : Registration}
    → with_key key o ≡ ok r
    → (o ≡ some r) × (text_eq r.idempotency_key key ≡ true)
with_key-ok key none h = cc
with_key-ok key (some q) h = ground arith

with_key-missing :
    (key : Text) (o : Option Registration) {r : Registration}
    → with_key key o ≡ err record_not_found
    → o ≡ some r
    → text_eq r.idempotency_key key ≡ false
with_key-missing key none h e = cc
with_key-missing key (some q) h e = ground arith

counted :
    (o : Option Registration) (n : ℕ)
    → ◌≡◌ {A = Result ℕ} (ok (active_rows o)) (ok n)
    → n ≢ 0
    → (r : Registration) × (o ≡ some r) × (is_active r.status ≡ true)
counted none n h some_row = absurd (ground arith)
counted (some r) n h some_row = (r, refl, ground arith)

created :
    (a b : Activity) (m m' : Memory)
    → memory.create_activity a m ≡ ok (b, m')
    → (b ≡ record a { id = b.id })
      × (registered b.id m.registrations ≡ 0)
      × (m'.rows ≡ write b m.rows)
      × (m'.registrations ≡ m.registrations)
created a b m m' h = ground arith

enlisted :
    (r q : Registration) (m m' : Memory)
    → memory.create_registration r m ≡ ok (q, m')
    → (q ≡ record r { id = q.id }) × (m' ≡ record m { registrations = put_row q m.registrations })
enlisted r q m m' h = ground arith

stored : (m m' : Memory) → ◌≡◌ {A = Result Memory} (ok m) (ok m') → m' ≡ m
stored m m' h = cc

pub memory-Lawful : Lawful memory
memory-Lawful = record {
  same_key = text_eq;
  same_key_refl = text_eq_refl;
  keyed = λ m id a h. named-keyed id (m.rows id) h;
  first_activity_ok = λ id m a h. found-ok (named id (m.rows id)) h;
  first_registration_ok =
      λ activity user m r h. found-ok (find_registration activity user m.registrations) h;
  first_registration_missing =
      λ activity user m h. found-missing (find_registration activity user m.registrations) h;
  registration_by_key_ok = λ activity user key m r h.
      with_key-ok key (find_registration activity user m.registrations) h;
  registration_by_key_missing = λ activity user key m r h e.
      with_key-missing key (find_registration activity user m.registrations) h e;
  count_active_ok =
      λ activity user n m h. counted (find_registration activity user m.registrations) n h;
  create_activity_ok = λ a b m m' h.
      let (made, alone, rows, same) = created a b m m' h in
      (made, alone, view-write b m m' rows same);
  save_activity_ok = λ a m m' h.
      view-write a m m' (ap (λ (x : Memory). x.rows) (stored _ m' h))
        (ap (λ (x : Memory). x.registrations) (stored _ m' h));
  create_registration_ok =
      λ r q m m' h. let (made, put) = enlisted r q m m' h in (made, ap view put);
  save_registration_ok = λ r m m' h. ap view (stored _ m' h);
  insert_ok = λ e m m' h. ap view (stored m m' h);
}
