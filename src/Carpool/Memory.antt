-- ===== src/Carpool/Memory.antt =====
-- A database of carpool trips in memory. It shows that the laws of `Database` can hold, and runs
-- the examples.
use backend_demo.Prelude.{
  ℕ, zero, suc, ◌<◌, ◌≡◌, ◌≢◌, refl, sym, subst, ap, ◌∙◌, Bool, true, false, ◌&&◌, Option, none,
  some, List, [], ◌∷◌, length, any, ltb, ◌==◌, if◌then◌else◌, arith,
}
use backend_demo.Platform.Errors.{fault, record_not_found, Result, ok, err}
use backend_demo.Carpool.Trip.{Trip, Participant}
use backend_demo.Carpool.Database.{
  Database, Lawful, Tables, find_participant, put_row, put_trip, joined, is_due,
}

pub record Memory : Type 0 where
  pub rows : List Trip
  pub participants : List Participant
  pub next : ℕ

abbrev pub find : ℕ → List Trip → Option Trip
find id [] = none
find id (t ∷ ts) = if id == t.id then some t else find id ts

abbrev pub write : Trip → List Trip → List Trip
write u [] = u ∷ []
write u (t ∷ ts) = if t.id == u.id then u ∷ ts else t ∷ write u ts

abbrev found {ℓ} : {A : Type ℓ} → Option A → Result A
found none = err record_not_found
found (some a) = ok a

abbrev is_none : Option Trip → Bool
is_none none = true
is_none (some _) = false

abbrev due_rows : ℕ → List Trip → List Trip
due_rows now [] = []
due_rows now (t ∷ ts) = if is_due now t then t ∷ due_rows now ts else due_rows now ts

abbrev take {ℓ} : {A : Type ℓ} → ℕ → List A → List A
take zero xs = []
take (suc n) [] = []
take (suc n) (x ∷ xs) = x ∷ take n xs

abbrev view : Memory → Tables
view m = record { trips = λ i. find i m.rows; participants = m.participants }

abbrev pub memory : Database Memory
memory = record {
  tables = view;
  first_trip = λ id m. found (find id m.rows);
  first_participant = λ trip user m. found (find_participant trip user m.participants);
  create_trip = λ t m.
      let u = record t { id = m.next } in
      if not_used m
      then ok (u, record m { rows = write u m.rows; next = suc m.next })
      else err (fault 9);
  save_trip = λ t m. ok (record m { rows = write t m.rows });
  create_participant = λ p m. ok (record m { participants = put_row p m.participants });
  save_participant = λ p m. ok (record m { participants = put_row p m.participants });
  due_trips = λ now limit m. ok (take limit (due_rows now m.rows));
  events = record { insert = λ e m. ok m; take = λ k m. err record_not_found };
}
  where
    not_used : Memory → Bool
    not_used m =
        ltb 0 m.next && (is_none (find m.next m.rows) && (joined m.next m.participants == 0))

find-id : (id : ℕ) (ts : List Trip) {u : Trip} → find id ts ≡ some u → u.id ≡ id
find-id id [] h = cc
find-id id (t ∷ ts) {u} h = ground (arith, find-id id ts {u = u})

find-write :
    (u : Trip) (ts : List Trip) (i : ℕ)
    → find i (write u ts) ≡ (if i == u.id then some u else find i ts)
find-write u [] i = refl
find-write u (t ∷ ts) i = ground (arith, find-write u ts i)

take-all : (n : ℕ) (ts : List Trip) → length (take n ts) < n → take n ts ≡ ts
take-all zero ts h = absurd (omega arith)
take-all (suc n) [] h = refl
take-all (suc n) (t ∷ ts) h = ap (λ (x : List Trip). t ∷ x) (take-all n ts (omega arith))

any-due_rows :
    (now id : ℕ) (ts : List Trip) {t : Trip}
    → find id ts ≡ some t
    → is_due now t ≡ true
    → any (λ row. row.id == id) (due_rows now ts) ≡ true
any-due_rows now id [] h d = cc
any-due_rows now id (u ∷ ts) {t} h d = ground (arith, any-due_rows now id ts {t = t})

view-write :
    (u : Trip) (m m' : Memory)
    → m'.rows ≡ write u m.rows
    → m'.participants ≡ m.participants
    → view m' ≡ put_trip u (view m)
view-write u m m' r p i = record {
  trips = λ j. (ap (find j) r ∙ find-write u m.rows j) i;
  participants = p i;
}

found-ok {ℓ} : {A : Type ℓ} (o : Option A) {a : A} → found o ≡ ok a → o ≡ some a
found-ok none h = cc
found-ok (some a) h = cc

found-missing {ℓ} : {A : Type ℓ} (o : Option A) → found o ≡ err record_not_found → o ≡ none
found-missing none h = refl
found-missing (some a) h = cc

create_memory :
    (t u : Trip) (m m' : Memory)
    → memory.create_trip t m ≡ ok (u, m')
    → (u ≡ record t { id = u.id })
      × (u.id ≢ 0)
      × ((view m).trips u.id ≡ none)
      × (joined u.id m.participants ≡ 0)
      × (m'.rows ≡ write u m.rows)
      × (m'.participants ≡ m.participants)
create_memory t u m m' h = ground arith

stored : (m m' : Memory) → ◌≡◌ {A = Result Memory} (ok m) (ok m') → m' ≡ m
stored m m' h = cc

listed : (ts us : List Trip) → ◌≡◌ {A = Result (List Trip)} (ok ts) (ok us) → ts ≡ us
listed ts us h = cc

pub memory-Lawful : Lawful memory
memory-Lawful = record {
  keyed = λ m id t h. find-id id m.rows h;
  first_trip_ok = λ id m t h. found-ok (find id m.rows) h;
  first_participant_ok = λ trip user m p h. found-ok (find_participant trip user m.participants) h;
  first_participant_missing =
      λ trip user m h. found-missing (find_participant trip user m.participants) h;
  create_trip_id = λ t u m m' h.
      let (named, nonzero, fresh, alone, rows, same) = create_memory t u m m' h in
      (named, nonzero, fresh, alone, view-write u m m' rows same);
  save_trip_ok = λ t m m' h.
      view-write t m m' (ap (λ x. x.rows) (stored _ m' h))
        (ap (λ x. x.participants) (stored _ m' h));
  create_participant_ok = λ p m m' h. ap view (stored _ m' h);
  save_participant_ok = λ p m m' h. ap view (stored _ m' h);
  due_trips_all = λ now limit m rows id t h few there due.
      subst (λ x. any (λ row. row.id == id) x ≡ true)
        (sym (
            take-all limit (due_rows now m.rows)
              (subst (λ x. length x < limit) (sym (listed _ rows h)) few))
          ∙ listed _ rows h)
        (any-due_rows now id m.rows there due);
  insert_ok = λ e m m' h. ap view (stored m m' h);
}
