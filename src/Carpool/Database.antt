-- ===== src/Carpool/Database.antt =====
-- The statements that the carpool store sends to the database, as an interface: what each returns,
-- and what a read sees after a write. Every statement may fail with an error of its own. Rows are
-- locked for update, so transactions on one trip run one after the other.
use backend_demo.Prelude.{
  ℕ, suc, ◌≡◌, ◌≢◌, ◌<◌, Bool, ◌&&◌, ◌||◌, true, Option, none, some, List, [], ◌∷◌, length, any,
  leb, ◌==◌, if◌then◌else◌,
}
use backend_demo.Platform.Errors.{record_not_found, Result, ok, err}
use backend_demo.Platform.Events.{Event, EventTable}
use backend_demo.Carpool.Trip.{Trip, Participant, is_open, is_full, is_joined}

-- What the tables `carpool_trips` and `carpool_participants` hold.
pub record Tables : Type 0 where
  pub trips : ℕ → Option Trip
  pub participants : List Participant

abbrev pub matches : ℕ → ℕ → Participant → Bool
matches trip user p = (p.trip_id == trip) && (p.user_id == user)

abbrev pub find_participant : ℕ → ℕ → List Participant → Option Participant
find_participant trip user [] = none
find_participant trip user (p ∷ ps) =
    if matches trip user p then some p else find_participant trip user ps

-- A row with the same trip and user is written over: the pair is a unique key.
abbrev pub put_row : Participant → List Participant → List Participant
put_row q [] = q ∷ []
put_row q (p ∷ ps) = if matches q.trip_id q.user_id p then q ∷ ps else p ∷ put_row q ps

abbrev pub put_trip : Trip → Tables → Tables
put_trip t tb = record tb { trips = λ i. if i == t.id then some t else tb.trips i }

abbrev pub put_participant : Participant → Tables → Tables
put_participant q tb = record tb { participants = put_row q tb.participants }

-- How many users hold a seat on a trip.
abbrev pub holds : ℕ → Participant → Bool
holds trip p = (p.trip_id == trip) && is_joined p.status

abbrev pub joined : ℕ → List Participant → ℕ
joined trip [] = 0
joined trip (p ∷ ps) = let rest = joined trip ps in if holds trip p then suc rest else rest

-- `status IN (open, full) AND departure_at <= now`.
abbrev pub is_due : ℕ → Trip → Bool
is_due now t = (is_open t.status || is_full t.status) && leb t.departure_at now

pub record Database (S : Type 0) : Type 0 where
  pub tables : S → Tables
  pub first_trip : ℕ → S → Result Trip
  pub first_participant : ℕ → ℕ → S → Result Participant
  pub create_trip : Trip → S → Result (Trip × S)
  pub save_trip : Trip → S → Result S
  pub create_participant : Participant → S → Result S
  pub save_participant : Participant → S → Result S
  pub due_trips : ℕ → ℕ → S → Result (List Trip)
  pub events : EventTable S

-- The documented behaviour: `id` is the primary key, a statement that reports success has done
-- its work, and a read that finds no row says so. A number that is given
-- to a new trip was not in use, also not by participants, whose `trip_id` is a foreign key.
pub record Lawful {S : Type 0} (db : Database S) : Type 0 where
  pub keyed : (s : S) (id : ℕ) (t : Trip) → (db.tables s).trips id ≡ some t → t.id ≡ id
  pub first_trip_ok :
      (id : ℕ) (s : S) (t : Trip) → db.first_trip id s ≡ ok t → (db.tables s).trips id ≡ some t
  pub first_participant_ok :
      (trip user : ℕ) (s : S) (p : Participant)
      → db.first_participant trip user s ≡ ok p
      → find_participant trip user (db.tables s).participants ≡ some p
  pub first_participant_missing :
      (trip user : ℕ) (s : S)
      → db.first_participant trip user s ≡ err record_not_found
      → find_participant trip user (db.tables s).participants ≡ none
  pub create_trip_id :
      (t u : Trip) (s s' : S)
      → db.create_trip t s ≡ ok (u, s')
      → (u ≡ record t { id = u.id })
        × (u.id ≢ 0)
        × ((db.tables s).trips u.id ≡ none)
        × (joined u.id (db.tables s).participants ≡ 0)
        × (db.tables s' ≡ put_trip u (db.tables s))
  pub save_trip_ok :
      (t : Trip) (s s' : S) → db.save_trip t s ≡ ok s' → db.tables s' ≡ put_trip t (db.tables s)
  pub create_participant_ok :
      (p : Participant) (s s' : S)
      → db.create_participant p s ≡ ok s'
      → db.tables s' ≡ put_participant p (db.tables s)
  pub save_participant_ok :
      (p : Participant) (s s' : S)
      → db.save_participant p s ≡ ok s'
      → db.tables s' ≡ put_participant p (db.tables s)
  -- `LIMIT`: a page that is not full has every row that fits the condition.
  pub due_trips_all :
      (now limit : ℕ) (s : S) (rows : List Trip) (id : ℕ) (t : Trip)
      → db.due_trips now limit s ≡ ok rows
      → length rows < limit
      → (db.tables s).trips id ≡ some t
      → is_due now t ≡ true
      → any (λ row. row.id == id) rows ≡ true
  pub insert_ok : (e : Event) (s s' : S) → db.events.insert e s ≡ ok s' → db.tables s' ≡ db.tables s
