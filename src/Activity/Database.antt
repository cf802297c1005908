-- ===== src/Activity/Database.antt =====
-- The statements that the activity store sends to the database, as an interface: what each returns,
-- and what a read sees after a write. Every statement may fail with an error of its own. Rows are
-- locked for update, so transactions on one activity run one after the other.
use backend_demo.Prelude.{
  ℕ, suc, ◌≡◌, ◌≢◌, Bool, true, false, ◌&&◌, Option, none, some, List, [], ◌∷◌, ◌==◌, if◌then◌else◌,
}
use backend_demo.Platform.Errors.{record_not_found, Result, ok, err}
use backend_demo.Platform.Text.{Text}
use backend_demo.Platform.Events.{Event, EventTable}
use backend_demo.Activity.Entry.{Activity, Registration, is_active}

-- What the tables `activities` and `activity_registrations` hold.
pub record Tables : Type 0 where
  pub activities : ℕ → Option Activity
  pub registrations : List Registration

abbrev pub matches : ℕ → ℕ → Registration → Bool
matches activity user r = (r.activity_id == activity) && (r.user_id == user)

abbrev pub find_registration : ℕ → ℕ → List Registration → Option Registration
find_registration activity user [] = none
find_registration activity user (r ∷ rs) =
    if matches activity user r then some r else find_registration activity user rs

-- A row with the same activity and user is written over: the pair is a unique key.
abbrev pub put_row : Registration → List Registration → List Registration
put_row q [] = q ∷ []
put_row q (r ∷ rs) = if matches q.activity_id q.user_id r then q ∷ rs else r ∷ put_row q rs

abbrev pub put_activity : Activity → Tables → Tables
put_activity a tb = record tb { activities = λ i. if i == a.id then some a else tb.activities i }

abbrev pub put_registration : Registration → Tables → Tables
put_registration q tb = record tb { registrations = put_row q tb.registrations }

-- How many users hold a place at an activity.
abbrev pub holds : ℕ → Registration → Bool
holds activity r = (r.activity_id == activity) && is_active r.status

abbrev pub registered : ℕ → List Registration → ℕ
registered activity [] = 0
registered activity (r ∷ rs) =
    let rest = registered activity rs in if holds activity r then suc rest else rest

pub record Database (S : Type 0) : Type 0 where
  pub tables : S → Tables
  pub first_activity : ℕ → S → Result Activity
  pub first_registration : ℕ → ℕ → S → Result Registration
  pub registration_by_key : ℕ → ℕ → Text → S → Result Registration
  pub count_active : ℕ → ℕ → S → Result ℕ
  pub create_activity : Activity → S → Result (Activity × S)
  pub save_activity : Activity → S → Result S
  pub create_registration : Registration → S → Result (Registration × S)
  pub save_registration : Registration → S → Result S
  pub events : EventTable S

-- The documented behaviour: `id` is the primary key, a statement that reports success has done its
-- work, and a read that finds no row says so. A number that is given to a new activity was not in
-- use, also not by registrations, whose `activity_id` is a foreign key. `same_key` is the
-- comparison of keys by the collation of their column, which need not tell apart letters by case
-- and accents.
pub record Lawful {S : Type 0} (db : Database S) : Type 0 where
  pub same_key : Text → Text → Bool
  pub same_key_refl : (key : Text) → same_key key key ≡ true
  pub keyed : (s : S) (id : ℕ) (a : Activity) → (db.tables s).activities id ≡ some a → a.id ≡ id
  pub first_activity_ok :
      (id : ℕ) (s : S) (a : Activity)
      → db.first_activity id s ≡ ok a
      → (db.tables s).activities id ≡ some a
  pub first_registration_ok :
      (activity user : ℕ) (s : S) (r : Registration)
      → db.first_registration activity user s ≡ ok r
      → find_registration activity user (db.tables s).registrations ≡ some r
  pub first_registration_missing :
      (activity user : ℕ) (s : S)
      → db.first_registration activity user s ≡ err record_not_found
      → find_registration activity user (db.tables s).registrations ≡ none
  pub registration_by_key_ok :
      (activity user : ℕ) (key : Text) (s : S) (r : Registration)
      → db.registration_by_key activity user key s ≡ ok r
      → (find_registration activity user (db.tables s).registrations ≡ some r)
        × (same_key r.idempotency_key key ≡ true)
  pub registration_by_key_missing :
      (activity user : ℕ) (key : Text) (s : S) (r : Registration)
      → db.registration_by_key activity user key s ≡ err record_not_found
      → find_registration activity user (db.tables s).registrations ≡ some r
      → same_key r.idempotency_key key ≡ false
  pub count_active_ok :
      (activity user n : ℕ) (s : S)
      → db.count_active activity user s ≡ ok n
      → n ≢ 0
      → (r : Registration) × (find_registration activity user (db.tables s).registrations ≡ some r)
        × (is_active r.status ≡ true)
  pub create_activity_ok :
      (a b : Activity) (s s' : S)
      → db.create_activity a s ≡ ok (b, s')
      → (b ≡ record a { id = b.id })
        × (registered b.id (db.tables s).registrations ≡ 0)
        × (db.tables s' ≡ put_activity b (db.tables s))
  pub save_activity_ok :
      (a : Activity) (s s' : S)
      → db.save_activity a s ≡ ok s'
      → db.tables s' ≡ put_activity a (db.tables s)
  pub create_registration_ok :
      (r q : Registration) (s s' : S)
      → db.create_registration r s ≡ ok (q, s')
      → (q ≡ record r { id = q.id }) × (db.tables s' ≡ put_registration q (db.tables s))
  pub save_registration_ok :
      (r : Registration) (s s' : S)
      → db.save_registration r s ≡ ok s'
      → db.tables s' ≡ put_registration r (db.tables s)
  pub insert_ok : (e : Event) (s s' : S) → db.events.insert e s ≡ ok s' → db.tables s' ≡ db.tables s
