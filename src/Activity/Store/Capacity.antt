-- ===== src/Activity/Store/Capacity.antt =====
-- The places of an activity: what its counter and the registrations say of one another.
use backend_demo.Prelude.{
  ℕ, suc, ◌+◌, ◌≤◌, pos, pos_part, Bool, true, false, ◌≡◌, refl, sym, ◌∙◌, subst, ◌≢◌, inl, inr,
  Option, none, some, List, [], ◌∷◌, ◌==◌, ==_iff, Bool-cases, arith, if◌then◌else◌,
}
use backend_demo.Platform.Text.{Text}
use backend_demo.Activity.Entry.{Activity, Registration, is_draft, is_active}
use backend_demo.Activity.Rule.{valid, registration_allowed, is_publicly_visible}
use backend_demo.Activity.Database.{
  Tables, find_registration, put_row, put_activity, put_registration, holds, registered,
}
use backend_demo.Activity.Store.Registrations.{
  new_registration, reactivated, withdrawn, place_taken, place_released,
}
use backend_demo.Activity.Store.Effects.{enrolled, has_active}

-- The places that a row takes of an activity.
abbrev place : ℕ → Option Registration → ℕ
place activity none = 0
place activity (some r) = if holds activity r then 1 else 0

registered-put_row :
    (activity : ℕ) (q : Registration) (rs : List Registration)
    → registered activity (put_row q rs)
        + place activity (find_registration q.activity_id q.user_id rs)
      ≡ registered activity rs + place activity (some q)
registered-put_row activity q [] = ground arith
registered-put_row activity q (r ∷ rs) = ground (arith, registered-put_row activity q rs)

registered-put_row_ne :
    (activity : ℕ) (q : Registration) (rs : List Registration)
    → activity ≢ q.activity_id
    → registered activity (put_row q rs) ≡ registered activity rs
registered-put_row_ne activity q [] h = ground arith
registered-put_row_ne activity q (r ∷ rs) h = ground (arith, registered-put_row_ne activity q rs)

-- A row that is found has the activity and the user that were asked for.
pub find_registration-matches :
    (activity user : ℕ) (rs : List Registration) {found : Registration}
    → find_registration activity user rs ≡ some found
    → (found.activity_id ≡ activity) × (found.user_id ≡ user)
find_registration-matches activity user [] h = cc
find_registration-matches activity user (r ∷ rs) {found} h =
    ground (arith, find_registration-matches activity user rs {found = found})

-- The row under a new key is the user's, at the activity.
pub enrolled-matches :
    (id activity user : ℕ) (key : Text) (now : ℕ) (o : Option Registration) (rs : List Registration)
    → find_registration activity user rs ≡ o
    → ((enrolled id activity user key now o).activity_id ≡ activity)
      × ((enrolled id activity user key now o).user_id ≡ user)
unfolding new_registration reactivated
enrolled-matches id activity user key now none rs found = (refl, refl)
enrolled-matches id activity user key now (some r) rs found =
    find_registration-matches activity user rs found

pub registered-enrolled :
    (id activity user : ℕ) (key : Text) (now : ℕ) (o : Option Registration) (rs : List Registration)
    → find_registration activity user rs ≡ o
    → has_active o ≡ false
    → registered activity (put_row (enrolled id activity user key now o) rs)
      ≡ suc (registered activity rs)
unfolding new_registration reactivated
registered-enrolled id activity user key now none rs found h = ground (
  arith,
  registered-put_row activity (record (new_registration activity user key now) { id = id }) rs,
)
registered-enrolled id activity user key now (some r) rs found h = ground (
  arith,
  registered-put_row activity (reactivated key now r) rs,
  find_registration-matches activity user rs found,
)

pub registered-withdrawn :
    (activity user now : ℕ) (r : Registration) (rs : List Registration)
    → find_registration activity user rs ≡ some r
    → is_active r.status ≡ true
    → suc (registered activity (put_row (withdrawn now r) rs)) ≡ registered activity rs
unfolding withdrawn
registered-withdrawn activity user now r rs found h = ground (
  arith,
  registered-put_row activity (withdrawn now r) rs,
  find_registration-matches activity user rs found,
)

-- The counter is the number of active registrations, which the capacity bounds; a draft has none.
pub record CapacityOk (a : Activity) (n : ℕ) : Type 0 where
  pub counted : a.registered_count ≡ pos n
  pub total : a.capacity ≡ pos (pos_part a.capacity)
  pub within : n ≤ pos_part a.capacity
  pub draft : is_draft a.status ≡ true → n ≡ 0

pub place_taken-CapacityOk :
    (now : ℕ) (a : Activity) (n : ℕ)
    → registration_allowed a now ≡ valid
    → CapacityOk a n
    → CapacityOk (place_taken a) (suc n)
unfolding place_taken registration_allowed is_publicly_visible
place_taken-CapacityOk now a n h v = ground arith

pub place_released-CapacityOk :
    (a : Activity) (n : ℕ) → CapacityOk a (suc n) → CapacityOk (place_released a) n
unfolding place_released
place_released-CapacityOk a n v = ground arith

abbrev pub AllCapacityOk : Tables → Type 0
AllCapacityOk tb =
    (id : ℕ) (a : Activity)
    → tb.activities id ≡ some a
    → CapacityOk a (registered id tb.registrations)

if_true :
    (b : Bool) (u : Activity) (o : Option Activity) {a : Activity}
    → b ≡ true
    → (if b then some u else o) ≡ some a
    → u ≡ a
if_true b u o e h = ground arith

if_false :
    (b : Bool) (u : Activity) (o : Option Activity) {a : Activity}
    → b ≡ false
    → (if b then some u else o) ≡ some a
    → o ≡ some a
if_false b u o e h = ground arith

put_activity_cases :
    (tb : Tables) (u : Activity) (rs : List Registration)
    → CapacityOk u (registered u.id rs)
    → ((id : ℕ) (a : Activity)
        → id ≢ u.id
        → tb.activities id ≡ some a
        → CapacityOk a (registered id rs))
    → (id : ℕ) (a : Activity) → (put_activity u tb).activities id ≡ some a
    → CapacityOk a (registered id rs)
put_activity_cases tb u rs v others id a h = elim (Bool-cases (id == u.id)) [
  | inl here ↦
      subst (λ x. CapacityOk a (registered x rs)) (sym ((==_iff id u.id).0 here))
        (subst (λ x. CapacityOk x (registered u.id rs))
          (if_true (id == u.id) u (tb.activities id) here h) v)
  | inr elsewhere ↦
      others id a (ground arith) (if_false (id == u.id) u (tb.activities id) elsewhere h)
]

pub put_activity-AllCapacityOk :
    (tb : Tables) (u : Activity)
    → AllCapacityOk tb
    → CapacityOk u (registered u.id tb.registrations)
    → AllCapacityOk (put_activity u tb)
put_activity-AllCapacityOk tb u all v =
    put_activity_cases tb u tb.registrations v (λ id a _ h. all id a h)

pub put_registration-AllCapacityOk :
    (tb : Tables) (u : Activity) (q : Registration)
    → AllCapacityOk tb
    → q.activity_id ≡ u.id
    → CapacityOk u (registered u.id (put_row q tb.registrations))
    → AllCapacityOk (put_activity u (put_registration q tb))
put_registration-AllCapacityOk tb u q all own v =
    put_activity_cases tb u (put_row q tb.registrations) v λ id a other h.
      subst (CapacityOk a)
        (sym (registered-put_row_ne id q tb.registrations (λ e. other (e ∙ own)))) (all id a h)
