-- ===== src/Carpool/Store/Visibility.antt =====
-- Who sees a trip, and its contact.
use backend_demo.Prelude.{ℕ, Bool, true, false, ◌≡◌, ◌⊎◌, some, inl, inr, refl, arith}
use backend_demo.Platform.Errors.{Result, ok, err}
use backend_demo.Platform.Events.{Host}
use backend_demo.Carpool.Trip.{Trip, Participant, is_ended, is_joined}
use backend_demo.Carpool.Database.{Database, Lawful, find_participant}
use backend_demo.Carpool.Store.{Cipher, TripPayload, get_trip}

-- Did the read find a row that holds a seat?
abbrev finds_seat : Result Participant → Bool
finds_seat (ok p) = is_joined p.status
finds_seat (err e) = false

module _ {S : Type 0} (db : Database S) (host : Host TripPayload) (cipher : Cipher)
    (law : Lawful db) where
  abbrev Holds : ℕ → ℕ → S → Type 0
  Holds id viewer s =
      (p : Participant) × (find_participant id viewer (db.tables s).participants ≡ some p)
      × (is_joined p.status ≡ true)

  held_cases :
      (id viewer : ℕ) (s : S) (t : Trip) (r : Result Participant)
      → db.first_participant id viewer s ≡ r
      → (t.organizer_id ≡ viewer) ⊎ ((is_ended t.status ≡ false) × (finds_seat r ≡ true))
      → (t.organizer_id ≡ viewer) ⊎ ((is_ended t.status ≡ false) × Holds id viewer s)
  held_cases id viewer s t r e (inl own) = inl own
  held_cases id viewer s t (ok p) e (inr (live, held)) =
      inr (live, (p, law.first_participant_ok id viewer s p e, held))
  held_cases id viewer s t (err x) e (inr (live, held)) = cc

  -- The contact is shown in plain text to the organizer, and to those who hold a seat of a trip
  -- that has not ended.
  pub get_trip-contact :
      (id viewer : ℕ) (s : S) (t : Trip)
      → get_trip db host cipher id viewer s ≡ ok (t, true)
      → (t.organizer_id ≡ viewer) ⊎ ((is_ended t.status ≡ false) × Holds id viewer s)
  unfolding get_trip
  get_trip-contact id viewer s t h =
      held_cases id viewer s t (db.first_participant id viewer s) refl (ground arith)
