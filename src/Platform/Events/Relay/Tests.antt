-- ===== src/Platform/Events/Relay/Tests.antt =====
-- A table with one event, and the theorems at work on it.
use backend_demo.Prelude.{
  ℕ, ◌≤◌, ◌≡◌, ◌⊎◌, refl, sym, ap, subst, ◌∙◌, Bool, true, false, ◌&&◌, Option, none, some, List,
  [], ◌∷◌, ◌==◌, ==_iff, Bool-cases, inl, inr, arith, if◌then◌else◌,
}
use backend_demo.Platform.Errors.{Result, ok, statements}
use backend_demo.Platform.Text.{Text, codes}
use backend_demo.Platform.Events.{Event, EventStatus, status_pending, status_leased}
use backend_demo.Platform.Events.Relay.{
  Row, Publisher, RelayTable, is_due, leased, taken, released, lease, lease_tx, release,
  mark_dispatched, publish_rows, tick, max_attempts,
}
use backend_demo.Platform.Events.Relay.Tries.{settled, tried, tries, is_settled, tries-is_settled}
use backend_demo.Platform.Events.Relay.Rounds.{find_row, in_ids, if_in, Listed, Lawful, Silent}
use backend_demo.Platform.Events.Relay.Ticks.{tick-tried}

abbrev same_time : Option ℕ → Option ℕ → Bool
same_time none none = true
same_time (some a) (some b) = a == b
same_time _ _ = false

abbrev is_leased : EventStatus → Bool
is_leased status_leased = true
is_leased _ = false

-- The table holds the event with the number 1.
abbrev single : RelayTable Event
single = record {
  due_rows = λ now e. ok (if is_due now e then record { id = 1; event = e } ∷ [] else []);
  mark_leased = λ numbers now e. ok (if in_ids 1 numbers then leased now e else e);
  update_leased = λ id locked_at change e.
      if (id == 1) && (is_leased e.status && same_time e.locked_at locked_at)
      then ok (1, change e)
      else ok (0, e);
}

abbrev events : Event → ℕ → Option Event
events e id = if id == 1 then some e else none

same_time_eq : (a b : Option ℕ) → same_time a b ≡ true → a ≡ b
same_time_eq none none h = refl
same_time_eq none (some b) h = cc
same_time_eq (some a) none h = cc
same_time_eq (some a) (some b) h = ground arith

is_leased_eq : (s : EventStatus) → is_leased s ≡ true → s ≡ status_leased
is_leased_eq s h = ground arith

due-Listed :
    (now : ℕ) (e : Event) (b : Bool)
    → is_due now e ≡ b
    → Listed (events e) now (if b then record { id = 1; event = e } ∷ [] else [])
due-Listed now e true h = (refl, h, refl, tt)
due-Listed now e false h = tt

marked :
    (numbers : List ℕ) (now : ℕ) (e : Event) (id : ℕ)
    → events (if in_ids 1 numbers then leased now e else e) id
      ≡ if_in (in_ids id numbers) now (events e id)
marked numbers now e id = elim (Bool-cases (id == 1)) [
  | inl here ↦
      let one : id ≡ 1 = (==_iff id 1).0 here in
      subst
        (λ n.
          events (if in_ids 1 numbers then leased now e else e) n
          ≡ if_in (in_ids n numbers) now (events e n))
        (sym one) (first (in_ids 1 numbers))
  | inr other ↦ rw other (absent (in_ids id numbers))
]
  where
    first : (b : Bool) → events (if b then leased now e else e) 1 ≡ if_in b now (events e 1)
    first true = refl
    first false = refl

    absent : (b : Bool) → none ≡ if_in b now none
    absent true = refl
    absent false = refl

updated :
    (id : ℕ) (locked_at : Option ℕ) (change : Event → Event) (e e' : Event)
    → single.update_leased id locked_at change e ≡ ok (1, e')
    → (f : Event) × (events e id ≡ some f)
      × (f.status ≡ status_leased)
      × (f.locked_at ≡ locked_at)
      × ((other : ℕ) → events e' other ≡ (if other == id then some (change f) else events e other))
updated id locked_at change e e' h =
    let (one, held, when) = passed in
    let made : e' ≡ change e = ground arith in
    (
      e,
      rw one refl,
      is_leased_eq e.status held,
      same_time_eq e.locked_at locked_at when,
      λ other. rw made (rw ((==_iff id 1).0 one) (by_test (other == 1))),
    )
  where
    passed :
        ((id == 1) ≡ true) × (is_leased e.status ≡ true) × (same_time e.locked_at locked_at ≡ true)
    passed = ground arith

    by_test :
        (b : Bool)
        → (if b then some (change e) else none)
          ≡ (if b then some (change e) else if b then some e else none)
    by_test true = refl
    by_test false = refl

listed_eq : (a b : List Row) → ◌≡◌ {A = Result (List Row)} (ok a) (ok b) → a ≡ b
listed_eq a b h = cc

stored_eq : (a b : Event) → ◌≡◌ {A = Result Event} (ok a) (ok b) → b ≡ a
stored_eq a b h = cc

abbrev single_laws : Lawful single
single_laws = record {
  events = events;
  due_ok = λ now e rows h.
      subst (Listed (events e) now) (listed_eq _ rows h) (due-Listed now e (is_due now e) refl);
  mark_ok =
      λ numbers now e e' id h. ap (λ x. events x id) (stored_eq _ e' h) ∙ marked numbers now e id;
  update_ok = updated;
}

abbrev mail : Event
mail = record {
  aggregate_type = codes "activity";
  aggregate_id = 1;
  event_type = codes "activity.created";
  payload_version = 1;
  payload = [];
  idempotency_key = codes "k";
  status = status_pending;
  available_at = 5;
  locked_at = none;
  attempts = 0;
  last_error = none;
}

-- A subscriber that refuses every event.
abbrev refuse : Publisher Event
refuse row s = (some (codes "no"), s)

abbrev five_tries : List (ℕ × Option Text)
five_tries =
    (10, some (codes "a"))
    ∷ (5000, some (codes "b"))
    ∷ (10000, some (codes "c"))
    ∷ (15000, some (codes "d"))
    ∷ (20000, some (codes "e"))
    ∷ []

runs : Unit {0}
unfolding tick lease lease_tx publish_rows release mark_dispatched released taken leased tried
    is_due settled statements
runs = tt

tries-is_settled_example :
    (is_settled (tries five_tries mail).status ≡ true)
    × ((tries five_tries mail).attempts ≤ max_attempts)
    × (is_due 99999 (tries five_tries mail) ≡ false)
tries-is_settled_example =
    tries-is_settled five_tries mail 5 99999 refl (omega arith) refl (omega arith) (omega arith)

refuse-Silent : Silent single single_laws refuse
refuse-Silent = record { apart = λ row s id. refl }

abbrev ticked : Event
ticked = (tick single refuse 10 mail).1

tick-tried_example :
    ((find_row 1 (record { id = 1; event = mail } ∷ []) ≡ none) × (events ticked 1 ≡ some mail))
    ⊎ ((row : Row) × (before : Event) × (find_row 1 (record { id = 1; event = mail } ∷ [])
          ≡ some row)
        × (is_due 10 mail ≡ true)
        × (events before 1 ≡ some (leased 10 mail))
        × (events ticked 1 ≡ some (tried 10 (refuse (taken 10 row) before).0 mail)))
unfolding runs
tick-tried_example =
    tick-tried single single_laws refuse 10 mail (record { id = 1; event = mail } ∷ []) 1 mail
      refuse-Silent refl refl refl
