-- ===== src/Platform/Events/Relay/Rounds.antt =====
-- What the statements of the relay do, and what a round of publications leaves of each row.
use backend_demo.Prelude.{
  ℕ, ◌≡◌, ◌⊎◌, refl, sym, ap, ◌∙◌, Bool, true, false, Option, none, some, List, [], ◌∷◌, ◌==◌,
  ==_iff, Bool-cases, arith, inl, inr, if◌then◌else◌,
}
use backend_demo.Platform.Errors.{Result, ok, err}
use backend_demo.Platform.Text.{Text}
use backend_demo.Platform.Events.{Event, status_leased}
use backend_demo.Platform.Events.Relay.{
  Row, Publisher, RelayTable, is_due, leased, dispatched, released, one_changed, mark_dispatched,
  release, settle, and_then, publish_rows,
}
use backend_demo.Platform.Events.Relay.Tries.{settled}

abbrev pub find_row : ℕ → List Row → Option Row
find_row id [] = none
find_row id (row ∷ rows) = if row.id == id then some row else find_row id rows

abbrev pub in_ids : ℕ → List ℕ → Bool
in_ids id [] = false
in_ids id (n ∷ ns) = let rest = in_ids id ns in if n == id then true else rest

abbrev pub if_in : Bool → ℕ → Option Event → Option Event
if_in true now (some e) = some (leased now e)
if_in true now none = none
if_in false now o = o

-- Rows of the table, each due and with its own number.
abbrev pub Listed : (ℕ → Option Event) → ℕ → List Row → Type 0
Listed events now [] = Unit {0}
Listed events now (row ∷ rows) =
    (events row.id ≡ some row.event)
    × (is_due now row.event ≡ true)
    × (find_row row.id rows ≡ none)
    × Listed events now rows

-- What the statements do: the query gives rows of the table that are due, with different numbers;
-- an update has changed its rows, and no other.
pub record Lawful {S : Type 0} (table : RelayTable S) : Type 0 where
  pub events : S → ℕ → Option Event
  pub due_ok :
      (now : ℕ) (s : S) (rows : List Row)
      → table.due_rows now s ≡ ok rows
      → Listed (events s) now rows
  pub mark_ok :
      (numbers : List ℕ) (now : ℕ) (s s' : S) (id : ℕ)
      → table.mark_leased numbers now s ≡ ok s'
      → events s' id ≡ if_in (in_ids id numbers) now (events s id)
  pub update_ok :
      (id : ℕ) (locked_at : Option ℕ) (change : Event → Event) (s s' : S)
      → table.update_leased id locked_at change s ≡ ok (1, s')
      → (e : Event) × (events s id ≡ some e)
        × (e.status ≡ status_leased)
        × (e.locked_at ≡ locked_at)
        × ((other : ℕ)
            → events s' other ≡ (if other == id then some (change e) else events s other))

module _ {S : Type 0} (table : RelayTable S) (law : Lawful table) where
  one_changed-ok :
      (r : Result (ℕ × S)) (s : S)
      → (one_changed table r s).0 ≡ ok tt
      → r ≡ ok (1, (one_changed table r s).1)
  one_changed-ok (ok (n, s')) s h = ground arith
  one_changed-ok (err e) s h = cc

  -- The row that was published is settled, and the others stay.
  settle-ok :
      (p : Option Text × S) (row : Row) (now id : ℕ) (e : Event)
      → (settle table p row now).0 ≡ ok tt
      → law.events p.1 id ≡ some e
      → law.events (settle table p row now).1 id
        ≡ (if id == row.id then some (settled now row.event.attempts p.0 e) else some e)
  unfolding mark_dispatched release settled
  settle-ok (none, s) row now id e h there =
      let (found, stored, _, _, put) =
        law.update_ok row.id row.event.locked_at dispatched s _ (one_changed-ok _ s h) in
      put id ∙ ground (arith, stored, there)
  settle-ok (some message, s) row now id e h there =
      let change = released now row.event.attempts message in
      let (found, stored, _, _, put) =
        law.update_ok row.id row.event.locked_at change s _ (one_changed-ok _ s h) in
      put id ∙ ground (arith, stored, there)

  and_then-ok :
      (m : Result (Unit {0}) × S) (f : S → Result (Unit {0}) × S)
      → (and_then table m f).0 ≡ ok tt
      → (m.0 ≡ ok tt) × ((f m.1).0 ≡ ok tt) × ((and_then table m f).1 ≡ (f m.1).1)
  and_then-ok (ok tt, s) f h = (refl, h, refl)
  and_then-ok (err e, s) f h = cc

  -- The publisher leaves the rows alone.
  pub record Silent (publish : Publisher S) : Type 0 where
    pub apart : (row : Row) (s : S) (id : ℕ) → law.events (publish row s).1 id ≡ law.events s id

  abbrev pub Distinct : List Row → Type 0
  Distinct [] = Unit {0}
  Distinct (row ∷ rows) = (find_row row.id rows ≡ none) × Distinct rows

  -- What a round over some rows leaves of an event: one of the rows was published, from a state
  -- that still held the event, and settled by what the publisher answered.
  abbrev pub Rounds : Publisher S → ℕ → List Row → ℕ → Event → S → Type 0
  Rounds publish now rows id e s' =
      ((find_row id rows ≡ none) × (law.events s' id ≡ some e))
      ⊎ ((row : Row) × (before : S) × (find_row id rows ≡ some row)
          × (law.events before id ≡ some e)
          × (law.events s' id ≡ some (settled now row.event.attempts (publish row before).0 e)))

  find_row-here :
      (row : Row) (rows : List Row) (id : ℕ)
      → (row.id == id) ≡ true
      → find_row id (row ∷ rows) ≡ some row
  find_row-here row rows id h = rw h refl

  find_row-elsewhere :
      (row : Row) (rows : List Row) (id : ℕ)
      → (row.id == id) ≡ false
      → find_row id (row ∷ rows) ≡ find_row id rows
  find_row-elsewhere row rows id h = rw h refl

  Rounds-here :
      (publish : Publisher S) (now : ℕ) (row : Row) (rows : List Row) (id : ℕ) (e : Event)
      (before s' : S)
      → (row.id == id) ≡ true
      → find_row row.id rows ≡ none
      → law.events before id ≡ some e
      → Rounds publish now rows id (settled now row.event.attempts (publish row before).0 e) s'
      → Rounds publish now (row ∷ rows) id e s'
  Rounds-here publish now row rows id e before s' here alone there (inl (_, kept)) =
      inr (row, before, find_row-here row rows id here, there, kept)
  Rounds-here publish now row rows id e before s' here alone there (inr (other, _, found, _, _)) =
      let clash : ◌≡◌ {A = Option Row} none (some other) =
        sym alone ∙ ap (λ n. find_row n rows) ((==_iff row.id id).0 here) ∙ found in
      cc (clash)

  Rounds-elsewhere :
      (publish : Publisher S) (now : ℕ) (row : Row) (rows : List Row) (id : ℕ) (e : Event) (s' : S)
      → (row.id == id) ≡ false
      → Rounds publish now rows id e s'
      → Rounds publish now (row ∷ rows) id e s'
  Rounds-elsewhere publish now row rows id e s' other (inl (absent, kept)) =
      inl (find_row-elsewhere row rows id other ∙ absent, kept)
  Rounds-elsewhere publish now row rows id e s' other (inr (r, before, found, there, put)) =
      inr (r, before, find_row-elsewhere row rows id other ∙ found, there, put)

  pub publish_rows-Rounds :
      (publish : Publisher S) (now : ℕ) (rows : List Row) (s : S) (id : ℕ) (e : Event)
      → Silent publish
      → Distinct rows
      → (publish_rows table publish now rows s).0 ≡ ok tt
      → law.events s id ≡ some e
      → Rounds publish now rows id e (publish_rows table publish now rows s).1
  unfolding publish_rows
  publish_rows-Rounds publish now [] s id e silent distinct h there = inl (refl, there)
  publish_rows-Rounds publish now (row ∷ rows) s id e silent (alone, distinct) h there =
      let p = publish row s in
      let m = settle table p row now in
      let (first, others, last) = and_then-ok m (λ s'. publish_rows table publish now rows s') h in
      let kept = silent.apart row s id ∙ there in
      let put = settle-ok p row now id e first kept in
      rw last (elim (Bool-cases (row.id == id)) [
        | inl here ↦ Rounds-here publish now row rows id e s _ here alone there (
            publish_rows-Rounds publish now rows m.1 id _ silent distinct others
              (put ∙ ground (arith, here)))
        | inr other ↦ Rounds-elsewhere publish now row rows id e _ other (
            publish_rows-Rounds publish now rows m.1 id e silent distinct others
              (put ∙ ground (arith, other)))
      ])
