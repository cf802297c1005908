-- ===== src/Platform/Events/Relay.antt =====
-- internal/infrastructure/domainevent/relay.go: events are leased, published, and then dispatched
-- or released. Times are in milliseconds.
pub mod Tries
pub mod Rounds
pub mod Ticks
pub mod Tests
use backend_demo.Prelude.{
  ℕ, zero, suc, ◌+◌, ◌*◌, ◌≡◌, Bool, true, false, ◌&&◌, ◌||◌, Option, none, some, List, [], ◌∷◌,
  map, length, ltb, leb, ◌==◌, if◌then◌else◌,
}
use backend_demo.Platform.Errors.{
  Error, fault, Result, ok, err, Tx, ◌>>=◌, ◌>>◌, pure, query, exec, map_err, transaction,
}
use backend_demo.Platform.Text.{Text}
use backend_demo.Platform.Events.{
  Event, EventStatus, status_pending, status_leased, status_dispatched, status_failed,
}

abbrev pub batch_size : ℕ
batch_size = 100

abbrev pub lease_period : ℕ
lease_period = 30000

abbrev pub second : ℕ
second = 1000

abbrev pub max_attempts : ℕ
max_attempts = 5

-- A row of `domain_events`.
pub record Row : Type 0 where
  pub id : ℕ
  pub event : Event

-- A publisher may change the database; its error is a message, in bytes.
abbrev pub Publisher : Type 0 → Type 0
Publisher S = Row → S → Option Text × S

module _ {S : Type 0} where
  abbrev pub then_publish : Option Text × S → (S → Option Text × S) → Option Text × S
  then_publish (none, s) rest = rest s
  then_publish (some message, s) rest = (some message, s)

  -- `CompositePublisher.Publish`; a publisher that is nil is passed over.
  unfoldable pub composite : List (Option (Publisher S)) → Publisher S
  composite [] row s = (none, s)
  composite (none ∷ publishers) row s = composite publishers row s
  composite (some publish ∷ publishers) row s =
      then_publish (publish row s) (composite publishers row)

abbrev pub is_pending : EventStatus → Bool
is_pending status_pending = true
is_pending _ = false

abbrev pub timed_out : ℕ → EventStatus → Option ℕ → Bool
timed_out now status_leased (some locked_at) = ltb (locked_at + lease_period) now
timed_out now _ _ = false

-- The condition of the query in `lease`.
unfoldable pub is_due : ℕ → Event → Bool
is_due now e = leb e.available_at now && (is_pending e.status || timed_out now e.status e.locked_at)

-- What the update in `lease` makes of a row, and what the relay keeps of it.
unfoldable pub leased : ℕ → Event → Event
leased now e = record e {
  status = status_leased;
  locked_at = some now;
  attempts = suc e.attempts;
  last_error = none;
}

unfoldable pub taken : ℕ → Row → Row
taken now row = record row {
  event = record row.event {
    status = status_leased;
    locked_at = some now;
    attempts = suc row.event.attempts;
  };
}

unfoldable pub dispatched : Event → Event
dispatched e = record e { status = status_dispatched; locked_at = none; last_error = none }

abbrev take_bytes : ℕ → Text → Text
take_bytes zero bytes = []
take_bytes (suc n) [] = []
take_bytes (suc n) (b ∷ bytes) = b ∷ take_bytes n bytes

-- What `release` makes of a row that the relay has tried `attempts` times.
unfoldable pub released : ℕ → ℕ → Text → Event → Event
released now attempts message e = record e {
  status = (if leb max_attempts attempts then status_failed else status_pending);
  locked_at = none;
  available_at = (if leb max_attempts attempts then now else now + second * attempts);
  last_error = some (take_bytes 1000 message);
}

-- The statements: the query of at most `batch_size` due rows, the update of the rows with some
-- numbers to leased, and the update of a row that is leased since a time, which tells how many rows
-- it has changed.
pub record RelayTable (S : Type 0) : Type 0 where
  pub due_rows : ℕ → S → Result (List Row)
  pub mark_leased : List ℕ → ℕ → S → Result S
  pub update_leased : ℕ → Option ℕ → (Event → Event) → S → Result (ℕ × S)

abbrev pub lease_failed : Error
lease_failed = fault 20

abbrev pub lease_lost : Error
lease_lost = fault 21

abbrev pub update_failed : Error
update_failed = fault 22

abbrev pub ids : List Row → List ℕ
ids [] = []
ids (row ∷ rows) = row.id ∷ ids rows

abbrev pub taken_rows : ℕ → List Row → List Row
taken_rows now [] = []
taken_rows now (row ∷ rows) = taken now row ∷ taken_rows now rows

module _ {S : Type 0} (table : RelayTable S) where
  abbrev pub lease_found : ℕ → List Row → Tx S (List Row)
  lease_found now [] = pure []
  lease_found now (row ∷ rows) = do
    exec (table.mark_leased (ids (row ∷ rows)) now)
    pure (taken_rows now (row ∷ rows))

  unfoldable pub lease_tx : ℕ → Tx S (List Row)
  unfolding taken
  lease_tx now = do
    rows ← query λ s. map_err (λ _. lease_failed) (table.due_rows now s)
    lease_found now rows

  unfoldable pub lease : ℕ → S → Result (List Row) × S
  unfolding lease_tx
  lease now = transaction (lease_tx now)

  -- The end of an update: exactly one row was changed, or the lease was lost.
  abbrev pub one_changed : Result (ℕ × S) → S → Result (Unit {0}) × S
  one_changed (err _) s = (err update_failed, s)
  one_changed (ok (n, s')) s = if n == 1 then (ok tt, s') else (err lease_lost, s')

  unfoldable pub mark_dispatched : Row → S → Result (Unit {0}) × S
  unfolding dispatched
  mark_dispatched row s =
      one_changed (table.update_leased row.id row.event.locked_at dispatched s) s

  unfoldable pub release : Row → Text → ℕ → S → Result (Unit {0}) × S
  unfolding released
  release row message now s =
      one_changed
        (table.update_leased row.id row.event.locked_at (released now row.event.attempts message) s)
        s

  -- What follows the publication of a row.
  abbrev pub settle : Option Text × S → Row → ℕ → Result (Unit {0}) × S
  settle (some message, s) row now = release row message now s
  settle (none, s) row now = mark_dispatched row s

  abbrev pub and_then : Result (Unit {0}) × S → (S → Result (Unit {0}) × S) → Result (Unit {0}) × S
  and_then (ok tt, s) rest = rest s
  and_then (err e, s) rest = (err e, s)

  unfoldable pub publish_rows : Publisher S → ℕ → List Row → S → Result (Unit {0}) × S
  unfolding mark_dispatched release
  publish_rows publish now [] s = (ok tt, s)
  publish_rows publish now (row ∷ rows) s =
      and_then (settle (publish row s) row now) (λ s'. publish_rows publish now rows s')

  abbrev pub with_leased :
      Result (List Row) × S → (List Row → S → Result (Unit {0}) × S) → Result (Unit {0}) × S
  with_leased (ok rows, s) rest = rest rows s
  with_leased (err e, s) rest = (err e, s)

  unfoldable pub tick : Publisher S → ℕ → S → Result (Unit {0}) × S
  unfolding lease publish_rows
  tick publish now s = with_leased (lease now s) (publish_rows publish now)
