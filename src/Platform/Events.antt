-- ===== src/Platform/Events.antt =====
-- internal/core/domainevent/event.go and writer.go: the events that a transaction writes beside the
-- change of an aggregate, told apart by a key.
pub mod Effects
pub mod Relay
use backend_demo.Prelude.{ℕ, Bool, ◌&&◌, not, Option, none, ◌∷◌, ◌++◌, ◌==◌, if◌then◌else◌}
use backend_demo.Platform.Errors.{
  Error, fault, Result, ok, err, Tx, ◌>>=◌, ◌>>◌, query, lift, guard, map_err,
}
use backend_demo.Platform.Text.{Text, text_eq, is_empty, decimal}

pub data EventStatus : Type 0 where
  status_pending status_leased status_dispatched status_failed : EventStatus

pub record Event : Type 0 where
  pub aggregate_type : Text
  pub aggregate_id : ℕ
  pub event_type : Text
  pub payload_version : ℕ
  pub payload : Text
  pub idempotency_key : Text
  pub status : EventStatus
  pub available_at : ℕ
  pub locked_at : Option ℕ
  pub attempts : ℕ
  pub last_error : Option Text

-- Services that the writer calls: `json.Marshal` of a payload, the SHA-256 digest in hexadecimal,
-- and the clock.
pub record Host (P : Type 0) : Type 0 where
  pub marshal : P → Result Text
  pub digest : Text → Text
  pub time : ℕ

-- The statements on `domain_events`: an insert, and a read by the unique key.
pub record EventTable (S : Type 0) : Type 0 where
  pub insert : Event → S → Result S
  pub take : Text → S → Result Event

abbrev pub current_payload_version : ℕ
current_payload_version = 1

-- The errors that are no `*apperror.Error`.
abbrev pub bad_arguments : Error
bad_arguments = fault 1

abbrev pub err_conflict : Error
err_conflict = fault 2

abbrev pub persist_failed : Error
persist_failed = fault 3

same_identity : Event → Event → Bool
same_identity a b =
    text_eq a.aggregate_type b.aggregate_type
    && (a.aggregate_id == b.aggregate_id)
    && text_eq a.event_type b.event_type
    && (a.payload_version == b.payload_version)

-- After a refused insert: is the row that holds the key the same event?
confirm : Event → Event → Result (Unit {0})
unfolding same_identity
confirm row existing =
    guard (same_identity existing row && text_eq existing.payload row.payload) err_conflict

module _ {S : Type 0} (table : EventTable S) where
  unfoldable pub persist : Event → Tx S (Unit {0})
  unfolding confirm
  persist row s = elim (table.insert row s) [
    | ok s' ↦ ok (tt, s')
    | err _ ↦
        (do
          existing ← query λ s. map_err (λ _. persist_failed) (table.take row.idempotency_key s)
          lift (confirm row existing))
          s
  ]

module _ {P : Type 0} (host : Host P) where
  unfoldable pub event_key : Text → ℕ → Text → Text → Text
  event_key aggregate_type id event_type source_key =
      host.digest (aggregate_type ++ 0 ∷ (decimal id ++ 0 ∷ (event_type ++ 0 ∷ source_key)))

  unfoldable pub new_event : Text → ℕ → Text → Text → Text → Event
  new_event aggregate_type id event_type key payload = record {
    aggregate_type = aggregate_type;
    aggregate_id = id;
    event_type = event_type;
    payload_version = current_payload_version;
    payload = payload;
    idempotency_key = key;
    status = status_pending;
    available_at = host.time;
    locked_at = none;
    attempts = 0;
    last_error = none;
  }

module _ {S P : Type 0} (host : Host P) (table : EventTable S) where
  -- `WriteWithKey`. A transaction is at hand, so `tx` is not nil.
  unfoldable pub write_with_key : Text → ℕ → Text → Text → P → Tx S (Unit {0})
  unfolding persist new_event
  write_with_key aggregate_type id event_type key payload = do
    lift (
        guard
          (not (is_empty aggregate_type)
            && not (id == 0)
            && not (is_empty event_type)
            && not (is_empty key))
          bad_arguments)
    bytes ← lift (host.marshal payload)
    persist table (
        new_event host aggregate_type id event_type
          (event_key host aggregate_type id event_type key) bytes)

-- `Write` takes the payload's version for the source of the key, or its digest if it has none.
abbrev pub source_key : {P : Type 0} → Host P → ℕ → Text → Text
source_key host version bytes = if version == 0 then host.digest bytes else decimal version

module _ {S P : Type 0} (host : Host P) (table : EventTable S) where
  -- `Write`, with what `currentVersion` reads off the payload.
  unfoldable pub write_event : (P → ℕ) → Text → ℕ → Text → P → Tx S (Unit {0})
  unfolding persist new_event
  write_event version aggregate_type id event_type payload = do
    lift (
        guard (not (is_empty aggregate_type) && not (id == 0) && not (is_empty event_type))
          bad_arguments)
    bytes ← lift (host.marshal payload)
    persist table (
        new_event host aggregate_type id event_type
          (event_key host aggregate_type id event_type (source_key host (version payload) bytes))
          bytes)
