-- ===== src/Platform/Idempotency.antt =====
-- internal/core/idempotency/idempotency.go: writes are done once for a key, and answered again from
-- the record of the first answer.
pub mod Records
pub mod Replay
pub mod Tests
use backend_demo.Prelude.{
  ℕ, ℤ, pos, ltb_ℤ, Bool, true, false, ◌&&◌, ◌||◌, not, Option, none, some, List, [], ◌∷◌, length,
  ltb, ◌==◌, if◌then◌else◌,
}
use backend_demo.Platform.Errors.{
  Error, app, fault, record_not_found, Result, ok, err, Tx, ◌>>=◌, ◌>>◌, pure, lift, guard,
  transaction,
}
use backend_demo.Platform.Text.{Text, text_eq, is_empty, trim, byte_len}

pub data RecordStatus : Type 0 where
  record_pending record_completed : RecordStatus

abbrev pub max_key_length : ℕ
max_key_length = 128

abbrev pub max_response_bytes : ℕ
max_response_bytes = 65536

-- `created_at` and `updated_at` are left out. Bodies and headers are bytes.
pub record Record : Type 0 where
  pub id : ℕ
  pub actor_id : ℕ
  pub operation_id : Text
  pub key_hash : Text
  pub request_hash : Text
  pub status : RecordStatus
  pub http_status : ℤ
  pub response_body : List ℕ
  pub response_headers : List ℕ
  pub resource_type : Text
  pub resource_id : Option ℕ
  pub completed_at : Option ℕ

pub record Request : Type 0 where
  pub actor_id : ℕ
  pub operation_id : Text
  pub key : Text
  pub request_hash : Text

-- `Result`, with headers of the type `H`.
pub record Response (H : Type 0) : Type 0 where
  pub http_status : ℤ
  pub body : List ℕ
  pub headers : H
  pub resource_type : Text
  pub resource_id : Option ℕ
  pub replayed : Bool

-- `http.Header`: the header of a zero `Result`, a new one, its names with their values, `Add`, and
-- JSON.
pub record Header (H : Type 0) : Type 0 where
  pub nil : H
  pub make : H
  pub entries : H → List (Text × List Text)
  pub add : Text → Text → H → H
  pub marshal : H → Result (List ℕ)
  pub unmarshal : List ℕ → Result H

-- The statements on `idempotency_records`. `complete` is the update of a pending row by its `id`,
-- which tells how many rows it has changed.
pub record Table (S : Type 0) : Type 0 where
  pub take : ℕ → Text → Text → S → Result Record
  pub create : Record → S → Result (Record × S)
  pub complete : ℕ → (Record → Record) → S → Result (ℕ × S)

-- The errors that are no `*apperror.Error`.
abbrev pub missing_scope : Error
missing_scope = fault 10

abbrev pub bad_hash : Error
bad_hash = fault 11

abbrev pub reserve_failed : Error
reserve_failed = fault 12

abbrev pub bad_headers : Error
bad_headers = fault 13

abbrev pub bad_status : Error
bad_status = fault 14

abbrev pub ownership_lost : Error
ownership_lost = fault 15

unfoldable pub validate_request : Request → Result (Unit {0})
validate_request request =
    if (request.actor_id == 0) || is_empty (trim request.operation_id)
    then err missing_scope
    else if is_empty (trim request.key) || ltb max_key_length (byte_len (trim request.key))
    then err (app 400 "invalid_idempotency_key")
    else if not (byte_len request.request_hash == 64)
    then err bad_hash
    else ok tt

-- The row and whether it is to be replayed.
unfoldable pub replay : Record → Request → Result (Record × Bool)
replay row request =
    if not (text_eq row.request_hash request.request_hash)
    then err (app 409 "idempotency_key_reused")
    else elim row.status [
      | record_completed ↦ ok (row, true)
      | record_pending ↦ err (app 409 "idempotency_in_progress")
    ]

-- A new row, before its insertion.
unfoldable pub reserved : Request → Text → Record
reserved request key_hash = record {
  id = 0;
  actor_id = request.actor_id;
  operation_id = request.operation_id;
  key_hash = key_hash;
  request_hash = request.request_hash;
  status = record_pending;
  http_status = pos 0;
  response_body = [];
  response_headers = [];
  resource_type = [];
  resource_id = none;
  completed_at = none;
}

module _ {S : Type 0} (table : Table S) where
  -- When the insertion fails, another request has taken the key, or the database is down.
  abbrev pub looked_up : Result Record → Request → Result (Record × Bool)
  looked_up (ok existing) request = replay existing request
  looked_up (err _) request = err reserve_failed

  abbrev pub inserted : Result (Record × S) → Request → Text → S → Result ((Record × Bool) × S)
  inserted (ok (row, s')) request key_hash s = ok ((row, false), s')
  inserted (err _) request key_hash s =
      lift (looked_up (table.take request.actor_id request.operation_id key_hash s) request) s

  abbrev pub reserve_found : Result Record → Request → Text → S → Result ((Record × Bool) × S)
  reserve_found (ok existing) request key_hash s = lift (replay existing request) s
  reserve_found (err record_not_found) request key_hash s =
      inserted (table.create (reserved request key_hash) s) request key_hash s
  reserve_found (err e) request key_hash s = err e

  -- `reserve`, with the hash of the trimmed key.
  unfoldable pub reserve : Request → Text → Tx S (Record × Bool)
  unfolding replay reserved
  reserve request key_hash s =
      reserve_found (table.take request.actor_id request.operation_id key_hash s) request key_hash s

module _ {H : Type 0} (header : Header H) where
  abbrev pub add_values : Text → List Text → H → H
  add_values name [] h = h
  add_values name (value ∷ values) h = add_values name values (header.add name value h)

  abbrev pub add_entries : List (Text × List Text) → H → H
  add_entries [] h = h
  add_entries ((name, values) ∷ rest) h = add_entries rest (add_values name values h)

  unfoldable pub clone_headers : H → H
  clone_headers source = add_entries (header.entries source) header.make

  abbrev decoded : Result H → Result H
  decoded (ok h) = ok h
  decoded (err _) = err bad_headers

  abbrev pub read_headers : List ℕ → Result H
  read_headers [] = ok header.nil
  read_headers (b ∷ bytes) = decoded (header.unmarshal (b ∷ bytes))

  abbrev encoded : Result (List ℕ) → Result (List ℕ)
  encoded (ok bytes) = ok bytes
  encoded (err _) = err bad_headers

  -- The answer that a completed row holds.
  unfoldable pub replayed_response : Record → H → Response H
  replayed_response row headers = record {
    http_status = row.http_status;
    body = row.response_body;
    headers = headers;
    resource_type = row.resource_type;
    resource_id = row.resource_id;
    replayed = true;
  }

  -- The values of the update.
  unfoldable pub completed : Response H → List ℕ → ℕ → Record → Record
  completed r headers now row = record row {
    status = record_completed;
    http_status = r.http_status;
    response_body = r.body;
    resource_type = r.resource_type;
    response_headers = headers;
    resource_id = r.resource_id;
    completed_at = some now;
  }

  module _ {S : Type 0} (table : Table S) where
    abbrev pub answered : Result H → Record → Tx S (Response H)
    answered headers row = do h ← lift headers; pure (replayed_response row h)

    -- What follows the work.
    unfoldable pub complete_work : Record → ℕ → Response H → Tx S (Response H)
    unfolding clone_headers completed
    complete_work row now r = do
      lift (guard (not (ltb_ℤ r.http_status (pos 200) || ltb_ℤ (pos 599) r.http_status)) bad_status)
      lift (
          guard (not (ltb max_response_bytes (length r.body)))
            (app 500 "idempotency_response_too_large"))
      bytes ← lift (encoded (header.marshal (clone_headers r.headers)))
      changed ←
          table.complete row.id
            (completed (record r { headers = clone_headers r.headers }) bytes now)
      lift (guard (changed == 1) ownership_lost)
      pure (record r { headers = clone_headers r.headers })

    abbrev pub execute_reserved : Record × Bool → ℕ → Tx S (Response H) → Tx S (Response H)
    execute_reserved (row, true) now work = answered (read_headers row.response_headers) row
    execute_reserved (row, false) now work = work >>= complete_work row now

    unfoldable pub execute_tx : Request → Text → ℕ → Tx S (Response H) → Tx S (Response H)
    unfolding reserve replayed_response complete_work
    execute_tx request key_hash now work = do
      row ← reserve table request key_hash
      execute_reserved row now work

    abbrev pub if_valid :
        Result (Unit {0}) → (S → Result (Response H) × S) → S → Result (Response H) × S
    if_valid (ok tt) m s = m s
    if_valid (err e) m s = (err e, s)

    -- `Execute`, with the digest and the clock's reading.
    unfoldable pub execute :
        (Text → Text) → Request → ℕ → Tx S (Response H) → S → Result (Response H) × S
    unfolding validate_request execute_tx
    execute digest request now work =
        if_valid (validate_request request)
          (transaction (execute_tx request (digest (trim request.key)) now work))
