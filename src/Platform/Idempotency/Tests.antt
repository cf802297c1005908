-- ===== src/Platform/Idempotency/Tests.antt =====
-- A table with room for one record, and the theorems at work on it.
use backend_demo.Prelude.{
  ℕ, pos, Bool, true, false, ◌&&◌, ◌≡◌, ◌≢◌, refl, sym, ap, ◌∙◌, Option, none, some, List, [], ◌∷◌,
  ◌==◌, ==_refl, arith, if◌then◌else◌,
}
use backend_demo.Platform.Errors.{app, fault, record_not_found, Result, ok, err, Tx, statements}
use backend_demo.Platform.Text.{Text, codes, text_eq, text_eq_refl, trim, is_empty, byte_len}
use backend_demo.Platform.Idempotency.{
  Record, RecordStatus, record_pending, record_completed, Request, Response, Header, Table, execute,
  execute_tx, reserve, replay, complete_work, completed, clone_headers, validate_request,
  replayed_response, reserved,
}
use backend_demo.Platform.Idempotency.Records.{Lawful, Faithful}
use backend_demo.Platform.Idempotency.Replay.{Apart, execute-replayed, execute-reused}

-- The record, and what the business holds.
record Slot : Type 0 where
  row : Option Record
  orders : ℕ

abbrev at_scope : ℕ → Text → Text → Record → Bool
at_scope actor operation key_hash r =
    (r.actor_id == actor) && (text_eq r.operation_id operation && text_eq r.key_hash key_hash)

abbrev find : Option Record → ℕ → Text → Text → Option Record
find none actor operation key_hash = none
find (some r) actor operation key_hash =
    if at_scope actor operation key_hash r then some r else none

abbrev found : Option Record → Result Record
found none = err record_not_found
found (some r) = ok r

abbrev is_pending : RecordStatus → Bool
is_pending record_pending = true
is_pending record_completed = false

abbrev add_row : Option Record → Record → Slot → Result (Record × Slot)
add_row none r s = ok (record r { id = 1 }, record s { row = some (record r { id = 1 }) })
add_row (some _) r s = err (fault 1)

abbrev change_row : Option Record → ℕ → (Record → Record) → Slot → Result (ℕ × Slot)
change_row none id change s = ok (0, s)
change_row (some r) id change s =
    if (r.id == id) && is_pending r.status
    then ok (1, record s { row = some (change r) })
    else ok (0, s)

abbrev slot : Table Slot
slot = record {
  take = λ actor operation key_hash s. found (find s.row actor operation key_hash);
  create = λ r s. add_row s.row r s;
  complete = λ id change s. change_row s.row id change s;
}

found-ok : (o : Option Record) {r : Record} → found o ≡ ok r → o ≡ some r
found-ok none h = cc
found-ok (some r) h = cc

find-own : (r : Record) → find (some r) r.actor_id r.operation_id r.key_hash ≡ some r
find-own r =
    ground (arith, ==_refl r.actor_id, text_eq_refl r.operation_id, text_eq_refl r.key_hash)

add_row-find :
    (o : Option Record) (r q : Record) (s s' : Slot)
    → add_row o r s ≡ ok (q, s')
    → (q ≡ record r { id = q.id }) × (find s'.row r.actor_id r.operation_id r.key_hash ≡ some q)
add_row-find none r q s s' h =
    let made : q ≡ record r { id = 1 } = cc in
    let put : s'.row ≡ some (record r { id = 1 }) = ground arith in
    (
      made ∙ ap (λ n. record r { id = n }) (sym (ap (λ (x : Record). x.id) made)),
      ap (λ o. find o r.actor_id r.operation_id r.key_hash) put
          ∙ find-own (record r { id = 1 })
          ∙ ap (λ (x : Record). some x) (sym made),
    )
add_row-find (some _) r q s s' h = cc

same_scope :
    (actor : ℕ) (operation key_hash : Text) (r q : Record)
    → q.actor_id ≡ r.actor_id
    → q.operation_id ≡ r.operation_id
    → q.key_hash ≡ r.key_hash
    → at_scope actor operation key_hash r ≡ true
    → find (some q) actor operation key_hash ≡ some q
same_scope actor operation key_hash r q a o k here = rw a (rw o (rw k (rw here refl)))

change_row-find :
    (o : Option Record) (actor : ℕ) (operation key_hash : Text) (r : Record)
    (change : Record → Record) (s s' : Slot)
    → find o actor operation key_hash ≡ some r
    → (change r).actor_id ≡ r.actor_id
    → (change r).operation_id ≡ r.operation_id
    → (change r).key_hash ≡ r.key_hash
    → change_row o r.id change s ≡ ok (1, s')
    → find s'.row actor operation key_hash ≡ some (change r)
change_row-find none actor operation key_hash r change s s' f a o k h = cc
change_row-find (some q) actor operation key_hash r change s s' f a o k h =
    let same : q ≡ r = ground arith in
    let here : at_scope actor operation key_hash r ≡ true = ground arith in
    let put : s'.row ≡ some (change r) = ground arith in
    ap (λ x. find x actor operation key_hash) put
    ∙ same_scope actor operation key_hash r (change r) a o k here

abbrev slot_laws : Lawful slot
slot_laws = record {
  rows = λ s actor operation key_hash. find s.row actor operation key_hash;
  take_ok = λ actor operation key_hash s r h. found-ok (find s.row actor operation key_hash) h;
  create_ok = λ r q s s' h. add_row-find s.row r q s s' h;
  complete_ok = λ actor operation key_hash r change s s' f p a o k h.
      change_row-find s.row actor operation key_hash r change s s' f a o k h;
}

-- Headers that are a list of names and values.
abbrev plain : Header (List (Text × List Text))
plain = record {
  nil = [];
  make = [];
  entries = λ h. h;
  add = λ name value h. (name, value ∷ []) ∷ h;
  marshal = λ h. if is_nil h then ok (1 ∷ []) else err (fault 2);
  unmarshal = λ bytes. ok [];
}
  where
    is_nil : List (Text × List Text) → Bool
    is_nil [] = true
    is_nil (_ ∷ _) = false

plain-Faithful : Faithful plain
plain-Faithful = record { decodes = λ h bytes e. decodes h bytes e }
  where
    decodes :
        (h : List (Text × List Text)) (bytes : List ℕ)
        → plain.marshal h ≡ ok bytes
        → (bytes ≢ []) × (plain.unmarshal bytes ≡ ok h)
    decodes [] bytes e = (λ n. cc (n, e), refl)
    decodes (_ ∷ _) bytes e = cc

abbrev order_hash : Text
order_hash = codes "0123456789012345678901234567890123456789012345678901234567890123"

abbrev other_order : Text
other_order = codes "9123456789012345678901234567890123456789012345678901234567890123"

abbrev request : Request
request = record {
  actor_id = 7;
  operation_id = codes "order.create";
  key = codes " k1";
  request_hash = order_hash;
}

abbrev created : Response (List (Text × List Text))
created = record {
  http_status = pos 201;
  body = 5 ∷ [];
  headers = [];
  resource_type = codes "order";
  resource_id = some 1;
  replayed = false;
}

-- An order is placed.
abbrev place : Tx Slot (Response (List (Text × List Text)))
place s = ok (created, record s { orders = 1 })

abbrev empty : Slot
empty = record { row = none; orders = 0 }

abbrev plain_digest : Text → Text
plain_digest t = t

runs : Unit {0}
unfolding execute execute_tx reserve replay complete_work completed clone_headers validate_request
    replayed_response reserved statements trim is_empty byte_len
runs = tt

-- The slot after the order was placed at 10.
abbrev placed : Slot
placed = (execute plain slot plain_digest request 10 place empty).1

place-Apart : Apart slot slot_laws plain plain-Faithful place
place-Apart = record {
  apart = λ s s' u actor operation key_hash h.
      ap (λ (x : Slot). find x.row actor operation key_hash) (kept s s' u (h.result));
}
  where
    kept :
        (s s' : Slot) (u : Response (List (Text × List Text)))
        → place s ≡ ok (u, s')
        → record s' { orders = s.orders } ≡ s
    kept s s' u h = ground arith

execute-replayed_example :
    execute plain slot plain_digest request 20 place placed
    ≡ (ok (record created { replayed = true }), placed)
unfolding runs
execute-replayed_example =
    execute-replayed slot slot_laws plain plain-Faithful plain_digest request 10 20 place place
      empty {u = created} place-Apart refl refl

execute-reused_example :
    execute plain slot plain_digest (record request { request_hash = other_order }) 20 place placed
    ≡ (err (app 409 "idempotency_key_reused"), placed)
unfolding runs
execute-reused_example =
    execute-reused slot slot_laws plain plain-Faithful plain_digest request other_order 10 20 place
      place empty {u = created} place-Apart refl refl refl refl
