-- ===== src/Platform/Idempotency/Records.antt =====
-- What the statements on `idempotency_records` do, and what a reservation and an answer leave
-- there.
use backend_demo.Prelude.{
  ℕ, Bool, true, false, ◌≡◌, ◌≢◌, ◌⊎◌, inl, inr, refl, sym, ◌∙◌, ap, Option, some, List, [], ◌∷◌,
  ==_iff, arith,
}
use backend_demo.Platform.Errors.{
  app, fault, record_not_found, Result, ok, err, Runs, >>=-Runs, guard-Runs, lift-Runs, lift,
  pure-Runs, statements,
}
use backend_demo.Platform.Text.{Text, text_eq}
use backend_demo.Platform.Idempotency.{
  Record, record_pending, record_completed, Request, Response, Header, Table, replay, reserved,
  looked_up, inserted, reserve_found, reserve, clone_headers, read_headers, encoded, decoded,
  completed, complete_work,
}

-- The table as a function of the unique key, and what the statements do to it: a read that finds no
-- row says so, a row that is inserted is found, and an update of one pending row has changed it.
pub record Lawful {S : Type 0} (table : Table S) : Type 0 where
  pub rows : S → ℕ → Text → Text → Option Record
  pub take_ok :
      (actor : ℕ) (operation key_hash : Text) (s : S) (r : Record)
      → table.take actor operation key_hash s ≡ ok r
      → rows s actor operation key_hash ≡ some r
  pub create_ok :
      (r q : Record) (s s' : S)
      → table.create r s ≡ ok (q, s')
      → (q ≡ record r { id = q.id }) × (rows s' r.actor_id r.operation_id r.key_hash ≡ some q)
  pub complete_ok :
      (actor : ℕ) (operation key_hash : Text) (r : Record) (change : Record → Record) (s s' : S)
      → rows s actor operation key_hash ≡ some r
      → r.status ≡ record_pending
      → (change r).actor_id ≡ r.actor_id
      → (change r).operation_id ≡ r.operation_id
      → (change r).key_hash ≡ r.key_hash
      → table.complete r.id change s ≡ ok (1, s')
      → rows s' actor operation key_hash ≡ some (change r)

-- JSON gives headers back, and is never empty.
pub record Faithful {H : Type 0} (header : Header H) : Type 0 where
  pub decodes :
      (h : H) (bytes : List ℕ)
      → header.marshal h ≡ ok bytes
      → (bytes ≢ []) × (header.unmarshal bytes ≡ ok h)

pub read_headers-marshal :
    {H : Type 0} (header : Header H) (h : H) (bytes : List ℕ)
    → Faithful header
    → header.marshal h ≡ ok bytes
    → read_headers header bytes ≡ ok h
read_headers-marshal header h [] f e = absurd ((f.decodes h [] e).0 refl)
read_headers-marshal header h (b ∷ bytes) f e = ap (decoded header) (f.decodes h (b ∷ bytes) e).1

pub replay-ok :
    (row : Record) (request : Request) {found : Record} {again : Bool}
    → replay row request ≡ ok (found, again)
    → (found ≡ row)
      × (again ≡ true)
      × (text_eq row.request_hash request.request_hash ≡ true)
      × (row.status ≡ record_completed)
unfolding replay
replay-ok row request h = ground arith

module _ {S : Type 0} (table : Table S) (law : Lawful table) where
  -- A reservation either finds the completed row of the same request and changes nothing, or has
  -- inserted a pending row for it.
  abbrev pub Outcome : Request → Text → S → Record → Bool → S → Type 0
  Outcome request key_hash s row again s' =
      ((again ≡ true)
        × (law.rows s request.actor_id request.operation_id key_hash ≡ some row)
        × (text_eq row.request_hash request.request_hash ≡ true)
        × (row.status ≡ record_completed)
        × (s' ≡ s))
      ⊎ ((again ≡ false)
          × (row ≡ record (reserved request key_hash) { id = row.id })
          × (law.rows s' request.actor_id request.operation_id key_hash ≡ some row))

  lift_done :
      (m : Result (Record × Bool)) (s s' : S) {u : Record × Bool}
      → lift m s ≡ ok (u, s')
      → (m ≡ ok u) × (s' ≡ s)
  unfolding statements
  lift_done (ok v) s s' h = (cc, cc)
  lift_done (err e) s s' h = cc

  looked_cases :
      (request : Request) (key_hash : Text) (s : S) (r : Result Record) {row : Record}
      {again : Bool}
      → table.take request.actor_id request.operation_id key_hash s ≡ r
      → looked_up table r request ≡ ok (row, again)
      → Outcome request key_hash s row again s
  looked_cases request key_hash s (ok existing) e h =
      let (same, again_, hash, done) = replay-ok existing request h in
      inl (
        again_,
        law.take_ok _ _ _ s existing e ∙ cc,
        ap (λ (x : Record). text_eq x.request_hash request.request_hash) same ∙ hash,
        ap (λ (x : Record). x.status) same ∙ done,
        refl,
      )
  looked_cases request key_hash s (err x) e h = cc

  inserted_cases :
      (request : Request) (key_hash : Text) (s : S) (r : Result (Record × S)) {row : Record}
      {again : Bool} {s' : S}
      → table.create (reserved request key_hash) s ≡ r
      → inserted table r request key_hash s ≡ ok ((row, again), s')
      → Outcome request key_hash s row again s'
  unfolding reserved
  inserted_cases request key_hash s (ok (q, s1)) {row} {again} {s'} e h =
      let same : row ≡ q = cc in
      let last : s' ≡ s1 = cc in
      let no : again ≡ false = cc in
      rw last (
        rw same (
          let (made, put) = law.create_ok (reserved request key_hash) q s s1 e in
          inr (no, made, put)))
  inserted_cases request key_hash s (err x) {row} {again} {s'} e h =
      let (found, last) = lift_done (looked_up table _ request) s s' h in
      rw last (looked_cases request key_hash s _ refl found)

  found_cases :
      (request : Request) (key_hash : Text) (s : S) (r : Result Record) {row : Record}
      {again : Bool} {s' : S}
      → table.take request.actor_id request.operation_id key_hash s ≡ r
      → reserve_found table r request key_hash s ≡ ok ((row, again), s')
      → Outcome request key_hash s row again s'
  found_cases request key_hash s (ok existing) {row} {again} {s'} e h =
      let (found, last) = lift_done (replay existing request) s s' h in
      rw last (looked_cases request key_hash s (ok existing) e found)
  found_cases request key_hash s (err record_not_found) e h =
      inserted_cases request key_hash s _ refl h
  found_cases request key_hash s (err (app _ _)) e h = cc
  found_cases request key_hash s (err (fault _)) e h = cc

  pub reserve-Runs :
      (request : Request) (key_hash : Text) {s : S} {row : Record} {again : Bool} {s' : S}
      → Runs (reserve table request key_hash) s (row, again) s'
      → Outcome request key_hash s row again s'
  unfolding reserve
  reserve-Runs request key_hash {s} h = found_cases request key_hash s _ refl h.result

encoded-ok :
    {H : Type 0} (header : Header H) (r : Result (List ℕ)) {bytes : List ℕ}
    → encoded header r ≡ ok bytes
    → r ≡ ok bytes
encoded-ok header (ok b) h = h
encoded-ok header (err e) h = cc

module _ {S H : Type 0} (table : Table S) (header : Header H) where
  -- What follows the work returns its answer with the headers cloned, and has written it.
  pub complete_work-Runs :
      (row : Record) (now : ℕ) (r : Response H) {s : S} {u : Response H} {s' : S}
      → Runs (complete_work header table row now r) s u s'
      → (bytes : List ℕ) × (u ≡ record r { headers = clone_headers header r.headers })
        × (header.marshal u.headers ≡ ok bytes)
        × (table.complete row.id (completed header u bytes now) s ≡ ok (1, s'))
  unfolding complete_work
  complete_work-Runs row now r {s} {u} {s'} h =
      let (_, h1) = guard-Runs _ h in
      let (_, h2) = guard-Runs _ h1 in
      let (bytes, marshalled, h3) = lift-Runs h2 in
      let (changed, s1, updated, h4) = >>=-Runs h3 in
      let (one, h5) = guard-Runs _ h4 in
      let (same, last) = pure-Runs h5 in
      let count : changed ≡ 1 = (==_iff changed 1).0 one in
      (
        bytes,
        same,
        ap (λ (x : Response H). header.marshal x.headers) same ∙ encoded-ok header _ marshalled,
        ap (λ (x : Response H). table.complete row.id (completed header x bytes now) s) same
            ∙ updated.result
            ∙ (λ i. ok (count i, sym last i)),
      )
