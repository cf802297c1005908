-- ===== src/Platform/Idempotency/Replay.antt =====
-- A request that is sent again, and a key that is used for another request.
use backend_demo.Prelude.{
  ℕ, Bool, true, false, ◌≡◌, inl, inr, refl, sym, ◌∙◌, ap, subst, some, arith,
}
use backend_demo.Platform.Errors.{
  app, Result, ok, err, Tx, Runs, lift, >>=-Runs, lift-Runs, pure-Runs, transaction,
  transaction-Runs, statements,
}
use backend_demo.Platform.Text.{Text, text_eq, text_eq_refl, text_eq_eq, trim}
use backend_demo.Platform.Idempotency.{
  Record, record_pending, record_completed, Request, Response, Header, Table, validate_request,
  replay, reserved, reserve, read_headers, replayed_response, completed, complete_work,
  execute_reserved, execute_tx, execute, if_valid,
}
use backend_demo.Platform.Idempotency.Records.{
  Lawful, Faithful, Outcome, read_headers-marshal, reserve-Runs, complete_work-Runs,
}

reserved-pending :
    (request : Request) (key_hash : Text)
    → ((reserved request key_hash).status ≡ record_pending)
      × ((reserved request key_hash).request_hash ≡ request.request_hash)
unfolding reserved
reserved-pending request key_hash = (refl, refl)

module _ {S H : Type 0} (table : Table S) (law : Lawful table) (header : Header H)
    (faithful : Faithful header) where
  -- The work leaves the records alone.
  pub record Apart (work : Tx S (Response H)) : Type 0 where
    pub apart :
        (s s' : S) (u : Response H) (actor : ℕ) (operation key_hash : Text)
        → Runs work s u s'
        → law.rows s' actor operation key_hash ≡ law.rows s actor operation key_hash

  -- The table holds a completed row of the request, which is replayed as `answer`.
  record Held (request : Request) (key_hash : Text) (s : S) (answer : Response H) : Type 0 where
    row : Record
    headers : H
    stored : law.rows s request.actor_id request.operation_id key_hash ≡ some row
    hash : text_eq row.request_hash request.request_hash ≡ true
    done : row.status ≡ record_completed
    decoded : read_headers header row.response_headers ≡ ok headers
    same : replayed_response header row headers ≡ record answer { replayed = true }

  new-Held :
      (request : Request) (key_hash : Text) (now : ℕ) (work : Tx S (Response H)) (row : Record)
      (s s1 s2 s' : S) (r u : Response H)
      → Apart work
      → row ≡ record (reserved request key_hash) { id = row.id }
      → law.rows s1 request.actor_id request.operation_id key_hash ≡ some row
      → Runs work s1 r s2
      → Runs (complete_work header table row now r) s2 u s'
      → Held request key_hash s' u
  unfolding completed replayed_response
  new-Held request key_hash now work row s s1 s2 s' r u apart made there worked ended =
      let (bytes, _, marshalled, updated) = complete_work-Runs table header row now r ended in
      let (blank, own) = reserved-pending request key_hash in
      let pending : row.status ≡ record_pending = ap (λ (x : Record). x.status) made ∙ blank in
      let hash : row.request_hash ≡ request.request_hash =
        ap (λ (x : Record). x.request_hash) made ∙ own in
      let kept =
        apart.apart s1 s2 r request.actor_id request.operation_id key_hash worked ∙ there in
      record {
        row = completed header u bytes now row;
        headers = u.headers;
        stored =
            law.complete_ok _ _ _ row (completed header u bytes now) s2 s' kept pending refl refl
              refl updated;
        hash = ap (λ x. text_eq x request.request_hash) hash ∙ text_eq_refl request.request_hash;
        done = refl;
        decoded = read_headers-marshal header u.headers bytes faithful marshalled;
        same = refl;
      }

  execute_tx-Held :
      (request : Request) (key_hash : Text) (now : ℕ) (work : Tx S (Response H)) {s : S}
      {u : Response H} {s' : S}
      → Apart work
      → Runs (execute_tx header table request key_hash now work) s u s'
      → Held request key_hash s' u
  unfolding execute_tx replayed_response
  execute_tx-Held request key_hash now work {s} {u} {s'} apart h =
      let ((row, again), s1, taken, rest) = >>=-Runs h in
      by_outcome row again s1 (reserve-Runs table law request key_hash taken) rest
    where
      replayed :
          (row : Record) (s1 : S)
          → Runs (execute_reserved header table (row, true) now work) s1 u s'
          → (hd : H) × (read_headers header row.response_headers ≡ ok hd)
            × (u ≡ replayed_response header row hd)
            × (s' ≡ s1)
      replayed row s1 rest =
          let (hd, decoded, done) = lift-Runs rest in
          let (same, last) = pure-Runs done in (hd, decoded, same, last)

      by_outcome :
          (row : Record) (again : Bool) (s1 : S)
          → Outcome table law request key_hash s row again s1
          → Runs (execute_reserved header table (row, again) now work) s1 u s'
          → Held request key_hash s' u
      by_outcome row again s1 (inl (repeated, stored, hash, done, kept)) rest =
          let (hd, decoded, same, last) = replayed row s1 (
            subst (λ b. Runs (execute_reserved header table (row, b) now work) s1 u s') repeated
              rest) in
          record {
            row = row;
            headers = hd;
            stored = rw last (rw kept stored);
            hash = hash;
            done = done;
            decoded = decoded;
            same = ap (λ (x : Response H). record x { replayed = true }) (sym same);
          }
      by_outcome row again s1 (inr (fresh, made, there)) rest =
          let (r, s2, worked, ended) = >>=-Runs (
            subst (λ b. Runs (execute_reserved header table (row, b) now work) s1 u s') fresh
              rest) in
          new-Held request key_hash now work row s s1 s2 s' r u apart made there worked ended

  execute-Runs :
      (digest : Text → Text) (request : Request) (now : ℕ) (work : Tx S (Response H)) (s : S)
      {u : Response H}
      → (execute header table digest request now work s).0 ≡ ok u
      → (validate_request request ≡ ok tt)
        × Runs
            (execute_tx header table request (digest (trim request.key)) now work)
            s
            u
            (execute header table digest request now work s).1
  unfolding execute
  execute-Runs digest request now work s {u} h = by_verdict (validate_request request) h
    where
      run : S → Result (Response H) × S
      run = transaction (execute_tx header table request (digest (trim request.key)) now work)

      by_verdict :
          (v : Result (Unit {0}))
          → (if_valid header table v run s).0 ≡ ok u
          → (v ≡ ok tt)
            × Runs
                (execute_tx header table request (digest (trim request.key)) now work)
                s
                u
                (if_valid header table v run s).1
      by_verdict (ok tt) h = (refl, transaction-Runs _ s h)
      by_verdict (err e) h = cc

  execute-of :
      (digest : Text → Text) (request : Request) (now : ℕ) (work : Tx S (Response H)) (s : S)
      → validate_request request ≡ ok tt
      → execute header table digest request now work s
        ≡ transaction (execute_tx header table request (digest (trim request.key)) now work) s
  unfolding execute
  execute-of digest request now work s v =
      ap
        (λ r.
          if_valid header table r
            (transaction (execute_tx header table request (digest (trim request.key)) now work)) s)
        v

  replay-Held :
      (row : Record) (request : Request)
      → text_eq row.request_hash request.request_hash ≡ true
      → row.status ≡ record_completed
      → replay row request ≡ ok (row, true)
  unfolding replay
  replay-Held row request hash done = ground (arith, hash, done)

  reserve-of :
      (request : Request) (key_hash : Text) (s : S) (r : Record) (v : Result (Record × Bool))
      → table.take request.actor_id request.operation_id key_hash s ≡ ok r
      → replay r request ≡ v
      → reserve table request key_hash s ≡ lift v s
  unfolding reserve statements
  reserve-of request key_hash s r v taken again = rw taken (rw again refl)

  Held-execute_tx :
      (request : Request) (key_hash : Text) (now : ℕ) (work : Tx S (Response H)) (s : S)
      (u : Response H) (r : Record)
      → Held request key_hash s u
      → table.take request.actor_id request.operation_id key_hash s ≡ ok r
      → transaction (execute_tx header table request key_hash now work) s
        ≡ (ok (record u { replayed = true }), s)
  unfolding execute_tx statements
  Held-execute_tx request key_hash now work s u r held taken =
      let same : r ≡ held.row =
        cc (law.take_ok request.actor_id request.operation_id key_hash s r taken, held.stored) in
      let found =
        reserve-of request key_hash s r _ taken
          (ap (λ x. replay x request) same ∙ replay-Held held.row request held.hash held.done) in
      rw found (rw held.decoded (rw held.same refl))

  -- After `Execute` succeeded, with work that leaves the records alone, the same request is
  -- answered with the same response, marked as replayed, whatever its work is, and changes nothing,
  -- provided that the read of its record gets through.
  pub execute-replayed :
      (digest : Text → Text) (request : Request) (now now' : ℕ) (work work' : Tx S (Response H))
      (s : S) {u : Response H} {r : Record}
      → Apart work
      → (execute header table digest request now work s).0 ≡ ok u
      → let s' = (execute header table digest request now work s).1 in
        table.take request.actor_id request.operation_id (digest (trim request.key)) s' ≡ ok r
        → execute header table digest request now' work' s'
          ≡ (ok (record u { replayed = true }), s')
  execute-replayed digest request now now' work work' s {u} {r} apart first taken =
      let (v, ran) = execute-Runs digest request now work s first in
      execute-of digest request now' work' _ v
      ∙ Held-execute_tx request _ now' work' _ u r (execute_tx-Held request _ now work apart ran)
          taken

  other_hash : (a b c : Text) → text_eq a b ≡ true → text_eq b c ≡ false → text_eq a c ≡ false
  other_hash a b c same other = ap (λ x. text_eq x c) (text_eq_eq a b same) ∙ other

  replay-other :
      (row : Record) (request : Request)
      → text_eq row.request_hash request.request_hash ≡ false
      → replay row request ≡ err (app 409 "idempotency_key_reused")
  unfolding replay
  replay-other row request other = ground (arith, other)

  -- After `Execute` succeeded, with work that leaves the records alone, a valid request of the same
  -- actor for the same operation under the same key, but with another hash, is refused as a reuse
  -- of the key, whatever its work is, and changes nothing, provided that the read of the record
  -- gets through.
  pub execute-reused :
      (digest : Text → Text) (request : Request) (hash : Text) (now now' : ℕ)
      (work work' : Tx S (Response H)) (s : S) {u : Response H} {r : Record}
      → Apart work
      → (execute header table digest request now work s).0 ≡ ok u
      → validate_request (record request { request_hash = hash }) ≡ ok tt
      → text_eq request.request_hash hash ≡ false
      → let s' = (execute header table digest request now work s).1 in
        table.take request.actor_id request.operation_id (digest (trim request.key)) s' ≡ ok r
        → execute header table digest (record request { request_hash = hash }) now' work' s'
          ≡ (err (app 409 "idempotency_key_reused"), s')
  unfolding execute_tx statements
  execute-reused digest request hash now now' work work' s {u} {r} apart first valid other taken =
      let (_, ran) = execute-Runs digest request now work s first in
      let held = execute_tx-Held request _ now work apart ran in
      let request' = record request { request_hash = hash } in
      let same : r ≡ held.row = cc (law.take_ok _ _ _ _ r taken, held.stored) in
      let refused = reserve-of request' _ _ r _ taken (
        ap (λ x. replay x request') same
        ∙ replay-other held.row request'
            (other_hash held.row.request_hash request.request_hash hash held.hash other)) in
      execute-of digest request' now' work' _ valid ∙ rw refused refl
