-- ===== src/Platform/Events/Relay/Ticks.antt =====
-- A tick of the relay does to each row what the life of one event says.
use backend_demo.Prelude.{
  ℕ, suc, ◌≡◌, ◌⊎◌, refl, sym, ap, subst, ◌∙◌, true, false, Option, none, some, List, [], ◌∷◌, ◌==◌,
  ==_iff, Bool-cases, arith, inl, inr,
}
use backend_demo.Platform.Errors.{
  Result, ok, err, Runs, query-Runs, exec-Runs, pure-Runs, transaction-Runs, transaction,
  map_err-eq-ok,
}
use backend_demo.Platform.Text.{Text}
use backend_demo.Platform.Events.{Event}
use backend_demo.Platform.Events.Relay.{
  Row, Publisher, RelayTable, is_due, leased, taken, ids, taken_rows, lease_found, lease_tx, lease,
  publish_rows, with_leased, tick, lease_failed,
}
use backend_demo.Platform.Events.Relay.Tries.{settled, tried}
use backend_demo.Platform.Events.Relay.Rounds.{
  find_row, in_ids, if_in, Listed, Lawful, Silent, Distinct, publish_rows-Rounds,
}

-- Rows before and after the relay has taken them.
taken-id : (now : ℕ) (row : Row) → (taken now row).id ≡ row.id
unfolding taken
taken-id now row = refl

taken-attempts : (now : ℕ) (row : Row) → (taken now row).event.attempts ≡ suc row.event.attempts
unfolding taken
taken-attempts now row = refl

find_row-taken_rows :
    (now id : ℕ) (rows : List Row)
    → ((find_row id rows ≡ none)
        × (find_row id (taken_rows now rows) ≡ none)
        × (in_ids id (ids rows) ≡ false))
      ⊎ ((row : Row) × (find_row id rows ≡ some row)
          × (find_row id (taken_rows now rows) ≡ some (taken now row))
          × (in_ids id (ids rows) ≡ true))
find_row-taken_rows now id [] = inl (refl, refl, refl)
find_row-taken_rows now id (row ∷ rows) = elim (Bool-cases (row.id == id)) [
  | inl here ↦ inr (row, rw here refl, rw (taken-id now row) (rw here refl), rw here refl)
  | inr other ↦ elim (find_row-taken_rows now id rows) [
    | inl (a, b, c) ↦ inl (rw other a, rw (taken-id now row) (rw other b), rw other c)
    | inr (r, a, b, c) ↦ inr (r, rw other a, rw (taken-id now row) (rw other b), rw other c)
  ]
]

find_row-Listed :
    (events : ℕ → Option Event) (now id : ℕ) (rows : List Row) {row : Row}
    → Listed events now rows
    → find_row id rows ≡ some row
    → (events id ≡ some row.event) × (is_due now row.event ≡ true)
find_row-Listed events now id [] listed h = cc
find_row-Listed events now id (r ∷ rows) {row} (stored, due, _, listed) h =
    elim (Bool-cases (r.id == id)) [
      | inl here ↦
          let same : r ≡ row = ground (arith, here, h) in
          (
            ap events (sym ((==_iff r.id id).0 here))
                ∙ stored
                ∙ ap (λ (x : Row). some x.event) same,
            ap (λ (x : Row). is_due now x.event) (sym same) ∙ due,
          )
      | inr other ↦ find_row-Listed events now id rows {row = row} listed (ground (arith, other, h))
    ]

tried-due :
    (now : ℕ) (answer : Option Text) (e : Event)
    → is_due now e ≡ true
    → tried now answer e ≡ settled now (suc e.attempts) answer (leased now e)
unfolding tried
tried-due now answer e h = rw h refl

module _ {S : Type 0} (table : RelayTable S) (law : Lawful table) where
  Listed-Distinct :
      (events : ℕ → Option Event) (now : ℕ) (rows : List Row)
      → Listed events now rows
      → Distinct table law (taken_rows now rows)
  Listed-Distinct events now [] listed = tt
  Listed-Distinct events now (row ∷ rows) (_, _, alone, listed) = (
    elim (find_row-taken_rows now row.id rows) [
      | inl (_, absent, _) ↦ rw (taken-id now row) absent
      | inr (r, found, _, _) ↦ cc (alone, found)
    ],
    Listed-Distinct events now rows listed,
  )

  lease_found-Runs :
      (now : ℕ) (rows : List Row) {s : S} {got : List Row} {s' : S}
      → Runs (lease_found table now rows) s got s'
      → (got ≡ taken_rows now rows)
        × ((id : ℕ) → law.events s' id ≡ if_in (in_ids id (ids rows)) now (law.events s id))
  lease_found-Runs now [] {s} {got} {s'} h =
      let (same, last) = pure-Runs h in (same, λ id. ap (λ x. law.events x id) last)
  lease_found-Runs now (row ∷ rows) {s} {got} {s'} h =
      let (s1, marked, rest) = exec-Runs h in
      let (same, last) = pure-Runs rest in
      (
        same,
        λ id.
            ap (λ x. law.events x id) last
            ∙ law.mark_ok (ids (row ∷ rows)) now s s1 id marked.result,
      )

  lease-ok :
      (now : ℕ) (s : S) (rows got : List Row)
      → table.due_rows now s ≡ ok rows
      → (lease table now s).0 ≡ ok got
      → (got ≡ taken_rows now rows)
        × ((id : ℕ)
            → law.events (lease table now s).1 id
              ≡ if_in (in_ids id (ids rows)) now (law.events s id))
  unfolding lease lease_tx
  lease-ok now s rows got due h =
      let (found, read, rest) = query-Runs (transaction-Runs (lease_tx table now) s h) in
      let same : found ≡ rows =
        cc (map_err-eq-ok (λ _. lease_failed) (table.due_rows now s) read.result, due) in
      lease_found-Runs now rows (
        subst (λ x. Runs (lease_found table now x) s got (transaction (lease_tx table now) s).1)
          same rest)

  with_leased-ok :
      (m : Result (List Row) × S) (rest : List Row → S → Result (Unit {0}) × S)
      → (with_leased table m rest).0 ≡ ok tt
      → (rows : List Row) × (m.0 ≡ ok rows) × (with_leased table m rest ≡ rest rows m.1)
  with_leased-ok (ok rows, s) rest h = (rows, refl, refl)
  with_leased-ok (err e, s) rest h = cc

  -- After a tick without an error, with a publisher that leaves the events alone, an event that the
  -- query did not give is as before. One that it gave was due, was leased when its row was
  -- published, and is what one try makes of it that ends as the publisher then answered.
  pub tick-tried :
      (publish : Publisher S) (now : ℕ) (s : S) (rows : List Row) (id : ℕ) (e : Event)
      → Silent table law publish
      → table.due_rows now s ≡ ok rows
      → (tick table publish now s).0 ≡ ok tt
      → law.events s id ≡ some e
      → ((find_row id rows ≡ none) × (law.events (tick table publish now s).1 id ≡ some e))
        ⊎ ((row : Row) × (before : S) × (find_row id rows ≡ some row)
            × (is_due now e ≡ true)
            × (law.events before id ≡ some (leased now e))
            × (law.events (tick table publish now s).1 id
                ≡ some (tried now (publish (taken now row) before).0 e)))
  unfolding tick
  tick-tried publish now s rows id e silent due h there =
      let (got, leases, ran) =
        with_leased-ok (lease table now s) (publish_rows table publish now) h in
      let (same, marked) = lease-ok now s rows got due leases in
      let run = publish_rows table publish now (taken_rows now rows) (lease table now s).1 in
      let step : with_leased table (lease table now s) (publish_rows table publish now) ≡ run =
        ran ∙ ap (λ x. publish_rows table publish now x (lease table now s).1) same in
      let listed = law.due_ok now s rows due in
      let distinct = Listed-Distinct (law.events s) now rows listed in
      let went : run.0 ≡ ok tt = sym (ap (λ (x : Result (Unit {0}) × S). x.0) step) ∙ h in
      let rounds = λ (f : Event) (stored : law.events (lease table now s).1 id ≡ some f).
        publish_rows-Rounds table law publish now (taken_rows now rows) (lease table now s).1 id f
          silent distinct went stored in
      rw step (elim (find_row-taken_rows now id rows) [
        | inl (absent, absent', outside) ↦
            elim (rounds e (marked id ∙ rw outside (rw there refl))) [
              | inl (_, kept) ↦ inl (absent, kept)
              | inr (r, _, found, _, _) ↦ cc (absent', found)
            ]
        | inr (row, found, found', inside) ↦
            let (stored, is_due_) = find_row-Listed (law.events s) now id rows listed found in
            let own : row.event ≡ e = cc (stored, there) in
            let ready = ap (λ x. is_due now x) (sym own) ∙ is_due_ in
            elim (rounds (leased now e) (marked id ∙ rw inside (rw there refl))) [
              | inl (absent, _) ↦ cc (absent, found')
              | inr (r, before, found'', held, put) ↦
                  let same_row : r ≡ taken now row = cc (found', found'') in
                  let answer = (publish r before).0 in
                  let count : r.event.attempts ≡ suc e.attempts =
                    ap (λ (x : Row). x.event.attempts) same_row
                    ∙ taken-attempts now row
                    ∙ ap (λ (x : Event). suc x.attempts) own in
                  inr (
                    row,
                    before,
                    found,
                    ready,
                    held,
                    put
                        ∙ ap (λ n. some (settled now n answer (leased now e))) count
                        ∙ ap (λ (x : Event). some x) (sym (tried-due now answer e ready))
                        ∙ ap (λ x. some (tried now (publish x before).0 e)) same_row,
                  )
            ]
      ])
