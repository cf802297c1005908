-- ===== src/Platform/Events/Effects.antt =====
-- What a write of an event does to the database.
use backend_demo.Prelude.{ℕ, ◌≡◌, ◌⊎◌, inl, inr, arith}
use backend_demo.Platform.Errors.{ok, guard-Runs, Runs, lift-Runs, statements}
use backend_demo.Platform.Text.{Text}
use backend_demo.Platform.Events.{
  Event, EventTable, Host, new_event, event_key, persist, write_with_key, write_event, source_key,
}

module _ {S : Type 0} (table : EventTable S) where
  -- The row is inserted, or it was there and nothing is written.
  pub persist-eq-ok :
      (row : Event) (s s' : S)
      → persist table row s ≡ ok (tt, s')
      → (table.insert row s ≡ ok s') ⊎ (s' ≡ s)
  unfolding persist statements
  persist-eq-ok row s s' h = ground arith

module _ {S P : Type 0} (host : Host P) (table : EventTable S) where
  -- A write that succeeds has inserted one row, or changed nothing.
  pub write_with_key-Runs :
      (aggregate_type : Text) (id : ℕ) (event_type key : Text) (p : P) (s s' : S)
      → Runs (write_with_key host table aggregate_type id event_type key p) s tt s'
      → ((e : Event) × (table.insert e s ≡ ok s')) ⊎ (s' ≡ s)
  unfolding write_with_key
  write_with_key-Runs aggregate_type id event_type key p s s' h =
      let (_, rest) = guard-Runs _ h in
      let (bytes, marshalled, stored) = lift-Runs rest in
      let key' = event_key host aggregate_type id event_type key in
      let row = new_event host aggregate_type id event_type key' bytes in
      elim (persist-eq-ok table row s s' stored.result) [ inl i ↦ inl (row, i) | inr e ↦ inr e ]

  pub write_event-Runs :
      (version : P → ℕ) (aggregate_type : Text) (id : ℕ) (event_type : Text) (p : P) (s s' : S)
      → Runs (write_event host table version aggregate_type id event_type p) s tt s'
      → ((e : Event) × (table.insert e s ≡ ok s')) ⊎ (s' ≡ s)
  unfolding write_event
  write_event-Runs version aggregate_type id event_type p s s' h =
      let (_, rest) = guard-Runs _ h in
      let (bytes, marshalled, stored) = lift-Runs rest in
      let key = event_key host aggregate_type id event_type (source_key host (version p) bytes) in
      let row = new_event host aggregate_type id event_type key bytes in
      elim (persist-eq-ok table row s s' stored.result) [ inl i ↦ inl (row, i) | inr e ↦ inr e ]
