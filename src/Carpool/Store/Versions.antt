-- ===== src/Carpool/Store/Versions.antt =====
-- The version of a trip guards each of its changes against lost updates.
use backend_demo.Prelude.{
  ℕ, ◌+◌, ◌<◌, ◌^◌, ◌≡◌, ◌≢◌, ◌∙◌, ap, sym, refl, subst, ==_refl, some, u64, arith,
}
use backend_demo.Platform.Errors.{ok, transaction-Runs}
use backend_demo.Platform.Events.{Host}
use backend_demo.Carpool.Trip.{Trip, trip_cancelled}
use backend_demo.Carpool.Database.{Database, Lawful, Tables, put_trip}
use backend_demo.Carpool.Store.{Cipher, TripPayload, seat_taken, seat_released, ended}
use backend_demo.Carpool.Store.Seats.{joinable, leavable, cancellable, join, leave, cancel}
use backend_demo.Carpool.Store.Effects.{join_tx-Runs, leave_tx-Runs, cancel_tx-Runs}

-- What a change that was made with `version` leaves: the returned row, with the next version.
pub record Advances (tb tb' : Tables) (id version : ℕ) (u : Trip) : Type 0 where
  pub before : (t : Trip) → tb.trips id ≡ some t → t.version ≡ version
  pub stored : tb'.trips id ≡ some u
  pub next : u.version ≡ u64 (version + 1)

stored_self : (tb : Tables) (u : Trip) (id : ℕ) → u.id ≡ id → (put_trip u tb).trips id ≡ some u
stored_self tb u id e = ground (arith, ==_refl id)

version_of :
    (tb : Tables) (id : ℕ) (t : Trip) (version : ℕ)
    → tb.trips id ≡ some t
    → t.version ≡ version
    → (u : Trip) → tb.trips id ≡ some u
    → u.version ≡ version
version_of tb id t version found e u h = ground arith

joinable-version :
    (user version now : ℕ) (t : Trip) → joinable user version now t ≡ ok tt → t.version ≡ version
unfolding joinable
joinable-version user version now t h = ground arith

leavable-version :
    (version now : ℕ) (t : Trip) → leavable version now t ≡ ok tt → t.version ≡ version
unfolding leavable
leavable-version version now t h = ground arith

cancellable-version :
    (user version now : ℕ) (t : Trip) → cancellable user version now t ≡ ok tt → t.version ≡ version
unfolding cancellable
cancellable-version user version now t h = ground arith

module _ {S : Type 0} (db : Database S) (host : Host TripPayload) (cipher : Cipher)
    (law : Lawful db) where
  advances :
      (id version : ℕ) (t u : Trip) (tb : Tables) (s s' : S)
      → (db.tables s).trips id ≡ some t
      → t.version ≡ version
      → u.id ≡ id
      → u.version ≡ u64 (t.version + 1)
      → db.tables s' ≡ put_trip u tb
      → Advances (db.tables s) (db.tables s') id version u
  advances id version t u tb s s' found e own next put = record {
    before = version_of (db.tables s) id t version found e;
    stored = ap (λ (x : Tables). x.trips id) put ∙ stored_self tb u id own;
    next = next ∙ ap (λ n. u64 (n + 1)) e;
  }

  pub join-Advances :
      (id user version now : ℕ) (s : S) {u : Trip}
      → (join db host cipher id user version now s).0 ≡ ok u
      → Advances
          (db.tables s)
          (db.tables (join db host cipher id user version now s).1)
          id
          version
          u
  unfolding join seat_taken
  join-Advances id user version now s {u} h =
      let (t, o, found, room, _, _, same, put) =
        join_tx-Runs db host cipher law id user version now (transaction-Runs _ s h) in
      subst (Advances (db.tables s) _ id version) (sym same) (
        advances id version t (seat_taken t) _ s _ found (joinable-version user version now t room)
          (law.keyed s id t found) refl put)

  pub leave-Advances :
      (id user version now : ℕ) (s : S) {u : Trip}
      → (leave db host cipher id user version now s).0 ≡ ok u
      → Advances
          (db.tables s)
          (db.tables (leave db host cipher id user version now s).1)
          id
          version
          u
  unfolding leave seat_released
  leave-Advances id user version now s {u} h =
      let (t, p, found, active, _, _, same, put) =
        leave_tx-Runs db host cipher law id user version now (transaction-Runs _ s h) in
      subst (Advances (db.tables s) _ id version) (sym same) (
        advances id version t (seat_released t) _ s _ found (leavable-version version now t active)
          (law.keyed s id t found) refl put)

  pub cancel-Advances :
      (id user version now : ℕ) (s : S) {u : Trip}
      → (cancel db host cipher id user version now s).0 ≡ ok u
      → Advances
          (db.tables s)
          (db.tables (cancel db host cipher id user version now s).1)
          id
          version
          u
  unfolding cancel ended
  cancel-Advances id user version now s {u} h =
      let (t, found, active, same, put) =
        cancel_tx-Runs db host cipher law id user version now (transaction-Runs _ s h) in
      subst (Advances (db.tables s) _ id version) (sym same) (
        advances id version t (ended trip_cancelled t) _ s _ found
          (cancellable-version user version now t active) (law.keyed s id t found) refl put)

  stale :
      (id version : ℕ) (u w : Trip) (tb tb' tb'' : Tables)
      → version + 1 < 2 ^ 64
      → Advances tb tb' id version u
      → Advances tb' tb'' id version w
      → ⊥
  stale id version u w tb tb' tb'' small first second =
      omega (arith, first.next, second.before u first.stored)

  -- Once a seat of a trip was taken with a version below the largest uint64, no join, leave or cancel
  -- of the same trip that brings the same version succeeds on the resulting state.
  pub join-stale :
      (id user version now user' now' : ℕ) (s : S) {u w : Trip}
      → version + 1 < 2 ^ 64
      → (join db host cipher id user version now s).0 ≡ ok u
      → let s' = (join db host cipher id user version now s).1 in
        ((join db host cipher id user' version now' s').0 ≢ ok w)
        × ((leave db host cipher id user' version now' s').0 ≢ ok w)
        × ((cancel db host cipher id user' version now' s').0 ≢ ok w)
  join-stale id user version now user' now' s {u} {w} small h =
      let s' = (join db host cipher id user version now s).1 in
      let first = join-Advances id user version now s h in
      (
        λ k. stale id version u w _ _ _ small first (join-Advances id user' version now' s' k),
        λ k. stale id version u w _ _ _ small first (leave-Advances id user' version now' s' k),
        λ k. stale id version u w _ _ _ small first (cancel-Advances id user' version now' s' k),
      )
