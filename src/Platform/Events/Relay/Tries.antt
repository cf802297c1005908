-- ===== src/Platform/Events/Relay/Tries.antt =====
-- The life of one event under the relay: each try leases it and then dispatches or releases it.
use backend_demo.Prelude.{
  ℕ, suc, ◌+◌, ◌*◌, ◌≤◌, ◌<◌, ◌≡◌, ◌⊎◌, refl, Bool, true, false, ◌&&◌, Option, none, some, List, [],
  ◌∷◌, length, leb, arith, inl, inr, if◌then◌else◌,
}
use backend_demo.Platform.Text.{Text}
use backend_demo.Platform.Events.{
  Event, EventStatus, status_pending, status_dispatched, status_failed,
}
use backend_demo.Platform.Events.Relay.{is_due, leased, dispatched, released, second, max_attempts}

-- A leased event after its publication.
unfoldable pub settled : ℕ → ℕ → Option Text → Event → Event
unfolding dispatched released
settled now attempts none e = dispatched e
settled now attempts (some message) e = released now attempts message e

-- A try at a time, with what the publisher answers; an event that is not due is left alone.
unfoldable pub tried : ℕ → Option Text → Event → Event
unfolding is_due leased settled
tried now answer e = if is_due now e then settled now (suc e.attempts) answer (leased now e) else e

unfoldable pub tries : List (ℕ × Option Text) → Event → Event
unfolding tried
tries [] e = e
tries ((now, answer) ∷ rest) e = tries rest (tried now answer e)

abbrev pub is_settled : EventStatus → Bool
is_settled status_dispatched = true
is_settled status_failed = true
is_settled _ = false

-- The first try is not before `from`, and each later one at least four seconds after the last.
abbrev pub spaced : ℕ → List (ℕ × Option Text) → Bool
spaced from [] = true
spaced from ((now, answer) ∷ rest) =
    let later = spaced (now + 4 * second) rest in leb from now && later

settled-due : (now : ℕ) (e : Event) → is_settled e.status ≡ true → is_due now e ≡ false
unfolding is_due
settled-due now e h = ground arith

tries-settled :
    (schedule : List (ℕ × Option Text)) (e : Event)
    → is_settled e.status ≡ true
    → tries schedule e ≡ e
unfolding tries
tries-settled [] e h = refl
tries-settled ((now, answer) ∷ rest) e h =
    ground (arith, settled-due now e h, tries-settled rest e h)

-- A try of a pending event that is due settles it, or leaves it pending for at most four seconds.
tried-pending :
    (now : ℕ) (answer : Option Text) (e : Event)
    → e.status ≡ status_pending
    → e.available_at ≤ now
    → e.attempts < max_attempts
    → ((is_settled (tried now answer e).status ≡ true)
        × ((tried now answer e).attempts ≤ max_attempts))
      ⊎ (((tried now answer e).status ≡ status_pending)
          × ((tried now answer e).available_at ≤ now + 4 * second)
          × ((tried now answer e).attempts ≡ suc e.attempts)
          × (suc e.attempts < max_attempts))
unfolding tried
tried-pending now none e h available few = ground arith
tried-pending now (some message) e h available few = ground arith

-- A pending event that is tried, at times four seconds apart and none before it is available, so
-- often that its attempts reach five is dispatched or failed then, whatever the publisher answers;
-- it was tried five times at most, and is due at no time any more.
pub tries-is_settled :
    (schedule : List (ℕ × Option Text)) (e : Event) (from now : ℕ)
    → e.status ≡ status_pending
    → e.available_at ≤ from
    → spaced from schedule ≡ true
    → e.attempts < max_attempts
    → max_attempts ≤ e.attempts + length schedule
    → (is_settled (tries schedule e).status ≡ true)
      × ((tries schedule e).attempts ≤ max_attempts)
      × (is_due now (tries schedule e) ≡ false)
unfolding tries
tries-is_settled [] e from t h available room few enough = absurd (omega arith)
tries-is_settled ((now, answer) ∷ rest) e from t h available room few enough =
    elim (tried-pending now answer e h (ground arith) few) [
      | inl (done, bound) ↦
          rw (tries-settled rest (tried now answer e) done)
            (done, bound, settled-due t (tried now answer e) done)
      | inr (again, later, count, more) ↦
          tries-is_settled rest (tried now answer e) (now + 4 * second) t again later (ground arith)
            (ground arith) (omega arith)
    ]
