-- ===== src/Circle/Store/Placement.antt =====
-- The operations on sections keep them in two levels.
use backend_demo.Prelude.{ap, ℕ, true, ◌≡◌, refl, sym, ◌∙◌, subst, Option, none, some, arith}
use backend_demo.Platform.Errors.{
  Result, ok, err, Runs, pure-Runs, >>-Runs, >>=-Runs, guard-Runs, query-Runs, exec-Runs, lift,
  statements, transaction-Runs, transaction_keeps,
}
use backend_demo.Circle.Post.{Section, SectionStatus, section_active, section_archived}
use backend_demo.Circle.Rule.{valid_parent}
use backend_demo.Circle.Input.{SectionInput}
use backend_demo.Circle.Database.{Database, Lawful, put_section}
use backend_demo.Circle.Store.{Services, lock_section}
use backend_demo.Circle.Store.Sections.{
  new_section, edited_section, moved_section, some_parent, section_parent, create_section_tx,
  create_section, update_section_tx, update_section, activation_parent, validate_section_transition,
  set_section_status_tx, set_section_status,
}
use backend_demo.Circle.Store.Effects.{section_event-tables, found_section}
use backend_demo.Circle.Store.Hierarchy.{HasRoot, Placed, Sound, put_section-Sound}

some_parent-ok :
    (r : Result Section) {o : Option Section}
    → some_parent r ≡ ok o
    → (x : Section) × (r ≡ ok x) × (o ≡ some x)
some_parent-ok (ok x) h = (x, refl, cc)
some_parent-ok (err e) h = cc

valid_parent-root :
    (id p : ℕ) (x : Section) → valid_parent id (some p) (some x) ≡ true → (x.parent_id ≡ none)
unfolding valid_parent
valid_parent-root id p x h = ground arith

edited_section_place :
    (actor : ℕ) (input : SectionInput) (x : Section)
    → ((edited_section actor input x).parent_id ≡ x.parent_id)
      × ((edited_section actor input x).id ≡ x.id)
unfolding edited_section
edited_section_place actor input x = (refl, refl)

moved_section_place :
    (actor : ℕ) (status : SectionStatus) (x : Section)
    → ((moved_section actor status x).parent_id ≡ x.parent_id)
      × ((moved_section actor status x).id ≡ x.id)
unfolding moved_section
moved_section_place actor status x = (refl, refl)

new_section-parent :
    (actor : ℕ) (input : SectionInput) → (new_section actor input).parent_id ≡ input.parent_id
unfolding new_section
new_section-parent actor input = refl

module _ {S : Type 0} (db : Database S) (env : Services) (law : Lawful db) where
  below_root :
      (p : ℕ) (s : S) (parent : Option Section)
      → section_parent db env (some p) s ≡ ok parent
      → valid_parent 0 (some p) parent ≡ true
      → HasRoot (db.tables s).sections p
  unfolding section_parent
  below_root p s parent read valid =
      let (x, found, same) = some_parent-ok (lock_section db p s) read in
      (
        x,
        found_section db env law p s found,
        valid_parent-root 0 p x (ap (valid_parent 0 (some p)) (sym same) ∙ valid),
      )

  create_section_tx-Sound :
      (actor : ℕ) (input : SectionInput) {s : S} {u : Section} {s' : S}
      → Sound (db.tables s)
      → Runs (create_section_tx db env actor input) s u s'
      → Sound (db.tables s')
  unfolding create_section_tx
  create_section_tx-Sound actor input {s} {u} {s'} sound h =
      let (parent, read, h1) = query-Runs h in
      let (valid, h2) = guard-Runs _ h1 in
      let (x, s1, made, h3) = >>=-Runs h2 in
      let (s2, told, h4) = >>-Runs h3 in
      let (_, last) = pure-Runs h4 in
      let (named, fresh, put) = law.create_section_ok _ x s s1 made.result in
      let up = ap (λ (z : Section). z.parent_id) named ∙ new_section-parent actor input in
      subst Sound (sym (ap db.tables last ∙ section_event-tables db env law x _ s1 s2 told ∙ put))
        (put_section-Sound x (db.tables s) (placed x fresh up parent read.result valid) sound)
    where
      placed :
          (x : Section)
          → (db.tables s).sections x.id ≡ none
          → x.parent_id ≡ input.parent_id
          → (parent : Option Section) → section_parent db env input.parent_id s ≡ ok parent
          → valid_parent 0 input.parent_id parent ≡ true
          → Placed x (db.tables s).sections
      placed x fresh up parent read valid = record {
        same = λ old there. cc (fresh, there);
        below = λ p own.
            let e = sym up ∙ own in
            below_root p s parent (ap (λ o. section_parent db env o s) (sym e) ∙ read)
              (ap (λ o. valid_parent 0 o parent) (sym e) ∙ valid);
      }

  -- A section written over by one in its place.
  rewrite-Sound :
      (id : ℕ) (x y : Section) (s s' : S)
      → Sound (db.tables s)
      → (db.tables s).sections id ≡ some x
      → y.id ≡ x.id
      → y.parent_id ≡ x.parent_id
      → db.tables s' ≡ put_section y (db.tables s)
      → Sound (db.tables s')
  rewrite-Sound id x y s s' sound there own up put =
      let at = own ∙ law.section_keyed s id x there in
      subst Sound (sym put) (
        put_section-Sound y (db.tables s)
          (record {
            same = λ old found.
                let z = sym found ∙ ap (db.tables s).sections at ∙ there in
                let e : old ≡ x = cc (z) in up ∙ ap (λ (t : Section). t.parent_id) (sym e);
            below = λ p o. sound.tree id p x there (sym up ∙ o);
          })
          sound)

  update_section_tx-Sound :
      (id actor version : ℕ) (input : SectionInput) {s : S} {u : Section} {s' : S}
      → Sound (db.tables s)
      → Runs (update_section_tx db env id actor version input) s u s'
      → Sound (db.tables s')
  unfolding update_section_tx
  update_section_tx-Sound id actor version input {s} {u} {s'} sound h =
      let (x, read, h1) = query-Runs h in
      let (_, h2) = guard-Runs _ h1 in
      let (s1, saved, h3) = exec-Runs h2 in
      let (s2, told, h4) = >>-Runs h3 in
      let (_, last) = pure-Runs h4 in
      let y = edited_section actor input x in
      let (up, own) = edited_section_place actor input x in
      rewrite-Sound id x y s s' sound (found_section db env law id s read.result) own up (
        ap db.tables last
        ∙ section_event-tables db env law y _ s1 s2 told
        ∙ law.save_section_ok y s s1 saved.result)

  activation-Runs :
      (x : Section) (o : Option ℕ) {s s' : S} → Runs (activation_parent db env x o) s tt s' → s' ≡ s
  activation-Runs x none h = (pure-Runs h).1
  activation-Runs x (some p) h =
      let (_, _, h1) = query-Runs h in let (_, h2) = guard-Runs _ h1 in (pure-Runs h2).1

  lift_state : (m : Result (Unit {0})) {s s' : S} → Runs (lift m) s tt s' → s' ≡ s
  unfolding statements
  lift_state (ok tt) h = cc (h.result)
  lift_state (err e) h = cc (h.result)

  transition-Runs :
      (x : Section) (status : SectionStatus) {s s' : S}
      → Runs (validate_section_transition db env x status) s tt s'
      → s' ≡ s
  unfolding validate_section_transition
  transition-Runs x section_archived h = lift_state _ h
  transition-Runs x section_active h =
      let (_, h1) = guard-Runs _ h in activation-Runs x x.parent_id h1

  set_section_status_tx-Sound :
      (id actor version : ℕ) (status : SectionStatus) {s : S} {u : Section} {s' : S}
      → Sound (db.tables s)
      → Runs (set_section_status_tx db env id actor version status) s u s'
      → Sound (db.tables s')
  unfolding set_section_status_tx
  set_section_status_tx-Sound id actor version status {s} {u} {s'} sound h =
      let (x, read, h1) = query-Runs h in
      let (_, h2) = guard-Runs _ h1 in
      let (s0, checked, h3) = >>-Runs h2 in
      let (s1, saved, h4) = exec-Runs h3 in
      let (s2, told, h5) = >>-Runs h4 in
      let (_, last) = pure-Runs h5 in
      let y = moved_section actor status x in
      let same = transition-Runs x status checked in
      let (up, own) = moved_section_place actor status x in
      rewrite-Sound id x y s s' sound (found_section db env law id s read.result) own up (
        ap db.tables last
        ∙ section_event-tables db env law y _ s1 s2 told
        ∙ law.save_section_ok y s0 s1 saved.result
        ∙ ap (λ t. put_section y (db.tables t)) same)

  pub create_section-Sound :
      (actor : ℕ) (input : SectionInput) (s : S)
      → Sound (db.tables s)
      → Sound (db.tables (create_section db env actor input s).1)
  unfolding create_section
  create_section-Sound actor input s sound =
      transaction_keeps (λ t. Sound (db.tables t)) _ s sound
        λ u h. create_section_tx-Sound actor input sound (transaction-Runs _ s h)

  pub update_section-Sound :
      (id actor version : ℕ) (input : SectionInput) (s : S)
      → Sound (db.tables s)
      → Sound (db.tables (update_section db env id actor version input s).1)
  unfolding update_section
  update_section-Sound id actor version input s sound =
      transaction_keeps (λ t. Sound (db.tables t)) _ s sound
        λ u h. update_section_tx-Sound id actor version input sound (transaction-Runs _ s h)

  pub set_section_status-Sound :
      (id actor version : ℕ) (status : SectionStatus) (s : S)
      → Sound (db.tables s)
      → Sound (db.tables (set_section_status db env id actor version status s).1)
  unfolding set_section_status
  set_section_status-Sound id actor version status s sound =
      transaction_keeps (λ t. Sound (db.tables t)) _ s sound
        λ u h. set_section_status_tx-Sound id actor version status sound (transaction-Runs _ s h)
