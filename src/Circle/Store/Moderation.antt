-- ===== src/Circle/Store/Moderation.antt =====
-- The operations on posts keep them in leaves, and reviewed before they are approved.
use backend_demo.Prelude.{
  ap, ℕ, Bool, true, false, ◌≡◌, refl, sym, ◌∙◌, subst, Option, some, [], arith,
}
use backend_demo.Platform.Errors.{
  Result, ok, err, Tx, Runs, pure-Runs, >>-Runs, guard-Runs, query-Runs, exec-Runs, transaction,
  transaction-Runs, transaction_keeps,
}
use backend_demo.Platform.Text.{Text, codes}
use backend_demo.Circle.Post.{Section, Post, PostInput, is_approved}
use backend_demo.Circle.Database.{Database, Lawful, put_post}
use backend_demo.Circle.Store.{Services, ensure_section_accepts_posts}
use backend_demo.Circle.Store.Posts.{
  with_item, edited_post, resubmitted, withdrawn_post, decided, reopened, mutate_post_tx,
  mutate_post, update_change, submit_change, withdraw_change, review_change, revoke_change,
  if_approved, save_with_event,
}
use backend_demo.Circle.Store.Effects.{
  Leaf, found_post, ensure-Runs, replace_images-Unseen, save_with_event-Runs, Wrote-Unseen,
}
use backend_demo.Circle.Store.Hierarchy.{is_set, PostOk, Sound, Wrote-Sound}

-- A post that keeps its number and author, and is approved only after a review.
record Revised (x u : Post) : Type 0 where
  own : u.id ≡ x.id
  author : u.author_id ≡ x.author_id
  decided_ :
      is_approved u.status ≡ true → (is_set u.reviewed_by ≡ true) × (is_set u.published_at ≡ true)

edited_post-Revised : (input : PostInput) (x : Post) → Revised x (edited_post input x)
unfolding edited_post
edited_post-Revised input x = record { own = refl; author = refl; decided_ = λ h. cc (h) }

resubmitted-Revised : (x : Post) → Revised x (resubmitted x)
unfolding resubmitted
resubmitted-Revised x = record { own = refl; author = refl; decided_ = λ h. cc (h) }

withdrawn_post-Revised : (x : Post) → Revised x (withdrawn_post x)
unfolding withdrawn_post
withdrawn_post-Revised x = record { own = refl; author = refl; decided_ = λ h. cc (h) }

decided-Revised :
    (admin : ℕ) (approved : Bool) (reason : Text) (now : ℕ) (x : Post)
    → Revised x (decided admin approved reason now x)
unfolding decided
decided-Revised admin approved reason now x = record {
  own = refl;
  author = refl;
  decided_ = λ h. ground (arith, h);
}

reopened-Revised :
    (admin : ℕ) (reason : Text) (now : ℕ) (x : Post) → Revised x (reopened admin reason now x)
unfolding reopened
reopened-Revised admin reason now x = record { own = refl; author = refl; decided_ = λ h. cc (h) }

edited_post_section :
    (input : PostInput) (x : Post) → (edited_post input x).section_id ≡ input.section_id
unfolding edited_post
edited_post_section input x = refl

kept_section :
    (admin : ℕ) (approved : Bool) (reason : Text) (now : ℕ) (x : Post)
    → ((resubmitted x).section_id ≡ x.section_id)
      × ((withdrawn_post x).section_id ≡ x.section_id)
      × ((decided admin approved reason now x).section_id ≡ x.section_id)
      × ((reopened admin reason now x).section_id ≡ x.section_id)
unfolding resubmitted withdrawn_post decided reopened
kept_section admin approved reason now x = (refl, refl, refl, refl)

Revised-PostOk :
    (sections : ℕ → Option Section) (likes : ℕ → ℕ → Bool) (x u : Post)
    → Revised x u
    → Leaf sections u.section_id
    → PostOk sections likes x
    → PostOk sections likes u
Revised-PostOk sections likes x u r leaf v = record {
  leaf = leaf;
  decided = r.decided_;
  fair = λ user liked same.
      v.fair user (ap (λ n. likes n user) (sym r.own) ∙ liked) (sym r.author ∙ same);
}

module _ {S : Type 0} (db : Database S) (env : Services) (law : Lawful db) where
  -- A change that keeps the tables sound, on any post that is stored.
  pub record Sane (change : Post → Tx S Post) : Type 0 where
    pub keeps :
        (id : ℕ) (x u : Post) (s s' : S)
        → (db.tables s).posts id ≡ some x
        → Runs (change x) s u s'
        → Sound (db.tables s)
        → Sound (db.tables s')

  with_item_state : (viewer : ℕ) (m : Result Post × S) → (with_item db env viewer m).1 ≡ m.1
  with_item_state viewer (ok x, s) = refl
  with_item_state viewer (err e, s) = refl

  pub with_item-Sound :
      (viewer : ℕ) (m : Tx S Post) (s : S)
      → Sound (db.tables s)
      → ((u : Post) → (transaction m s).0 ≡ ok u → Sound (db.tables (transaction m s).1))
      → Sound (db.tables (with_item db env viewer (transaction m s)).1)
  with_item-Sound viewer m s sound kept =
      subst (λ t. Sound (db.tables t)) (sym (with_item_state viewer (transaction m s)))
        (transaction_keeps (λ t. Sound (db.tables t)) m s sound kept)

  pub mutate_post-Sound :
      (id owner version viewer : ℕ) (change : Post → Tx S Post) (s : S)
      → Sane change
      → Sound (db.tables s)
      → Sound (db.tables (mutate_post db env id owner version viewer change s).1)
  unfolding mutate_post mutate_post_tx
  mutate_post-Sound id owner version viewer change s sane sound =
      with_item-Sound viewer _ s sound λ u h.
        let (x, read, h1) = query-Runs (transaction-Runs _ s h) in
        let (_, h2) = guard-Runs _ h1 in
        let (_, h3) = guard-Runs _ h2 in
        sane.keeps id x u s _ (found_post db env law id s read.result) h3 sound

  -- The end of a change that revises the post in its section.
  saved :
      (id : ℕ) (x u : Post) (kind : Text) (s : S) {w : Post} {s' : S}
      → Revised x u
      → u.section_id ≡ x.section_id
      → (db.tables s).posts id ≡ some x
      → Runs (save_with_event db env u kind) s w s'
      → Sound (db.tables s)
      → Sound (db.tables s')
  saved id x u kind s {w} {s'} r same there h sound =
      let (_, wrote) = save_with_event-Runs db env law u kind h in
      let v = sound.posts id x there in
      Wrote-Sound u (db.tables s) (db.tables s') wrote
        (Revised-PostOk _ _ x u r (subst (Leaf (db.tables s).sections) (sym same) v.leaf) v) sound

  pub withdraw_change-Sane : Sane (withdraw_change db env)
  unfolding withdraw_change
  withdraw_change-Sane = record {
    keeps = λ id x u s s' there h sound.
        let (_, h1) = guard-Runs _ h in
        saved id x (withdrawn_post x) _ s (withdrawn_post-Revised x) (kept_section 0 true [] 0 x).1
          there h1 sound;
  }

  pub revoke_change-Sane :
      (admin : ℕ) (reason : Text) (now : ℕ) → Sane (revoke_change db env admin reason now)
  unfolding revoke_change
  revoke_change-Sane admin reason now = record {
    keeps = λ id x u s s' there h sound.
        let (_, h1) = guard-Runs _ h in
        saved id x (reopened admin reason now x) _ s (reopened-Revised admin reason now x)
          (kept_section admin true reason now x).3 there h1 sound;
  }

  pub submit_change-Sane : Sane (submit_change db env)
  unfolding submit_change
  submit_change-Sane = record {
    keeps = λ id x u s s' there h sound.
        let (_, h1) = guard-Runs _ h in
        let (s1, checked, h2) = >>-Runs h1 in
        let (_, same) = ensure-Runs db env law x.section_id checked in
        saved id x (resubmitted x) _ s (resubmitted-Revised x) (kept_section 0 true [] 0 x).0 there
          (subst
            (λ t.
              Runs (save_with_event db env (resubmitted x) (codes "campus_circle.review_submitted"))
                t u s')
            same h2)
          sound;
  }

  if_approved_state :
      (b : Bool) (section : ℕ) {s s' : S}
      → Runs (if_approved db env b (ensure_section_accepts_posts db section)) s tt s'
      → s' ≡ s
  if_approved_state true section h = (ensure-Runs db env law section h).1
  if_approved_state false section h = (pure-Runs h).1

  pub review_change-Sane :
      (admin : ℕ) (approved : Bool) (reason : Text) (now : ℕ)
      → Sane (review_change db env admin approved reason now)
  unfolding review_change
  review_change-Sane admin approved reason now = record {
    keeps = λ id x u s s' there h sound.
        let (_, h1) = guard-Runs _ h in
        let (s1, checked, h2) = >>-Runs h1 in
        let same = if_approved_state approved x.section_id checked in
        saved id x (decided admin approved reason now x) _ s
          (decided-Revised admin approved reason now x) (kept_section admin approved reason now x).2
          there
          (subst
            (λ t.
              Runs
                (save_with_event db env (decided admin approved reason now x)
                  (codes "campus_circle.post_reviewed"))
                t u s')
            same h2)
          sound;
  }

  pub update_change-Sane : (input : PostInput) → Sane (update_change db env input)
  unfolding update_change
  update_change-Sane input = record {
    keeps = λ id x u s s' there h sound.
        let (_, h1) = guard-Runs _ h in
        let (s1, checked, h2) = >>-Runs h1 in
        let (leaf, same) = ensure-Runs db env law input.section_id checked in
        let (s2, written, h3) = exec-Runs h2 in
        let (s3, pictured, h4) = >>-Runs h3 in
        let (s4, told, h5) = >>-Runs h4 in
        let (_, last) = pure-Runs h5 in
        let y = edited_post input x in
        let put =
          law.save_post_ok y s1 s2 written.result ∙ ap (λ t. put_post y (db.tables t)) same in
        let images = replace_images-Unseen db env law x.id input.image_urls pictured in
        Wrote-Sound y (db.tables s) (db.tables s')
          (Wrote-Unseen db env law y _ s s2 s3 s4 s' put images told last)
          (Revised-PostOk _ _ x y (edited_post-Revised input x)
            (subst (Leaf (db.tables s).sections) (sym (edited_post_section input x)) leaf)
            (sound.posts id x there))
          sound;
  }
