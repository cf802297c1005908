-- ===== src/Circle/Store/Hierarchy.antt =====
-- Sections stay in two levels, and posts in the lower one.
use backend_demo.Prelude.{
  ap, ℕ, Bool, true, false, ◌≡◌, ◌≢◌, refl, sym, ◌∙◌, subst, inl, inr, Option, none, some, ◌==◌,
  ==_iff, Bool-cases, if◌then◌else◌,
}
use backend_demo.Circle.Post.{Section, Post, is_approved}
use backend_demo.Circle.Rule.{is_root}
use backend_demo.Circle.Database.{Tables, put_section, put_post}
use backend_demo.Circle.Store.Effects.{Leaf, Wrote}

-- The root that a section of the lower level stands below.
abbrev pub HasRoot : (ℕ → Option Section) → ℕ → Type 0
HasRoot sections p = (root : Section) × (sections p ≡ some root) × (root.parent_id ≡ none)

abbrev pub is_set : Option ℕ → Bool
is_set none = false
is_set (some _) = true

-- A post is in a leaf; an approved one was reviewed and has a time of publication; its author does
-- not like it.
pub record PostOk (sections : ℕ → Option Section) (likes : ℕ → ℕ → Bool) (x : Post) : Type 0 where
  pub leaf : Leaf sections x.section_id
  pub decided :
      is_approved x.status ≡ true → (is_set x.reviewed_by ≡ true) × (is_set x.published_at ≡ true)
  pub fair : (user : ℕ) → likes x.id user ≡ true → x.author_id ≢ user

pub record Sound (tb : Tables) : Type 0 where
  pub tree :
      (id p : ℕ) (x : Section)
      → tb.sections id ≡ some x
      → x.parent_id ≡ some p
      → HasRoot tb.sections p
  pub posts : (id : ℕ) (x : Post) → tb.posts id ≡ some x → PostOk tb.sections tb.likes x

if_true {ℓ} :
    {A : Type ℓ} (b : Bool) (u : A) (o : Option A) {a : A}
    → b ≡ true
    → (if b then some u else o) ≡ some a
    → u ≡ a
if_true true u o e h = cc
if_true false u o e h = cc

if_false {ℓ} :
    {A : Type ℓ} (b : Bool) (u : A) (o : Option A) {a : A}
    → b ≡ false
    → (if b then some u else o) ≡ some a
    → o ≡ some a
if_false true u o e h = cc
if_false false u o e h = h

-- A section keeps its place in the tree, or is new below a root.
pub record Placed (y : Section) (sections : ℕ → Option Section) : Type 0 where
  pub same : (old : Section) → sections y.id ≡ some old → y.parent_id ≡ old.parent_id
  pub below : (p : ℕ) → y.parent_id ≡ some p → HasRoot sections p

put_section-Leaf :
    (y : Section) (tb : Tables) (id : ℕ)
    → Placed y tb.sections
    → Leaf tb.sections id
    → Leaf (put_section y tb).sections id
put_section-Leaf y tb id placed (x, there, child) = elim (Bool-cases (id == y.id)) [
  | inl here ↦
      let old = ap tb.sections (sym ((==_iff id y.id).0 here)) ∙ there in
      (y, rw here refl, ap is_root (placed.same x old) ∙ child)
  | inr other ↦ (x, rw other there, child)
]

put_section-HasRoot :
    (y : Section) (tb : Tables) (p : ℕ)
    → Placed y tb.sections
    → HasRoot tb.sections p
    → HasRoot (put_section y tb).sections p
put_section-HasRoot y tb p placed (root, there, top) = elim (Bool-cases (p == y.id)) [
  | inl here ↦
      let old = ap tb.sections (sym ((==_iff p y.id).0 here)) ∙ there in
      (y, rw here refl, placed.same root old ∙ top)
  | inr other ↦ (root, rw other there, top)
]

pub put_section-Sound :
    (y : Section) (tb : Tables) → Placed y tb.sections → Sound tb → Sound (put_section y tb)
put_section-Sound y tb placed sound = record {
  tree = λ id p x there up. elim (Bool-cases (id == y.id)) [
    | inl here ↦
        let own = if_true (id == y.id) y (tb.sections id) here there in
        put_section-HasRoot y tb p placed
          (placed.below p (ap (λ (z : Section). z.parent_id) own ∙ up))
    | inr other ↦
        put_section-HasRoot y tb p placed
          (sound.tree id p x (if_false (id == y.id) y (tb.sections id) other there) up)
  ];
  posts = λ id x there.
      let v = sound.posts id x there in
      record {
        leaf = put_section-Leaf y tb x.section_id placed v.leaf;
        decided = v.decided;
        fair = v.fair;
      };
}

pub Wrote-Sound :
    (u : Post) (before after : Tables)
    → Wrote u before after
    → PostOk before.sections before.likes u
    → Sound before
    → Sound after
Wrote-Sound u before after w v sound = record {
  tree = λ id p x there up.
      subst (λ f. HasRoot f p) (sym w.sections)
        (sound.tree id p x (ap (λ (f : ℕ → Option Section). f id) (sym w.sections) ∙ there) up);
  posts = λ id x there.
      subst (λ f. PostOk f after.likes x) (sym w.sections)
        (subst (λ f. PostOk before.sections f x) (sym w.likes)
          (at id x (ap (λ (f : ℕ → Option Post). f id) (sym w.posts) ∙ there)));
}
  where
    at :
        (id : ℕ) (x : Post)
        → (put_post u before).posts id ≡ some x
        → PostOk before.sections before.likes x
    at id x there = elim (Bool-cases (id == u.id)) [
      | inl here ↦
          subst (PostOk before.sections before.likes)
            (if_true (id == u.id) u (before.posts id) here there) v
      | inr other ↦ sound.posts id x (if_false (id == u.id) u (before.posts id) other there)
    ]
