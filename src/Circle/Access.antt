-- ===== src/Circle/Access.antt =====
-- What the rules of the campus circle say together.
use backend_demo.Prelude.{ℕ, Bool, true, false, ◌≡◌, some, List, any, arith}
use backend_demo.Circle.Post.{Section, Post, Action, is_active}
use backend_demo.Circle.Rule.{valid_parent, can_accept_posts}

abbrev action_eq : Action → Action → Bool
action_eq Action.edit Action.edit = true
action_eq Action.withdraw Action.withdraw = true
action_eq Action.submit_review Action.submit_review = true
action_eq Action.like Action.like = true
action_eq Action.unlike Action.unlike = true
action_eq Action.comment Action.comment = true
action_eq _ _ = false

abbrev pub offers : Action → List Action → Bool
offers a = any (action_eq a)

-- An active section that the rule let be placed below a parent accepts posts exactly while that
-- parent, which still is a root, is active.
pub valid_parent-posts :
    (s parent later : Section)
    → valid_parent s.id s.parent_id (some parent) ≡ true
    → later.id ≡ parent.id
    → later.parent_id ≡ parent.parent_id
    → is_active s.status ≡ true
    → can_accept_posts (some s) (some later) ≡ is_active later.status
unfolding valid_parent can_accept_posts
valid_parent-posts s parent later placed same root active = ground arith

-- Where a section below a parent accepts posts, the parent itself accepts none, whatever is said to
-- be above it, and no third level can be placed below the section.
pub can_accept_posts-two_levels :
    (s parent grandparent : Section) (child : ℕ)
    → can_accept_posts (some s) (some parent) ≡ true
    → (can_accept_posts (some parent) (some grandparent) ≡ false)
      × (valid_parent child (some s.id) (some s) ≡ false)
unfolding valid_parent can_accept_posts
can_accept_posts-two_levels s parent grandparent child accepts = (ground arith, ground arith)
