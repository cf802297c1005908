-- ===== src/Circle/Post.antt =====
-- domain/campus_circle_sections.gen.go, domain/campus_circle_posts.gen.go and the constants of
-- domain/rule.go; `created_at` and `updated_at` are left out.
use backend_demo.Prelude.{ℕ, ℤ, Bool, true, false, Option, List}
use backend_demo.Platform.Text.{Text}

pub data SectionStatus : Type 0 where
  section_active section_archived : SectionStatus

pub data PostStatus : Type 0 where
  post_pending post_approved post_rejected post_withdrawn : PostStatus

pub data Relation : Type 0 where
  anonymous owner other admin : Relation

pub data Action : Type 0 where
  edit withdraw submit_review like unlike comment : Action

pub record Section : Type 0 where
  pub id : ℕ
  pub parent_id : Option ℕ
  pub slug : Text
  pub name : Text
  pub description : Option Text
  pub icon_url : Option Text
  pub cover_url : Option Text
  pub sort_order : ℤ
  pub status : SectionStatus
  pub created_by : ℕ
  pub updated_by : ℕ
  pub version : ℕ

pub record Post : Type 0 where
  pub id : ℕ
  pub section_id : ℕ
  pub author_id : ℕ
  pub title : Option Text
  pub content : Option Text
  pub status : PostStatus
  pub review_reason : Option Text
  pub reviewed_by : Option ℕ
  pub reviewed_at : Option ℕ
  pub published_at : Option ℕ
  pub version : ℕ

pub record PostInput : Type 0 where
  pub section_id : ℕ
  pub title : Text
  pub content : Text
  pub image_urls : List Text

abbrev pub is_active : SectionStatus → Bool
is_active section_active = true
is_active section_archived = false

abbrev pub is_pending : PostStatus → Bool
is_pending post_pending = true
is_pending _ = false

abbrev pub is_approved : PostStatus → Bool
is_approved post_approved = true
is_approved _ = false

abbrev pub is_rejected : PostStatus → Bool
is_rejected post_rejected = true
is_rejected _ = false
