-- ===== src/Circle/Input.antt =====
-- domain/rule.go: what an administrator may say of a section. `strings.ToLower` is a parameter,
-- like the parser of URLs.
use backend_demo.Prelude.{
  ℕ, zero, suc, ℤ, Bool, true, false, ◌&&◌, ◌||◌, not, Option, none, some, [], ◌∷◌, length, ltb,
  leb, ◌==◌, if◌then◌else◌,
}
use backend_demo.Platform.Text.{Text, is_empty, trim}
use backend_demo.Circle.Rule.{valid_url, is_root}

pub record SectionInput : Type 0 where
  pub parent_id : Option ℕ
  pub slug : Text
  pub name : Text
  pub description : Text
  pub icon_url : Text
  pub cover_url : Text
  pub sort_order : ℤ

abbrev is_letter : ℕ → Bool
is_letter c = leb 97 c && leb c 122

abbrev is_slug_char : ℕ → Bool
is_slug_char c = is_letter c || (leb 48 c && leb c 57) || (c == 95) || (c == 45)

abbrev all_slug_chars : Text → Bool
all_slug_chars [] = true
all_slug_chars (c ∷ s) = is_slug_char c && all_slug_chars s

-- `slugPattern`.
unfoldable pub is_slug : Text → Bool
is_slug [] = false
is_slug (c ∷ s) = is_letter c && all_slug_chars s && not (ltb 63 (length s))

abbrev is_zero : Option ℕ → Bool
is_zero none = false
is_zero (some zero) = true
is_zero (some (suc _)) = false

module _ (parse_uri : Text → Option (Text × Text)) (lower : Text → Text) where
  unfoldable pub normalize_section_input : SectionInput → SectionInput
  normalize_section_input input = record input {
    slug = lower (trim input.slug);
    name = trim input.name;
    description = trim input.description;
    icon_url = trim input.icon_url;
    cover_url = trim input.cover_url;
  }

  abbrev valid_optional_url : Text → Bool
  valid_optional_url value = is_empty value || valid_url parse_uri value

  abbrev pub valid_section : SectionInput → Bool → Bool
  valid_section input creating =
      if is_zero input.parent_id
      then false
      else if creating && not (is_slug input.slug)
      then false
      else if not creating && (not (is_empty input.slug) || not (is_root input.parent_id))
      then false
      else not (
          is_empty input.name
          || ltb 64 (length input.name)
          || ltb 500 (length input.description)
          || not (valid_optional_url input.icon_url)
          || not (valid_optional_url input.cover_url))

  -- `ValidateSectionInput`: no error.
  unfoldable pub validate_section_input : SectionInput → Bool → Bool
  unfolding normalize_section_input is_slug
  validate_section_input input creating = valid_section (normalize_section_input input) creating
