-- ===== src/Platform/Privacy.antt =====
-- internal/core/privacy/contact.go: contacts as they are shown to those who may not read them.
pub mod Masking
pub mod Tests
use backend_demo.Prelude.{
  ℕ, suc, ◌-◌, ◌+◌, ◌≤◌, ◌≡◌, refl, List, [], ◌∷◌, ◌++◌, length, length-append, replicate, leb,
  Bool, true, false, arith, if◌then◌else◌,
}
use backend_demo.Platform.Text.{Text, codes, trim}

-- `runes[:1]` and `runes[len(runes)-1:]`, of a text that is not empty.
abbrev pub first_rune : Text → Text
first_rune [] = []
first_rune (c ∷ s) = c ∷ []

abbrev pub last_rune : Text → Text
last_rune [] = []
last_rune (c ∷ []) = c ∷ []
last_rune (c ∷ d ∷ s) = last_rune (d ∷ s)

unfoldable pub mask_contact : Text → Text
mask_contact value =
    let runes = trim value in
    if leb (length runes) 2
    then codes "**"
    else first_rune runes ++ (replicate (length runes - 2) b'*' ++ last_rune runes)
