-- ===== src/Platform/Privacy/Tests.antt =====
-- Contacts and their masks.
use backend_demo.Prelude.{◌≤◌, ◌++◌, replicate, ℕ, length, ◌≡◌, ◌⊎◌, refl, [], ◌∷◌}
use backend_demo.Platform.Text.{Text, codes, trim}
use backend_demo.Platform.Privacy.{mask_contact}
use backend_demo.Platform.Privacy.Masking.{mask_contact-same, mask_contact-shown}

mask_contact-same_example : mask_contact (codes "13800000001") ≡ mask_contact (codes " 13912345671")
unfolding trim
mask_contact-same_example =
    mask_contact-same (codes "13800000001") (codes " 13912345671") refl refl refl

mask_contact-shown_example :
    ((length (trim (codes "12345")) ≤ 2) × (mask_contact (codes "12345") ≡ codes "**"))
    ⊎ ((a : ℕ) × (middle : Text) × (b : ℕ) × (trim (codes "12345") ≡ a ∷ (middle ++ (b ∷ [])))
        × (1 ≤ length middle)
        × (mask_contact (codes "12345") ≡ a ∷ (replicate (length middle) b'*' ++ (b ∷ []))))
mask_contact-shown_example = mask_contact-shown (codes "12345")

two_runes_test : mask_contact (codes " 12 ") ≡ codes "**"
unfolding mask_contact trim
two_runes_test = refl

-- Member 7 asks for task 9, which is not there, and gets the parcel.
