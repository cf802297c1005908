-- ===== src/Platform/Privacy/Masking.antt =====
-- What a masked contact gives away.
use backend_demo.Prelude.{
  ℕ, ◌+◌, ◌-◌, ◌⊎◌, ◌≤◌, ◌≡◌, refl, ◌∙◌, ap, [], ◌∷◌, ◌++◌, length, length-append, replicate, leb,
  arith, inl, inr, Bool-cases,
}
use backend_demo.Platform.Text.{Text, codes, trim}
use backend_demo.Platform.Privacy.{first_rune, last_rune, mask_contact}

-- A text that is not empty ends in its last code point.
last-split :
    (c : ℕ) (s : Text)
    → (middle : Text) × (b : ℕ) × (c ∷ s ≡ middle ++ (b ∷ [])) × (last_rune (c ∷ s) ≡ b ∷ [])
last-split c [] = ([], c, refl, refl)
last-split c (d ∷ s) =
    let (middle, b, split, last) = last-split d s in (c ∷ middle, b, ap (λ x. c ∷ x) split, last)

-- What a mask shows of a text of three code points or more: the first and the last.
Shown : Text → Text → Type 0
Shown s masked =
    (a : ℕ) × (middle : Text) × (b : ℕ) × (s ≡ a ∷ (middle ++ (b ∷ [])))
    × (1 ≤ length middle)
    × (masked ≡ a ∷ (replicate (length middle) b'*' ++ (b ∷ [])))

mask-Shown :
    (s : Text)
    → 3 ≤ length s
    → Shown s (first_rune s ++ (replicate (length s - 2) b'*' ++ last_rune s))
unfolding Shown
mask-Shown [] h = absurd (omega arith)
mask-Shown (a ∷ []) h = absurd (omega arith)
mask-Shown (a ∷ d ∷ s) h =
    let (middle, b, split, last) = last-split d s in
    let count : length (d ∷ s) ≡ length middle + 1 =
      ap length split ∙ length-append middle (b ∷ []) in
    let inner : length (a ∷ d ∷ s) - 2 ≡ length middle = omega (arith, count) in
    (a, middle, b, ap (λ x. a ∷ x) split, omega (arith, count, h), rw inner (rw last refl))

-- Contacts that have, once trimmed, the same length and the same first and last code point are
-- masked alike: nothing else of a contact shows through its mask.
pub mask_contact-same :
    (v w : Text)
    → length (trim v) ≡ length (trim w)
    → first_rune (trim v) ≡ first_rune (trim w)
    → last_rune (trim v) ≡ last_rune (trim w)
    → mask_contact v ≡ mask_contact w
unfolding mask_contact
mask_contact-same v w long first last = rw long (rw first (rw last refl))

-- The mask of a contact that has, once trimmed, at most two code points is two asterisks. That of a
-- longer one is its first code point, an asterisk for each of those between, of which there is one
-- at least, and its last.
pub mask_contact-shown :
    (v : Text)
    → ((length (trim v) ≤ 2) × (mask_contact v ≡ codes "**"))
      ⊎ ((a : ℕ) × (middle : Text) × (b : ℕ) × (trim v ≡ a ∷ (middle ++ (b ∷ [])))
          × (1 ≤ length middle)
          × (mask_contact v ≡ a ∷ (replicate (length middle) b'*' ++ (b ∷ []))))
unfolding mask_contact Shown
mask_contact-shown v = elim (Bool-cases (leb (length (trim v)) 2)) [
  | inl short ↦ inl (ground (arith, short), rw short refl)
  | inr long ↦ inr (rw long (mask-Shown (trim v) (ground (arith, long))))
]
