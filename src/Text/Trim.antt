-- ===== src/Text/Trim.antt =====
-- Trimmed text has no white space at either end, and trimming leaves such a text alone.
use selftunnel.Common.{
  ◌==◌, text_eq, text_beq, ℕ, false, [], ◌∷◌, Text, ◌≡◌, refl, inl, inr, Bool-cases, ◌∷ʳ◌,
}
use selftunnel.Text.{is_space, trim_left, trim_right, trim_space, keep_before}

-- The first and the last character are no white space.
abbrev pub StartsInk : Text → Type 0
StartsInk [] = Unit
StartsInk (c ∷ s) = is_space c ≡ false

pub trim_left-StartsInk : (s : Text) → StartsInk (trim_left s)
unfolding trim_left
trim_left-StartsInk [] = tt
trim_left-StartsInk (c ∷ s) = elim (Bool-cases (is_space c)) [
  | inl t ↦ rw t (trim_left-StartsInk s)
  | inr f ↦ rw f f
]

pub trim_left_ink : (s : Text) → StartsInk s → trim_left s ≡ s
unfolding trim_left
trim_left_ink [] h = refl
trim_left_ink (c ∷ s) h = rw h

-- A text that ends with ink is kept, whatever stands before.
pub trim_right-append : (s : Text) (c : ℕ) → is_space c ≡ false → trim_right (s ∷ʳ c) ≡ s ∷ʳ c
unfolding trim_right keep_before
trim_right-append [] c h = rw h
trim_right-append (x ∷ []) c h = rw (trim_right-append [] c h, keep_before)
trim_right-append (x ∷ y ∷ s) c h = rw (trim_right-append (y ∷ s) c h, keep_before)

pub trim_space_ink :
    (x : ℕ) (s : Text) (c : ℕ)
    → is_space x ≡ false
    → is_space c ≡ false
    → trim_space (x ∷ (s ∷ʳ c)) ≡ x ∷ (s ∷ʳ c)
unfolding trim_space
trim_space_ink x s c hx hc = rw (trim_left_ink (x ∷ (s ∷ʳ c)) hx) (trim_right-append (x ∷ s) c hc)

keep_before-StartsInk : (c : ℕ) (s : Text) → is_space c ≡ false → StartsInk (keep_before c s)
unfolding keep_before
keep_before-StartsInk c [] h = rw h h
keep_before-StartsInk c (d ∷ s) h = h

trim_right-StartsInk : (s : Text) → StartsInk s → StartsInk (trim_right s)
unfolding trim_right
trim_right-StartsInk [] h = tt
trim_right-StartsInk (c ∷ s) h = keep_before-StartsInk c (trim_right s) h

pub trim_space-StartsInk : (s : Text) → StartsInk (trim_space s)
unfolding trim_space
trim_space-StartsInk s = trim_right-StartsInk (trim_left s) (trim_left-StartsInk s)

-- Text without white space is left alone.
abbrev pub IsInk : Text → Type 0
IsInk [] = Unit
IsInk (c ∷ s) = (is_space c ≡ false) × IsInk s

keep_before_ink : (c : ℕ) (s : Text) → is_space c ≡ false → keep_before c s ≡ c ∷ s
unfolding keep_before
keep_before_ink c [] h = rw h
keep_before_ink c (d ∷ s) h = refl

trim_right-IsInk : (s : Text) → IsInk s → trim_right s ≡ s
unfolding trim_right
trim_right-IsInk [] h = refl
trim_right-IsInk (c ∷ s) h = rw (trim_right-IsInk s h.1) (keep_before_ink c s h.0)

trim_left-IsInk : (s : Text) → IsInk s → trim_left s ≡ s
trim_left-IsInk [] h = trim_left_ink [] tt
trim_left-IsInk (c ∷ s) h = trim_left_ink (c ∷ s) h.0

pub trim_space-IsInk : (s : Text) → IsInk s → trim_space s ≡ s
unfolding trim_space
trim_space-IsInk s h = rw (trim_left-IsInk s h) (trim_right-IsInk s h)

keep_before_filled : (c : ℕ) (s : Text) → is_space c ≡ false → (keep_before c s == []) ≡ false
unfolding keep_before text_beq
keep_before_filled c [] h = rw h refl
keep_before_filled c (d ∷ s) h = refl

-- Text that begins with ink is not trimmed to nothing.
pub trim_space_filled : (c : ℕ) (s : Text) → is_space c ≡ false → (trim_space (c ∷ s) == []) ≡ false
unfolding trim_space trim_right
trim_space_filled c s h = rw (trim_left_ink (c ∷ s) h) (keep_before_filled c (trim_right s) h)
