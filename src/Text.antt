-- ===== src/Text.antt =====
-- The functions of Go's `strings` and `unicode` packages that the program calls. A string is the
-- list of its code points; only `byte_length` looks at its UTF-8 form. Of the letters outside ASCII
-- the case functions know those that fold to an ASCII letter (U+0130, U+017F, U+212A): every test
-- of the program compares with ASCII text, so the others are left as they are.
pub mod Affix
pub mod Trim
use selftunnel.Common.{
  ℕ, ◌+◌, ◌-◌, Bool, true, false, ◌&&◌, ◌||◌, List, [], ◌∷◌, ◌++◌, map, Option, none, some, Text,
  ltb, leb, ◌==◌, if◌then◌else◌, nat_eq, text_eq,
}

-- `strings.CutPrefix`: what follows the prefix, if it is one.
unfoldable pub cut_prefix : Text → Text → Option Text
cut_prefix s [] = some s
cut_prefix [] (p ∷ ps) = none
cut_prefix (c ∷ s) (p ∷ ps) = if c == p then cut_prefix s ps else none

abbrev pub is_some {ℓ} : {A : Type ℓ} → Option A → Bool
is_some none = false
is_some (some a) = true

abbrev pub or_else {ℓ} : {A : Type ℓ} → Option A → A → A
or_else none a = a
or_else (some b) a = b

unfoldable pub has_prefix : Text → Text → Bool
has_prefix s p = is_some (cut_prefix s p)

unfoldable pub trim_prefix : Text → Text → Text
trim_prefix s p = or_else (cut_prefix s p) s

abbrev pub push_front : ℕ → Option Text → Option Text
push_front c none = none
push_front c (some r) = some (c ∷ r)

-- `strings.CutSuffix`: what stands before the suffix, if it is one.
unfoldable pub cut_suffix : Text → Text → Option Text
cut_suffix [] q = if [] == q then some [] else none
cut_suffix (c ∷ s) q = if (c ∷ s) == q then some [] else push_front c (cut_suffix s q)

unfoldable pub has_suffix : Text → Text → Bool
has_suffix s q = is_some (cut_suffix s q)

unfoldable pub trim_suffix : Text → Text → Text
trim_suffix s q = or_else (cut_suffix s q) s

-- `unicode.IsSpace`.
unfoldable pub is_space : ℕ → Bool
is_space c =
    (leb 9 c && leb c 13)
    || c == 32
    || c == 0x85
    || c == 0xa0
    || c == 0x1680
    || (leb 0x2000 c && leb c 0x200a)
    || c == 0x2028
    || c == 0x2029
    || c == 0x202f
    || c == 0x205f
    || c == 0x3000

unfoldable pub trim_left : Text → Text
trim_left [] = []
trim_left (c ∷ s) = if is_space c then trim_left s else c ∷ s

-- The white space at the end, dropped: a character stays if something that stays follows it.
keep_before : ℕ → Text → Text
keep_before c [] = if is_space c then [] else c ∷ []
keep_before c (d ∷ r) = c ∷ d ∷ r

unfoldable pub trim_right : Text → Text
unfolding keep_before
trim_right [] = []
trim_right (c ∷ s) = keep_before c (trim_right s)

unfoldable pub trim_space : Text → Text
trim_space s = trim_right (trim_left s)

unfoldable pub lower_rune : ℕ → ℕ
lower_rune c =
    if leb b'A' c && leb c b'Z'
    then c + 32
    else if c == 0x130
    then b'i'
    else if c == 0x212a
    then b'k'
    else c

unfoldable pub to_lower : Text → Text
to_lower = map lower_rune

-- Simple case folding, as `strings.EqualFold` uses it.
unfoldable pub fold_rune : ℕ → ℕ
fold_rune c =
    if leb b'A' c && leb c b'Z'
    then c + 32
    else if c == 0x17f
    then b's'
    else if c == 0x212a
    then b'k'
    else c

unfoldable pub equal_fold : Text → Text → Bool
equal_fold s t = map fold_rune s == map fold_rune t

-- The bytes of a code point in UTF-8, and `len(s)`.
unfoldable pub rune_length : ℕ → ℕ
rune_length c = if ltb c 0x80 then 1 else if ltb c 0x800 then 2 else if ltb c 0x10000 then 3 else 4

unfoldable pub byte_length : Text → ℕ
byte_length [] = 0
byte_length (c ∷ s) = rune_length c + byte_length s

-- `strings.Cut` at a one-character separator: the text before it, and what follows if it occurs.
unfoldable pub cut_at : ℕ → Text → Text × Option Text
cut_at sep [] = ([], none)
cut_at sep (c ∷ s) =
    let (before, after) = cut_at sep s in if c == sep then ([], some s) else (c ∷ before, after)

-- `strings.Split` at a one-character separator.
abbrev pub push_first : ℕ → List Text → List Text
push_first c [] = (c ∷ []) ∷ []
push_first c (p ∷ ps) = (c ∷ p) ∷ ps

unfoldable pub split : ℕ → Text → List Text
split sep [] = [] ∷ []
split sep (c ∷ s) = let rest = split sep s in if c == sep then [] ∷ rest else push_first c rest

-- `strings.Contains`.
unfoldable pub contains : Text → Text → Bool
contains [] t = has_prefix [] t
contains (c ∷ s) t = has_prefix (c ∷ s) t || contains s t
