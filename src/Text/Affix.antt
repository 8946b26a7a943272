-- ===== src/Text/Affix.antt =====
-- What the prefix and suffix functions cut off is the prefix or suffix itself.
use selftunnel.Common.{
  none, ◌≤◌, ◌<◌, ℕ, ◌⊎◌, true, false, [], ◌∷◌, ◌++◌, some, Text, ◌==◌, nat_eq, text_eq, ◌≡◌, refl,
  ap, arith, text_beq_sound, text_beq_refl, inl, inr, Bool-cases, Option-cases, length,
  length-append,
}
use selftunnel.Text.{cut_prefix, has_prefix, trim_prefix, cut_suffix, has_suffix, trim_suffix}

pub cut_prefix_sound : (s p r : Text) → cut_prefix s p ≡ some r → s ≡ p ++ r
unfolding cut_prefix
cut_prefix_sound s [] r h = cc
cut_prefix_sound [] (p ∷ ps) r h = cc
cut_prefix_sound (c ∷ s) (p ∷ ps) r h = ground (arith, cut_prefix_sound s ps r)

pub cut_prefix-append : (p r : Text) → cut_prefix (p ++ r) p ≡ some r
unfolding cut_prefix
cut_prefix-append [] [] = refl
cut_prefix-append [] (c ∷ r) = refl
cut_prefix-append (c ∷ p) r = ground (arith, cut_prefix-append p r)

pub has_prefix-append : (p r : Text) → has_prefix (p ++ r) p ≡ true
unfolding has_prefix
has_prefix-append p r = rw cut_prefix-append

pub trim_prefix-append : (p r : Text) → trim_prefix (p ++ r) p ≡ r
unfolding trim_prefix
trim_prefix-append p r = rw cut_prefix-append

pub has_prefix_sound : (s p : Text) → has_prefix s p ≡ true → (r : Text) × (s ≡ p ++ r)
unfolding has_prefix
has_prefix_sound s p h = elim (Option-cases (cut_prefix s p)) [
  | inl e ↦ absurd (ground arith)
  | inr (r, e) ↦ (r, cut_prefix_sound s p r e)
]

pub cut_suffix_sound : (s q r : Text) → cut_suffix s q ≡ some r → s ≡ r ++ q
unfolding cut_suffix
cut_suffix_sound [] q r h = ground (arith, text_beq_sound [] q)
cut_suffix_sound (c ∷ s) q r h = elim (Bool-cases ((c ∷ s) == q)) [
  | inl t ↦ ground (arith, text_beq_sound (c ∷ s) q)
  | inr f ↦ elim (Option-cases (cut_suffix s q)) [
    | inl e ↦ absurd (ground arith)
    | inr (r', e) ↦ ground (arith, cut_suffix_sound s q r' e)
  ]
]

longer : (c : ℕ) (r q : Text) → (c ∷ (r ++ q)) == q ≡ false
longer c r q = elim (Bool-cases ((c ∷ (r ++ q)) == q)) [
  | inl t ↦ absurd (omega (arith, ap length (text_beq_sound (c ∷ (r ++ q)) q t), length-append r q))
  | inr f ↦ f
]

pub cut_suffix-append : (r q : Text) → cut_suffix (r ++ q) q ≡ some r
unfolding cut_suffix
cut_suffix-append [] [] = ground (arith, text_beq_refl [])
cut_suffix-append [] (c ∷ q) = ground (arith, text_beq_refl (c ∷ q))
cut_suffix-append (c ∷ r) q = rw (longer c r q, cut_suffix-append r q)

pub has_suffix-append : (r q : Text) → has_suffix (r ++ q) q ≡ true
unfolding has_suffix
has_suffix-append r q = rw cut_suffix-append

pub trim_suffix-append : (r q : Text) → trim_suffix (r ++ q) q ≡ r
unfolding trim_suffix
trim_suffix-append r q = rw cut_suffix-append

pub has_suffix_sound : (s q : Text) → has_suffix s q ≡ true → (r : Text) × (s ≡ r ++ q)
unfolding has_suffix
has_suffix_sound s q h = elim (Option-cases (cut_suffix s q)) [
  | inl e ↦ absurd (ground arith)
  | inr (r, e) ↦ (r, cut_suffix_sound s q r e)
]

-- Trimming either leaves the text or takes the suffix off.
pub trim_suffix-cases : (s q : Text) → (trim_suffix s q ≡ s) ⊎ (s ≡ trim_suffix s q ++ q)
unfolding trim_suffix
trim_suffix-cases s q = elim (Option-cases (cut_suffix s q)) [
  | inl e ↦ inl (rw e)
  | inr (r, e) ↦ inr (rw e (cut_suffix_sound s q r e))
]

pub trim_suffix_none : (s q : Text) → has_suffix s q ≡ false → trim_suffix s q ≡ s
unfolding trim_suffix has_suffix
trim_suffix_none s q h = ground arith

ne_of_length : (s q : Text) → length q < length s → s == q ≡ false
ne_of_length s q h = elim (Bool-cases (s == q)) [
  | inl t ↦ absurd (omega (arith, ap length (text_beq_sound s q t)))
  | inr f ↦ f
]

cut_suffix-none :
    (p s q : Text) → length q ≤ length s → cut_suffix s q ≡ none → cut_suffix (p ++ s) q ≡ none
unfolding cut_suffix
cut_suffix-none [] s q h e = e
cut_suffix-none (c ∷ p) s q h e =
    rw (ne_of_length (c ∷ (p ++ s)) q (omega (arith, length-append p s)), cut_suffix-none p s q h e)

cut_suffix-some :
    (p s q r : Text)
    → length q ≤ length s
    → cut_suffix s q ≡ some r
    → cut_suffix (p ++ s) q ≡ some (p ++ r)
unfolding cut_suffix
cut_suffix-some [] s q r h e = e
cut_suffix-some (c ∷ p) s q r h e =
    rw (
      ne_of_length (c ∷ (p ++ s)) q (omega (arith, length-append p s)),
      cut_suffix-some p s q r h e,
    )

-- A suffix that fits into the second part is sought there.
pub trim_suffix-append_long :
    (p s q : Text) → length q ≤ length s → trim_suffix (p ++ s) q ≡ p ++ trim_suffix s q
unfolding trim_suffix
trim_suffix-append_long p s q h = elim (Option-cases (cut_suffix s q)) [
  | inl e ↦ rw (e, cut_suffix-none p s q h e)
  | inr (r, e) ↦ rw (e, cut_suffix-some p s q r h e)
]
