-- ===== src/TunnelId/Laws.antt =====
-- The two tests agree, and a generated identifier passes them.
use selftunnel.Common.{
  ℕ, ◌%◌, ◌<◌, true, false, List, [], ◌∷◌, map, some, Text, nat_eq, length, length-map, arith, ◌≡◌,
  ◌≢◌, refl, Bool-cases, inl, inr,
}
use selftunnel.Text.{byte_length, rune_length, is_space, lower_rune, to_lower, trim_space}
use selftunnel.Text.Trim.{IsInk, trim_space-IsInk}
use selftunnel.TunnelId.{
  is_id_rune, all_id_runes, id_re_matches, valid_tunnel_id, custom_id_loop, is_valid_custom_id,
  alphabet_at, generate_id,
}

custom_id_loop-all : (s : Text) → custom_id_loop s ≡ all_id_runes s
unfolding custom_id_loop all_id_runes is_id_rune
custom_id_loop-all [] = refl
custom_id_loop-all (c ∷ s) = ground (arith, custom_id_loop-all s)

pub byte_length-ascii : (s : Text) → all_id_runes s ≡ true → byte_length s ≡ length s
unfolding all_id_runes is_id_rune byte_length rune_length
byte_length-ascii [] h = refl
byte_length-ascii (c ∷ s) h = ground (arith, byte_length-ascii s)

-- The client accepts a custom identifier exactly when the server's pattern does, although the one
-- counts bytes and the other code points.
pub custom_id_agrees : (s : Text) → is_valid_custom_id s ≡ valid_tunnel_id s
unfolding is_valid_custom_id valid_tunnel_id id_re_matches
custom_id_agrees s = elim (Bool-cases (all_id_runes s)) [
  | inl t ↦ ground (arith, custom_id_loop-all s, byte_length-ascii s t)
  | inr f ↦ ground (arith, custom_id_loop-all s)
]

alphabet_at_ok : (k : ℕ) → k < 36 → is_id_rune (alphabet_at k) ≡ true
unfolding is_id_rune alphabet_at
alphabet_at_ok k h = ground arith

all_alphabet : (b : List ℕ) → all_id_runes (map (λ x. alphabet_at (x % 36)) b) ≡ true
unfolding all_id_runes
all_alphabet [] = refl
all_alphabet (x ∷ b) = ground (arith, alphabet_at_ok (x % 36), all_alphabet b)

-- Whatever eight bytes the random source gives, the generated identifier is a valid one.
pub generate_id_valid :
    (b : List ℕ) (id : Text)
    → length b ≡ 8
    → generate_id (some b) ≡ some id
    → id_re_matches id ≡ true
unfolding generate_id id_re_matches
generate_id_valid b id h e =
    ground (arith, all_alphabet b, length-map (λ x. alphabet_at (x % 36)) b)

id_rune_plain : (c : ℕ) → is_id_rune c ≡ true → (is_space c ≡ false) × (lower_rune c ≡ c)
unfolding is_id_rune is_space lower_rune
id_rune_plain c h = ground arith

all_id_runes-IsInk : (s : Text) → all_id_runes s ≡ true → IsInk s
unfolding all_id_runes
all_id_runes-IsInk [] h = tt
all_id_runes-IsInk (c ∷ s) h =
    ((id_rune_plain c (ground arith)).0, all_id_runes-IsInk s (ground arith))

to_lower-all_id_runes : (s : Text) → all_id_runes s ≡ true → to_lower s ≡ s
unfolding all_id_runes to_lower
to_lower-all_id_runes [] h = refl
to_lower-all_id_runes (c ∷ s) h = ground (arith, id_rune_plain c, to_lower-all_id_runes s)

empty_fails : ¬ (id_re_matches [] ≡ true)
unfolding id_re_matches
empty_fails h = cc

-- A valid identifier is not changed by trimming and lowercasing, and it is not empty.
pub id_re-clean : (s : Text) → id_re_matches s ≡ true → (to_lower (trim_space s) ≡ s) × (s ≢ [])
id_re-clean s h =
    let runes : all_id_runes s ≡ true = unfold id_re_matches in ground arith in
    (
      rw (trim_space-IsInk s (all_id_runes-IsInk s runes)) (to_lower-all_id_runes s runes),
      λ e. empty_fails (rw e at h),
    )
