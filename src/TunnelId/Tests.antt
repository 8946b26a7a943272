-- ===== src/TunnelId/Tests.antt =====
-- The identifier functions on examples.
use selftunnel.Common.{ℕ, List, [], ◌∷◌, some, codes, ◌≡◌, refl, true, false}
use selftunnel.TunnelId.{
  valid_tunnel_id, generate_id, id_re_matches, all_id_runes, is_id_rune, alphabet_at,
}

valid_id : valid_tunnel_id (codes "ab12cd34") ≡ true
unfolding valid_tunnel_id id_re_matches all_id_runes is_id_rune
valid_id = refl

upper_id : valid_tunnel_id (codes "AB12CD34") ≡ false
unfolding valid_tunnel_id id_re_matches all_id_runes is_id_rune
upper_id = refl

drawn : List ℕ
drawn = 0 ∷ 25 ∷ 26 ∷ 35 ∷ 36 ∷ 255 ∷ 7 ∷ 8 ∷ []

generated : generate_id (some drawn) ≡ some (codes "az09adhi")
unfolding generate_id alphabet_at drawn
generated = refl
