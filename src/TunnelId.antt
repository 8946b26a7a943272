-- ===== src/TunnelId.antt =====
-- The tunnel identifier: `idRe`, `validTunnelID` and `generateID` of internal/server/registry.go
-- and relay.go, and the client's own test `IsValidCustomID` of internal/client/client.go.
pub mod Laws
mod Tests
use selftunnel.Common.{
  ℕ, ◌+◌, ◌-◌, ◌%◌, Bool, true, false, ◌&&◌, ◌||◌, not, List, [], ◌∷◌, map, Option, none, some,
  Text, ltb, leb, ◌==◌, nat_eq, if◌then◌else◌, length, codes, zero, suc,
}
use selftunnel.Text.{byte_length}

-- The class `[a-z0-9]`.
unfoldable pub is_id_rune : ℕ → Bool
is_id_rune c = (leb b'a' c && leb c b'z') || (leb b'0' c && leb c b'9')

unfoldable pub all_id_runes : Text → Bool
all_id_runes [] = true
all_id_runes (c ∷ s) = is_id_rune c && all_id_runes s

-- `idRe.MatchString`: `^[a-z0-9]{8}$` counts code points, and its `$` is the end of the text.
unfoldable pub id_re_matches : Text → Bool
id_re_matches s = length s == 8 && all_id_runes s

unfoldable pub valid_tunnel_id : Text → Bool
valid_tunnel_id id = id_re_matches id

-- The loop of `IsValidCustomID`, with its negated test.
unfoldable pub custom_id_loop : Text → Bool
custom_id_loop [] = true
custom_id_loop (r ∷ s) =
    if (ltb r b'a' || ltb b'z' r) && (ltb r b'0' || ltb b'9' r) then false else custom_id_loop s

-- `len(id)` counts bytes.
unfoldable pub is_valid_custom_id : Text → Bool
unfolding custom_id_loop
is_valid_custom_id id = if not (byte_length id == 8) then false else custom_id_loop id

-- `alphabet[k]`; the alphabet has 36 letters.
unfoldable pub alphabet_at : ℕ → ℕ
alphabet_at k = if ltb k 26 then b'a' + k else b'0' + (k - 26)

-- `generateID` on the eight bytes that `rand.Read` filled in; `none` is its error.
unfoldable pub generate_id : Option (List ℕ) → Option Text
generate_id none = none
generate_id (some b) = some (map (λ x. alphabet_at (x % 36)) b)
