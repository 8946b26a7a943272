-- ===== src/Client/Address.antt =====
-- The client's addresses: `NormalizeServer` and `IsValidTarget` of internal/client/client.go, and
-- `publicTunnelURL` of cmd/selftunnel-client/main.go.
pub mod Laws
mod Tests
use selftunnel.Common.{
  ℕ, Bool, true, false, ◌&&◌, ◌||◌, not, List, [], ◌∷◌, ◌++◌, Text, ◌==◌, nat_eq, text_eq,
  if◌then◌else◌, codes, drop,
}
use selftunnel.Text.{has_prefix, has_suffix, trim_suffix, trim_space}

abbrev pub intake_path : Text
intake_path = codes "/ws/tunnel"

-- The scheme, rewritten to a WebSocket scheme or put in front.
unfoldable pub ws_scheme : Text → Text
ws_scheme s =
    if has_prefix s (codes "https://")
    then codes "wss://" ++ drop 8 s
    else if has_prefix s (codes "http://")
    then codes "ws://" ++ drop 7 s
    else if not (has_prefix s (codes "wss://")) && not (has_prefix s (codes "ws://"))
    then codes "wss://" ++ s
    else s

unfoldable pub with_intake_path : Text → Text
with_intake_path s = if not (has_suffix s intake_path) then s ++ intake_path else s

unfoldable pub normalize_server : Text → Text
unfolding ws_scheme with_intake_path
normalize_server url =
    let s = trim_space url in
    if s == [] then [] else with_intake_path (trim_suffix (ws_scheme s) (codes "/"))

unfoldable pub is_valid_target : Text → Bool
is_valid_target t = has_prefix t (codes "http://") || has_prefix t (codes "https://")

-- The public scheme for a WebSocket one.
unfoldable pub http_scheme : Text → Text
http_scheme s =
    if has_prefix s (codes "wss://")
    then codes "https://" ++ drop 6 s
    else if has_prefix s (codes "ws://")
    then codes "http://" ++ drop 5 s
    else s

unfoldable pub public_tunnel_url : Text → Text → Text
unfolding http_scheme
public_tunnel_url server_ws tunnel_id =
    http_scheme (trim_suffix server_ws intake_path) ++ codes "/t/" ++ tunnel_id
