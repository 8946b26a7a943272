-- ===== src/Server/Admission/Tests.antt =====
-- An admission on an example: the theorem at an input that meets its hypotheses.
use selftunnel.Common.{
  ℕ, true, [], ◌∷◌, none, some, Text, codes, lookup, nat_eq, text_eq, text_beq, pos, ◌≡◌, refl,
  arith,
}
use selftunnel.Text.{trim_prefix, cut_prefix, cut_at}
use selftunnel.TunnelId.{valid_tunnel_id, id_re_matches, all_id_runes, is_id_rune}
use selftunnel.Server.Session.{Session, new_session}
use selftunnel.Server.Session.Invariant.{IsOk, new_session-IsOk}
use selftunnel.Server.Registry.{Tunnel, missing}
use selftunnel.Server.Registry.Tests.{desired_id, mine}
use selftunnel.Server.Intake.{Server, put_session}
use selftunnel.Server.Relay.{split_tunnel_path}
use selftunnel.Server.Admission.{admitted, admit, leave}
use selftunnel.Server.Admission.Laws.{admit-leave}

abbrev session : Session
session = new_session (codes "10.0.0.1") 5

abbrev tunnel : Tunnel
tunnel = record mine { session = some 0 }

abbrev server : Server
server = record {
  tunnels = (desired_id, tunnel) ∷ [];
  file = missing;
  sessions = (0, session) ∷ [];
  online_count = pos 1;
  allowed_origins = [];
}

abbrev path : Text
path = codes "/t/ab12cd34/v1"

path_splits : split_tunnel_path path ≡ (desired_id, codes "/v1")
unfolding split_tunnel_path trim_prefix cut_prefix cut_at
path_splits = refl

path_valid : valid_tunnel_id (split_tunnel_path path).0 ≡ true
unfolding valid_tunnel_id id_re_matches all_id_runes is_id_rune
path_valid = rw path_splits

path_known : lookup (split_tunnel_path path).0 server.tunnels ≡ some tunnel
unfolding lookup text_beq
path_known = rw path_splits

admit-leave_example :
    (req_id : ℕ) × (box : ℕ) × (s' : Session) × (s'' : Session) × (admit path server
      ≡ some (admitted 0 req_id box (split_tunnel_path path).1, put_session 0 s' server))
    × (lookup req_id session.pending ≡ none)
    × (lookup req_id s'.pending ≡ some box)
    × IsOk s'
    × (leave 0 req_id (put_session 0 s' server)
        ≡ some (put_session 0 s'' (put_session 0 s' server)))
    × (lookup req_id s''.pending ≡ none)
    × IsOk s''
admit-leave_example =
    admit-leave path server tunnel 0 session path_valid path_known refl (unfold lookup in refl)
      (new_session-IsOk (codes "10.0.0.1") 5) (unfold new_session in omega arith)
