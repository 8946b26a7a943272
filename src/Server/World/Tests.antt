-- ===== src/Server/World/Tests.antt =====
-- A history of the server: a client connects, and another one.
use selftunnel.Common.{true, [], ◌∷◌, codes, lookup, nat_eq, pos, refl}
use selftunnel.TunnelId.{id_re_matches, all_id_runes, is_id_rune}
use selftunnel.Server.Registry.{missing, owned_tunnel, new_tunnel}
use selftunnel.Server.Registry.Tests.{demo_hash, desired_id, mine}
use selftunnel.Server.Intake.{Server}
use selftunnel.Server.Lifecycle.{handle_tunnel}
use selftunnel.Server.World.{connects, Reach, here, then}
use selftunnel.Server.World.Reads.{IsWorld}
use selftunnel.Server.World.Histories.{IsStart, reachable-IsWorld}

abbrev start_server : Server
start_server = record {
  tunnels = (desired_id, mine) ∷ [];
  file = missing;
  sessions = [];
  online_count = pos 0;
  allowed_origins = [];
}

start_server-IsStart : IsStart start_server
unfolding id_re_matches all_id_runes is_id_rune owned_tunnel new_tunnel lookup
start_server-IsStart = record {
  valid = record { entries = ((refl, refl), tt); distinct = (refl, tt) };
  offline = (refl, tt);
  no_sessions = refl;
}

abbrev one_client : Server
one_client = (handle_tunnel true 0 (codes "10.0.0.1") 5 start_server).1

one_connects : Reach demo_hash start_server one_client
unfolding lookup
one_connects = then (connects 0 (codes "10.0.0.1") 5 start_server refl) here

reachable-IsWorld_example : IsWorld one_client
reachable-IsWorld_example =
    reachable-IsWorld demo_hash start_server one_client start_server-IsStart one_connects
