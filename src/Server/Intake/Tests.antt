-- ===== src/Server/Intake/Tests.antt =====
-- The intake on examples: the theorems at inputs that meet their hypotheses.
use selftunnel.Common.{
  ℕ, ◌+◌, true, false, [], ◌∷◌, none, some, codes, lookup, insert, nat_eq, text_eq, text_beq, ◌≡◌,
  refl, arith, pos,
}
use selftunnel.Text.{trim_space, trim_left, trim_right, to_lower, is_space, lower_rune}
use selftunnel.TunnelId.{id_re_matches, all_id_runes, is_id_rune}
use selftunnel.Base64.{encode, letter}
use selftunnel.Proto.{Frame, frame, hello}
use selftunnel.Server.Session.{
  Session, new_session, enqueue, send_with_context, select_send, close, close_if, tear_down,
  close_boxes,
}
use selftunnel.Server.Registry.{
  Tunnels, missing, registered, clean_desired, register, claim, verify_secret, hash_secret,
  owned_tunnel, new_tunnel,
}
use selftunnel.Server.Registry.Tests.{demo_hash, demo_sum, supply, desired_id, mine}
use selftunnel.Server.Intake.{
  Server, welcomed, tunnel_session, ack_frame, close_session, kick, bind, welcome, send_to,
  handle_hello,
}
use selftunnel.Server.Intake.Online.{online}
use selftunnel.Server.Intake.Counting.{replaced}
use selftunnel.Server.Intake.Takeover.{welcome_binds}
use selftunnel.Server.Intake.Hello.{handle_hello_counts}

abbrev first : Session
first = record (new_session (codes "10.0.0.1") 5) { tun = some desired_id; hello_done = true }

abbrev second : Session
second = new_session (codes "10.0.0.2") 6

abbrev held_by : ℕ → Tunnels
held_by h = (desired_id, record mine { session = some h }) ∷ []

abbrev server : Server
server = record {
  tunnels = held_by 0;
  file = missing;
  sessions = (0, first) ∷ (1, second) ∷ [];
  online_count = pos 1;
  allowed_origins = [];
}

abbrev closed : Session → Session
closed s = record s { closed = true; conn_open = false; done = true }

abbrev left : Server
left = record server {
  tunnels = (desired_id, record mine { session = none }) ∷ [];
  sessions = (0, closed first) ∷ (1, second) ∷ [];
  online_count = pos 0;
}

server_counts : server.online_count ≡ pos (online server.tunnels + 0)
unfolding owned_tunnel new_tunnel
server_counts = refl

closes_first : close_session 0 server ≡ some left
unfolding close_session close close_if tear_down close_boxes lookup insert new_session owned_tunnel
    new_tunnel text_beq
closes_first = refl

abbrev greeting : Frame
greeting = record (frame hello) { desired_id = desired_id; secret = codes "AQID"; version = 1 }

-- The second session has taken the tunnel from the first.
abbrev taken : Server
taken = record server {
  tunnels = held_by 1;
  sessions =
      (0, closed first)
      ∷ (
        1,
        record second { tun = some desired_id; send_q = ack_frame desired_id true false [] ∷ [] },
      )
      ∷ [];
  online_count = pos 2;
}

abbrev superseded : Server
superseded = record server { tunnels = held_by 1 }

abbrev superseded_closed : Server
superseded_closed = record superseded { sessions = (0, closed first) ∷ (1, second) ∷ [] }

closes_superseded : close_session 0 superseded ≡ some superseded_closed
unfolding close_session close close_if tear_down close_boxes lookup insert new_session owned_tunnel
    new_tunnel text_beq
closes_superseded = refl

welcomes_second :
    welcome enqueue false 1 server (registered desired_id true false []) ≡ some (welcomed, taken)
unfolding welcome bind kick close_session close close_if tear_down close_boxes send_to
    send_with_context select_send lookup insert new_session owned_tunnel new_tunnel text_beq
    ack_frame
welcomes_second = refl

welcome_binds_example : lookup desired_id taken.tunnels ≡ some (record mine { session = some 1 })
welcome_binds_example =
    welcome_binds enqueue false 1 server desired_id true false [] (record mine { session = some 0 })
      welcomed taken (unfold lookup text_beq in refl) welcomes_second

registry_answers :
    register demo_hash supply desired_id (codes "AQID") (held_by 0) missing
    ≡ (registered desired_id true false [], held_by 0, missing)
unfolding register claim lookup text_beq clean_desired trim_space trim_left trim_right is_space
    to_lower lower_rune id_re_matches all_id_runes is_id_rune verify_secret owned_tunnel new_tunnel
    hash_secret demo_hash demo_sum encode letter
registry_answers = refl

greets_second :
    handle_hello demo_hash supply enqueue false 1 greeting server ≡ some (welcomed, taken)
unfolding handle_hello
greets_second = rw registry_answers welcomes_second

handle_hello_counts_example :
    taken.online_count
    ≡ pos
        (online taken.tunnels + (0 + replaced (tunnel_session (lookup desired_id server.tunnels))))
handle_hello_counts_example =
    handle_hello_counts demo_hash supply enqueue false 1 greeting server desired_id true false []
      (held_by 0) missing welcomed taken 0 (omega arith) registry_answers greets_second
      server_counts
