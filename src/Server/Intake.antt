-- ===== src/Server/Intake.antt =====
-- The tunnel intake: `Server`, `handleHello` and `checkOrigin` of internal/server/server.go, and the
-- read loop and `close` of internal/server/tunnel.go, which act on the server's state. A `*Session` is
-- a place in the server's table of sessions. `none` is a panic.
pub mod Online
pub mod Counting
pub mod ReadLoop
pub mod Takeover
pub mod Hello
pub mod Passes
mod Tests
use selftunnel.Common.{
  ℕ, suc, Bool, true, false, not, ◌&&◌, ◌||◌, List, [], ◌∷◌, Option, none, some, Text, codes,
  if◌then◌else◌, lookup, insert, nat_eq, text_eq, ◌==◌, nat_beq, ℤ, up, down,
}
use selftunnel.Text.{has_prefix}
use selftunnel.Proto.{
  Frame, FrameType, frame, hello_version, hello, hello_ack, stats, response_start, response_chunk,
  response_end,
}
use selftunnel.Server.Session.{
  Session, Arm, Sent, sent, session_closed, context_done, waits, send_with_context, Delivery,
  no_mailbox, delivered, aborted, blocked, route_response, touch, close,
}
use selftunnel.Server.Registry.{
  Tunnel, Tunnels, File, Supply, Registration, registered, random_failed, save_failed, drawing,
  register, save_locked, with_target,
}

pub record Server : Type 0 where
  pub tunnels : Tunnels
  pub file : File
  pub sessions : List (ℕ × Session)
  pub online_count : ℤ
  pub allowed_origins : List Text

-- `checkOrigin` on the value of the header.
unfoldable pub origin_allowed : Text → List Text → Bool
origin_allowed origin [] = false
origin_allowed origin (o ∷ os) =
    if o == codes "*" || has_prefix origin o then true else origin_allowed origin os

unfoldable pub check_origin : List Text → Text → Bool
unfolding origin_allowed
check_origin allowed origin = if origin == [] then false else origin_allowed origin allowed

abbrev pub put_session : ℕ → Session → Server → Server
put_session h s srv = record srv { sessions = insert h s srv.sessions }

abbrev pub put_tunnel : Text → Tunnel → Server → Server
put_tunnel id t srv = record srv { tunnels = insert id t srv.tunnels }

abbrev pub is_session : ℕ → Option ℕ → Bool
is_session h none = false
is_session h (some o) = nat_beq o h

-- `CompareAndSwap(s, nil)` on the tunnel's session, and the counter with it.
abbrev pub go_offline : ℕ → Text → Option Tunnel → Server → Server
go_offline h id none srv = srv
go_offline h id (some t) srv =
    if is_session h t.session
    then record srv {
      tunnels = insert id (record t { session = none }) srv.tunnels;
      online_count = down srv.online_count;
    }
    else srv

abbrev pub leave_tunnel : ℕ → Option Text → Server → Server
leave_tunnel h none srv = srv
leave_tunnel h (some id) srv = go_offline h id (lookup id srv.tunnels) srv

-- `close`: the session's own teardown, then the tunnel's. The flag tells that it was the first.
abbrev pub closing : ℕ → Server → Option (Bool × Session) → Option Server
closing h srv none = none
closing h srv (some (false, s)) = some srv
closing h srv (some (true, s)) = some (leave_tunnel h s.tun (put_session h s srv))

abbrev pub closing_found : ℕ → Server → Option Session → Option Server
closing_found h srv none = some srv
closing_found h srv (some s) = closing h srv (close s)

unfoldable pub close_session : ℕ → Server → Option Server
close_session h srv = closing_found h srv (lookup h srv.sessions)

-- `old.close()`, for a session that is there and is not this one.
unfoldable pub kick : ℕ → Option ℕ → Server → Option Server
kick h none srv = some srv
kick h (some o) srv = if nat_beq o h then some srv else close_session o srv

-- The errors that end a hello: their texts are those that the failing `hello_ack` carries.
pub data HelloError : Type 0 where
  version_mismatch registration_failed ack_failed : HelloError

-- `unfinished`: the call has not returned yet, for want of random draws or of a ready arm.
pub data HelloOutcome : Type 0 where
  welcomed unfinished : HelloOutcome
  refused : HelloError → HelloOutcome

unfoldable pub ack_frame : Text → Bool → Bool → Text → Frame
ack_frame id reused denied secret = record (frame hello_ack) {
  ok = true;
  tunnel_id = id;
  id_reused = reused;
  desired_denied = denied;
  secret = if not reused && not (secret == []) then secret else [];
}

-- `sess.send`: the caller's `arm` and `timed_out` decide the select.
abbrev pub sending : ℕ → Server → Sent × Session → Sent × Server
sending h srv (r, s) = (r, put_session h s srv)

abbrev pub send_found : Arm → Bool → Frame → ℕ → Server → Option Session → Sent × Server
send_found arm timed_out f h srv none = (session_closed, srv)
send_found arm timed_out f h srv (some s) = sending h srv (send_with_context arm timed_out f s)

unfoldable pub send_to : Arm → Bool → Frame → ℕ → Server → Sent × Server
send_to arm timed_out f h srv = send_found arm timed_out f h srv (lookup h srv.sessions)

abbrev pub ack_outcome : Sent → HelloOutcome
ack_outcome sent = welcomed
ack_outcome session_closed = refused ack_failed
ack_outcome context_done = refused ack_failed
ack_outcome waits = unfinished

abbrev pub acknowledge : Arm → Bool → Frame → ℕ → Option Server → Option (HelloOutcome × Server)
acknowledge arm timed_out ack h none = none
acknowledge arm timed_out ack h (some srv) =
    let (r, srv') =
      send_to arm timed_out ack h (record srv { online_count = up srv.online_count }) in
    some (ack_outcome r, srv')

abbrev pub tunnel_session : Option Tunnel → Option ℕ
tunnel_session none = none
tunnel_session (some t) = t.session

abbrev pub with_session : ℕ → Text → Option Tunnel → Server → Server
with_session h id none srv = srv
with_session h id (some t) srv = put_tunnel id (record t { session = some h }) srv

abbrev pub with_tun : ℕ → Text → Option Session → Server → Server
with_tun h id none srv = srv
with_tun h id (some s) srv = put_session h (record s { tun = some id }) srv

-- `sess.tun = tun; tun.session.Swap(sess)`.
unfoldable pub bind : ℕ → Text → Server → Server
bind h id srv =
    with_session h id (lookup id srv.tunnels) (with_tun h id (lookup h srv.sessions) srv)

-- `handleHello` once the registry has answered.
unfoldable pub welcome : Arm → Bool → ℕ → Server → Registration → Option (HelloOutcome × Server)
unfolding kick bind
welcome arm timed_out h srv (registered id reused denied secret) =
    let old = tunnel_session (lookup id srv.tunnels) in
    acknowledge arm timed_out (ack_frame id reused denied secret) h (kick h old (bind h id srv))
welcome arm timed_out h srv random_failed = some (refused registration_failed, srv)
welcome arm timed_out h srv save_failed = some (refused registration_failed, srv)
welcome arm timed_out h srv drawing = some (unfinished, srv)

module _ (sha256 : Text → List ℕ) where
  unfoldable pub handle_hello :
      Supply → Arm → Bool → ℕ → Frame → Server → Option (HelloOutcome × Server)
  unfolding welcome
  handle_hello w arm timed_out h f srv =
      let (r, ts, file) = register sha256 w f.desired_id f.secret srv.tunnels srv.file in
      welcome arm timed_out h (record srv { tunnels = ts; file = file }) r
