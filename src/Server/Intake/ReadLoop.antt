-- ===== src/Server/Intake/ReadLoop.antt =====
-- The read loop of internal/server/tunnel.go, one pass at a time.
use selftunnel.Common.{
  ℕ, Bool, true, not, List, [], Option, none, some, Text, codes, if◌then◌else◌, lookup, insert,
  nat_eq, text_eq, ◌==◌, nat_beq,
}
use selftunnel.Proto.{
  Frame, FrameType, frame, hello_version, hello, hello_ack, stats, response_start, response_chunk,
  response_end,
}
use selftunnel.Server.Session.{
  Session, Arm, Delivery, no_mailbox, delivered, aborted, blocked, route_response, touch,
}
use selftunnel.Server.Registry.{Tunnel, Supply, save_locked, with_target}
use selftunnel.Server.Intake.{
  Server, put_session, close_session, HelloError, HelloOutcome, send_to, handle_hello,
  version_mismatch, registration_failed, ack_failed, welcomed, unfinished, refused,
}

-- What `ReadMessage` gives: a frame, a payload that is no frame, or an error.
pub data Incoming : Type 0 where
  arrives : Frame → Incoming
  garbage read_failed : Incoming

-- A pass of the read loop ends with `continue` or with `return`; `blocks` is a pass that waits.
pub data Pass : Type 0 where
  goes_on returns blocks : Pass

abbrev pub error_text : HelloError → Text
error_text version_mismatch = codes "version mismatch"
error_text registration_failed = codes "registration failed"
error_text ack_failed = codes "session closed"

-- `_ = s.send(&proto.Frame{Type: "hello_ack", Ok: false, Error: …}); return`
unfoldable pub reject : Arm → Bool → HelloError → ℕ → Server → Pass × Server
reject arm timed_out e h srv =
    let (r, srv') =
      send_to arm timed_out (record (frame hello_ack) { error = error_text e }) h srv in
    (returns, srv')

abbrev pub hello_done_found : ℕ → Server → Option Session → Server
hello_done_found h srv none = srv
hello_done_found h srv (some s) = put_session h (record s { hello_done = true }) srv

unfoldable pub set_hello_done : ℕ → Server → Server
set_hello_done h srv = hello_done_found h srv (lookup h srv.sessions)

-- The choices of the runtime in one pass: for the acknowledgement, for the rejection and for the
-- delivery to a mailbox.
pub record Choices : Type 0 where
  pub ack_arm : Arm
  pub ack_timed_out : Bool
  pub reject_arm : Arm
  pub reject_timed_out : Bool
  pub delivery_aborts : Bool

abbrev pub after_hello : Choices → ℕ → Option (HelloOutcome × Server) → Option (Pass × Server)
after_hello c h none = none
after_hello c h (some (welcomed, srv)) = some (goes_on, set_hello_done h srv)
after_hello c h (some (unfinished, srv)) = some (blocks, srv)
after_hello c h (some (refused e, srv)) = some (reject c.reject_arm c.reject_timed_out e h srv)

abbrev pub retarget_found : Text → Bool → Text → Option Tunnel → Server → Server
retarget_found id write_ok target none srv = srv
retarget_found id write_ok target (some t) srv =
    let ts = insert id (with_target target t) srv.tunnels in
    record srv { tunnels = ts; file = (save_locked write_ok ts srv.file).1 }

-- A `stats` frame of a session that is bound to a tunnel.
abbrev pub retarget : Bool → Text → Option Text → Server → Server
retarget write_ok target none srv = srv
retarget write_ok target (some id) srv =
    if target == [] then srv else retarget_found id write_ok target (lookup id srv.tunnels) srv

abbrev pub routing : ℕ → Server → Delivery × Session → Pass × Server
routing h srv (no_mailbox, s) = (goes_on, put_session h s srv)
routing h srv (delivered, s) = (goes_on, put_session h s srv)
routing h srv (aborted, s) = (goes_on, put_session h s srv)
routing h srv (blocked, s) = (blocks, put_session h s srv)

module _ (sha256 : Text → List ℕ) where
  -- The `case "hello"` of the loop.
  unfoldable pub on_hello : Supply → Choices → ℕ → Frame → Session → Server → Option (Pass × Server)
  unfolding handle_hello reject set_hello_done
  on_hello w c h f s srv =
      if s.hello_done
      then some (goes_on, srv)
      else if not (nat_beq f.version hello_version)
      then some (reject c.reject_arm c.reject_timed_out version_mismatch h srv)
      else after_hello c h (handle_hello sha256 w c.ack_arm c.ack_timed_out h f srv)

  unfoldable pub on_frame :
      FrameType → Supply → Choices → ℕ → Frame → Session → Server → Option (Pass × Server)
  unfolding on_hello
  on_frame hello w c h f s srv = on_hello w c h f s srv
  on_frame stats w c h f s srv = some (goes_on, retarget w.write_ok f.target s.tun srv)
  on_frame response_start w c h f s srv =
      some (routing h srv (route_response c.delivery_aborts f s))
  on_frame response_chunk w c h f s srv =
      some (routing h srv (route_response c.delivery_aborts f s))
  on_frame response_end w c h f s srv = some (routing h srv (route_response c.delivery_aborts f s))
  on_frame _ w c h f s srv = some (goes_on, srv)

  abbrev pub on_message :
      Supply → Choices → ℕ → Incoming → Session → Server → Option (Pass × Server)
  on_message w c h read_failed s srv = some (returns, srv)
  on_message w c h garbage s srv = some (goes_on, put_session h (touch w.now s) srv)
  on_message w c h (arrives f) s srv =
      let s' = touch w.now s in on_frame f.type w c h f s' (put_session h s' srv)

  -- The deferred `close` of the loop.
  abbrev pub ending : ℕ → Option (Pass × Server) → Option (Pass × Server)
  ending h none = none
  ending h (some (goes_on, srv)) = some (goes_on, srv)
  ending h (some (blocks, srv)) = some (blocks, srv)
  ending h (some (returns, srv)) = elim (close_session h srv) [
    | none ↦ none
    | some t ↦ some (returns, t)
  ]

  abbrev pub pass_found :
      Supply → Choices → ℕ → Incoming → Server → Option Session → Option (Pass × Server)
  pass_found w c h m srv none = none
  pass_found w c h m srv (some s) = ending h (on_message w c h m s srv)

  -- One pass of the read loop of session `h`.
  unfoldable pub read_pass : Supply → Choices → ℕ → Incoming → Server → Option (Pass × Server)
  unfolding on_frame
  read_pass w c h m srv = pass_found w c h m srv (lookup h srv.sessions)
