-- ===== src/Server/Writer.antt =====
-- `writeLoop` of internal/server/tunnel.go, one pass at a time: the goroutine that writes what the session
-- queues to the connection. The arm that the select takes is an input; a pass
-- whose arm is not ready yet changes nothing. A tick leads the loop into the select of `send`, which it
-- leaves only by an arm of that one. Deadlines are not modelled.
pub mod Laws
pub mod Stuck
mod Tests
use selftunnel.Common.{ℕ, Bool, true, false, List, [], ◌∷◌, ◌∷ʳ◌, Option, none, some, if◌then◌else◌}
use selftunnel.Proto.{Frame, frame, ping}
use selftunnel.Server.Session.{
  Session, Arm, Sent, sent, session_closed, context_done, waits, send_with_context,
}

pub data Message : Type 0 where
  text_message : Frame → Message
  close_message : Message

-- `wire` is what was written to the connection; `write_done` tells that the loop has ended,
-- and `pinging` that it is in `send` with a ping of that time.
pub record Writer : Type 0 where
  pub session : Session
  pub wire : List Message
  pub pinging : Option ℕ
  pub write_done : Bool

-- The arms of the select: a frame of the queue, with whether its write works; the teardown; a tick at a
-- time. `selects` is an arm of the select in `send`, and whether its 5 seconds are over.
pub data WriterArm : Type 0 where
  dequeues : Bool → WriterArm
  sees_done : WriterArm
  ticks : ℕ → WriterArm
  selects : Arm → Bool → WriterArm

unfoldable pub ping_frame : ℕ → Frame
ping_frame ts = record (frame ping) { ts = ts }

abbrev pub write_next : Bool → List Frame → Writer → Writer
write_next ok [] w = w
write_next true (f ∷ fs) w = record w {
  session = record w.session { send_q = fs };
  wire = w.wire ∷ʳ text_message f;
}
write_next false (f ∷ fs) w = record w {
  session = record w.session { send_q = fs };
  write_done = true;
}

-- What comes of the `send` of a ping.
abbrev pub pinged : Sent × Session → Writer → Writer
pinged (sent, s) w = record w { session = s; pinging = none }
pinged (waits, s) w = record w { session = s }
pinged (session_closed, s) w = record w { session = s; pinging = none; write_done = true }
pinged (context_done, s) w = record w { session = s; pinging = none; write_done = true }

abbrev pub on_arm : WriterArm → Writer → Writer
on_arm (dequeues ok) w = write_next ok w.session.send_q w
on_arm sees_done w =
    if w.session.done then record w { wire = w.wire ∷ʳ close_message; write_done = true } else w
on_arm (ticks ts) w =
    if w.session.closed then record w { write_done = true } else record w { pinging = some ts }
on_arm (selects arm timed_out) w = w

abbrev pub on_ping : ℕ → WriterArm → Writer → Writer
on_ping ts (dequeues ok) w = w
on_ping ts sees_done w = w
on_ping ts (ticks t) w = w
on_ping ts (selects arm timed_out) w =
    pinged (send_with_context arm timed_out (ping_frame ts) w.session) w

abbrev pub in_select : Option ℕ → WriterArm → Writer → Writer
in_select none arm w = on_arm arm w
in_select (some ts) arm w = on_ping ts arm w

-- One pass of the loop, or of the select in its `send`, while it runs.
unfoldable pub write_pass : WriterArm → Writer → Writer
write_pass arm w = if w.write_done then w else in_select w.pinging arm w
