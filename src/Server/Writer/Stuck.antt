-- ===== src/Server/Writer/Stuck.antt =====
-- The write loop of internal/server/tunnel.go in the `send` of its own ping.
use selftunnel.Common.{ℕ, ◌≤◌, true, some, length, ◌≡◌, ◌⊎◌}
use selftunnel.Server.Session.{Session, send_queue_cap}
use selftunnel.Server.Writer.{Writer}

abbrev IsFull : Session → Type 0
IsFull s = send_queue_cap ≤ length s.send_q

-- The loop has written and queued nothing since `w`, and is still in the `send` or has ended.
record Stays (ts : ℕ) (w x : Writer) : Type 0 where
  same_wire : x.wire ≡ w.wire
  same_session : x.session ≡ w.session
  state : (x.pinging ≡ some ts) ⊎ (x.write_done ≡ true)
