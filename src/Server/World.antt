-- ===== src/Server/World.antt =====
-- The whole server as a step relation: connections, passes of the read loops of
-- internal/server/tunnel.go, teardowns, sends, the polls of internal/server/server.go, and the requests
-- of relay.go that come to a session and leave it, in any order. A pass of a read loop is one step, which its
-- choices bring to an end; a session that was closed reads no more.
pub mod Sessions
pub mod Hello
pub mod Reads
pub mod Frames
pub mod Passes
pub mod Requests
pub mod Histories
mod Tests
use selftunnel.Common.{
  ℕ, ◌<◌, Bool, true, false, List, Option, none, some, Text, All, length, lookup, nat_eq, ◌≡◌,
}
use selftunnel.Proto.{Frame}
use selftunnel.Server.Session.{Session, Arm, u32_mod}
use selftunnel.Server.Registry.{Tunnels, File, Supply}
use selftunnel.Server.Registry.Draws.{IsDraw}
use selftunnel.Server.Intake.{Server, close_session, send_to}
use selftunnel.Server.Intake.ReadLoop.{Incoming, Choices, Pass, goes_on, returns, read_pass}
use selftunnel.Server.Lifecycle.{handle_tunnel, poll_stats}
use selftunnel.Server.Admission.{Admission, admit, leave, count_request}

-- Fewer requests are in flight in every session than there are ids.
abbrev pub HasIds : Server → Type 0
HasIds srv = (h : ℕ) (s : Session) → lookup h srv.sessions ≡ some s → length s.pending < u32_mod

module _ (sha256 : Text → List ℕ) where
  pub data Step : Server → Server → Type 0 where
    connects :
        (h : ℕ) (remote_addr : Text) (now : ℕ) (srv : Server)
        → lookup h srv.sessions ≡ none
        → Step srv (handle_tunnel true h remote_addr now srv).1
    reads :
        (w : Supply) (c : Choices) (h : ℕ) (m : Incoming) (s : Session) (srv srv' : Server)
        → All IsDraw w.id_draws
        → lookup h srv.sessions ≡ some s
        → s.closed ≡ false
        → read_pass sha256 w c h m srv ≡ some (goes_on, srv')
        → Step srv srv'
    ends :
        (w : Supply) (c : Choices) (h : ℕ) (m : Incoming) (s : Session) (srv srv' : Server)
        → All IsDraw w.id_draws
        → lookup h srv.sessions ≡ some s
        → s.closed ≡ false
        → read_pass sha256 w c h m srv ≡ some (returns, srv')
        → Step srv srv'
    closes : (h : ℕ) (srv srv' : Server) → close_session h srv ≡ some srv' → Step srv srv'
    sends :
        (arm : Arm) (timed_out : Bool) (f : Frame) (h : ℕ) (srv : Server)
        → Step srv (send_to arm timed_out f h srv).1
    polls : (choices : ℕ → Arm × Bool) (srv : Server) → Step srv (poll_stats choices srv)
    admits :
        (url_path : Text) (srv srv' : Server) (a : Admission)
        → HasIds srv
        → admit url_path srv ≡ some (a, srv')
        → Step srv srv'
    leaves : (h req_id : ℕ) (srv srv' : Server) → leave h req_id srv ≡ some srv' → Step srv srv'
    counts : (id : Text) (srv : Server) → Step srv (count_request id srv)

  pub data Reach : Server → Server → Type 0 where
    here : {srv : Server} → Reach srv srv
    then : {a b c : Server} → Step a b → Reach b c → Reach a c
