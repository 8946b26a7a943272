-- ===== src/Client/Serving.antt =====
-- The read loop of internal/client/client.go: what the client does with a frame of the server. The frames
-- that it answers with go to `sent`; a send that fails is not noticed by the loop.
pub mod Laws
mod Tests
use selftunnel.Common.{ℕ, Bool, true, false, List, [], ◌∷◌, ◌∷ʳ◌, Text, if◌then◌else◌}
use selftunnel.Proto.{
  Frame, FrameType, frame, ping, pong, set_target, set_target_ack, get_stats, stats, request_start,
  request_chunk, request_end, cancel,
}
use selftunnel.Client.Address.{is_valid_target}
use selftunnel.Client.Requests.{Requests, on_request_frame}

pub record Serving : Type 0 where
  pub target : Text
  pub requests : Requests
  pub sent : List Frame

unfoldable pub pong_frame : ℕ → Frame
pong_frame ts = record (frame pong) { ts = ts }

unfoldable pub stats_frame : Text → Frame
stats_frame target = record (frame stats) { target = target }

unfoldable pub target_ack : Bool → Frame
target_ack ok = record (frame set_target_ack) { ok = ok }

abbrev pub reply : Frame → Serving → Serving
reply f s = record s { sent = s.sent ∷ʳ f }

abbrev pub to_requests : FrameType → Frame → Serving → Serving
to_requests t f s = record s { requests = on_request_frame t f s.requests }

unfoldable pub on_server_frame : FrameType → Frame → Serving → Serving
on_server_frame ping f s = reply (pong_frame f.ts) s
on_server_frame request_start f s = to_requests request_start f s
on_server_frame request_chunk f s = to_requests request_chunk f s
on_server_frame request_end f s = to_requests request_end f s
on_server_frame cancel f s = to_requests cancel f s
on_server_frame set_target f s =
    reply (target_ack (is_valid_target f.target))
      (record s { target = if is_valid_target f.target then f.target else s.target })
on_server_frame get_stats f s = reply (stats_frame s.target) s
on_server_frame _ f s = s

-- The loop, on the payloads that are frames; the others are skipped.
unfoldable pub serve : List Frame → Serving → Serving
unfolding on_server_frame
serve [] s = s
serve (f ∷ fs) s = serve fs (on_server_frame f.type f s)
