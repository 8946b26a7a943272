-- ===== src/Server/Relay/Frames.antt =====
-- What a received frame can do to the handler of internal/server/relay.go, in each of its stages.
use selftunnel.Common.{ℕ, List, ◌++◌, Option, none, some, Text}
use selftunnel.Proto.{
  Frame, FrameType, hello, hello_ack, ping, pong, set_target, set_target_ack, get_stats, stats,
  response_start, response_chunk, response_end, other, request_start, request_chunk, request_end,
  cancel,
}
use selftunnel.Base64.{decode}
use selftunnel.Link.{Link}
use selftunnel.Server.Relay.{
  Response, Relay, finish, write_json, write_response_headers, write_chunk, chunk_written,
  stream_frame, first_frame,
}

pub chunk_written-elim :
    (P : Relay → Type 0) (l : Link) (w : Response) (o : Option (List ℕ)) (k : Response → Relay)
    → P (finish w l)
    → ((b : List ℕ) → P (k (record w { body = w.body ++ b })))
    → P (chunk_written l w (write_chunk w o) k)
chunk_written-elim P l w none k ends goes = ends
chunk_written-elim P l w (some b) k ends goes = goes b

-- A frame of stage two ends the handler, or writes some bytes and goes on.
pub stream_frame-elim :
    (P : Relay → Type 0) (t : FrameType) (f : Frame) (l : Link) (w : Response)
    (k : Response → Relay)
    → P (finish w l)
    → ((b : List ℕ) → P (k (record w { body = w.body ++ b })))
    → P (stream_frame t f l w k)
stream_frame-elim P response_chunk f l w k ends goes =
    chunk_written-elim P l w (decode f.payload) k ends goes
stream_frame-elim P hello f l w k ends goes = ends
stream_frame-elim P hello_ack f l w k ends goes = ends
stream_frame-elim P ping f l w k ends goes = ends
stream_frame-elim P pong f l w k ends goes = ends
stream_frame-elim P set_target f l w k ends goes = ends
stream_frame-elim P set_target_ack f l w k ends goes = ends
stream_frame-elim P get_stats f l w k ends goes = ends
stream_frame-elim P stats f l w k ends goes = ends
stream_frame-elim P request_start f l w k ends goes = ends
stream_frame-elim P request_chunk f l w k ends goes = ends
stream_frame-elim P request_end f l w k ends goes = ends
stream_frame-elim P response_start f l w k ends goes = ends
stream_frame-elim P response_end f l w k ends goes = ends
stream_frame-elim P cancel f l w k ends goes = ends
stream_frame-elim P (other x) f l w k ends goes = ends

-- The first frame is an error for the caller, or begins the answer.
pub first_frame-elim :
    (P : Relay → Type 0) (t : FrameType) (f : Frame) (l : Link) (k : Response → Relay)
    → ((msg : Text) → P (finish (write_json 502 msg) l))
    → P (k (write_response_headers f.status f.headers))
    → P (first_frame t f l k)
first_frame-elim P response_start f l k ends goes = goes
first_frame-elim P response_end f l k ends goes = ends _
first_frame-elim P hello f l k ends goes = ends _
first_frame-elim P hello_ack f l k ends goes = ends _
first_frame-elim P ping f l k ends goes = ends _
first_frame-elim P pong f l k ends goes = ends _
first_frame-elim P set_target f l k ends goes = ends _
first_frame-elim P set_target_ack f l k ends goes = ends _
first_frame-elim P get_stats f l k ends goes = ends _
first_frame-elim P stats f l k ends goes = ends _
first_frame-elim P request_start f l k ends goes = ends _
first_frame-elim P request_chunk f l k ends goes = ends _
first_frame-elim P request_end f l k ends goes = ends _
first_frame-elim P response_chunk f l k ends goes = ends _
first_frame-elim P cancel f l k ends goes = ends _
first_frame-elim P (other x) f l k ends goes = ends _
