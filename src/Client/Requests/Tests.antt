-- ===== src/Client/Requests/Tests.antt =====
-- Requests on examples: the theorems at inputs that meet their hypotheses.
use selftunnel.Common.{true, List, [], ◌∷◌, ◌++◌, ◌∷ʳ◌, concat, none, codes, ◌≡◌, refl, arith}
use selftunnel.Proto.{Frame, frame, request_start, request_chunk, cancel}
use selftunnel.Link.{Link, transmit, more, eof}
use selftunnel.Server.Relay.{
  Request, stream_body, stream_loop, send_chunk, uploaded, request_chunk_frame, request_start_frame,
  request_end_frame,
}
use selftunnel.Server.Relay.Upload.{fine}
use selftunnel.Client.Requests.{Requests, consume}
use selftunnel.Client.Requests.View.{view, job, own_frames, run_view}
use selftunnel.Client.Requests.Isolation.{view-consume}
use selftunnel.Client.Requests.Upload.{upload_reassembled}

abbrev idle : Requests
idle = record { pending = []; active = []; jobs = []; cancelled = [] }

abbrev request : Request
request = record {
  method = codes "POST";
  url_path = codes "/t/ab12cd34/v1";
  raw_query = [];
  header = [];
  has_body = true;
  reads = (1 ∷ 2 ∷ [], more) ∷ (3 ∷ [], eof) ∷ [];
}

abbrev start : Frame
start = request_start_frame 7 (codes "/v1") request

abbrev upload : Link
upload = fine (
    start
    ∷ request_chunk_frame 7 0 (1 ∷ 2 ∷ [])
    ∷ request_chunk_frame 7 1 (3 ∷ [])
    ∷ request_end_frame 7
    ∷ [])

-- The frames of the upload, and those of another request between them.
abbrev mixed : List Frame
mixed =
    record (frame request_start) { req_id = 8; has_body = true }
    ∷ start
    ∷ record (frame request_chunk) { req_id = 8; seq = 0; payload = codes "AAAA" }
    ∷ request_chunk_frame 7 0 (1 ∷ 2 ∷ [])
    ∷ request_chunk_frame 7 1 (3 ∷ [])
    ∷ record (frame cancel) { req_id = 8 }
    ∷ request_end_frame 7
    ∷ []

uploads : stream_body 7 request.reads (transmit start (fine [])).1 ≡ (uploaded, upload)
unfolding stream_body stream_loop send_chunk transmit
uploads = refl

own_of_mixed : own_frames 7 mixed ≡ upload.sent
unfolding request_start_frame request_chunk_frame
own_of_mixed = refl

view-consume_example : view 7 (consume mixed idle) ≡ run_view 7 (own_frames 7 mixed) (view 7 idle)
view-consume_example = view-consume 7 mixed idle

upload_reassembled_example :
    (uploaded ≡ uploaded)
    × (view 7 (consume mixed idle)
        ≡ (none, [] ∷ʳ job 7 start (concat ((1 ∷ 2 ∷ []) ∷ []) ++ 3 ∷ [])))
upload_reassembled_example =
    upload_reassembled 7 (codes "/v1") request ((1 ∷ 2 ∷ []) ∷ []) (3 ∷ []) uploaded upload mixed
      idle refl refl (omega arith) (omega arith) uploads own_of_mixed
