-- ===== src/Server/Relay.antt =====
-- The relay endpoint of internal/server/relay.go: the path and the headers, the upload of the caller's
-- body and the two stages of the answer.
pub mod Paths
pub mod Upload
mod Frames
pub mod Answer
pub mod Streaming
mod Tests
use selftunnel.Common.{
  ℕ, suc, zero, ◌+◌, ◌*◌, Bool, true, false, not, ◌&&◌, ◌||◌, List, [], ◌∷◌, ◌++◌, ◌∷ʳ◌, map,
  Option, none, some, Text, codes, if◌then◌else◌, ◌==◌, nat_eq, text_eq, nat_beq, lookup, insert,
  length,
}
use selftunnel.Text.{trim_prefix, cut_at, to_lower, equal_fold}
use selftunnel.TunnelId.{valid_tunnel_id}
use selftunnel.Proto.{
  Frame, FrameType, Headers, frame, request_start, request_chunk, request_end, response_start,
  response_chunk, response_end, cancel,
}
use selftunnel.Base64.{encode, decode}
use selftunnel.Link.{Link, transmit, ReadEnd, more, eof, read_error, Reads}

abbrev pub chunk_size : ℕ
chunk_size = 256 * 1024

-- `splitTunnelPath`.
abbrev pub rest_path : Option Text → Text
rest_path none = codes "/"
rest_path (some after) = b'/' ∷ after

unfoldable pub split_tunnel_path : Text → Text × Text
split_tunnel_path path =
    let (id, after) = cut_at b'/' (trim_prefix path (codes "/t/")) in (id, rest_path after)

abbrev pub hop_by_hop_headers : List Text
hop_by_hop_headers =
    codes "connection"
    ∷ codes "keep-alive"
    ∷ codes "proxy-authenticate"
    ∷ codes "proxy-authorization"
    ∷ codes "te"
    ∷ codes "trailer"
    ∷ codes "transfer-encoding"
    ∷ codes "upgrade"
    ∷ []

unfoldable pub member : Text → List Text → Bool
member k [] = false
member k (j ∷ js) = k == j || member k js

unfoldable pub is_hop_by_hop : Text → Bool
unfolding member
is_hop_by_hop k = member (to_lower k) hop_by_hop_headers

unfoldable pub filter_headers : Headers → Headers
filter_headers [] = []
filter_headers ((k, vv) ∷ h) =
    if is_hop_by_hop k then filter_headers h else (k, vv) ∷ filter_headers h

-- What the caller gets: the status once it is written, the headers that were added, the JSON error
-- or the body so far, and whether the connection was cut.
pub record Response : Type 0 where
  pub status : Option ℕ
  pub added : List (Text × Text)
  pub json_error : Option Text
  pub body : List ℕ
  pub truncated : Bool

abbrev pub no_response : Response
no_response = record { status = none; added = []; json_error = none; body = []; truncated = false }

unfoldable pub write_json : ℕ → Text → Response
write_json status msg = record no_response {
  status = some status;
  added = (codes "Content-Type", codes "application/json") ∷ [];
  json_error = some msg;
}

abbrev pub add_all : Text → List Text → List (Text × Text)
add_all k [] = []
add_all k (v ∷ vs) = (k, v) ∷ add_all k vs

unfoldable pub response_headers : Headers → List (Text × Text)
response_headers [] = []
response_headers ((k, vv) ∷ h) =
    let rest = response_headers h in
    if is_hop_by_hop k || equal_fold k (codes "Content-Length") then rest else add_all k vv ++ rest

-- `writeResponseHeaders`.
unfoldable pub write_response_headers : ℕ → Headers → Response
write_response_headers status headers = record no_response {
  status = some (if status == 0 then 502 else status);
  added = response_headers headers;
}

-- How an upload ends; `reading` is one that waits for more of the body.
pub data UploadEnd : Type 0 where
  uploaded send_failed body_failed reading : UploadEnd

unfoldable pub request_chunk_frame : ℕ → ℕ → List ℕ → Frame
request_chunk_frame req_id seq chunk = record (frame request_chunk) {
  req_id = req_id;
  seq = seq;
  payload = encode chunk;
}

abbrev pub request_end_frame : ℕ → Frame
request_end_frame req_id = record (frame request_end) { req_id = req_id }

abbrev pub chunk_sent : ℕ → Bool × Link → Bool × ℕ × Link
chunk_sent seq (true, l) = (true, suc seq, l)
chunk_sent seq (false, l) = (false, seq, l)

-- `if n > 0 { … }`
unfoldable pub send_chunk : ℕ → ℕ → List ℕ → Link → Bool × ℕ × Link
send_chunk req_id seq [] l = (true, seq, l)
send_chunk req_id seq (b ∷ bs) l =
    chunk_sent seq (transmit (request_chunk_frame req_id seq (b ∷ bs)) l)

abbrev pub upload_end : Bool × Link → UploadEnd × Link
upload_end (true, l) = (uploaded, l)
upload_end (false, l) = (send_failed, l)

abbrev pub upload_next : Bool → ReadEnd → ℕ → Link → UploadEnd × Link → UploadEnd × Link
upload_next false e req_id l rest = (send_failed, l)
upload_next true more req_id l rest = rest
upload_next true eof req_id l rest = upload_end (transmit (request_end_frame req_id) l)
upload_next true read_error req_id l rest = (body_failed, l)

-- The loop of `streamBody`, over what the reads of the body will give.
unfoldable pub stream_loop : ℕ → ℕ → Reads → Link → UploadEnd × Link
unfolding send_chunk
stream_loop req_id seq [] l = (reading, l)
stream_loop req_id seq ((chunk, e) ∷ reads) l =
    let (ok, seq', l') = send_chunk req_id seq chunk l in
    upload_next ok e req_id l' (stream_loop req_id seq' reads l')

unfoldable pub stream_body : ℕ → Reads → Link → UploadEnd × Link
unfolding stream_loop
stream_body req_id reads l = stream_loop req_id 0 reads l

unfoldable pub maybe_send_cancel : ℕ → Link → Link
maybe_send_cancel req_id l = (transmit (record (frame cancel) { req_id = req_id }) l).1

-- What a select of the handler can see: a frame in its mailbox, the mailbox's `done`, its timer (the
-- wait of stage one, the idle timer of stage two), and the end of the caller's context.
pub data Event : Type 0 where
  receives : Frame → Event
  mailbox_done timer_fires caller_gone : Event

-- `finished` is a handler that has returned.
pub record Relay : Type 0 where
  pub finished : Bool
  pub response : Response
  pub link : Link

abbrev pub finish : Response → Link → Relay
finish w l = record { finished = true; response = w; link = l }

abbrev pub waiting : Response → Link → Relay
waiting w l = record { finished = false; response = w; link = l }

abbrev pub write_chunk : Response → Option (List ℕ) → Option Response
write_chunk w none = none
write_chunk w (some data') = some (record w { body = w.body ++ data' })

abbrev pub chunk_written : Link → Response → Option Response → (Response → Relay) → Relay
chunk_written l w none k = finish w l
chunk_written l w (some w') k = k w'

-- The `switch` of stage two on a received frame.
abbrev pub stream_frame : FrameType → Frame → Link → Response → (Response → Relay) → Relay
stream_frame response_chunk f l w k = chunk_written l w (write_chunk w (decode f.payload)) k
stream_frame _ f l w k = finish w l

-- Stage two: chunks until `response_end`. `can_hijack` is whether the connection can be cut.
unfoldable pub stream : Bool → ℕ → List Event → Link → Response → Relay
stream can_hijack req_id [] l w = waiting w l
stream can_hijack req_id (receives f ∷ es) l w =
    stream_frame f.type f l w (stream can_hijack req_id es l)
stream can_hijack req_id (mailbox_done ∷ es) l w = finish w l
stream can_hijack req_id (timer_fires ∷ es) l w =
    finish (record w { truncated = can_hijack }) (maybe_send_cancel req_id l)
stream can_hijack req_id (caller_gone ∷ es) l w = finish w (maybe_send_cancel req_id l)

abbrev pub or_default : Text → Text
or_default [] = codes "request failed"
or_default (c ∷ s) = c ∷ s

-- The first frame.
abbrev pub first_frame : FrameType → Frame → Link → (Response → Relay) → Relay
first_frame response_start f l k = k (write_response_headers f.status f.headers)
first_frame response_end f l k = finish (write_json 502 (or_default f.error)) l
first_frame _ f l k = finish (write_json 502 (codes "unexpected frame")) l

-- Stage one: the first frame, within the time limit.
unfoldable pub answer : Bool → ℕ → List Event → Link → Relay
unfolding stream
answer can_hijack req_id [] l = waiting no_response l
answer can_hijack req_id (receives f ∷ es) l =
    first_frame f.type f l (stream can_hijack req_id es l)
answer can_hijack req_id (mailbox_done ∷ es) l = finish (write_json 502 (codes "tunnel offline")) l
answer can_hijack req_id (timer_fires ∷ es) l =
    finish (write_json 504 (codes "request timeout")) (maybe_send_cancel req_id l)
answer can_hijack req_id (caller_gone ∷ es) l =
    finish (write_json 504 (codes "request timeout")) (maybe_send_cancel req_id l)

pub record Request : Type 0 where
  pub method : Text
  pub url_path : Text
  pub raw_query : Text
  pub header : Headers
  pub has_body : Bool
  pub reads : Reads

unfoldable pub request_start_frame : ℕ → Text → Request → Frame
request_start_frame req_id path r = record (frame request_start) {
  req_id = req_id;
  method = r.method;
  path = path;
  query = r.raw_query;
  headers = filter_headers r.header;
  has_body = r.has_body;
}

abbrev pub after_upload : Bool → ℕ → List Event → UploadEnd × Link → Relay
after_upload can_hijack req_id es (uploaded, l) = answer can_hijack req_id es l
after_upload can_hijack req_id es (reading, l) = waiting no_response l
after_upload can_hijack req_id es (send_failed, l) =
    finish (write_json 502 (codes "failed to stream request body")) (maybe_send_cancel req_id l)
after_upload can_hijack req_id es (body_failed, l) =
    finish (write_json 502 (codes "failed to stream request body")) (maybe_send_cancel req_id l)

abbrev pub after_start : Bool → ℕ → Request → List Event → Bool × Link → Relay
after_start can_hijack req_id r es (false, l) =
    finish (write_json 502 (codes "tunnel unreachable")) (maybe_send_cancel req_id l)
after_start can_hijack req_id r es (true, l) =
    if r.has_body
    then after_upload can_hijack req_id es (stream_body req_id r.reads l)
    else answer can_hijack req_id es l

-- `handleRelay` from the registered mailbox on. The tunnel's request counter, which goes up once the
-- first frame is sent, is `count_request` of Server/Admission.
unfoldable pub relay : Bool → ℕ → Text → Request → List Event → Link → Relay
unfolding answer stream_body request_start_frame
relay can_hijack req_id path r es l =
    after_start can_hijack req_id r es (transmit (request_start_frame req_id path r) l)
