-- ===== src/Client/Forward.antt =====
-- `forward` and `sendError` of internal/client/client.go: one call of the target and the frames that
-- carry its answer. Go's HTTP client is a parameter: it is given the request and tells what came of it.
pub mod Download
mod Tests
use selftunnel.Common.{
  ℕ, suc, Bool, true, false, not, ◌&&◌, List, [], ◌∷◌, ◌++◌, Option, none, some, Text, codes,
  if◌then◌else◌, ◌==◌, text_eq,
}
use selftunnel.Text.{trim_suffix, equal_fold}
use selftunnel.Proto.{Frame, Headers, frame, response_start, response_chunk, response_end}
use selftunnel.Base64.{encode}
use selftunnel.Link.{Link, transmit, ReadEnd, more, eof, read_error, Reads}
use selftunnel.Client.Address.{is_valid_target}

-- The `http.Request` that is made: `host` where a header overrides it, and the headers that are added.
pub record Outgoing : Type 0 where
  pub method : Text
  pub url : Text
  pub host : Option Text
  pub added : List (Text × Text)
  pub body : List ℕ

-- `http.NewRequestWithContext` or `Do` fails with an error's text, or there is a response: its status,
-- its headers, what the reads of its body give, and the text of the error if one of them fails.
pub data Exchange : Type 0 where
  failed : Text → Exchange
  answered : ℕ → Headers → Reads → Text → Exchange

abbrev pub add_values : Text → List Text → List (Text × Text)
add_values k [] = []
add_values k (v ∷ vs) = (k, v) ∷ add_values k vs

-- `for k, vv := range start.Headers`: the host of the last entry that is one, and all other headers.
abbrev pub first_host : List Text → Option Text → Option Text
first_host [] rest = rest
first_host (v ∷ vs) none = some v
first_host (v ∷ vs) (some h) = some h

unfoldable pub host_of : Headers → Option Text
host_of [] = none
host_of ((k, vv) ∷ h) =
    let rest = host_of h in if equal_fold k (codes "Host") then first_host vv rest else rest

unfoldable pub added_of : Headers → List (Text × Text)
added_of [] = []
added_of ((k, vv) ∷ h) =
    let rest = added_of h in if equal_fold k (codes "Host") then rest else add_values k vv ++ rest

abbrev pub or_root : Text → Text
or_root [] = codes "/"
or_root (c ∷ s) = c ∷ s

abbrev pub with_query : Text → Text → Text
with_query url [] = url
with_query url (c ∷ q) = url ++ b'?' ∷ c ∷ q

unfoldable pub outgoing : Text → Frame → List ℕ → Outgoing
unfolding host_of added_of
outgoing target start body = record {
  method = start.method;
  url = with_query (target ++ or_root start.path) start.query;
  host = host_of start.headers;
  added = added_of start.headers;
  body = body;
}

abbrev pub response_end_frame : ℕ → Text → Frame
response_end_frame req_id error = record (frame response_end) { req_id = req_id; error = error }

abbrev pub response_start_frame : ℕ → ℕ → Headers → Frame
response_start_frame req_id status headers = record (frame response_start) {
  req_id = req_id;
  status = status;
  headers = headers;
}

unfoldable pub response_chunk_frame : ℕ → ℕ → List ℕ → Frame
response_chunk_frame req_id seq chunk = record (frame response_chunk) {
  req_id = req_id;
  seq = seq;
  payload = encode chunk;
}

-- `sendError`: both sends are tried, whatever becomes of the first.
unfoldable pub send_error : ℕ → Text → Link → Link
send_error req_id error l =
    let l' = (transmit (response_start_frame req_id 502 []) l).1 in
    (transmit (response_end_frame req_id error) l').1

-- How far a call of `forward` has come; `reading` waits for more of the body.
pub data ForwardEnd : Type 0 where
  returned reading : ForwardEnd

abbrev pub chunk_sent : ℕ → Bool × Link → Bool × ℕ × Link
chunk_sent seq (true, l) = (true, suc seq, l)
chunk_sent seq (false, l) = (false, seq, l)

unfoldable pub send_chunk : ℕ → ℕ → List ℕ → Link → Bool × ℕ × Link
send_chunk req_id seq [] l = (true, seq, l)
send_chunk req_id seq (b ∷ bs) l =
    chunk_sent seq (transmit (response_chunk_frame req_id seq (b ∷ bs)) l)

abbrev pub next_read : Bool → ReadEnd → ℕ → Text → Link → ForwardEnd × Link → ForwardEnd × Link
next_read false e req_id error l rest = (returned, l)
next_read true more req_id error l rest = rest
next_read true eof req_id error l rest = (returned, (transmit (response_end_frame req_id []) l).1)
next_read true read_error req_id error l rest =
    (returned, (transmit (response_end_frame req_id error) l).1)

-- The loop over the response's body.
unfoldable pub copy_loop : ℕ → ℕ → Text → Reads → Link → ForwardEnd × Link
unfolding send_chunk
copy_loop req_id seq error [] l = (reading, l)
copy_loop req_id seq error ((chunk, e) ∷ reads) l =
    let (ok, seq', l') = send_chunk req_id seq chunk l in
    next_read ok e req_id error l' (copy_loop req_id seq' error reads l')

abbrev pub after_response_start : ℕ → Text → Reads → Bool × Link → ForwardEnd × Link
after_response_start req_id error reads (false, l) = (returned, l)
after_response_start req_id error reads (true, l) = copy_loop req_id 0 error reads l

abbrev pub respond : ℕ → Exchange → Link → ForwardEnd × Link
respond req_id (failed error) l = (returned, send_error req_id error l)
respond req_id (answered status headers reads error) l =
    after_response_start req_id error reads
      (transmit (response_start_frame req_id status headers) l)

module _ (http : Outgoing → Exchange) where
  -- `forward`, on the target that the client is set to.
  unfoldable pub forward : Text → ℕ → Frame → List ℕ → Link → ForwardEnd × Link
  unfolding outgoing copy_loop send_error
  forward set_to req_id start body l =
      let target = trim_suffix set_to (codes "/") in
      if not (is_valid_target target)
      then (returned, send_error req_id (codes "no target configured") l)
      else respond req_id (http (outgoing target start body)) l
