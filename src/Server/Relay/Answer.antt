-- ===== src/Server/Relay/Answer.antt =====
-- Every request that reaches a tunnel is answered: `handleRelay` of internal/server/relay.go, on every
-- course of events.
use selftunnel.Common.{
  ℕ, Bool, true, false, List, [], ◌∷◌, ◌++◌, some, Text, if◌then◌else◌, ◌≡◌, refl, ◌⊎◌, Bool-cases,
  inl, inr,
}
use selftunnel.Link.{Link, transmit, ReadEnd, more, eof, read_error, Reads}
use selftunnel.Server.Relay.{
  Response, Relay, Event, receives, mailbox_done, timer_fires, caller_gone, write_json,
  write_response_headers, stream, answer, UploadEnd, uploaded, send_failed, body_failed, reading,
  send_chunk, upload_end, upload_next, stream_loop, stream_body, after_upload, after_start, relay,
  Request, request_start_frame, request_end_frame,
}
use selftunnel.Server.Relay.Frames.{stream_frame-elim, first_frame-elim}

-- A handler that has returned has written a status.
abbrev pub HasStatus : Response → Type 0
HasStatus w = (n : ℕ) × (w.status ≡ some n)

abbrev pub Answered : Relay → Type 0
Answered r = (r.finished ≡ false) ⊎ HasStatus r.response

stream-Answered :
    (hijack : Bool) (id : ℕ) (es : List Event) (l : Link) (w : Response)
    → HasStatus w
    → Answered (stream hijack id es l w)
unfolding stream
stream-Answered hijack id [] l w s = inl refl
stream-Answered hijack id (receives f ∷ es) l w s =
    stream_frame-elim Answered f.type f l w (stream hijack id es l) (inr s)
      (λ b. stream-Answered hijack id es l (record w { body = w.body ++ b }) s)
stream-Answered hijack id (mailbox_done ∷ es) l w s = inr s
stream-Answered hijack id (timer_fires ∷ es) l w s = inr s
stream-Answered hijack id (caller_gone ∷ es) l w s = inr s

json_status : (n : ℕ) (msg : Text) → HasStatus (write_json n msg)
unfolding write_json
json_status n msg = (n, refl)

headers_status : (n : ℕ) (h : List (Text × List Text)) → HasStatus (write_response_headers n h)
unfolding write_response_headers
headers_status n h = (_, refl)

answer-Answered :
    (hijack : Bool) (id : ℕ) (es : List Event) (l : Link) → Answered (answer hijack id es l)
unfolding answer
answer-Answered hijack id [] l = inl refl
answer-Answered hijack id (receives f ∷ es) l =
    first_frame-elim Answered f.type f l (stream hijack id es l) (λ msg. inr (json_status 502 msg))
      (stream-Answered hijack id es l (write_response_headers f.status f.headers)
        (headers_status f.status f.headers))
answer-Answered hijack id (mailbox_done ∷ es) l = inr (json_status 502 _)
answer-Answered hijack id (timer_fires ∷ es) l = inr (json_status 504 _)
answer-Answered hijack id (caller_gone ∷ es) l = inr (json_status 504 _)

-- A select that ends the wait: all but the arrival of a frame.
abbrev is_end : Event → Bool
is_end (receives f) = false
is_end mailbox_done = true
is_end timer_fires = true
is_end caller_gone = true

abbrev pub some_end : List Event → Bool
some_end [] = false
some_end (e ∷ es) = if is_end e then true else some_end es

abbrev Finished : Relay → Type 0
Finished r = r.finished ≡ true

stream-Finished :
    (hijack : Bool) (id : ℕ) (es : List Event) (l : Link) (w : Response)
    → some_end es ≡ true
    → Finished (stream hijack id es l w)
unfolding stream
stream-Finished hijack id [] l w e = absurd (cc)
stream-Finished hijack id (receives f ∷ es) l w e =
    stream_frame-elim Finished f.type f l w (stream hijack id es l) refl
      (λ b. stream-Finished hijack id es l (record w { body = w.body ++ b }) e)
stream-Finished hijack id (mailbox_done ∷ es) l w e = refl
stream-Finished hijack id (timer_fires ∷ es) l w e = refl
stream-Finished hijack id (caller_gone ∷ es) l w e = refl

answer-Finished :
    (hijack : Bool) (id : ℕ) (es : List Event) (l : Link)
    → some_end es ≡ true
    → Finished (answer hijack id es l)
unfolding answer
answer-Finished hijack id [] l e = absurd (cc)
answer-Finished hijack id (receives f ∷ es) l e =
    first_frame-elim Finished f.type f l (stream hijack id es l) (λ msg. refl)
      (stream-Finished hijack id es l (write_response_headers f.status f.headers) e)
answer-Finished hijack id (mailbox_done ∷ es) l e = refl
answer-Finished hijack id (timer_fires ∷ es) l e = refl
answer-Finished hijack id (caller_gone ∷ es) l e = refl

-- The reads of the body come to an end or to an error.
abbrev is_last : ReadEnd → Bool
is_last more = false
is_last eof = true
is_last read_error = true

abbrev pub some_last : Reads → Bool
some_last [] = false
some_last ((b, e) ∷ reads) = if is_last e then true else some_last reads

abbrev is_reading : UploadEnd → Bool
is_reading uploaded = false
is_reading send_failed = false
is_reading body_failed = false
is_reading reading = true

upload_end-done : (p : Bool × Link) → is_reading (upload_end p).0 ≡ false
upload_end-done (true, l) = refl
upload_end-done (false, l) = refl

upload_next-done :
    (ok : Bool) (e : ReadEnd) (id : ℕ) (l : Link) (rest : UploadEnd × Link) (later : Bool)
    → (if is_last e then true else later) ≡ true
    → (later ≡ true → is_reading rest.0 ≡ false)
    → is_reading (upload_next ok e id l rest).0 ≡ false
upload_next-done false e id l rest later h done = refl
upload_next-done true more id l rest later h done = done h
upload_next-done true eof id l rest later h done =
    upload_end-done (transmit (request_end_frame id) l)
upload_next-done true read_error id l rest later h done = refl

stream_loop-done :
    (id seq : ℕ) (reads : Reads) (l : Link)
    → some_last reads ≡ true
    → is_reading (stream_loop id seq reads l).0 ≡ false
unfolding stream_loop
stream_loop-done id seq [] l h = absurd (cc)
stream_loop-done id seq ((b, e) ∷ reads) l h =
    let sent = send_chunk id seq b l in
    upload_next-done sent.0 e id sent.2 (stream_loop id sent.1 reads sent.2) (some_last reads) h
      (λ later. stream_loop-done id sent.1 reads sent.2 later)

after_upload-Answered :
    (hijack : Bool) (id : ℕ) (es : List Event) (u : UploadEnd × Link)
    → Answered (after_upload hijack id es u)
after_upload-Answered hijack id es (uploaded, l) = answer-Answered hijack id es l
after_upload-Answered hijack id es (reading, l) = inl refl
after_upload-Answered hijack id es (send_failed, l) = inr (json_status 502 _)
after_upload-Answered hijack id es (body_failed, l) = inr (json_status 502 _)

after_upload-Finished :
    (hijack : Bool) (id : ℕ) (es : List Event) (u : UploadEnd × Link)
    → is_reading u.0 ≡ false
    → some_end es ≡ true
    → Finished (after_upload hijack id es u)
after_upload-Finished hijack id es (uploaded, l) d e = answer-Finished hijack id es l e
after_upload-Finished hijack id es (reading, l) d e = absurd (cc)
after_upload-Finished hijack id es (send_failed, l) d e = refl
after_upload-Finished hijack id es (body_failed, l) d e = refl

after_start-Answered :
    (hijack : Bool) (id : ℕ) (r : Request) (es : List Event) (s : Bool × Link)
    → Answered (after_start hijack id r es s)
after_start-Answered hijack id r es (false, l) = inr (json_status 502 _)
after_start-Answered hijack id r es (true, l) = elim (Bool-cases r.has_body) [
  | inl t ↦ rw t (after_upload-Answered hijack id es (stream_body id r.reads l))
  | inr f ↦ rw f (answer-Answered hijack id es l)
]

after_start-Finished :
    (hijack : Bool) (id : ℕ) (r : Request) (es : List Event) (s : Bool × Link)
    → (r.has_body ≡ false) ⊎ (some_last r.reads ≡ true)
    → some_end es ≡ true
    → Finished (after_start hijack id r es s)
unfolding stream_body
after_start-Finished hijack id r es (false, l) d e = refl
after_start-Finished hijack id r es (true, l) (inl f) e = rw f (answer-Finished hijack id es l e)
after_start-Finished hijack id r es (true, l) (inr d) e = elim (Bool-cases r.has_body) [
  | inl t ↦ rw t (
      after_upload-Finished hijack id es (stream_body id r.reads l)
        (stream_loop-done id 0 r.reads l d) e)
  | inr f ↦ rw f (answer-Finished hijack id es l e)
]

Finished-status : (r : Relay) → Answered r → Finished r → HasStatus r.response
Finished-status r (inl unended) e = absurd (cc)
Finished-status r (inr s) e = s

-- On every course of events the handler returns, with a status written, once the body (if there is one)
-- has come to its end or failed, and the session has gone, a timer has fired or the caller has left.
pub relay_answers :
    (hijack : Bool) (id : ℕ) (path : Text) (r : Request) (es : List Event) (l : Link)
    → (r.has_body ≡ false) ⊎ (some_last r.reads ≡ true)
    → some_end es ≡ true
    → ((relay hijack id path r es l).finished ≡ true)
      × HasStatus (relay hijack id path r es l).response
unfolding relay
relay_answers hijack id path r es l d e =
    let s = transmit (request_start_frame id path r) l in
    let finished = after_start-Finished hijack id r es s d e in
    (
      finished,
      Finished-status (after_start hijack id r es s) (after_start-Answered hijack id r es s)
          finished,
    )
