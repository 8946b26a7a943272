-- ===== src/EndToEnd.antt =====
-- A request's whole way: `handleRelay` of internal/server/relay.go, the read loop and `forward` of
-- internal/client/client.go, and back.
mod Tests
use selftunnel.Common.{
  ℕ, Bool, true, false, List, [], ◌∷◌, ◌++◌, ◌∷ʳ◌, map, Option, none, Text, codes, All, concat, ◌≡◌,
  refl, sym, ap, ◌∙◌, inl, if◌then◌else◌,
}
use selftunnel.Text.{trim_suffix}
use selftunnel.Proto.{Frame, Headers}
use selftunnel.Base64.Laws.{IsByte}
use selftunnel.Link.{Link, transmit, Reads}
use selftunnel.Server.Relay.{
  Request, request_start_frame, Event, receives, finish, write_response_headers, answer,
  after_upload, after_start, relay, stream_body, Relay,
}
use selftunnel.Server.Relay.Upload.{
  whole_body, chunks_of, fine, stream_body_sends, concat-chunks_of, chunks_of-bytes,
}
use selftunnel.Client.Address.{is_valid_target}
use selftunnel.Client.Requests.{Requests, PendingReq, Job, consume}
use selftunnel.Client.Requests.View.{view, job, own_frames, run_view}
use selftunnel.Client.Requests.Isolation.{view-consume}
use selftunnel.Client.Requests.Upload.{upload_frames, upload_run}
use selftunnel.Client.Forward.{Outgoing, Exchange, answered, outgoing, forward, returned}
use selftunnel.Client.Forward.Download.{forward-Delivers}

-- The frames of a request with a body or without one, and the body that the client puts together.
abbrev pub request_frames : Bool → ℕ → Text → Request → List (List ℕ) → List ℕ → List Frame
request_frames true id path r bs last = upload_frames id path r (chunks_of bs last)
request_frames false id path r bs last = request_start_frame id path r ∷ []

abbrev pub body_of : Bool → List (List ℕ) → List ℕ → List ℕ
body_of true bs last = concat bs ++ last
body_of false bs last = []

frames_run :
    (b : Bool) (id : ℕ) (path : Text) (r : Request) (bs : List (List ℕ)) (last : List ℕ)
    (js : List Job)
    → r.has_body ≡ b
    → All (All IsByte) bs
    → All IsByte last
    → run_view id (request_frames b id path r bs last) (none, js)
      ≡ (none, js ∷ʳ job id (request_start_frame id path r) (body_of b bs last))
unfolding request_start_frame
frames_run true id path r bs last js e h hl =
    upload_run id path r (chunks_of bs last) none js e (chunks_of-bytes bs last h hl)
    ∙ ap (λ (x : List ℕ). (none, js ∷ʳ job id (request_start_frame id path r) x))
        (concat-chunks_of bs last)
frames_run false id path r bs last js e h hl = rw e refl

-- `after_start` once the first frame is sent, for a request with a body and for one without.
abbrev chosen : Bool → ℕ → Text → Request → List Event → Bool → Relay
chosen hijack id path r es b =
    if b
    then after_upload hijack id es
        (stream_body id r.reads (fine (request_start_frame id path r ∷ [])))
    else answer hijack id es (fine (request_start_frame id path r ∷ []))

start_sends :
    (b hijack : Bool) (id : ℕ) (path : Text) (r : Request) (bs : List (List ℕ)) (last : List ℕ)
    (es : List Event)
    → r.has_body ≡ b
    → r.reads ≡ whole_body bs last
    → after_start hijack id r es (true, fine (request_start_frame id path r ∷ []))
      ≡ answer hijack id es (fine (request_frames b id path r bs last))
start_sends true hijack id path r bs last es e whole =
    ap (chosen hijack id path r es) e
    ∙ ap (after_upload hijack id es) (
        ap (λ (x : Reads). stream_body id x (fine (request_start_frame id path r ∷ []))) whole
        ∙ stream_body_sends id bs last (request_start_frame id path r ∷ []))
start_sends false hijack id path r bs last es e whole = ap (chosen hijack id path r es) e

relay_sends :
    (hijack : Bool) (id : ℕ) (path : Text) (r : Request) (bs : List (List ℕ)) (last : List ℕ)
    (es : List Event)
    → r.reads ≡ whole_body bs last
    → relay hijack id path r es (fine [])
      ≡ answer hijack id es (fine (request_frames r.has_body id path r bs last))
unfolding relay transmit
relay_sends hijack id path r bs last es whole =
    start_sends r.has_body hijack id path r bs last es refl whole

module _ (http : Outgoing → Exchange) where
  -- A request, with a body or without, whose reads the server sees to their end, over connections that
  -- take all frames: the client, among any frames of other requests, starts one call for it, with its
  -- first frame and its body; and when the target answers that call, the caller of the relay gets the
  -- target's status, its headers as the relay passes them on and the whole body of the answer.
  pub request_answered :
      (hijack : Bool) (id : ℕ) (path : Text) (r : Request) (bs : List (List ℕ)) (last : List ℕ)
      (arriving : List Frame) (c : Requests) (set_to : Text) (status : ℕ) (headers : Headers)
      (rbs : List (List ℕ)) (rlast : List ℕ) (error : Text) (es : List Event)
      → r.reads ≡ whole_body bs last
      → All (All IsByte) bs
      → All IsByte last
      → (view id c).0 ≡ none
      → own_frames id arriving ≡ request_frames r.has_body id path r bs last
      → is_valid_target (trim_suffix set_to (codes "/")) ≡ true
      → http (
          outgoing
            (trim_suffix set_to (codes "/"))
            (request_start_frame id path r)
            (body_of r.has_body bs last))
        ≡ answered status headers (whole_body rbs rlast) error
      → All (All IsByte) rbs
      → All IsByte rlast
      → (j : Job) × (frames : List Frame) × (view id (consume arriving c)
          ≡ (none, (view id c).1 ∷ʳ j))
        × (forward http set_to j.req_id j.start j.body (fine []) ≡ (returned, fine frames))
        × (relay hijack id path r (map receives frames ++ es) (fine [])
            ≡ finish
                (record (write_response_headers status headers) { body = concat rbs ++ rlast })
                (fine (request_frames r.has_body id path r bs last)))
  request_answered hijack id path r bs last arriving c set_to status headers rbs rlast error es
        whole h hl fresh own valid call rh rhl =
      let (frames, sends, delivers) =
        forward-Delivers http set_to id (request_start_frame id path r) (body_of r.has_body bs last)
          status headers rbs rlast (whole_body rbs rlast) error valid call (inl refl) rh rhl in
      (
        job id (request_start_frame id path r) (body_of r.has_body bs last),
        frames,
        view-consume id arriving c
            ∙ ap (λ (fs : List Frame). run_view id fs (view id c)) own
            ∙ ap
                (λ (o : Option PendingReq).
                  run_view id (request_frames r.has_body id path r bs last) (o, (view id c).1))
                fresh
            ∙ frames_run r.has_body id path r bs last (view id c).1 refl h hl,
        sends,
        relay_sends hijack id path r bs last (map receives frames ++ es) whole
            ∙ delivers hijack es (fine (request_frames r.has_body id path r bs last)),
      )
