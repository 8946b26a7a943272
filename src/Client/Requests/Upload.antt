-- ===== src/Client/Requests/Upload.antt =====
-- The client puts together the body that the server's upload sends.
use selftunnel.Common.{
  ℕ, suc, true, List, [], ◌∷◌, ◌++◌, ◌∷ʳ◌, Option, none, some, Text, nat_eq, length, All,
  length-append, concat, append_assoc, append-nil, ◌≡◌, sym, ap, ◌∙◌, arith,
}
use selftunnel.Proto.{Frame}
use selftunnel.Base64.Laws.{IsByte, decode-encode}
use selftunnel.Link.{Link, transmit, Reads}
use selftunnel.Server.Relay.{
  UploadEnd, uploaded, request_chunk_frame, request_end_frame, stream_body, Request,
  request_start_frame,
}
use selftunnel.Server.Relay.Upload.{
  whole_body, chunks_of, chunk_frames, fine, stream_body_sends, concat-chunks_of, chunks_of-bytes,
}
use selftunnel.Client.Requests.{Requests, PendingReq, Job, consume}
use selftunnel.Client.Requests.Assembly.{numbered, insert-numbered, assemble-numbered}
use selftunnel.Client.Requests.View.{View, view, job, own_frames, run_view, step_view}
use selftunnel.Client.Requests.Isolation.{view-consume}

-- All that the server sends for a request whose body it reads to the end.
abbrev pub upload_frames : ℕ → Text → Request → List (List ℕ) → List Frame
upload_frames req_id path r bs =
    request_start_frame req_id path r
    ∷ (chunk_frames req_id 0 bs ++ (request_end_frame req_id ∷ []))

-- The request once those chunks have arrived.
abbrev partly : Frame → List (List ℕ) → List Job → View
partly start done js = (some (record { start = start; chunks = numbered 0 done }), js)

chunk_step :
    (id : ℕ) (b : List ℕ) (done : List (List ℕ)) (start : Frame) (js : List Job)
    → All IsByte b
    → step_view id
        (request_chunk_frame id (length done) b).type
        (request_chunk_frame id (length done) b)
        (partly start done js)
      ≡ partly start (done ∷ʳ b) js
unfolding request_chunk_frame
chunk_step id b done start js h =
    rw (decode-encode b h, insert-numbered 0 (length done) done b (omega arith))

length-done : (done : List (List ℕ)) (b : List ℕ) → suc (length done) ≡ length (done ∷ʳ b)
length-done done b = omega (arith, length-append done (b ∷ []))

chunks_run :
    (id : ℕ) (bs done : List (List ℕ)) (start : Frame) (js : List Job) (rest : List Frame)
    → All (All IsByte) bs
    → run_view id (chunk_frames id (length done) bs ++ rest) (partly start done js)
      ≡ run_view id rest (partly start (done ++ bs) js)
chunks_run id [] done start js rest h =
    ap (λ (x : List (List ℕ)). run_view id rest (partly start x js)) (sym (append-nil done))
chunks_run id (b ∷ bs) done start js rest h =
    ap (run_view id (chunk_frames id (suc (length done)) bs ++ rest))
      (chunk_step id b done start js h.0)
    ∙ ap (λ (n : ℕ). run_view id (chunk_frames id n bs ++ rest) (partly start (done ∷ʳ b) js))
        (length-done done b)
    ∙ chunks_run id bs (done ∷ʳ b) start js rest h.1
    ∙ ap (λ (x : List (List ℕ)). run_view id rest (partly start x js))
        (append_assoc done (b ∷ []) bs)

start_step :
    (id : ℕ) (path : Text) (r : Request) (o : Option PendingReq) (js : List Job)
    → r.has_body ≡ true
    → step_view id (request_start_frame id path r).type (request_start_frame id path r) (o, js)
      ≡ partly (request_start_frame id path r) [] js
unfolding request_start_frame
start_step id path r o js e = rw e

-- The frames of an upload, on their own.
pub upload_run :
    (id : ℕ) (path : Text) (r : Request) (bs : List (List ℕ)) (o : Option PendingReq)
    (js : List Job)
    → r.has_body ≡ true
    → All (All IsByte) bs
    → run_view id (upload_frames id path r bs) (o, js)
      ≡ (none, js ∷ʳ job id (request_start_frame id path r) (concat bs))
upload_run id path r bs o js body h =
    ap (run_view id (chunk_frames id 0 bs ++ (request_end_frame id ∷ [])))
      (start_step id path r o js body)
    ∙ chunks_run id bs [] (request_start_frame id path r) js (request_end_frame id ∷ []) h
    ∙ ap (λ (x : List ℕ). (none, js ∷ʳ job id (request_start_frame id path r) x))
        (assemble-numbered bs)

-- The server reads a body to its end, in whatever pieces, and sends it over a connection that takes all
-- frames; the client, among any frames of other requests, starts one call for the request, with the
-- request's first frame and exactly the bytes of the body, and keeps nothing of it waiting.
pub upload_reassembled :
    (id : ℕ) (path : Text) (r : Request) (bs : List (List ℕ)) (last : List ℕ) (end : UploadEnd)
    (l : Link) (arriving : List Frame) (c : Requests)
    → r.has_body ≡ true
    → r.reads ≡ whole_body bs last
    → All (All IsByte) bs
    → All IsByte last
    → stream_body id r.reads (transmit (request_start_frame id path r) (fine [])).1 ≡ (end, l)
    → own_frames id arriving ≡ l.sent
    → (end ≡ uploaded)
      × (view id (consume arriving c)
          ≡ (none, (view id c).1 ∷ʳ job id (request_start_frame id path r) (concat bs ++ last)))
unfolding transmit
upload_reassembled id path r bs last end l arriving c body whole h hl e own =
    let sends : stream_body id r.reads (transmit (request_start_frame id path r) (fine [])).1
        ≡ (uploaded, fine (upload_frames id path r (chunks_of bs last))) =
      ap (λ (x : Reads). stream_body id x (fine (request_start_frame id path r ∷ []))) whole
      ∙ stream_body_sends id bs last (request_start_frame id path r ∷ []) in
    let both : (end, l) ≡ (uploaded, fine (upload_frames id path r (chunks_of bs last))) =
      sym e ∙ sends in
    (
      ap (λ (p : UploadEnd × Link). p.0) both,
      view-consume id arriving c
          ∙ ap (λ (fs : List Frame). run_view id fs (view id c))
              (own ∙ ap (λ (p : UploadEnd × Link). p.1.sent) both)
          ∙ upload_run id path r (chunks_of bs last) (view id c).0 (view id c).1 body
              (chunks_of-bytes bs last h hl)
          ∙ ap (λ (x : List ℕ). (none, (view id c).1 ∷ʳ job id (request_start_frame id path r) x))
              (concat-chunks_of bs last),
    )
