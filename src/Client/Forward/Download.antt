-- ===== src/Client/Forward/Download.antt =====
-- The caller of the relay endpoint gets what the target answered to the client's call.
use selftunnel.Common.{
  ℕ, suc, Bool, true, false, List, [], ◌∷◌, ◌++◌, ◌∷ʳ◌, map, Text, codes, All, concat, append_assoc,
  append-nil, ◌≡◌, refl, sym, ap, ◌∙◌, ◌⊎◌, inl, inr,
}
use selftunnel.Text.{trim_suffix}
use selftunnel.Proto.{Frame, Headers}
use selftunnel.Base64.Laws.{IsByte, decode-encode}
use selftunnel.Link.{Link, transmit, Reads, more, read_error}
use selftunnel.Server.Relay.{
  Response, Event, receives, finish, write_response_headers, stream, answer,
}
use selftunnel.Server.Relay.Upload.{whole_body, chunks_of, fine, concat-chunks_of, chunks_of-bytes}
use selftunnel.Client.Address.{is_valid_target}
use selftunnel.Client.Forward.{
  Outgoing, Exchange, failed, answered, outgoing, returned, response_start_frame,
  response_chunk_frame, response_end_frame, send_error, send_chunk, copy_loop, respond, forward,
}

-- The frames of a body, and the end with its error.
abbrev pub body_frames : ℕ → ℕ → List (List ℕ) → Text → List Frame
body_frames req_id seq [] error = response_end_frame req_id error ∷ []
body_frames req_id seq (b ∷ bs) error =
    response_chunk_frame req_id seq b ∷ body_frames req_id (suc seq) bs error

-- The reads of a body that breaks off after those, with an error behind the last.
abbrev pub broken_body : List (List ℕ) → List ℕ → Reads
broken_body [] last = (last, read_error) ∷ []
broken_body (b ∷ bs) last = (b, more) ∷ broken_body bs last

copy_loop-whole :
    (req_id seq : ℕ) (error : Text) (bs : List (List ℕ)) (last : List ℕ) (sent : List Frame)
    → copy_loop req_id seq error (whole_body bs last) (fine sent)
      ≡ (returned, fine (sent ++ body_frames req_id seq (chunks_of bs last) []))
unfolding copy_loop transmit send_chunk
copy_loop-whole req_id seq error [] [] sent = refl
copy_loop-whole req_id seq error [] (x ∷ last) sent =
    ap (λ (l : List Frame). (returned, fine l))
      (append_assoc sent (response_chunk_frame req_id seq (x ∷ last) ∷ [])
        (response_end_frame req_id [] ∷ []))
copy_loop-whole req_id seq error ([] ∷ bs) last sent = copy_loop-whole req_id seq error bs last sent
copy_loop-whole req_id seq error ((x ∷ b) ∷ bs) last sent =
    copy_loop-whole req_id (suc seq) error bs last (sent ∷ʳ response_chunk_frame req_id seq (x ∷ b))
    ∙ ap (λ (l : List Frame). (returned, fine l))
        (append_assoc sent (response_chunk_frame req_id seq (x ∷ b) ∷ []) _)

copy_loop-broken :
    (req_id seq : ℕ) (error : Text) (bs : List (List ℕ)) (last : List ℕ) (sent : List Frame)
    → copy_loop req_id seq error (broken_body bs last) (fine sent)
      ≡ (returned, fine (sent ++ body_frames req_id seq (chunks_of bs last) error))
unfolding copy_loop transmit send_chunk
copy_loop-broken req_id seq error [] [] sent = refl
copy_loop-broken req_id seq error [] (x ∷ last) sent =
    ap (λ (l : List Frame). (returned, fine l))
      (append_assoc sent (response_chunk_frame req_id seq (x ∷ last) ∷ [])
        (response_end_frame req_id error ∷ []))
copy_loop-broken req_id seq error ([] ∷ bs) last sent =
    copy_loop-broken req_id seq error bs last sent
copy_loop-broken req_id seq error ((x ∷ b) ∷ bs) last sent =
    copy_loop-broken req_id (suc seq) error bs last
      (sent ∷ʳ response_chunk_frame req_id seq (x ∷ b))
    ∙ ap (λ (l : List Frame). (returned, fine l))
        (append_assoc sent (response_chunk_frame req_id seq (x ∷ b) ∷ []) _)

abbrev pub with_body : Response → List ℕ → Response
with_body w b = record w { body = w.body ++ b }

chunk_streamed :
    (hijack : Bool) (req_id id seq : ℕ) (b : List ℕ) (es : List Event) (l : Link) (w : Response)
    → All IsByte b
    → stream hijack req_id (receives (response_chunk_frame id seq b) ∷ es) l w
      ≡ stream hijack req_id es l (with_body w b)
unfolding stream response_chunk_frame
chunk_streamed hijack req_id id seq b es l w h = rw (decode-encode b h)

-- Stage two writes the chunks in the order in which they come and returns at the end frame, whatever its
-- error, without a `cancel`.
pub stream-body_frames :
    (hijack : Bool) (req_id id seq : ℕ) (bs : List (List ℕ)) (error : Text) (es : List Event)
    (l : Link) (w : Response)
    → All (All IsByte) bs
    → stream hijack req_id (map receives (body_frames id seq bs error) ++ es) l w
      ≡ finish (with_body w (concat bs)) l
unfolding stream
stream-body_frames hijack req_id id seq [] error es l w h =
    ap (λ (b : List ℕ). finish (record w { body = b }) l) (sym (append-nil w.body))
stream-body_frames hijack req_id id seq (b ∷ bs) error es l w h =
    chunk_streamed hijack req_id id seq b (map receives (body_frames id (suc seq) bs error) ++ es) l
      w h.0
    ∙ stream-body_frames hijack req_id id (suc seq) bs error es l (with_body w b) h.1
    ∙ ap (λ (x : List ℕ). finish (record w { body = x }) l) (append_assoc w.body b (concat bs))

-- The two ends of an answer, from the frames that the client sent.
answer-frames :
    (hijack : Bool) (req_id : ℕ) (status : ℕ) (headers : Headers) (bs : List (List ℕ))
    (error : Text) (es : List Event) (l : Link)
    → All (All IsByte) bs
    → answer hijack req_id
        (map receives (response_start_frame req_id status headers ∷ body_frames req_id 0 bs error)
          ++ es)
        l
      ≡ finish (with_body (write_response_headers status headers) (concat bs)) l
unfolding answer
answer-frames hijack req_id status headers bs error es l h =
    stream-body_frames hijack req_id req_id 0 bs error es l (write_response_headers status headers)
      h

starts_empty : (status : ℕ) (headers : Headers) → (write_response_headers status headers).body ≡ []
unfolding write_response_headers
starts_empty status headers = refl

-- What the caller has in the end, if `frames` are all that the client sends: the status and the
-- headers, the body, and no `cancel` on the server's side.
abbrev pub Delivers : ℕ → ℕ → Headers → List ℕ → List Frame → Type 0
Delivers req_id status headers body frames =
    (hijack : Bool) (es : List Event) (l : Link)
    → answer hijack req_id (map receives frames ++ es) l
      ≡ finish (record (write_response_headers status headers) { body = body }) l

abbrev answer_frames : ℕ → ℕ → Headers → List (List ℕ) → Text → List Frame
answer_frames req_id status headers bs error =
    response_start_frame req_id status headers ∷ body_frames req_id 0 bs error

answer_frames-Delivers :
    (req_id status : ℕ) (headers : Headers) (bs : List (List ℕ)) (last : List ℕ) (error : Text)
    → All (All IsByte) bs
    → All IsByte last
    → Delivers req_id status headers
        (concat bs ++ last)
        (answer_frames req_id status headers (chunks_of bs last) error)
unfolding write_response_headers
answer_frames-Delivers req_id status headers bs last error h hl hijack es l =
    answer-frames hijack req_id status headers (chunks_of bs last) error es l
      (chunks_of-bytes bs last h hl)
    ∙ ap (λ (b : List ℕ). finish (record (write_response_headers status headers) { body = b }) l)
        (concat-chunks_of bs last)

respond-whole :
    (req_id status : ℕ) (headers : Headers) (bs : List (List ℕ)) (last : List ℕ) (error : Text)
    → respond req_id (answered status headers (whole_body bs last) error) (fine [])
      ≡ (returned, fine (answer_frames req_id status headers (chunks_of bs last) []))
unfolding transmit
respond-whole req_id status headers bs last error =
    copy_loop-whole req_id 0 error bs last (response_start_frame req_id status headers ∷ [])

respond-broken :
    (req_id status : ℕ) (headers : Headers) (bs : List (List ℕ)) (last : List ℕ) (error : Text)
    → respond req_id (answered status headers (broken_body bs last) error) (fine [])
      ≡ (returned, fine (answer_frames req_id status headers (chunks_of bs last) error))
unfolding transmit
respond-broken req_id status headers bs last error =
    copy_loop-broken req_id 0 error bs last (response_start_frame req_id status headers ∷ [])

module _ (http : Outgoing → Exchange) where
  forward_valid :
      (set_to : Text) (req_id : ℕ) (start : Frame) (body : List ℕ) (x : Exchange) (l : Link)
      → is_valid_target (trim_suffix set_to (codes "/")) ≡ true
      → http (outgoing (trim_suffix set_to (codes "/")) start body) ≡ x
      → forward http set_to req_id start body l ≡ respond req_id x l
  unfolding forward
  forward_valid set_to req_id start body x l valid call = rw (valid, call)

  -- The call of a valid target that answers: over a connection that takes all frames, the caller of the
  -- relay gets the target's status, its headers as the relay passes them on, and the body's bytes up to
  -- its end, or up to the error that breaks it off. In that case too the response ends like a whole one:
  -- it is not truncated.
  pub forward-Delivers :
      (set_to : Text) (req_id : ℕ) (start : Frame) (body : List ℕ) (status : ℕ) (headers : Headers)
      (bs : List (List ℕ)) (last : List ℕ) (reads : Reads) (error : Text)
      → is_valid_target (trim_suffix set_to (codes "/")) ≡ true
      → http (outgoing (trim_suffix set_to (codes "/")) start body)
        ≡ answered status headers reads error
      → (reads ≡ whole_body bs last) ⊎ (reads ≡ broken_body bs last)
      → All (All IsByte) bs
      → All IsByte last
      → (frames : List Frame) × (forward http set_to req_id start body (fine [])
          ≡ (returned, fine frames))
        × Delivers req_id status headers (concat bs ++ last) frames
  forward-Delivers set_to req_id start body status headers bs last reads error valid call
        (inl whole) h hl =
      (
        answer_frames req_id status headers (chunks_of bs last) [],
        forward_valid set_to req_id start body (answered status headers reads error) (fine []) valid
              call
            ∙ ap (λ (x : Reads). respond req_id (answered status headers x error) (fine [])) whole
            ∙ respond-whole req_id status headers bs last error,
        answer_frames-Delivers req_id status headers bs last [] h hl,
      )
  forward-Delivers set_to req_id start body status headers bs last reads error valid call
        (inr broken) h hl =
      (
        answer_frames req_id status headers (chunks_of bs last) error,
        forward_valid set_to req_id start body (answered status headers reads error) (fine []) valid
              call
            ∙ ap (λ (x : Reads). respond req_id (answered status headers x error) (fine [])) broken
            ∙ respond-broken req_id status headers bs last error,
        answer_frames-Delivers req_id status headers bs last error h hl,
      )

  error_frames :
      (req_id : ℕ) (error : Text)
      → send_error req_id error (fine []) ≡ fine (answer_frames req_id 502 [] [] error)
  unfolding send_error transmit
  error_frames req_id error = refl

  -- A target that is no `http` URL and a call that fails reach the caller of the relay as a 502 without
  -- headers or body, which ends like a whole response: the error's text is lost and nothing is truncated.
  pub forward_fails :
      (set_to : Text) (req_id : ℕ) (start : Frame) (body : List ℕ) (error : Text)
      → (is_valid_target (trim_suffix set_to (codes "/")) ≡ false)
        ⊎ ((is_valid_target (trim_suffix set_to (codes "/")) ≡ true)
            × (http (outgoing (trim_suffix set_to (codes "/")) start body) ≡ failed error))
      → (frames : List Frame) × (forward http set_to req_id start body (fine [])
          ≡ (returned, fine frames))
        × Delivers req_id 502 [] [] frames
  unfolding forward
  forward_fails set_to req_id start body error (inl bad) = (
    answer_frames req_id 502 [] [] (codes "no target configured"),
    rw bad (ap (λ (l : Link). (returned, l)) (error_frames req_id (codes "no target configured"))),
    answer_frames-Delivers req_id 502 [] [] [] (codes "no target configured") tt tt,
  )
  forward_fails set_to req_id start body error (inr (valid, call)) = (
    answer_frames req_id 502 [] [] error,
    rw (valid, call) (ap (λ (l : Link). (returned, l)) (error_frames req_id error)),
    answer_frames-Delivers req_id 502 [] [] [] error tt tt,
  )
