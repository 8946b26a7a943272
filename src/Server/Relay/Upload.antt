-- ===== src/Server/Relay/Upload.antt =====
-- `streamBody` of internal/server/relay.go, and what the client makes of the frames that it sends.
use selftunnel.Common.{
  ℕ, suc, List, [], ◌∷◌, ◌++◌, ◌∷ʳ◌, nat_eq, All, concat, append_assoc, append-nil, ◌≡◌, refl, ap,
  ◌∙◌,
}
use selftunnel.Proto.{Frame}
use selftunnel.Base64.Laws.{IsByte}
use selftunnel.Link.{Link, transmit, more, eof, Reads}
use selftunnel.Server.Relay.{
  uploaded, request_chunk_frame, request_end_frame, send_chunk, stream_loop, stream_body,
}

-- The reads of a body that comes to its end: reads with more behind them, and a last one.
abbrev pub whole_body : List (List ℕ) → List ℕ → Reads
whole_body [] last = (last, eof) ∷ []
whole_body (b ∷ bs) last = (b, more) ∷ whole_body bs last

-- The chunks that carry bytes: an empty read sends no frame.
abbrev pub keep : List ℕ → List (List ℕ) → List (List ℕ)
keep [] bs = bs
keep (x ∷ b) bs = (x ∷ b) ∷ bs

abbrev pub chunks_of : List (List ℕ) → List ℕ → List (List ℕ)
chunks_of [] last = keep last []
chunks_of (b ∷ bs) last = keep b (chunks_of bs last)

abbrev pub chunk_frames : ℕ → ℕ → List (List ℕ) → List Frame
chunk_frames req_id seq [] = []
chunk_frames req_id seq (b ∷ bs) =
    request_chunk_frame req_id seq b ∷ chunk_frames req_id (suc seq) bs

-- A connection all of whose sends succeed.
abbrev pub fine : List Frame → Link
fine sent = record { sent = sent; outcomes = [] }

stream_loop_sends :
    (req_id seq : ℕ) (bs : List (List ℕ)) (last : List ℕ) (sent : List Frame)
    → stream_loop req_id seq (whole_body bs last) (fine sent) ≡ (
      uploaded,
      fine (
          sent ++ (chunk_frames req_id seq (chunks_of bs last) ++ (request_end_frame req_id ∷ []))),
    )
unfolding stream_loop transmit send_chunk
stream_loop_sends req_id seq [] [] sent = refl
stream_loop_sends req_id seq [] (x ∷ last) sent =
    ap (λ (l : List Frame). (uploaded, fine l))
      (append_assoc sent (request_chunk_frame req_id seq (x ∷ last) ∷ [])
        (request_end_frame req_id ∷ []))
stream_loop_sends req_id seq ([] ∷ bs) last sent = stream_loop_sends req_id seq bs last sent
stream_loop_sends req_id seq ((x ∷ b) ∷ bs) last sent =
    stream_loop_sends req_id (suc seq) bs last (sent ∷ʳ request_chunk_frame req_id seq (x ∷ b))
    ∙ ap (λ (l : List Frame). (uploaded, fine l))
        (append_assoc sent (request_chunk_frame req_id seq (x ∷ b) ∷ []) _)

-- An upload over a connection that takes all frames sends every chunk that carries bytes, numbered from
-- 0, and the end.
pub stream_body_sends :
    (req_id : ℕ) (bs : List (List ℕ)) (last : List ℕ) (sent : List Frame)
    → stream_body req_id (whole_body bs last) (fine sent) ≡ (
      uploaded,
      fine (sent ++ (chunk_frames req_id 0 (chunks_of bs last) ++ (request_end_frame req_id ∷ []))),
    )
unfolding stream_body
stream_body_sends req_id bs last sent = stream_loop_sends req_id 0 bs last sent

concat-keep : (b : List ℕ) (bs : List (List ℕ)) → concat (keep b bs) ≡ b ++ concat bs
concat-keep [] bs = refl
concat-keep (x ∷ b) bs = refl

pub concat-chunks_of :
    (bs : List (List ℕ)) (last : List ℕ) → concat (chunks_of bs last) ≡ concat bs ++ last
concat-chunks_of [] last = concat-keep last [] ∙ append-nil last
concat-chunks_of (b ∷ bs) last =
    concat-keep b (chunks_of bs last)
    ∙ rw (concat-chunks_of bs last, append_assoc b (concat bs) last)

keep-bytes :
    (b : List ℕ) (bs : List (List ℕ))
    → All IsByte b
    → All (All IsByte) bs
    → All (All IsByte) (keep b bs)
keep-bytes [] bs h hs = hs
keep-bytes (x ∷ b) bs h hs = (h, hs)

pub chunks_of-bytes :
    (bs : List (List ℕ)) (last : List ℕ)
    → All (All IsByte) bs
    → All IsByte last
    → All (All IsByte) (chunks_of bs last)
chunks_of-bytes [] last h l = keep-bytes last [] l tt
chunks_of-bytes (b ∷ bs) last h l =
    keep-bytes b (chunks_of bs last) h.0 (chunks_of-bytes bs last h.1 l)
