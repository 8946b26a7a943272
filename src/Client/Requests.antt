-- ===== src/Client/Requests.antt =====
-- The requests that the client assembles, in internal/client/client.go: `pendingReq`, the handlers of
-- the request frames, `dispatch` and the bookkeeping of `handleCancel`. A goroutine that `dispatch`
-- starts is an entry of `jobs`; a `context.CancelFunc` that was called is an entry of `cancelled`.
pub mod Assembly
pub mod View
pub mod Isolation
pub mod Upload
mod Tests
use selftunnel.Common.{
  ℕ, suc, zero, ◌+◌, Bool, true, false, not, List, [], ◌∷◌, ◌++◌, ◌∷ʳ◌, Option, none, some, Text,
  if◌then◌else◌, nat_eq, lookup, insert, delete, length,
}
use selftunnel.Proto.{Frame, FrameType, request_start, request_chunk, request_end, cancel}
use selftunnel.Base64.{decode}

abbrev pub Chunks : Type 0
Chunks = List (ℕ × List ℕ)

pub record PendingReq : Type 0 where
  pub start : Frame
  pub chunks : Chunks

-- `go c.forward(reqID, p.start, body)`.
pub record Job : Type 0 where
  pub req_id : ℕ
  pub start : Frame
  pub body : List ℕ

-- `active` holds the requests whose target call can be cancelled.
pub record Requests : Type 0 where
  pub pending : List (ℕ × PendingReq)
  pub active : List (ℕ × ℕ)
  pub jobs : List Job
  pub cancelled : List ℕ

abbrev pub chunk_at : Option (List ℕ) → List ℕ
chunk_at none = []
chunk_at (some b) = b

-- `for i := 0; i < len(p.chunks); i++`, from `i` on, with the rounds that are left.
unfoldable pub assemble : ℕ → ℕ → Chunks → List ℕ
assemble zero i chunks = []
assemble (suc rounds) i chunks = chunk_at (lookup i chunks) ++ assemble rounds (suc i) chunks

abbrev pub dispatch_found : ℕ → Requests → Option PendingReq → Requests
dispatch_found req_id c none = c
dispatch_found req_id c (some p) = record c {
  pending = delete req_id c.pending;
  jobs = c.jobs ∷ʳ (record {
    req_id = req_id;
    start = p.start;
    body = assemble (length p.chunks) 0 p.chunks;
  });
}

unfoldable pub dispatch : ℕ → Requests → Requests
dispatch req_id c = dispatch_found req_id c (lookup req_id c.pending)

unfoldable pub handle_request_start : Frame → Requests → Requests
unfolding dispatch
handle_request_start f c =
    let c' : Requests = record c {
      pending = insert f.req_id (record { start = f; chunks = [] }) c.pending;
    } in
    if not f.has_body then dispatch f.req_id c' else c'

abbrev pub store_chunk : Frame → Requests → PendingReq → Option (List ℕ) → Requests
store_chunk f c p none = c
store_chunk f c p (some data') = record c {
  pending = insert f.req_id (record p { chunks = insert f.seq data' p.chunks }) c.pending;
}

abbrev pub chunk_found : Frame → Requests → Option PendingReq → Requests
chunk_found f c none = c
chunk_found f c (some p) = store_chunk f c p (decode f.payload)

unfoldable pub handle_request_chunk : Frame → Requests → Requests
handle_request_chunk f c = chunk_found f c (lookup f.req_id c.pending)

abbrev pub end_found : Frame → Requests → Option PendingReq → Requests
end_found f c none = c
end_found f c (some p) = dispatch f.req_id c

unfoldable pub handle_request_end : Frame → Requests → Requests
unfolding dispatch
handle_request_end f c = end_found f c (lookup f.req_id c.pending)

abbrev pub cancel_active : ℕ → Requests → Option ℕ → Requests
cancel_active req_id c none = c
cancel_active req_id c (some call) = record c { cancelled = call ∷ c.cancelled }

unfoldable pub handle_cancel : ℕ → Requests → Requests
handle_cancel req_id c =
    cancel_active req_id
      (record c { pending = delete req_id c.pending; active = delete req_id c.active })
      (lookup req_id c.active)

-- The cases of the read loop that concern requests.
unfoldable pub on_request_frame : FrameType → Frame → Requests → Requests
unfolding handle_request_start handle_request_chunk handle_request_end handle_cancel
on_request_frame request_start f c = handle_request_start f c
on_request_frame request_chunk f c = handle_request_chunk f c
on_request_frame request_end f c = handle_request_end f c
on_request_frame cancel f c = handle_cancel f.req_id c
on_request_frame _ f c = c

unfoldable pub consume : List Frame → Requests → Requests
unfolding on_request_frame
consume [] c = c
consume (f ∷ fs) c = consume fs (on_request_frame f.type f c)
