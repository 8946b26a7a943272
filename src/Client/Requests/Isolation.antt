-- ===== src/Client/Requests/Isolation.antt =====
-- Requests do not touch each other: what the client does for one of them is a machine of its own, fed
-- with the frames that carry its id.
use selftunnel.Common.{
  ℕ, Bool, true, false, not, List, [], ◌∷◌, ◌∷ʳ◌, Option, none, some, if◌then◌else◌, nat_eq,
  nat_beq, lookup, insert, delete, ◌≡◌, refl, ap, subst, ◌∙◌, arith, Bool-cases, Option-cases, inl,
  inr, lookup-delete_self,
}
use selftunnel.Proto.{
  Frame, FrameType, hello, hello_ack, ping, pong, set_target, set_target_ack, get_stats, stats,
  response_start, response_chunk, response_end, other, request_start, request_chunk, request_end,
  cancel,
}
use selftunnel.Base64.{decode}
use selftunnel.Client.Requests.{
  PendingReq, Requests, assemble, dispatch, handle_request_start, handle_request_chunk,
  handle_request_end, handle_cancel, chunk_found, store_chunk, end_found, cancel_active,
  on_request_frame, consume,
}
use selftunnel.Client.Requests.View.{
  own_jobs, view, own_frames, job, started, step_view, run_view, insert_own, insert_foreign,
  delete_foreign, dispatch-own, dispatch-foreign,
}

branch-foreign :
    (k id : ℕ) (b : Bool) (c : Requests)
    → nat_beq k id ≡ false
    → view id (if not b then dispatch k c else c) ≡ view id c
branch-foreign k id true c e = refl
branch-foreign k id false c e = dispatch-foreign k id c e

start-foreign :
    (id : ℕ) (f : Frame) (c : Requests)
    → nat_beq f.req_id id ≡ false
    → view id (handle_request_start f c) ≡ view id c
unfolding handle_request_start
start-foreign id f c e =
    let p : PendingReq = record { start = f; chunks = [] } in
    branch-foreign f.req_id id f.has_body (record c { pending = insert f.req_id p c.pending }) e
    ∙ ap (λ (o : Option PendingReq). (o, own_jobs id c.jobs))
        (insert_foreign f.req_id id p c.pending e)

chunk-foreign :
    (id : ℕ) (f : Frame) (c : Requests)
    → nat_beq f.req_id id ≡ false
    → view id (handle_request_chunk f c) ≡ view id c
unfolding handle_request_chunk
chunk-foreign id f c e = elim (Option-cases (lookup f.req_id c.pending)) [
  | inl n ↦ rw (n, chunk_found)
  | inr (p, q) ↦ elim (Option-cases (decode f.payload)) [
    | inl bad ↦ rw (q, chunk_found, bad, store_chunk)
    | inr (b, good) ↦ rw (
      q,
      chunk_found,
      good,
      store_chunk,
      insert_foreign f.req_id id (record p { chunks = insert f.seq b p.chunks }) c.pending e,
    )
  ]
]

end-foreign :
    (id : ℕ) (f : Frame) (c : Requests)
    → nat_beq f.req_id id ≡ false
    → view id (handle_request_end f c) ≡ view id c
unfolding handle_request_end
end-foreign id f c e = elim (Option-cases (lookup f.req_id c.pending)) [
  | inl n ↦ rw (n, end_found)
  | inr (p, q) ↦ rw (q, end_found) (dispatch-foreign f.req_id id c e)
]

cancel-view :
    (k id : ℕ) (c : Requests)
    → view id (handle_cancel k c) ≡ (lookup id (delete k c.pending), own_jobs id c.jobs)
unfolding handle_cancel
cancel-view k id c = elim (Option-cases (lookup k c.active)) [
  | inl n ↦ rw (n, cancel_active)
  | inr (x, q) ↦ rw (q, cancel_active)
]

-- A frame of another request leaves this one alone.
frame-foreign :
    (id : ℕ) (t : FrameType) (f : Frame) (c : Requests)
    → nat_beq f.req_id id ≡ false
    → view id (on_request_frame t f c) ≡ view id c
unfolding on_request_frame
frame-foreign id request_start f c e = start-foreign id f c e
frame-foreign id request_chunk f c e = chunk-foreign id f c e
frame-foreign id request_end f c e = end-foreign id f c e
frame-foreign id cancel f c e =
    cancel-view f.req_id id c ∙ rw (delete_foreign f.req_id id c.pending e)
frame-foreign id hello f c e = refl
frame-foreign id hello_ack f c e = refl
frame-foreign id ping f c e = refl
frame-foreign id pong f c e = refl
frame-foreign id set_target f c e = refl
frame-foreign id set_target_ack f c e = refl
frame-foreign id get_stats f c e = refl
frame-foreign id stats f c e = refl
frame-foreign id response_start f c e = refl
frame-foreign id response_chunk f c e = refl
frame-foreign id response_end f c e = refl
frame-foreign id (other x) f c e = refl

branch-own :
    (id : ℕ) (b : Bool) (c : Requests) (f : Frame)
    → lookup id c.pending ≡ some (record { start = f; chunks = [] })
    → view id (if not b then dispatch id c else c) ≡ (
        if not b
        then (none, own_jobs id c.jobs ∷ʳ job id f [])
        else (some (record { start = f; chunks = [] }), own_jobs id c.jobs))
unfolding assemble
branch-own id true c f e = ap (λ (o : Option PendingReq). (o, own_jobs id c.jobs)) e
branch-own id false c f e = dispatch-own id c (record { start = f; chunks = [] }) e

start-own :
    (f : Frame) (c : Requests)
    → view f.req_id (handle_request_start f c) ≡ started f.req_id f (view f.req_id c)
unfolding handle_request_start
start-own f c =
    let p : PendingReq = record { start = f; chunks = [] } in
    branch-own f.req_id f.has_body (record c { pending = insert f.req_id p c.pending }) f
      (insert_own f.req_id p c.pending)

chunk-own :
    (f : Frame) (c : Requests)
    → view f.req_id (handle_request_chunk f c)
      ≡ step_view f.req_id request_chunk f (view f.req_id c)
unfolding handle_request_chunk
chunk-own f c = elim (Option-cases (lookup f.req_id c.pending)) [
  | inl n ↦ rw (view, n, chunk_found, step_view, n)
  | inr (p, q) ↦ elim (Option-cases (decode f.payload)) [
    | inl bad ↦ rw (view, q, chunk_found, bad, store_chunk, step_view, q)
    | inr (b, good) ↦ rw (
      view,
      q,
      chunk_found,
      good,
      store_chunk,
      step_view,
      insert_own f.req_id (record p { chunks = insert f.seq b p.chunks }) c.pending,
    )
  ]
]

end-own :
    (f : Frame) (c : Requests)
    → view f.req_id (handle_request_end f c) ≡ step_view f.req_id request_end f (view f.req_id c)
unfolding handle_request_end
end-own f c = elim (Option-cases (lookup f.req_id c.pending)) [
  | inl n ↦ rw (view, n, end_found, step_view, n)
  | inr (p, q) ↦ rw (view, q, end_found, step_view) (dispatch-own f.req_id c p q)
]

frame-own :
    (t : FrameType) (f : Frame) (c : Requests)
    → view f.req_id (on_request_frame t f c) ≡ step_view f.req_id t f (view f.req_id c)
unfolding on_request_frame
frame-own request_start f c = start-own f c
frame-own request_chunk f c = chunk-own f c
frame-own request_end f c = end-own f c
frame-own cancel f c = cancel-view f.req_id f.req_id c ∙ rw (lookup-delete_self f.req_id c.pending)
frame-own hello f c = refl
frame-own hello_ack f c = refl
frame-own ping f c = refl
frame-own pong f c = refl
frame-own set_target f c = refl
frame-own set_target_ack f c = refl
frame-own get_stats f c = refl
frame-own stats f c = refl
frame-own response_start f c = refl
frame-own response_chunk f c = refl
frame-own response_end f c = refl
frame-own (other x) f c = refl

-- Whatever arrives, in whatever order the requests are mixed, the client holds of a request and starts
-- for it exactly what that request's own frames make of it.
pub view-consume :
    (id : ℕ) (fs : List Frame) (c : Requests)
    → view id (consume fs c) ≡ run_view id (own_frames id fs) (view id c)
unfolding consume
view-consume id [] c = refl
view-consume id (f ∷ fs) c = elim (Bool-cases (nat_beq f.req_id id)) [
  | inl own ↦ view-consume id fs (on_request_frame f.type f c) ∙ rw (own, mine (nat_beq_eq own))
  | inr foreign ↦
      view-consume id fs (on_request_frame f.type f c)
      ∙ rw (foreign, frame-foreign id f.type f c foreign)
]
  where
    nat_beq_eq : nat_beq f.req_id id ≡ true → f.req_id ≡ id
    nat_beq_eq e = ground arith

    mine : f.req_id ≡ id → view id (on_request_frame f.type f c) ≡ step_view id f.type f (view id c)
    mine e =
        subst (λ (k : ℕ). view k (on_request_frame f.type f c) ≡ step_view k f.type f (view k c)) e
          (frame-own f.type f c)
