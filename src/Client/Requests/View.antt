-- ===== src/Client/Requests/View.antt =====
-- One request of the client on its own: what the client holds of it, and the machine that its frames
-- drive.
use selftunnel.Common.{
  ℕ, true, false, not, List, [], ◌∷◌, ◌∷ʳ◌, Option, none, some, if◌then◌else◌, nat_eq, nat_beq,
  lookup, insert, delete, length, ◌≡◌, ◌∙◌, arith, Bool-cases, Option-cases, inl, inr,
  lookup-insert, lookup-insert_self, lookup-delete, lookup-delete_self,
}
use selftunnel.Proto.{Frame, FrameType, request_start, request_chunk, request_end, cancel}
use selftunnel.Base64.{decode}
use selftunnel.Client.Requests.{PendingReq, Job, Requests, assemble, dispatch, dispatch_found}

-- The part of the request `id` that has arrived, and the calls that were started for it.
abbrev pub View : Type 0
View = Option PendingReq × List Job

abbrev pub own_job : ℕ → Job → List Job → List Job
own_job id j js = if nat_beq j.req_id id then j ∷ js else js

abbrev pub own_jobs : ℕ → List Job → List Job
own_jobs id [] = []
own_jobs id (j ∷ js) = own_job id j (own_jobs id js)

abbrev pub view : ℕ → Requests → View
view id c = (lookup id c.pending, own_jobs id c.jobs)

abbrev pub own_frames : ℕ → List Frame → List Frame
own_frames id [] = []
own_frames id (f ∷ fs) = if nat_beq f.req_id id then f ∷ own_frames id fs else own_frames id fs

abbrev pub job : ℕ → Frame → List ℕ → Job
job id f body = record { req_id = id; start = f; body = body }

abbrev pub started : ℕ → Frame → View → View
started id f (o, js) =
    if not f.has_body
    then (none, js ∷ʳ job id f [])
    else (some (record { start = f; chunks = [] }), js)

abbrev pub chunk_kept : Frame → PendingReq → Option (List ℕ) → PendingReq
chunk_kept f p none = p
chunk_kept f p (some data') = record p { chunks = insert f.seq data' p.chunks }

-- One request on its own.
abbrev pub step_view : ℕ → FrameType → Frame → View → View
step_view id request_start f v = started id f v
step_view id request_chunk f (none, js) = (none, js)
step_view id request_chunk f (some p, js) = (some (chunk_kept f p (decode f.payload)), js)
step_view id request_end f (none, js) = (none, js)
step_view id request_end f (some p, js) =
    (none, js ∷ʳ job id p.start (assemble (length p.chunks) 0 p.chunks))
step_view id cancel f (o, js) = (none, js)
step_view id _ f v = v

abbrev pub run_view : ℕ → List Frame → View → View
run_view id [] v = v
run_view id (f ∷ fs) v = run_view id fs (step_view id f.type f v)

own_jobs-own :
    (id : ℕ) (j : Job) (js : List Job)
    → nat_beq j.req_id id ≡ true
    → own_jobs id (js ∷ʳ j) ≡ own_jobs id js ∷ʳ j
own_jobs-own id j [] e = rw e
own_jobs-own id j (k ∷ js) e = elim (Bool-cases (nat_beq k.req_id id)) [
  | inl t ↦ rw (t, own_jobs-own id j js e)
  | inr f ↦ rw (f, own_jobs-own id j js e)
]

own_jobs-foreign :
    (id : ℕ) (j : Job) (js : List Job)
    → nat_beq j.req_id id ≡ false
    → own_jobs id (js ∷ʳ j) ≡ own_jobs id js
own_jobs-foreign id j [] e = rw e
own_jobs-foreign id j (k ∷ js) e = rw (own_jobs-foreign id j js e)

pub beq_self : (id : ℕ) → nat_beq id id ≡ true
beq_self id = ground arith

pub insert_own :
    {V : Type 0} (id : ℕ) (v : V) (m : List (ℕ × V)) → lookup id (insert id v m) ≡ some v
insert_own id v m = lookup-insert_self id v m

pub insert_foreign :
    {V : Type 0} (k id : ℕ) (v : V) (m : List (ℕ × V))
    → nat_beq k id ≡ false
    → lookup id (insert k v m) ≡ lookup id m
insert_foreign k id v m e = lookup-insert k id v m ∙ rw e

pub delete_foreign :
    {V : Type 0} (k id : ℕ) (m : List (ℕ × V))
    → nat_beq k id ≡ false
    → lookup id (delete k m) ≡ lookup id m
delete_foreign k id m e = lookup-delete k id m ∙ rw e

-- To start a call concerns its own request only.
pub dispatch-own :
    (id : ℕ) (c : Requests) (p : PendingReq)
    → lookup id c.pending ≡ some p
    → view id (dispatch id c)
      ≡ (none, own_jobs id c.jobs ∷ʳ job id p.start (assemble (length p.chunks) 0 p.chunks))
unfolding dispatch
dispatch-own id c p e = rw (
  e,
  dispatch_found,
  lookup-delete_self id c.pending,
  own_jobs-own id (job id p.start (assemble (length p.chunks) 0 p.chunks)) c.jobs (beq_self id),
)

pub dispatch-foreign :
    (k id : ℕ) (c : Requests) → nat_beq k id ≡ false → view id (dispatch k c) ≡ view id c
unfolding dispatch
dispatch-foreign k id c e = elim (Option-cases (lookup k c.pending)) [
  | inl n ↦ rw (n, dispatch_found)
  | inr (p, q) ↦ rw (
    q,
    dispatch_found,
    delete_foreign k id c.pending e,
    own_jobs-foreign id (job k p.start (assemble (length p.chunks) 0 p.chunks)) c.jobs e,
  )
]
