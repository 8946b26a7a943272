-- ===== src/Client/Slots.antt =====
-- The goroutines of `forward` in internal/client/client.go: how the jobs of `dispatch` take the slots of
-- `sem`, register in `active`, send their frames with `sendFrame` and leave, while the read loop goes on
-- and connections come and go. What a call does between these points is Client/Forward.
pub mod Laws
mod Tests
use selftunnel.Common.{
  ℕ, suc, ◌+◌, ◌<◌, Bool, true, false, List, [], ◌∷◌, ◌++◌, ◌∷ʳ◌, Option, none, some, insert,
  delete, nat_eq, length, ◌≡◌, if◌then◌else◌,
}
use selftunnel.Proto.{Frame, FrameType}
use selftunnel.Client.Requests.{Requests, Job, on_request_frame}

abbrev pub max_concurrent : ℕ
max_concurrent = 8

-- `running` holds the calls that have a slot, each with its request id; `conn` is the number of the
-- connection that takes frames: `none` before the first one and while the last one is closed. `wire` has
-- the number of the connection that a frame was written to.
pub record Pool : Type 0 where
  pub requests : Requests
  pub running : List (ℕ × ℕ)
  pub next_call : ℕ
  pub conn : Option ℕ
  pub connections : ℕ
  pub wire : List (ℕ × Frame)

abbrev pub new_pool : Pool
new_pool = record {
  requests = record { pending = []; active = []; jobs = []; cancelled = [] };
  running = [];
  next_call = 0;
  conn = none;
  connections = 0;
  wire = [];
}

-- `c.sem <- struct{}{}` and the registration, for a job that waits between others.
unfoldable pub acquire : List Job → Job → List Job → Pool → Pool
acquire before job after p = record p {
  requests = record p.requests {
    jobs = before ++ after;
    active = insert job.req_id p.next_call p.requests.active;
  };
  running = p.running ∷ʳ (p.next_call, job.req_id);
  next_call = suc p.next_call;
}

abbrev pub write_to : Option ℕ → Frame → Pool → Pool
write_to none f p = p
write_to (some g) f p = record p { wire = p.wire ∷ʳ (g, f) }

-- `sendFrame`, but for a failing write on an open connection. With none it is an error, which the caller
-- takes as its end or drops.
unfoldable pub send_frame : Frame → Pool → Pool
send_frame f p = write_to p.conn f p

-- The deferred ends of `forward`, for a call that runs between others.
unfoldable pub finish_call : List (ℕ × ℕ) → ℕ → List (ℕ × ℕ) → Pool → Pool
finish_call before req_id after p = record p {
  requests = record p.requests { active = delete req_id p.requests.active };
  running = before ++ after;
}

-- A frame of the read loop.
unfoldable pub receive : FrameType → Frame → Pool → Pool
receive t f p = record p { requests = on_request_frame t f p.requests }

-- The connection is lost, and another one is made.
unfoldable pub lose_connection : Pool → Pool
lose_connection p = record p { conn = none }

unfoldable pub new_connection : Pool → Pool
new_connection p = record p { conn = some (suc p.connections); connections = suc p.connections }

infix 40 ◌⟶◌ ◌⟶*◌
pub data ◌⟶◌ : Pool → Pool → Type 0 where
  acquires :
      (before : List Job) (job : Job) (after : List Job) (p : Pool)
      → p.requests.jobs ≡ before ++ job ∷ after
      → length p.running < max_concurrent
      → p ⟶ acquire before job after p
  sends :
      (before : List (ℕ × ℕ)) (call req_id : ℕ) (after : List (ℕ × ℕ)) (f : Frame) (p : Pool)
      → p.running ≡ before ++ (call, req_id) ∷ after
      → f.req_id ≡ req_id
      → p ⟶ send_frame f p
  finishes :
      (before : List (ℕ × ℕ)) (call req_id : ℕ) (after : List (ℕ × ℕ)) (p : Pool)
      → p.running ≡ before ++ (call, req_id) ∷ after
      → p ⟶ finish_call before req_id after p
  receives : (t : FrameType) (f : Frame) (p : Pool) → p ⟶ receive t f p
  loses : (p : Pool) → p ⟶ lose_connection p
  dials : (p : Pool) → p ⟶ new_connection p

pub data ◌⟶*◌ : Pool → Pool → Type 0 where
  here : {p : Pool} → p ⟶* p
  then : {p q r : Pool} → p ⟶ q → q ⟶* r → p ⟶* r
