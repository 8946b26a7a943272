-- ===== src/Client/Slots/Tests.antt =====
-- Runs of the client's calls.
use selftunnel.Common.{
  ℕ, List, [], ◌∷◌, ◌∷ʳ◌, some, lookup, insert, delete, nat_eq, ◌≡◌, refl, arith,
}
use selftunnel.Proto.{Frame, frame, request_start, response_start, cancel}
use selftunnel.Client.Requests.{Job, on_request_frame, handle_request_start, dispatch, assemble}
use selftunnel.Client.Slots.{
  Pool, new_pool, receive, lose_connection, new_connection, send_frame, ◌⟶◌, ◌⟶*◌, receives, here,
  then,
}
use selftunnel.Client.Slots.Laws.{waiting_can_run, cancel_lost, stale_answer}

abbrev start : Frame
start = record (frame request_start) { req_id = 1 }

abbrev job : Job
job = record { req_id = 1; start = start; body = [] }

-- A request without a body that waits for its slot.
abbrev waiting_pool : Pool
waiting_pool = record new_pool { requests = record new_pool.requests { jobs = job ∷ [] } }

received : receive request_start start new_pool ≡ waiting_pool
unfolding receive on_request_frame handle_request_start dispatch lookup insert delete assemble
received = refl

to_waiting : new_pool ⟶* waiting_pool
unfolding receive on_request_frame handle_request_start dispatch lookup insert delete assemble
to_waiting = then (receives request_start start new_pool) here

waiting_can_run_example :
    (q : Pool) × (rest : List (ℕ × ℕ)) × (call : ℕ) × (waiting_pool ⟶* q)
    × (q.running ≡ rest ∷ʳ (call, 1))
waiting_can_run_example = waiting_can_run waiting_pool [] job [] to_waiting refl

cancel_lost_example :
    (q : Pool) × (receive cancel (record (frame cancel) { req_id = 1 }) waiting_pool ⟶ q)
    × (q.running ≡ (0, 1) ∷ [])
    × (q.requests.cancelled ≡ [])
unfolding lookup
cancel_lost_example =
    cancel_lost waiting_pool [] job [] (record (frame cancel) { req_id = 1 }) refl refl refl
      (omega arith)

abbrev calling : Pool
calling = record waiting_pool {
  running = (0, 1) ∷ [];
  next_call = 1;
  conn = some 1;
  connections = 1;
}

abbrev redialled : Pool
redialled = new_connection (lose_connection calling)

abbrev late : Frame
late = record (frame response_start) { req_id = 1; status = 200 }

stale_answer_example :
    (calling ⟶* redialled)
    × (redialled.running ≡ (0, 1) ∷ [])
    × (redialled.requests ≡ calling.requests)
    × (redialled ⟶ send_frame late redialled)
    × ((send_frame late redialled).wire ≡ (2, late) ∷ [])
unfolding lose_connection new_connection
stale_answer_example = stale_answer calling [] 0 1 [] late refl refl
