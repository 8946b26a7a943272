-- ===== src/Server/Session/Tests.antt =====
-- Sessions on examples: the theorems at inputs that meet their hypotheses, and a few runs.
use selftunnel.Common.{
  ℕ, ◌-◌, ◌<◌, true, false, List, [], ◌∷◌, none, some, codes, lookup, nat_eq, ◌≡◌, refl, arith,
}
use selftunnel.Proto.{Frame, frame, response_start, response_chunk, ping}
use selftunnel.Server.Mailbox.{is_open}
use selftunnel.Server.Session.{
  Session, enqueue, u32_mod, new_session, next_req_id, next_req_id_loop, register_pending, close,
}
use selftunnel.Server.Session.ReqId.{next_req_id_fresh}
use selftunnel.Server.Session.Invariant.{
  IsOk, new_session-IsOk, register_pending-IsOk, close_reaches_all,
}
use selftunnel.Server.Session.History.{
  Op, admits, unregisters, routes, sends, closes, run, run-new_session,
}

abbrev fresh : Session
fresh = new_session (codes "10.0.0.1") 5

-- A counter about to wrap, and the id after it still in flight.
abbrev wrapping : Session
wrapping = record fresh { next_id = u32_mod - 1; pending = (0, 0) ∷ [] }

next_req_id_wraps : next_req_id wrapping ≡ some (1, record wrapping { next_id = 1 })
unfolding next_req_id next_req_id_loop lookup new_session
next_req_id_wraps = refl

next_req_id_fresh_example :
    (id : ℕ) × (next_req_id wrapping ≡ some (id, record wrapping { next_id = id }))
    × (lookup id wrapping.pending ≡ none)
    × (id < u32_mod)
next_req_id_fresh_example = next_req_id_fresh wrapping (omega arith)

abbrev history : List Op
history =
    admits
    ∷ admits
    ∷ routes false (record (frame response_start) { req_id = 1 })
    ∷ unregisters 1
    ∷ sends enqueue false (frame ping)
    ∷ closes
    ∷ closes
    ∷ unregisters 2
    ∷ []

run-new_session_example :
    (t : Session) × (run history (new_session (codes "10.0.0.1") 5) ≡ some t) × IsOk t
run-new_session_example = run-new_session history (codes "10.0.0.1") 5 (omega arith)

abbrev one_in_flight : Session
one_in_flight = (register_pending 1 fresh).1

one_in_flight-IsOk : IsOk one_in_flight
one_in_flight-IsOk =
    register_pending-IsOk 1 fresh (new_session-IsOk (codes "10.0.0.1") 5)
      (unfold new_session lookup in refl)

close_reaches_all_example :
    (t : Session) × (close one_in_flight ≡ some (true, t))
    × ((h : ℕ) → is_open t.boxes h ≡ false)
    × (t.pending ≡ [])
    × (close t ≡ some (false, t))
unfolding register_pending new_session
close_reaches_all_example = close_reaches_all one_in_flight one_in_flight-IsOk refl

abbrev chunk : Frame
chunk = record (frame response_chunk) { req_id = 1 }
