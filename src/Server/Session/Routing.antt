-- ===== src/Server/Session/Routing.antt =====
-- Response frames reach the handler of their request, in order, and no other; a handler that comes too
-- late for the teardown is refused when it sends.
use selftunnel.Common.{
  ℕ, ◌≤◌, ◌<◌, Bool, true, false, List, ◌∷ʳ◌, none, some, length, lookup, nat_eq, ◌⊎◌, ◌≡◌, ◌≢◌,
  arith,
}
use selftunnel.Proto.{Frame}
use selftunnel.Server.Mailbox.{Mailbox, mailbox_cap, get_box, set_box}
use selftunnel.Server.Mailbox.Laws.{get_box-set_box_self, get_box-set_box_ne, get_box-is_open}
use selftunnel.Server.Session.{
  Session, Arm, enqueue, torn_down, cancelled, sent, session_closed, send_queue_cap,
  send_with_context, no_mailbox, delivered, blocked, deliver, deliver_found, route_response,
}
use selftunnel.Server.Session.Invariant.{IsOk}
use selftunnel.Server.Session.Pending.{Live-lookup}

-- In a session that keeps the invariant, a frame for a request in flight is delivered if its mailbox has
-- room, at the end of what is there, and otherwise waits for room; it is never dropped. No other
-- mailbox changes, and neither does the rest of the session.
pub route_response_in_order :
    (aborts : Bool) (f : Frame) (s : Session) (h : ℕ)
    → IsOk s
    → lookup f.req_id s.pending ≡ some h
    → (b : Mailbox) × (get_box s.boxes h ≡ some b)
      × ((mailbox_cap ≤ length b.ch) → route_response aborts f s ≡ (blocked, s))
      × (length b.ch < mailbox_cap
          → (bs : List Mailbox) × (route_response aborts f s ≡ (delivered, record s { boxes = bs }))
            × (get_box bs h ≡ some (record b { ch = b.ch ∷ʳ f }))
            × ((j : ℕ) → h ≢ j → get_box bs j ≡ get_box s.boxes j))
unfolding route_response deliver
route_response_in_order aborts f s h v e =
    let (b, g, d) = get_box-is_open s.boxes h (Live-lookup f.req_id h s.pending s.boxes v.live e) in
    (
      b,
      g,
      λ full. rw (e, deliver_found, g, deliver) (ground arith),
      λ room. (
        set_box s.boxes h (record b { ch = b.ch ∷ʳ f }),
        rw (e, deliver_found, g, deliver) (ground arith),
        get_box-set_box_self s.boxes h b _ g,
        λ j n. get_box-set_box_ne s.boxes h _ j n,
      ),
    )

-- A frame for a request that is not in flight is dropped.
pub route_response_unknown :
    (aborts : Bool) (f : Frame) (s : Session)
    → lookup f.req_id s.pending ≡ none
    → route_response aborts f s ≡ (no_mailbox, s)
unfolding route_response
route_response_unknown aborts f s e = rw (e, deliver_found)

-- What a sender gets, whatever arm the runtime picks: a frame is queued only in a session that is not
-- closed and has room, and then at the end of the queue; in every other case the session is as it was,
-- and in a closed session the sender is always refused.
pub send_with_context_outcome :
    (arm : Arm) (ctx_done : Bool) (f : Frame) (s : Session)
    → (((send_with_context arm ctx_done f s).0 ≡ sent)
        × (s.closed ≡ false)
        × (length s.send_q < send_queue_cap)
        × ((send_with_context arm ctx_done f s).1 ≡ record s { send_q = s.send_q ∷ʳ f }))
      ⊎ (((send_with_context arm ctx_done f s).0 ≢ sent)
          × ((send_with_context arm ctx_done f s).1 ≡ s)
          × (s.closed ≡ true → (send_with_context arm ctx_done f s).0 ≡ session_closed))
unfolding send_with_context
send_with_context_outcome enqueue ctx_done f s = ground arith
send_with_context_outcome torn_down ctx_done f s = ground arith
send_with_context_outcome cancelled ctx_done f s = ground arith
