-- ===== src/Server/Session.antt =====
-- The session of internal/server/tunnel.go: its state, the frames it sends, the requests in flight
-- and the teardown. A channel is the list of what it holds; the atomics are fields. `none` is a panic,
-- of which Go has one here: to close a closed channel.
pub mod ReqId
pub mod Pending
pub mod Invariant
pub mod Routing
pub mod History
mod Tests
use selftunnel.Common.{
  ℕ, zero, suc, ◌+◌, ◌%◌, ◌^◌, Bool, true, false, not, ◌&&◌, ◌||◌, List, [], ◌∷◌, ◌∷ʳ◌, Option,
  none, some, length, ltb, Text, if◌then◌else◌, lookup, insert, delete, nat_eq,
}
use selftunnel.Proto.{Frame, FrameType, frame}
use selftunnel.Server.Mailbox.{Mailbox, mailbox_cap, get_box, set_box, close_box}

abbrev pub send_queue_cap : ℕ
send_queue_cap = 256

pub record Session : Type 0 where
  pub conn_open : Bool
  pub tun : Option Text
  pub remote_addr : Text
  pub started_at : ℕ
  pub send_q : List Frame
  pub done : Bool
  pub pending : List (ℕ × ℕ)
  pub boxes : List Mailbox
  pub next_id : ℕ
  pub last_rx : ℕ
  pub closed : Bool
  pub hello_done : Bool

unfoldable pub new_session : Text → ℕ → Session
new_session remote_addr now = record {
  conn_open = true;
  tun = none;
  remote_addr = remote_addr;
  started_at = now;
  send_q = [];
  done = false;
  pending = [];
  boxes = [];
  next_id = 0;
  last_rx = 0;
  closed = false;
  hello_done = false;
}

-- `touch`, but for the deadline of the connection.
unfoldable pub touch : ℕ → Session → Session
touch now s = record s { last_rx = now }

-- The arms of the `select` in `sendWithContext`; of those that are ready the runtime picks one.
pub data Arm : Type 0 where
  enqueue torn_down cancelled : Arm

pub data Sent : Type 0 where
  sent session_closed context_done waits : Sent

-- `ctx_done` says whether the caller's context is done. An arm that is not ready leaves the sender
-- waiting.
unfoldable pub select_send : Arm → Bool → Frame → Session → Sent × Session
select_send enqueue ctx_done f s =
    if ltb (length s.send_q) send_queue_cap
    then (sent, record s { send_q = s.send_q ∷ʳ f })
    else (waits, s)
select_send torn_down ctx_done f s = if s.done then (session_closed, s) else (waits, s)
select_send cancelled ctx_done f s = if ctx_done then (context_done, s) else (waits, s)

unfoldable pub send_with_context : Arm → Bool → Frame → Session → Sent × Session
unfolding select_send
send_with_context arm ctx_done f s =
    if s.closed then (session_closed, s) else select_send arm ctx_done f s

-- The ids wrap around at 2^32.
abbrev pub u32_mod : ℕ
u32_mod = 2 ^ 32

abbrev pub is_used : Option ℕ → Bool
is_used none = false
is_used (some h) = true

-- The loop of `NextReqID` with its rounds bounded: `none` means that they ran out.
unfoldable pub next_req_id_loop : ℕ → ℕ → List (ℕ × ℕ) → Option ℕ
next_req_id_loop zero n pending = none
next_req_id_loop (suc rounds) n pending =
    let id = (n + 1) % u32_mod in
    let rest = next_req_id_loop rounds id pending in
    if is_used (lookup id pending) then rest else some id

abbrev pub with_id : Session → Option ℕ → Option (ℕ × Session)
with_id s none = none
with_id s (some id) = some (id, record s { next_id = id })

unfoldable pub next_req_id : Session → Option (ℕ × Session)
next_req_id s = with_id s (next_req_id_loop (suc (length s.pending)) s.next_id s.pending)

-- The handler's mailbox is the place in the store.
unfoldable pub register_pending : ℕ → Session → ℕ × Session
register_pending req_id s =
    let h = length s.boxes in
    (
      h,
      record s {
        pending = insert req_id h s.pending;
        boxes = s.boxes ∷ʳ (record { ch = []; done = false });
      },
    )

abbrev pub forget : ℕ → Session → Option (List Mailbox) → Option Session
forget req_id s none = none
forget req_id s (some bs) = some (record s { pending = delete req_id s.pending; boxes = bs })

abbrev pub unregister_found : ℕ → Session → Option ℕ → Option Session
unregister_found req_id s none = some s
unregister_found req_id s (some h) = forget req_id s (close_box h s.boxes)

unfoldable pub unregister_pending : ℕ → Session → Option Session
unregister_pending req_id s = unregister_found req_id s (lookup req_id s.pending)

pub data Delivery : Type 0 where
  no_mailbox delivered aborted blocked : Delivery

-- `routeResponse`: `aborts` is the runtime's choice where both arms are ready.
unfoldable pub deliver : Bool → Frame → ℕ → Session → Option Mailbox → Delivery × Session
deliver aborts f h s none = (no_mailbox, s)
deliver aborts f h s (some b) =
    let room = ltb (length b.ch) mailbox_cap in
    if b.done && (aborts || not room)
    then (aborted, s)
    else if room
    then (delivered, record s { boxes = set_box s.boxes h (record b { ch = b.ch ∷ʳ f }) })
    else (blocked, s)

abbrev pub deliver_found : Bool → Frame → Session → Option ℕ → Delivery × Session
deliver_found aborts f s none = (no_mailbox, s)
deliver_found aborts f s (some h) = deliver aborts f h s (get_box s.boxes h)

unfoldable pub route_response : Bool → Frame → Session → Delivery × Session
unfolding deliver
route_response aborts f s = deliver_found aborts f s (lookup f.req_id s.pending)

-- The loop of `close` over the mailboxes in flight.
abbrev pub close_next :
    (List Mailbox → Option (List Mailbox)) → Option (List Mailbox) → Option (List Mailbox)
close_next k none = none
close_next k (some bs) = k bs

unfoldable pub close_boxes : List (ℕ × ℕ) → List Mailbox → Option (List Mailbox)
close_boxes [] bs = some bs
close_boxes ((k, h) ∷ p) bs = close_next (close_boxes p) (close_box h bs)

abbrev pub torn : Session → Option (List Mailbox) → Option Session
torn s none = none
torn s (some bs) =
    some (record s { closed = true; conn_open = false; done = true; pending = []; boxes = bs })

-- The part of `close` behind the once-flag that concerns the session itself.
unfoldable pub tear_down : Session → Option Session
tear_down s = if s.done then none else torn s (close_boxes s.pending s.boxes)

abbrev pub first_close : Option Session → Option (Bool × Session)
first_close none = none
first_close (some t) = some (true, t)

unfoldable pub close_if : Bool → Session → Option (Bool × Session)
close_if true s = some (false, s)
close_if false s = first_close (tear_down s)

-- `close` on the session, with whether this call was the one that tore it down.
unfoldable pub close : Session → Option (Bool × Session)
close s = close_if s.closed s
