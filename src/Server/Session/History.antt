-- ===== src/Server/Session/History.antt =====
-- Histories of a session: relay handlers that come and go, frames that arrive and are sent, and the
-- teardown, in any order.
use selftunnel.Common.{
  ℕ, suc, ◌+◌, ◌≤◌, ◌<◌, Bool, true, false, not, List, [], ◌∷◌, Option, none, some, length, Text,
  lookup, insert, nat_eq, ◌≡◌, refl, ◌∙◌, arith, Option-cases, inl, inr,
}
use selftunnel.Proto.{Frame}
use selftunnel.Server.Mailbox.{get_box}
use selftunnel.Server.Session.{
  Session, Arm, enqueue, torn_down, cancelled, u32_mod, new_session, send_with_context, next_req_id,
  register_pending, unregister_pending, close_if, close, tear_down, deliver, deliver_found,
  route_response,
}
use selftunnel.Server.Session.ReqId.{next_req_id_fresh, length-delete-le}
use selftunnel.Server.Session.Invariant.{
  IsOk, new_session-IsOk, register_pending-IsOk, unregister_pending-IsOk, close-IsOk,
  route_response-IsOk, send_with_context-IsOk,
}

-- `admits` is a relay handler's `NextReqID` and `RegisterPending`.
pub data Op : Type 0 where
  admits : Op
  unregisters : ℕ → Op
  routes : Bool → Frame → Op
  sends : Arm → Bool → Frame → Op
  closes : Op

abbrev pub admitted : Option (ℕ × Session) → Option Session
admitted none = none
admitted (some (id, s)) = some (register_pending id s).1

abbrev pub closed_by : Option (Bool × Session) → Option Session
closed_by none = none
closed_by (some (b, s)) = some s

unfoldable pub step : Op → Session → Option Session
step admits s = admitted (next_req_id s)
step (unregisters k) s = unregister_pending k s
step (routes aborts f) s = some (route_response aborts f s).1
step (sends arm ctx_done f) s = some (send_with_context arm ctx_done f s).1
step closes s = closed_by (close s)

abbrev pub then_run : (Session → Option Session) → Option Session → Option Session
then_run k none = none
then_run k (some s) = k s

unfoldable pub run : List Op → Session → Option Session
run [] s = some s
run (op ∷ ops) s = then_run (run ops) (step op s)

-- A step adds at most one request in flight.
abbrev Grows : Session → Session → Type 0
Grows s t = length t.pending ≤ suc (length s.pending)

length-insert-le : (k h : ℕ) (p : List (ℕ × ℕ)) → length (insert k h p) ≤ suc (length p)
unfolding insert
length-insert-le k h [] = omega arith
length-insert-le k h ((j, i) ∷ p) = ground (arith, length-insert-le k h p)

route_response-pending :
    (aborts : Bool) (f : Frame) (s : Session) → (route_response aborts f s).1.pending ≡ s.pending
unfolding route_response deliver
route_response-pending aborts f s = elim (Option-cases (lookup f.req_id s.pending)) [
  | inl n ↦ rw (n, deliver_found)
  | inr (h, e) ↦ elim (Option-cases (get_box s.boxes h)) [
    | inl n ↦ rw (e, deliver_found, n, deliver)
    | inr (b, g) ↦ rw (e, deliver_found, g, deliver) (ground arith)
  ]
]

send_with_context-pending :
    (arm : Arm) (ctx_done : Bool) (f : Frame) (s : Session)
    → (send_with_context arm ctx_done f s).1.pending ≡ s.pending
unfolding send_with_context
send_with_context-pending enqueue ctx_done f s = ground arith
send_with_context-pending torn_down ctx_done f s = ground arith
send_with_context-pending cancelled ctx_done f s = ground arith

unregister_pending-length :
    (k : ℕ) (s t : Session) → unregister_pending k s ≡ some t → length t.pending ≤ length s.pending
unfolding unregister_pending
unregister_pending-length k s t e = ground (arith, length-delete-le k s.pending)

close_if-length :
    (c : Bool) (s t : Session) (b : Bool)
    → close_if c s ≡ some (b, t)
    → length t.pending ≤ length s.pending
unfolding close_if tear_down
close_if-length true s t b e = ground arith
close_if-length false s t b e = ground arith

step_lem :
    (op : Op) (s : Session)
    → IsOk s
    → length s.pending < u32_mod
    → (t : Session) × (step op s ≡ some t) × IsOk t × Grows s t
step_lem admits s v h =
    let (id, e, free, _) = next_req_id_fresh s h in
    let w : IsOk (record s { next_id = id }) = record {
      live = v.live;
      covered = v.covered;
      agree = v.agree;
    } in
    (
      (register_pending id (record s { next_id = id })).1,
      unfold step in rw e,
      register_pending-IsOk id (record s { next_id = id }) w free,
      unfold register_pending in length-insert-le id (length s.boxes) s.pending,
    )
step_lem (unregisters k) s v h =
    let (t, e, w, _) = unregister_pending-IsOk k s v in
    (t, unfold step in e, w, omega (arith, unregister_pending-length k s t e))
step_lem (routes aborts f) s v h = (
  (route_response aborts f s).1,
  unfold step in refl,
  route_response-IsOk aborts f s v,
  rw (route_response-pending aborts f s) (omega arith),
)
step_lem (sends arm ctx_done f) s v h = (
  (send_with_context arm ctx_done f s).1,
  unfold step in refl,
  send_with_context-IsOk arm ctx_done f s v,
  rw (send_with_context-pending arm ctx_done f s) (omega arith),
)
step_lem closes s v h =
    let (t, e, w, _) = close-IsOk s v in
    (
      t,
      unfold step in rw e,
      w,
      omega (arith, close_if-length s.closed s t (not s.closed) (unfold close in e)),
    )

run-IsOk :
    (ops : List Op) (s : Session)
    → IsOk s
    → length s.pending + length ops < u32_mod
    → (t : Session) × (run ops s ≡ some t) × IsOk t
run-IsOk [] s v h = (s, unfold run in refl, v)
run-IsOk (op ∷ ops) s v h =
    let (t, e, w, g) = step_lem op s v (omega arith) in
    let (u, r, x) = run-IsOk ops t w (omega arith) in (u, run_step op ops s t e ∙ r, x)
  where
    run_step :
        (op : Op) (ops : List Op) (s t : Session)
        → step op s ≡ some t
        → run (op ∷ ops) s ≡ run ops t
    run_step op ops s t e = unfold run in rw e

-- No history of fewer than 2^32 steps panics: no channel is closed twice, and an id is found for every
-- new request. The invariant holds in the end.
pub run-new_session :
    (ops : List Op) (addr : Text) (now : ℕ)
    → length ops < u32_mod
    → (t : Session) × (run ops (new_session addr now) ≡ some t) × IsOk t
run-new_session ops addr now h =
    run-IsOk ops (new_session addr now) (new_session-IsOk addr now)
      (unfold new_session in omega arith)
