-- ===== src/Server/Writer/Laws.antt =====
-- What the write loop puts on the wire, and how it can end.
use selftunnel.Common.{
  ℕ, Bool, true, false, List, [], ◌∷◌, ◌++◌, Option, none, some, if◌then◌else◌, ◌≡◌, ◌≢◌, refl, sym,
  ap, ◌∙◌, append_assoc, append-nil, Bool-cases, inl, inr,
}
use selftunnel.Proto.{Frame}
use selftunnel.Server.Session.{
  Session, Arm, Sent, sent, session_closed, context_done, waits, send_with_context,
}
use selftunnel.Server.Session.Routing.{send_with_context_outcome}
use selftunnel.Server.Writer.{
  Message, text_message, close_message, Writer, WriterArm, dequeues, sees_done, ticks, ping_frame,
  selects, write_next, pinged, on_arm, on_ping, in_select, write_pass,
}

-- The frames on the wire.
abbrev pub frames_of : List Message → List Frame
frames_of [] = []
frames_of (text_message f ∷ ms) = f ∷ frames_of ms
frames_of (close_message ∷ ms) = frames_of ms

-- A sender of the session, or the loop.
pub data Act : Type 0 where
  offers : Arm → Bool → Frame → Act
  writes : WriterArm → Act

unfoldable pub act : Act → Writer → Writer
act (offers arm timed_out f) w = record w {
  session = (send_with_context arm timed_out f w.session).1;
}
act (writes arm) w = write_pass arm w

-- The frame that an act has put into the queue, if it has.
abbrev pub taken : Sent → Frame → List Frame
taken sent f = f ∷ []
taken session_closed f = []
taken context_done f = []
taken waits f = []

abbrev pub ping_taken : Bool → Sent → ℕ → List Frame
ping_taken true r ts = []
ping_taken false r ts = taken r (ping_frame ts)

abbrev pub pings_of : Option ℕ → WriterArm → Writer → List Frame
pings_of (some ts) (selects arm timed_out) w =
    ping_taken w.write_done (send_with_context arm timed_out (ping_frame ts) w.session).0 ts
pings_of _ _ w = []

abbrev pub pings : Writer → WriterArm → List Frame
pings w arm = pings_of w.pinging arm w

unfoldable pub accepted : Act → Writer → List Frame
accepted (offers arm timed_out f) w = taken (send_with_context arm timed_out f w.session).0 f
accepted (writes arm) w = pings w arm

abbrev pub acts : List Act → Writer → Writer
acts [] w = w
acts (a ∷ rest) w = acts rest (act a w)

abbrev pub all_accepted : List Act → Writer → List Frame
all_accepted [] w = []
all_accepted (a ∷ rest) w = accepted a w ++ all_accepted rest (act a w)

-- What is written and what is still queued.
abbrev pub outgoing : Writer → List Frame
outgoing w = frames_of w.wire ++ w.session.send_q

frames_of-append : (ms ns : List Message) → frames_of (ms ++ ns) ≡ frames_of ms ++ frames_of ns
frames_of-append [] ns = refl
frames_of-append (text_message f ∷ ms) ns = ap (λ fs. f ∷ fs) (frames_of-append ms ns)
frames_of-append (close_message ∷ ms) ns = frames_of-append ms ns

queued :
    (arm : Arm) (timed_out : Bool) (f : Frame) (s : Session)
    → (send_with_context arm timed_out f s).1.send_q
      ≡ s.send_q ++ taken (send_with_context arm timed_out f s).0 f
queued arm timed_out f s = elim (send_with_context_outcome arm timed_out f s) [
  | inl (went, _, _, same) ↦
      ap (λ (t : Session). t.send_q) same ∙ ap (λ (r : Sent). s.send_q ++ taken r f) (sym went)
  | inr (kept, same, _) ↦
      ap (λ (t : Session). t.send_q) same
      ∙ sym (append-nil s.send_q)
      ∙ ap (λ (fs : List Frame). s.send_q ++ fs)
          (sym (not_taken (send_with_context arm timed_out f s).0 kept))
]
  where
    not_taken : (r : Sent) → r ≢ sent → taken r f ≡ []
    not_taken sent k = absurd (k refl)
    not_taken session_closed k = refl
    not_taken context_done k = refl
    not_taken waits k = refl

offered :
    (arm : Arm) (timed_out : Bool) (f : Frame) (w : Writer)
    → frames_of w.wire ++ (send_with_context arm timed_out f w.session).1.send_q
      ≡ outgoing w ++ taken (send_with_context arm timed_out f w.session).0 f
offered arm timed_out f w =
    ap (λ (fs : List Frame). frames_of w.wire ++ fs) (queued arm timed_out f w.session)
    ∙ sym (append_assoc (frames_of w.wire) w.session.send_q _)

write_next-outgoing :
    (ok : Bool) (q : List Frame) (w : Writer)
    → w.session.send_q ≡ q
    → w.write_done ≡ false
    → (write_next ok q w).write_done ≡ false
    → outgoing (write_next ok q w) ≡ outgoing w
write_next-outgoing ok [] w e live d = refl
write_next-outgoing false (f ∷ fs) w e live d = absurd (cc)
write_next-outgoing true (f ∷ fs) w e live d =
    ap (λ (gs : List Frame). gs ++ fs) (frames_of-append w.wire (text_message f ∷ []))
    ∙ append_assoc (frames_of w.wire) (f ∷ []) fs
    ∙ ap (λ (gs : List Frame). frames_of w.wire ++ gs) (sym e)

pinged-outgoing :
    (r : Sent × Session) (f : Frame) (w : Writer)
    → frames_of w.wire ++ r.1.send_q ≡ outgoing w ++ taken r.0 f
    → (pinged r w).write_done ≡ false
    → outgoing (pinged r w) ≡ outgoing w ++ taken r.0 f
pinged-outgoing (sent, s) f w e d = e
pinged-outgoing (waits, s) f w e d = e
pinged-outgoing (session_closed, s) f w e d = absurd (cc)
pinged-outgoing (context_done, s) f w e d = absurd (cc)

ticked :
    (shut : Bool) (ts : ℕ) (w : Writer)
    → outgoing (if shut then record w { write_done = true } else record w { pinging = some ts })
      ≡ outgoing w ++ []
ticked true ts w = sym (append-nil (outgoing w))
ticked false ts w = sym (append-nil (outgoing w))

on_arm-outgoing :
    (arm : WriterArm) (w : Writer)
    → w.write_done ≡ false
    → (on_arm arm w).write_done ≡ false
    → outgoing (on_arm arm w) ≡ outgoing w ++ pings_of none arm w
on_arm-outgoing (dequeues ok) w live d =
    write_next-outgoing ok w.session.send_q w refl live d ∙ sym (append-nil (outgoing w))
on_arm-outgoing sees_done w live d = elim (Bool-cases w.session.done) [
  | inl torn ↦ absurd (cc (rw torn at d))
  | inr up ↦ rw up (sym (append-nil (outgoing w)))
]
on_arm-outgoing (ticks ts) w live d = ticked w.session.closed ts w
on_arm-outgoing (selects arm timed_out) w live d = sym (append-nil (outgoing w))

on_ping-outgoing :
    (ts : ℕ) (arm : WriterArm) (w : Writer)
    → w.write_done ≡ false
    → (on_ping ts arm w).write_done ≡ false
    → outgoing (on_ping ts arm w) ≡ outgoing w ++ pings_of (some ts) arm w
on_ping-outgoing ts (dequeues ok) w live d = sym (append-nil (outgoing w))
on_ping-outgoing ts sees_done w live d = sym (append-nil (outgoing w))
on_ping-outgoing ts (ticks t) w live d = sym (append-nil (outgoing w))
on_ping-outgoing ts (selects arm timed_out) w live d =
    let r = send_with_context arm timed_out (ping_frame ts) w.session in
    pinged-outgoing r (ping_frame ts) w (offered arm timed_out (ping_frame ts) w) d
    ∙ ap (λ (e : Bool). outgoing w ++ ping_taken e r.0 ts) (sym live)

in_select-outgoing :
    (o : Option ℕ) (arm : WriterArm) (w : Writer)
    → w.write_done ≡ false
    → (in_select o arm w).write_done ≡ false
    → outgoing (in_select o arm w) ≡ outgoing w ++ pings_of o arm w
in_select-outgoing none arm w live d = on_arm-outgoing arm w live d
in_select-outgoing (some ts) arm w live d = on_ping-outgoing ts arm w live d

passed :
    (arm : WriterArm) (w : Writer) (ended : Bool)
    → w.write_done ≡ ended
    → (if ended then w else in_select w.pinging arm w).write_done ≡ false
    → outgoing (if ended then w else in_select w.pinging arm w) ≡ outgoing w ++ pings w arm
passed arm w true e d = absurd (cc)
passed arm w false e d = in_select-outgoing w.pinging arm w e d

act-outgoing :
    (a : Act) (w : Writer)
    → (act a w).write_done ≡ false
    → outgoing (act a w) ≡ outgoing w ++ accepted a w
unfolding act accepted write_pass
act-outgoing (offers arm timed_out f) w d = offered arm timed_out f w
act-outgoing (writes arm) w d = passed arm w w.write_done refl d

still_ended :
    (arm : WriterArm) (w : Writer) (e : Bool)
    → w.write_done ≡ e
    → e ≡ true
    → (if e then w else in_select w.pinging arm w).write_done ≡ true
still_ended arm w true e t = e
still_ended arm w false e t = absurd (cc)

act-ended : (a : Act) (w : Writer) → w.write_done ≡ true → (act a w).write_done ≡ true
unfolding act write_pass
act-ended (offers arm timed_out f) w e = e
act-ended (writes arm) w e = still_ended arm w w.write_done refl e

acts-ended : (l : List Act) (w : Writer) → w.write_done ≡ true → (acts l w).write_done ≡ true
acts-ended [] w e = e
acts-ended (a ∷ l) w e = acts-ended l (act a w) (act-ended a w e)

-- As long as the write loop runs, whatever sends and passes of the loop came in between: what
-- is on the wire and then what is in the queue are just the frames that were accepted, each once and in
-- the order of their acceptance.
pub acts-outgoing :
    (l : List Act) (w : Writer)
    → (acts l w).write_done ≡ false
    → outgoing (acts l w) ≡ outgoing w ++ all_accepted l w
acts-outgoing [] w d = sym (append-nil (outgoing w))
acts-outgoing (a ∷ l) w d = elim (Bool-cases (act a w).write_done) [
  | inl ended ↦ absurd (cc (acts-ended l (act a w) ended, d))
  | inr live ↦
      acts-outgoing l (act a w) d
      ∙ ap (λ (fs : List Frame). fs ++ all_accepted l (act a w)) (act-outgoing a w live)
      ∙ append_assoc (outgoing w) (accepted a w) (all_accepted l (act a w))
]
