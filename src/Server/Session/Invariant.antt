-- ===== src/Server/Session/Invariant.antt =====
-- The invariant of a session's requests in flight, and that every operation keeps it.
use selftunnel.Common.{
  ℕ, Bool, true, false, not, ◌&&◌, ◌||◌, List, [], ◌∷◌, Option, none, some, length, Text, ltb,
  lookup, delete, lookup-insert, lookup-delete, nat_eq, ◌==◌, ◌≡◌, ◌≢◌, refl, sym, ap, ◌∙◌, arith,
  Bool-cases, Option-cases, inl, inr, ne→==_false, ==_refl, ==_sound,
}
use selftunnel.Proto.{Frame}
use selftunnel.Server.Mailbox.{Mailbox, mailbox_cap, is_open, get_box, set_box}
use selftunnel.Server.Mailbox.Laws.{close_box_open, is_open_new, is_open-set_box}
use selftunnel.Server.Session.{
  Session, Arm, enqueue, torn_down, cancelled, new_session, send_with_context, register_pending,
  unregister_pending, close_boxes, tear_down, close_if, close, deliver, deliver_found,
  route_response,
}
use selftunnel.Server.Session.Pending.{
  Live, Live-close_box, open_other, close_boxes-total, close_boxes-open, Live-lookup, Fresh-lookup,
  Live-delete, Live-new, Live-Fresh, Live-insert, Fresh-delete-lookup,
}

-- The requests in flight have open mailboxes of their own, every open mailbox is that of a request
-- in flight, and the flag `closed` agrees with the channel `done`.
pub record IsOk (s : Session) : Type 0 where
  pub live : Live s.pending s.boxes
  pub covered : (h : ℕ) → is_open s.boxes h ≡ true → (k : ℕ) × (lookup k s.pending ≡ some h)
  pub agree : s.done ≡ s.closed

pub new_session-IsOk : (addr : Text) (now : ℕ) → IsOk (new_session addr now)
unfolding new_session
new_session-IsOk addr now = record {
  live = tt;
  covered = λ h o. absurd (unfold is_open in ground arith);
  agree = refl;
}

pub register_pending-IsOk :
    (k : ℕ) (s : Session) → IsOk s → lookup k s.pending ≡ none → IsOk (register_pending k s).1
unfolding register_pending
register_pending-IsOk k s v free = record {
  live =
      Live-insert k (length s.boxes) s.pending _ (Live-new s.pending s.boxes _ v.live)
        (Live-Fresh s.pending s.boxes v.live)
        (rw (is_open_new s.boxes _ (length s.boxes), ==_refl (length s.boxes)));
  covered = λ h o. elim (Bool-cases (length s.boxes == h)) [
    | inl new ↦ (
      k,
      rw (lookup-insert k k (length s.boxes) s.pending, ==_refl k)
          (ap some (==_sound (length s.boxes) h new)),
    )
    | inr old ↦
        let was : is_open s.boxes h ≡ true = rw (is_open_new s.boxes _ h, old) at o in
        let (j, e) = v.covered h was in
        let other : k ≢ j = λ x. absurd (cc (free, e)) in
        (j, rw (lookup-insert k j (length s.boxes) s.pending, ne→==_false k j other) e)
  ];
  agree = v.agree;
}

pub unregister_pending-IsOk :
    (k : ℕ) (s : Session)
    → IsOk s
    → (t : Session) × (unregister_pending k s ≡ some t) × IsOk t × (lookup k t.pending ≡ none)
unfolding unregister_pending
unregister_pending-IsOk k s v = elim (Option-cases (lookup k s.pending)) [
  | inl n ↦ (s, rw n, v, n)
  | inr (h, e) ↦
      let (cs, c) = close_box_open h s.boxes (Live-lookup k h s.pending s.boxes v.live e) in
      (
        record s { pending = delete k s.pending; boxes = cs },
        rw (e, c),
        record {
          live =
              Live-close_box h (delete k s.pending) s.boxes cs c
                (Fresh-delete-lookup k h s.pending s.boxes v.live e)
                (Live-delete k s.pending s.boxes v.live);
          covered = λ j o.
              let (was, other) = open_other h s.boxes cs j c o in
              let (i, f) = v.covered j was in
              let elsewhere : k ≢ i = λ x. other (ground arith) in
              (i, rw (lookup-delete k i s.pending, ne→==_false k i elsewhere) f);
          agree = v.agree;
        },
        rw (lookup-delete k k s.pending, ==_refl k),
      )
]

torn_down-IsOk :
    (s : Session)
    → IsOk s
    → s.closed ≡ false
    → (t : Session) × (tear_down s ≡ some t)
      × IsOk t
      × (t.closed ≡ true)
      × ((h : ℕ) → is_open t.boxes h ≡ false)
      × (t.pending ≡ [])
unfolding tear_down
torn_down-IsOk s v e =
    let (cs, c) = close_boxes-total s.pending s.boxes v.live in
    let shut : (h : ℕ) → is_open cs h ≡ false = λ h. none_open cs c h in
    (
      record s { closed = true; conn_open = false; done = true; pending = []; boxes = cs },
      rw (v.agree, e, c),
      record { live = tt; covered = λ h o. absurd (cc (shut h, o)); agree = refl },
      refl,
      shut,
      refl,
    )
  where
    none_open :
        (cs : List Mailbox)
        → close_boxes s.pending s.boxes ≡ some cs
        → (h : ℕ) → is_open cs h ≡ false
    none_open cs c h = elim (Bool-cases (is_open cs h)) [
      | inl o ↦
          let (was, fresh) = close_boxes-open s.pending s.boxes cs h c o in
          let (k, l) = v.covered h was in absurd (Fresh-lookup k h s.pending fresh l)
      | inr f ↦ f
    ]

pub close_if-IsOk :
    (c : Bool) (s : Session)
    → IsOk s
    → s.closed ≡ c
    → (t : Session) × (close_if c s ≡ some (not c, t)) × IsOk t × (t.closed ≡ true)
unfolding close_if
close_if-IsOk true s v e = (s, refl, v, e)
close_if-IsOk false s v e = let (t, d, w, f, _, _) = torn_down-IsOk s v e in (t, rw d, w, f)

pub close-IsOk :
    (s : Session)
    → IsOk s
    → (t : Session) × (close s ≡ some (not s.closed, t)) × IsOk t × (t.closed ≡ true)
unfolding close
close-IsOk s v = close_if-IsOk s.closed s v refl

filled-IsOk :
    (h : ℕ) (b c : Mailbox) (s : Session)
    → IsOk s
    → get_box s.boxes h ≡ some b
    → c.done ≡ b.done
    → IsOk (record s { boxes = set_box s.boxes h c })
filled-IsOk h b c s v g e = record {
  live = Live_same s.pending v.live;
  covered = λ j o. v.covered j (sym (same j) ∙ o);
  agree = v.agree;
}
  where
    same : (j : ℕ) → is_open (set_box s.boxes h c) j ≡ is_open s.boxes j
    same j = is_open-set_box s.boxes h b c j g e

    Live_same : (p : List (ℕ × ℕ)) → Live p s.boxes → Live p (set_box s.boxes h c)
    Live_same [] l = tt
    Live_same ((k, i) ∷ p) l = (same i ∙ l.0, l.1, Live_same p l.2)

deliver-IsOk :
    (aborts : Bool) (f : Frame) (h : ℕ) (s : Session)
    → IsOk s
    → (o : Option Mailbox) → get_box s.boxes h ≡ o
    → IsOk (deliver aborts f h s o).1
unfolding deliver
deliver-IsOk aborts f h s v none g = v
deliver-IsOk aborts f h s v (some b) g =
    elim (Bool-cases (b.done && (aborts || not (ltb (length b.ch) mailbox_cap)))) [
      | inl a ↦ rw a v
      | inr a ↦ elim (Bool-cases (ltb (length b.ch) mailbox_cap)) [
        | inl r ↦ rw (a, r) (filled-IsOk h b _ s v g refl)
        | inr r ↦ rw (a, r) v
      ]
    ]

pub route_response-IsOk :
    (aborts : Bool) (f : Frame) (s : Session) → IsOk s → IsOk (route_response aborts f s).1
unfolding route_response
route_response-IsOk aborts f s v = elim (Option-cases (lookup f.req_id s.pending)) [
  | inl n ↦ rw (n, deliver_found) v
  | inr (h, e) ↦ rw (e, deliver_found) (deliver-IsOk aborts f h s v (get_box s.boxes h) refl)
]

pub send_with_context-IsOk :
    (arm : Arm) (ctx_done : Bool) (f : Frame) (s : Session)
    → IsOk s
    → IsOk (send_with_context arm ctx_done f s).1
unfolding send_with_context
send_with_context-IsOk enqueue ctx_done f s v = ground arith
send_with_context-IsOk torn_down ctx_done f s v = ground arith
send_with_context-IsOk cancelled ctx_done f s v = ground arith

-- The first `close` of a session leaves no mailbox open and no request in flight, so every relay
-- handler that waits is told. A second `close` changes nothing.
pub close_reaches_all :
    (s : Session)
    → IsOk s
    → s.closed ≡ false
    → (t : Session) × (close s ≡ some (true, t))
      × ((h : ℕ) → is_open t.boxes h ≡ false)
      × (t.pending ≡ [])
      × (close t ≡ some (false, t))
unfolding close
close_reaches_all s v e =
    let (t, d, w, f, shut, empty) = torn_down-IsOk s v e in
    (
      t,
      ap (λ c. close_if c s) e ∙ unfold close_if in rw d,
      shut,
      empty,
      ap (λ c. close_if c t) f ∙ unfold close_if in refl,
    )
