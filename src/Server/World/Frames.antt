-- ===== src/Server/World/Frames.antt =====
-- The frames of a read loop that store a target or go to a mailbox keep the server's invariant.
use selftunnel.Common.{
  ℕ, Bool, not, [], Option, none, some, Text, All-lookup, lookup, lookup-insert, nat_eq, text_eq,
  ◌==◌, ◌≡◌, refl, sym, ap, subst, ◌∙◌, some_inj, Bool-cases, Option-cases, inl, inr, ==_sound, ltb,
  length, ◌&&◌, ◌||◌,
}
use selftunnel.Proto.{Frame}
use selftunnel.Server.Mailbox.{Mailbox, mailbox_cap, get_box}
use selftunnel.Server.Session.{
  Session, Delivery, no_mailbox, delivered, aborted, blocked, route_response, deliver,
  deliver_found,
}
use selftunnel.Server.Session.Invariant.{route_response-IsOk}
use selftunnel.Server.Registry.{Tunnel, with_target}
use selftunnel.Server.Registry.Invariant.{IsEntry, insert-IsRegistry}
use selftunnel.Server.Intake.{Server, put_session}
use selftunnel.Server.Intake.ReadLoop.{Pass, goes_on, retarget_found, retarget, routing}
use selftunnel.Server.World.Reads.{IsWorld, AfterPass, put-IsWorld}

abbrev going : Pass → Server → Option (Pass × Server)
going p srv = some (p, srv)

pub settled :
    (h : ℕ) (srv : Server)
    → IsWorld srv
    → (p : Pass) (srv' : Server) → going goes_on srv ≡ some (p, srv')
    → AfterPass h p srv'
settled h srv u p srv' e = subst (λ (q : Pass × Server). AfterPass h q.0 q.1) (some_inj e) u

-- A target that is stored leaves every tunnel's session.
retarget_found-IsWorld :
    (id : Text) (write_ok : Bool) (target : Text) (o : Option Tunnel) (srv : Server)
    → lookup id srv.tunnels ≡ o
    → IsWorld srv
    → IsWorld (retarget_found id write_ok target o srv)
unfolding with_target
retarget_found-IsWorld id write_ok target none srv e u = u
retarget_found-IsWorld id write_ok target (some t) srv e u = record {
  linked = record {
    registry =
        insert-IsRegistry id (record t { target = target }) srv.tunnels u.linked.registry
          (All-lookup IsEntry id t srv.tunnels u.linked.registry.entries e);
    sound = u.linked.sound;
    held = λ j x k at_j on. elim (Bool-cases (id == j)) [
      | inl same ↦
          let own : record t { target = target } ≡ x =
            some_inj
              (rw (lookup-insert id j (record t { target = target }) srv.tunnels, same) at at_j) in
          let here : lookup j srv.tunnels ≡ some t =
            ap (λ (y : Text). lookup y srv.tunnels) (sym (==_sound id j same)) ∙ e in
          u.linked.held j t k here (ap (λ (y : Tunnel). y.session) own ∙ on)
      | inr other ↦
          u.linked.held j x k
            (rw (lookup-insert id j (record t { target = target }) srv.tunnels, other) at at_j) on
    ];
  };
  all_fresh = record { each = u.all_fresh.each };
}

pub retarget-IsWorld :
    (write_ok : Bool) (target : Text) (o : Option Text) (srv : Server)
    → IsWorld srv
    → IsWorld (retarget write_ok target o srv)
retarget-IsWorld write_ok target none srv u = u
retarget-IsWorld write_ok target (some id) srv u = elim (Bool-cases (target == [])) [
  | inl empty ↦ rw empty u
  | inr filled ↦
      rw filled (retarget_found-IsWorld id write_ok target (lookup id srv.tunnels) srv refl u)
]

-- What a delivery does not change of a session.
abbrev KeepsLink : Session → Session → Type 0
KeepsLink s t = (t.tun ≡ s.tun) × (t.closed ≡ s.closed) × (t.hello_done ≡ s.hello_done)

deliver-KeepsLink :
    (aborts : Bool) (f : Frame) (h : ℕ) (s : Session) (o : Option Mailbox)
    → KeepsLink s (deliver aborts f h s o).1
unfolding deliver
deliver-KeepsLink aborts f h s none = (refl, refl, refl)
deliver-KeepsLink aborts f h s (some b) =
    elim (Bool-cases (b.done && (aborts || not (ltb (length b.ch) mailbox_cap)))) [
      | inl a ↦ rw a (refl, refl, refl)
      | inr a ↦ elim (Bool-cases (ltb (length b.ch) mailbox_cap)) [
        | inl r ↦ rw (a, r) (refl, refl, refl)
        | inr r ↦ rw (a, r) (refl, refl, refl)
      ]
    ]

route_response-KeepsLink :
    (aborts : Bool) (f : Frame) (s : Session) → KeepsLink s (route_response aborts f s).1
unfolding route_response
route_response-KeepsLink aborts f s = elim (Option-cases (lookup f.req_id s.pending)) [
  | inl n ↦ rw (n, deliver_found) (refl, refl, refl)
  | inr (h, e) ↦ rw (e, deliver_found) (deliver-KeepsLink aborts f h s (get_box s.boxes h))
]

routed-AfterPass :
    (h : ℕ) (d : Delivery) (t : Session) (srv : Server) (p : Pass) (srv' : Server)
    → IsWorld (put_session h t srv)
    → some (routing h srv (d, t)) ≡ some (p, srv')
    → AfterPass h p srv'
routed-AfterPass h no_mailbox t srv p srv' u e = settled h (put_session h t srv) u p srv' e
routed-AfterPass h delivered t srv p srv' u e = settled h (put_session h t srv) u p srv' e
routed-AfterPass h aborted t srv p srv' u e = settled h (put_session h t srv) u p srv' e
routed-AfterPass h blocked t srv p srv' u e =
    subst (λ (q : Pass × Server). AfterPass h q.0 q.1) (some_inj e) tt

pub route-AfterPass :
    (aborts : Bool) (f : Frame) (h : ℕ) (s : Session) (srv : Server) (p : Pass) (srv' : Server)
    → IsWorld srv
    → lookup h srv.sessions ≡ some s
    → some (routing h srv (route_response aborts f s)) ≡ some (p, srv')
    → AfterPass h p srv'
route-AfterPass aborts f h s srv p srv' u there e =
    let (tun, closed, done) = route_response-KeepsLink aborts f s in
    routed-AfterPass h (route_response aborts f s).0 (route_response aborts f s).1 srv p srv'
      (put-IsWorld h s (route_response aborts f s).1 srv u there
        (route_response-IsOk aborts f s (u.linked.sound h s there)) tun closed
        (λ live quiet. tun ∙ u.all_fresh.each h s there (sym closed ∙ live) (sym done ∙ quiet)))
      e
