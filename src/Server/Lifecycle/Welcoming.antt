-- ===== src/Server/Lifecycle/Welcoming.antt =====
-- A hello keeps the tunnels and the sessions linked.
use selftunnel.Common.{
  ℕ, Bool, false, Option, none, some, Text, lookup, insert, ℤ, up, lookup-insert, All-lookup,
  nat_eq, text_eq, ◌==◌, nat_beq, ◌≡◌, refl, sym, ap, ◌∙◌, some_inj, arith, Bool-cases, inl, inr,
  ==_sound, ==_refl,
}
use selftunnel.Proto.{Frame}
use selftunnel.Server.Session.{
  Session, Arm, enqueue, torn_down, cancelled, send_with_context, select_send,
}
use selftunnel.Server.Session.Invariant.{IsOk, send_with_context-IsOk}
use selftunnel.Server.Registry.{Tunnel, registered}
use selftunnel.Server.Registry.Invariant.{IsEntry, insert-IsRegistry}
use selftunnel.Server.Lifecycle.Linked.{Linked}
use selftunnel.Server.Lifecycle.Closing.{put_session-Linked, close_session-Linked}
use selftunnel.Server.Intake.{
  Server, put_session, put_tunnel, tunnel_session, kick, with_tun, acknowledge, ack_outcome,
  ack_frame, HelloOutcome, send_found, send_to, welcome,
}
use selftunnel.Server.Intake.Counting.{bind_found}

pub send_with_context-tun :
    (arm : Arm) (timed_out : Bool) (f : Frame) (s : Session)
    → ((send_with_context arm timed_out f s).1.tun ≡ s.tun)
      × ((send_with_context arm timed_out f s).1.closed ≡ s.closed)
unfolding send_with_context select_send
send_with_context-tun enqueue timed_out f s = ground arith
send_with_context-tun torn_down timed_out f s = ground arith
send_with_context-tun cancelled timed_out f s = ground arith

-- A send to a session, whatever its outcome.
pub send_to-Linked :
    (arm : Arm) (timed_out : Bool) (f : Frame) (h : ℕ) (srv : Server)
    → Linked srv
    → Linked (send_to arm timed_out f h srv).1
unfolding send_to
send_to-Linked arm timed_out f h srv l = by_session (lookup h srv.sessions) refl
  where
    by_session :
        (o : Option Session)
        → lookup h srv.sessions ≡ o
        → Linked (send_found arm timed_out f h srv o).1
    by_session none e = l
    by_session (some s) e =
        let (tun, live) = send_with_context-tun arm timed_out f s in
        put_session-Linked h (send_with_context arm timed_out f s).1 srv l
          (send_with_context-IsOk arm timed_out f s (l.sound h s e))
          (λ id t g on.
            let (y, at_h, bound, fresh) = l.held id t h g on in
            let same : s ≡ y = some_inj (sym e ∙ at_h) in
            (
              tun ∙ ap (λ (x : Session). x.tun) same ∙ bound,
              live ∙ ap (λ (x : Session). x.closed) same ∙ fresh,
            ))

counter-Linked : (srv : Server) (n : ℤ) → Linked srv → Linked (record srv { online_count = n })
counter-Linked srv n l = record { registry = l.registry; sound = l.sound; held = l.held }

acknowledge-Linked :
    (arm : Arm) (timed_out : Bool) (ack : Frame) (h : ℕ) (srv : Server)
    → Linked srv
    → (out : HelloOutcome) × (srv' : Server) × (acknowledge arm timed_out ack h (some srv)
        ≡ some (out, srv'))
      × Linked srv'
acknowledge-Linked arm timed_out ack h srv l =
    let counted : Server = record srv { online_count = up srv.online_count } in
    (
      ack_outcome (send_to arm timed_out ack h counted).0,
      (send_to arm timed_out ack h counted).1,
      refl,
      send_to-Linked arm timed_out ack h counted (counter-Linked srv (up srv.online_count) l),
    )

kick-Linked :
    (h : ℕ) (o : Option ℕ) (srv : Server)
    → Linked srv
    → (srv' : Server) × (kick h o srv ≡ some srv') × Linked srv'
unfolding kick
kick-Linked h none srv l = (srv, refl, l)
kick-Linked h (some o) srv l = elim (Bool-cases (nat_beq o h)) [
  | inl same ↦ rw same (srv, refl, l)
  | inr other ↦ rw other (close_session-Linked o srv l)
]

-- The session takes the tunnel's name, and then the tunnel the session.
bound-Linked :
    (h : ℕ) (id : Text) (t : Tunnel) (s : Session) (srv : Server)
    → Linked srv
    → lookup id srv.tunnels ≡ some t
    → lookup h srv.sessions ≡ some s
    → s.tun ≡ none
    → s.closed ≡ false
    → Linked (
        put_tunnel id
          (record t { session = some h })
          (put_session h (record s { tun = some id }) srv))
bound-Linked h id t s srv l found there free live =
    let s' : Session = record s { tun = some id } in
    let t' : Tunnel = record t { session = some h } in
    let ok : IsOk s = l.sound h s there in
    let named : Linked (put_session h s' srv) =
      put_session-Linked h s' srv l
        (record { live = ok.live; covered = ok.covered; agree = ok.agree })
        (λ j x e on.
          let (y, at_h, tun, _) = l.held j x h e on in
          let same : s ≡ y = some_inj (sym there ∙ at_h) in
          absurd (cc (sym free ∙ ap (λ (z : Session). z.tun) same ∙ tun))) in
    record {
      registry =
          insert-IsRegistry id t' srv.tunnels l.registry
            (All-lookup IsEntry id t srv.tunnels l.registry.entries found);
      sound = named.sound;
      held = λ j x k e on. elim (Bool-cases (id == j)) [
        | inl same ↦
            let own : t' ≡ x = some_inj (rw (lookup-insert id j t' srv.tunnels, same) at e) in
            let at_k : h ≡ k = some_inj (ap (λ (z : Tunnel). z.session) own ∙ on) in
            (
              s',
              ap (λ (z : ℕ). lookup z (insert h s' srv.sessions)) (sym at_k)
                  ∙ rw (lookup-insert h h s' srv.sessions, ==_refl h) refl,
              ap some (==_sound id j same),
              live,
            )
        | inr other ↦ named.held j x k (rw (lookup-insert id j t' srv.tunnels, other) at e) on
      ];
    }

-- A hello of an open session that has no tunnel yet, once the registry has given it one, is answered
-- without a panic, whichever session held the tunnel and however the acknowledgement fares, and the
-- tunnels and the sessions stay linked.
pub welcome-Linked :
    (arm : Arm) (timed_out : Bool) (h : ℕ) (s : Session) (srv : Server) (id : Text)
    (reused denied : Bool) (secret : Text) (t : Tunnel)
    → Linked srv
    → lookup id srv.tunnels ≡ some t
    → lookup h srv.sessions ≡ some s
    → s.tun ≡ none
    → s.closed ≡ false
    → (out : HelloOutcome) × (srv' : Server) × (welcome arm timed_out h srv
          (registered id reused denied secret)
        ≡ some (out, srv'))
      × Linked srv'
unfolding welcome
welcome-Linked arm timed_out h s srv id reused denied secret t l found there free live =
    let old = tunnel_session (lookup id srv.tunnels) in
    let S : Server =
      put_tunnel id (record t { session = some h })
        (put_session h (record s { tun = some id }) srv) in
    let (kicked, e, l') = kick-Linked h old S (bound-Linked h id t s srv l found there free live) in
    let ack : Frame = ack_frame id reused denied secret in
    let (out, srv', f, l'') = acknowledge-Linked arm timed_out ack h kicked l' in
    (
      out,
      srv',
      ap (λ (x : Server). acknowledge arm timed_out ack h (kick h old x))
            (bind_found h id t srv found
              ∙ ap
                  (λ (o : Option Session).
                    put_tunnel id (record t { session = some h }) (with_tun h id o srv))
                  there)
          ∙ ap (acknowledge arm timed_out ack h) e
          ∙ f,
      l'',
    )
