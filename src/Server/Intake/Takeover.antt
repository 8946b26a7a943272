-- ===== src/Server/Intake/Takeover.antt =====
-- Last connect wins: the session that greets last holds the tunnel, and the teardown of an older one
-- does not take it away.
use selftunnel.Common.{
  ℕ, Bool, true, false, Option, none, some, Text, lookup, lookup-insert_self, lookup-insert, nat_eq,
  text_eq, ◌==◌, nat_beq, up, ◌≡◌, refl, sym, ap, subst, some_inj, ◌∙◌, arith, Bool-cases,
  Option-cases, inl, inr, ==_sound,
}
use selftunnel.Proto.{Frame}
use selftunnel.Server.Session.{Session, Arm, close}
use selftunnel.Server.Registry.{Tunnel, registered}
use selftunnel.Server.Intake.{
  Server, HelloOutcome, put_session, put_tunnel, is_session, go_offline, leave_tunnel, closing,
  closing_found, close_session, kick, send_to, send_found, acknowledge, with_tun, welcome,
  ack_frame, tunnel_session,
}
use selftunnel.Server.Intake.Counting.{bind_found}

-- The tunnel `id` is `t` on that server.
abbrev Has : Text → Tunnel → Server → Type 0
Has id t srv = lookup id srv.tunnels ≡ some t

go_offline-Has :
    (h : ℕ) (x : Text) (o : Option Tunnel) (srv : Server) (id : Text) (t : Tunnel)
    → lookup x srv.tunnels ≡ o
    → is_session h t.session ≡ false
    → Has id t srv
    → Has id t (go_offline h x o srv)
go_offline-Has h x none srv id t e other g = g
go_offline-Has h x (some u) srv id t e other g = elim (Bool-cases (is_session h u.session)) [
  | inr theirs ↦ rw theirs g
  | inl mine ↦ elim (Bool-cases (x == id)) [
    | inl same ↦ absurd (clash (==_sound x id same) mine)
    | inr apart ↦ rw (mine, lookup-insert x id (record u { session = none }) srv.tunnels, apart) g
  ]
]
  where
    clash : x ≡ id → is_session h u.session ≡ true → ⊥
    clash q mine =
        let both : u ≡ t = some_inj (sym e ∙ ap (λ (y : Text). lookup y srv.tunnels) q ∙ g) in
        cc (ap (λ (y : Tunnel). is_session h y.session) both, mine, other)

leave_tunnel-Has :
    (h : ℕ) (o : Option Text) (srv : Server) (id : Text) (t : Tunnel)
    → is_session h t.session ≡ false
    → Has id t srv
    → Has id t (leave_tunnel h o srv)
leave_tunnel-Has h none srv id t other g = g
leave_tunnel-Has h (some x) srv id t other g =
    go_offline-Has h x (lookup x srv.tunnels) srv id t refl other g

closing-Has :
    (h : ℕ) (srv srv' : Server) (c : Option (Bool × Session)) (id : Text) (t : Tunnel)
    → closing h srv c ≡ some srv'
    → is_session h t.session ≡ false
    → Has id t srv
    → Has id t srv'
closing-Has h srv srv' none id t e other g = absurd (cc)
closing-Has h srv srv' (some (false, s)) id t e other g = subst (Has id t) (some_inj e) g
closing-Has h srv srv' (some (true, s)) id t e other g =
    subst (Has id t) (some_inj e) (leave_tunnel-Has h s.tun (put_session h s srv) id t other g)

closing_found-Has :
    (h : ℕ) (srv srv' : Server) (o : Option Session) (id : Text) (t : Tunnel)
    → closing_found h srv o ≡ some srv'
    → is_session h t.session ≡ false
    → Has id t srv
    → Has id t srv'
closing_found-Has h srv srv' none id t e other g = subst (Has id t) (some_inj e) g
closing_found-Has h srv srv' (some s) id t e other g =
    closing-Has h srv srv' (close s) id t e other g

-- To close a session leaves a tunnel alone, unless that session is the one that holds it.
pub close_session_keeps :
    (h : ℕ) (srv srv' : Server) (id : Text) (t : Tunnel)
    → close_session h srv ≡ some srv'
    → is_session h t.session ≡ false
    → lookup id srv.tunnels ≡ some t
    → lookup id srv'.tunnels ≡ some t
unfolding close_session
close_session_keeps h srv srv' id t e other g =
    closing_found-Has h srv srv' (lookup h srv.sessions) id t e other g

apart_sym : (o h : ℕ) → nat_beq o h ≡ false → nat_beq h o ≡ false
apart_sym o h e = ground arith

kick-Has :
    (h : ℕ) (o : Option ℕ) (srv srv' : Server) (id : Text) (t : Tunnel)
    → kick h o srv ≡ some srv'
    → Has id (record t { session = some h }) srv
    → Has id (record t { session = some h }) srv'
unfolding kick
kick-Has h none srv srv' id t e g = subst (Has id (record t { session = some h })) (some_inj e) g
kick-Has h (some o) srv srv' id t e g = elim (Bool-cases (nat_beq o h)) [
  | inl same ↦ subst (Has id (record t { session = some h })) (some_inj (rw same at e)) g
  | inr other ↦
      close_session_keeps o srv srv' id (record t { session = some h }) (rw other at e)
        (apart_sym o h other) g
]

send_to-Has :
    (arm : Arm) (timed_out : Bool) (f : Frame) (h : ℕ) (srv : Server) (id : Text) (t : Tunnel)
    → Has id t srv
    → Has id t (send_to arm timed_out f h srv).1
unfolding send_to
send_to-Has arm timed_out f h srv id t g = elim (Option-cases (lookup h srv.sessions)) [
  | inl n ↦ rw (n, send_found) g
  | inr (s, e) ↦ rw (e, send_found) g
]

acknowledge-Has :
    (arm : Arm) (timed_out : Bool) (ack : Frame) (h : ℕ) (o : Option Server) (out : HelloOutcome)
    (srv' : Server) (id : Text) (t : Tunnel)
    → ((srv : Server) → o ≡ some srv → Has id t srv)
    → acknowledge arm timed_out ack h o ≡ some (out, srv')
    → Has id t srv'
acknowledge-Has arm timed_out ack h none out srv' id t g e = absurd (cc)
acknowledge-Has arm timed_out ack h (some srv) out srv' id t g e =
    let up_srv : Server = record srv { online_count = up srv.online_count } in
    let same : (send_to arm timed_out ack h up_srv).1 ≡ srv' =
      ap (λ (p : HelloOutcome × Server). p.1) (some_inj e) in
    subst (Has id t) same (send_to-Has arm timed_out ack h up_srv id t (g srv refl))

-- After a hello that the registry answers, the greeting session holds the tunnel, whichever session
-- held it before and however the acknowledgement fared.
pub welcome_binds :
    (arm : Arm) (timed_out : Bool) (h : ℕ) (srv : Server) (id : Text) (reused denied : Bool)
    (secret : Text) (t : Tunnel) (out : HelloOutcome) (srv' : Server)
    → lookup id srv.tunnels ≡ some t
    → welcome arm timed_out h srv (registered id reused denied secret) ≡ some (out, srv')
    → lookup id srv'.tunnels ≡ some (record t { session = some h })
unfolding welcome
welcome_binds arm timed_out h srv id reused denied secret t out srv' found e =
    let S : Server = with_tun h id (lookup h srv.sessions) srv in
    let bound : Server = put_tunnel id (record t { session = some h }) S in
    let old = tunnel_session (lookup id srv.tunnels) in
    acknowledge-Has arm timed_out (ack_frame id reused denied secret) h (kick h old bound) out srv'
      id (record t { session = some h })
      (λ k q.
        kick-Has h old bound k id t q
          (lookup-insert_self id (record t { session = some h }) S.tunnels))
      (rw (bind_found h id t srv found) at e)
