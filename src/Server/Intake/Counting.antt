-- ===== src/Server/Intake/Counting.antt =====
-- The counter of online sessions through `handleHello` of internal/server/server.go, once the registry
-- has answered.
use selftunnel.Common.{
  ℕ, ◌+◌, Bool, Option, none, some, Text, lookup, insert, nat_eq, text_eq, pos, up, ◌≡◌, refl, sym,
  ap, subst, some_inj, ◌∙◌, arith, Option-cases, inl, inr,
}
use selftunnel.Proto.{Frame}
use selftunnel.Server.Session.{Session, Arm}
use selftunnel.Server.Registry.{Tunnel, Tunnels, registered}
use selftunnel.Server.Intake.{
  Server, put_tunnel, kick, tunnel_session, HelloOutcome, send_to, send_found, acknowledge,
  with_session, with_tun, bind, welcome, ack_frame,
}
use selftunnel.Server.Intake.Online.{has_session, online, online-insert, Ahead, up_pos, kick-Ahead}

-- Whether a tunnel has a session that the new one replaces.
abbrev pub replaced : Option ℕ → ℕ
replaced none = 0
replaced (some o) = 1

send_to-Ahead :
    (arm : Arm) (timed_out : Bool) (f : Frame) (h : ℕ) (srv : Server) (d : ℕ)
    → Ahead d srv
    → Ahead d (send_to arm timed_out f h srv).1
unfolding send_to
send_to-Ahead arm timed_out f h srv d a = elim (Option-cases (lookup h srv.sessions)) [
  | inl n ↦ rw (n, send_found) a
  | inr (s, e) ↦ rw (e, send_found) a
]

acknowledge-Ahead :
    (arm : Arm) (timed_out : Bool) (ack : Frame) (h : ℕ) (o : Option Server) (out : HelloOutcome)
    (srv' : Server) (d : ℕ)
    → ((srv : Server) → o ≡ some srv → Ahead d (record srv { online_count = up srv.online_count }))
    → acknowledge arm timed_out ack h o ≡ some (out, srv')
    → Ahead d srv'
acknowledge-Ahead arm timed_out ack h none out srv' d a e = absurd (cc)
acknowledge-Ahead arm timed_out ack h (some srv) out srv' d a e =
    let up_srv : Server = record srv { online_count = up srv.online_count } in
    let same : (send_to arm timed_out ack h up_srv).1 ≡ srv' =
      ap (λ (p : HelloOutcome × Server). p.1) (some_inj e) in
    subst (Ahead d) same (send_to-Ahead arm timed_out ack h up_srv d (a srv refl))

with_tun-Ahead :
    (h : ℕ) (id : Text) (o : Option Session) (srv : Server) (d : ℕ)
    → Ahead d srv
    → Ahead d (with_tun h id o srv)
with_tun-Ahead h id none srv d a = a
with_tun-Ahead h id (some s) srv d a = a

pub with_tun-tunnels :
    (h : ℕ) (id : Text) (o : Option Session) (srv : Server)
    → (with_tun h id o srv).tunnels ≡ srv.tunnels
with_tun-tunnels h id none srv = refl
with_tun-tunnels h id (some s) srv = refl

-- The tunnel of a bound session counts once, whether it was online before or not.
bound_count :
    (h : ℕ) (id : Text) (t : Tunnel) (ts : Tunnels) (o : Option ℕ)
    → lookup id ts ≡ some t
    → t.session ≡ o
    → online (insert id (record t { session = some h }) ts) + replaced o ≡ online ts + 1
bound_count h id t ts o e same = rw (← same) (
    subst
      (λ (x : Option Tunnel).
        online (insert id (record t { session = some h }) ts) + has_session x ≡ online ts + 1)
      e (online-insert id (record t { session = some h }) ts))

up-Ahead :
    (srv : Server) (d : ℕ)
    → Ahead d srv
    → Ahead (d + 1) (record srv { online_count = up srv.online_count })
up-Ahead srv d a = ap up a ∙ up_pos _ _ (omega arith)

bound_new :
    (h : ℕ) (id : Text) (t : Tunnel) (S : Server) (d : ℕ)
    → lookup id S.tunnels ≡ some t
    → t.session ≡ none
    → Ahead d S
    → Ahead (d + 0) (record S {
      tunnels = insert id (record t { session = some h }) S.tunnels;
      online_count = up S.online_count;
    })
bound_new h id t S d found same a =
    ap up a ∙ up_pos _ _ (omega (arith, bound_count h id t S.tunnels none found same))

bound_again :
    (h : ℕ) (id : Text) (t : Tunnel) (S : Server) (d x : ℕ)
    → lookup id S.tunnels ≡ some t
    → t.session ≡ some x
    → Ahead d S
    → Ahead d (put_tunnel id (record t { session = some h }) S)
bound_again h id t S d x found same a =
    a ∙ ap pos (omega (arith, bound_count h id t S.tunnels (some x) found same))

kick-none : (h : ℕ) (srv : Server) → kick h none srv ≡ some srv
unfolding kick
kick-none h srv = refl

kicked-Ahead :
    (h : ℕ) (id : Text) (t : Tunnel) (S : Server) (d : ℕ) (o : Option ℕ)
    → lookup id S.tunnels ≡ some t
    → t.session ≡ o
    → Ahead d S
    → (k : Server) → kick h o (put_tunnel id (record t { session = some h }) S) ≡ some k
    → Ahead (d + replaced o) (record k { online_count = up k.online_count })
kicked-Ahead h id t S d none found same a k e =
    subst (λ (x : Server). Ahead (d + 0) (record x { online_count = up x.online_count }))
      (some_inj (sym (kick-none h (put_tunnel id (record t { session = some h }) S)) ∙ e))
      (bound_new h id t S d found same a)
kicked-Ahead h id t S d (some x) found same a k e =
    up-Ahead k d (kick-Ahead h (some x) _ k d e (bound_again h id t S d x found same a))

pub bind_found :
    (h : ℕ) (id : Text) (t : Tunnel) (srv : Server)
    → lookup id srv.tunnels ≡ some t
    → bind h id srv
      ≡ put_tunnel id (record t { session = some h }) (with_tun h id (lookup h srv.sessions) srv)
unfolding bind
bind_found h id t srv e = rw (e, with_session)

-- A hello that is answered, be it only by a failing send, moves the counter with the number of online
-- tunnels if the tunnel was offline, and one further if a session is replaced.
pub welcome-Ahead :
    (arm : Arm) (timed_out : Bool) (h : ℕ) (srv : Server) (id : Text) (reused denied : Bool)
    (secret : Text) (t : Tunnel) (out : HelloOutcome) (srv' : Server) (d : ℕ)
    → lookup id srv.tunnels ≡ some t
    → Ahead d srv
    → welcome arm timed_out h srv (registered id reused denied secret) ≡ some (out, srv')
    → Ahead (d + replaced t.session) srv'
unfolding welcome
welcome-Ahead arm timed_out h srv id reused denied secret t out srv' d found a e =
    let S : Server = with_tun h id (lookup h srv.sessions) srv in
    let found' : lookup id S.tunnels ≡ some t =
      ap (λ (m : Tunnels). lookup id m) (with_tun-tunnels h id (lookup h srv.sessions) srv)
      ∙ found in
    let old : tunnel_session (lookup id srv.tunnels) ≡ t.session = ap tunnel_session found in
    acknowledge-Ahead arm timed_out (ack_frame id reused denied secret) h
      (kick h t.session (put_tunnel id (record t { session = some h }) S)) out srv'
      (d + replaced t.session)
      (λ k q.
        kicked-Ahead h id t S d t.session found' refl
          (with_tun-Ahead h id (lookup h srv.sessions) srv d a) k q)
      (rw (old, bind_found h id t srv found) at e)
