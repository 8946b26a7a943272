-- ===== src/Server/Lifecycle/Closing.antt =====
-- To close any session, at any time, keeps the tunnels and the sessions linked.
use selftunnel.Common.{
  ℕ, Bool, true, false, not, Option, none, some, Text, lookup, lookup-insert, nat_eq, text_eq, ◌==◌,
  ◌≡◌, refl, sym, ap, ◌∙◌, subst, some_inj, arith, Bool-cases, inl, inr, ==_sound,
}
use selftunnel.Server.Session.{Session, close}
use selftunnel.Server.Session.Invariant.{IsOk, close-IsOk}
use selftunnel.Server.Registry.{Tunnel}
use selftunnel.Server.Lifecycle.Linked.{Linked, vacate-Linked, close-tun, go_offline_mine}
use selftunnel.Server.Intake.{
  Server, put_session, is_session, go_offline, leave_tunnel, closing, closing_found, close_session,
}

-- A session can be replaced by one that is sound, if no tunnel is held by it or the tunnel's end of the
-- link is kept.
pub put_session-Linked :
    (h : ℕ) (u : Session) (srv : Server)
    → Linked srv
    → IsOk u
    → ((id : Text) (t : Tunnel)
        → lookup id srv.tunnels ≡ some t
        → t.session ≡ some h
        → (u.tun ≡ some id) × (u.closed ≡ false))
    → Linked (put_session h u srv)
put_session-Linked h u srv l ok keeps = record {
  registry = l.registry;
  sound = λ k x e. elim (Bool-cases (h == k)) [
    | inl same ↦ subst IsOk (some_inj (rw (lookup-insert h k u srv.sessions, same) at e)) ok
    | inr other ↦ l.sound k x (rw (lookup-insert h k u srv.sessions, other) at e)
  ];
  held = λ j x k e on. elim (Bool-cases (h == k)) [
    | inl same ↦
        let (tun, live) = keeps j x e (on ∙ ap some (sym (==_sound h k same))) in
        (u, rw (lookup-insert h k u srv.sessions, same) refl, tun, live)
    | inr other ↦
        let (y, at_k, tun, live) = l.held j x k e on in
        (y, rw (lookup-insert h k u srv.sessions, other) at_k, tun, live)
  ];
}

is_session_held : (h : ℕ) (o : Option ℕ) → is_session h o ≡ true → o ≡ some h
is_session_held h none e = absurd (cc)
is_session_held h (some x) e = ap some (let same : x ≡ h = ground arith in same)

is_session_other : (h : ℕ) (o : Option ℕ) → is_session h o ≡ false → o ≡ some h → ⊥
is_session_other h o f e = let g : is_session h (some h) ≡ false = rw e at f in ground arith

-- A torn-down session that no tunnel is held by.
unheld-Linked :
    (h : ℕ) (u : Session) (srv : Server)
    → Linked srv
    → IsOk u
    → ((id : Text) (t : Tunnel) → lookup id srv.tunnels ≡ some t → t.session ≡ some h → ⊥)
    → Linked (put_session h u srv)
unheld-Linked h u srv l ok free =
    put_session-Linked h u srv l ok (λ id t e on. absurd (free id t e on))

-- The teardown of an open session `s` to `u`, and then that of its tunnel.
leave_tunnel-Linked :
    (h : ℕ) (s u : Session) (srv : Server) (o : Option Text)
    → Linked srv
    → lookup h srv.sessions ≡ some s
    → s.tun ≡ o
    → IsOk u
    → Linked (leave_tunnel h o (put_session h u srv))
leave_tunnel-Linked h s u srv none l there bound ok = unheld-Linked h u srv l ok (λ id t e on.
    let (y, at_h, tun, live) = l.held id t h e on in
    let same : s ≡ y = some_inj (sym there ∙ at_h) in
    absurd (cc (sym bound ∙ ap (λ (x : Session). x.tun) same ∙ tun)))
leave_tunnel-Linked h s u srv (some x) l there bound ok = by_tunnel (lookup x srv.tunnels) refl
  where
    owner : (id : Text) (t : Tunnel) → lookup id srv.tunnels ≡ some t → t.session ≡ some h → x ≡ id
    owner id t e on =
        let (y, at_h, tun, live) = l.held id t h e on in
        let same : s ≡ y = some_inj (sym there ∙ at_h) in
        some_inj (sym bound ∙ ap (λ (z : Session). z.tun) same ∙ tun)

    by_tunnel :
        (o : Option Tunnel)
        → lookup x srv.tunnels ≡ o
        → Linked (go_offline h x o (put_session h u srv))
    by_tunnel none e = unheld-Linked h u srv l ok (λ id t f on.
        absurd (cc (sym e ∙ ap (λ (z : Text). lookup z srv.tunnels) (owner id t f on) ∙ f)))
    by_tunnel (some t) e = elim (Bool-cases (is_session h t.session)) [
      | inl mine ↦
          subst Linked
            (sym (
              go_offline_mine h x t (put_session h u srv) (some t) refl
                (is_session_held h t.session mine)))
            (vacate-Linked h x t s u srv _ l e there bound ok)
      | inr theirs ↦ rw theirs (
          unheld-Linked h u srv l ok (λ id v f on.
            let same : t ≡ v =
              some_inj (sym e ∙ ap (λ (z : Text). lookup z srv.tunnels) (owner id v f on) ∙ f) in
            is_session_other h t.session theirs (ap (λ (z : Tunnel). z.session) same ∙ on)))
    ]

closing-Linked :
    (h : ℕ) (s : Session) (srv : Server) (c : Bool)
    → Linked srv
    → lookup h srv.sessions ≡ some s
    → s.closed ≡ c
    → (u : Session) → close s ≡ some (not c, u)
    → IsOk u
    → (srv' : Server) × (closing h srv (close s) ≡ some srv') × Linked srv'
closing-Linked h s srv true l there shut u e ok = (srv, ap (closing h srv) e, l)
closing-Linked h s srv false l there live u e ok = (
  leave_tunnel h u.tun (put_session h u srv),
  ap (closing h srv) e,
  leave_tunnel-Linked h s u srv u.tun l there (sym (close-tun s u true e)) ok,
)

-- On a server whose tunnels and sessions are linked, to close a session never panics, whatever state
-- it is in, and the server is linked afterwards.
pub close_session-Linked :
    (h : ℕ) (srv : Server)
    → Linked srv
    → (srv' : Server) × (close_session h srv ≡ some srv') × Linked srv'
unfolding close_session
close_session-Linked h srv l = by_session (lookup h srv.sessions) refl
  where
    by_session :
        (o : Option Session)
        → lookup h srv.sessions ≡ o
        → (srv' : Server) × (closing_found h srv o ≡ some srv') × Linked srv'
    by_session none e = (srv, refl, l)
    by_session (some s) e =
        let (u, closes, ok, shut) = close-IsOk s (l.sound h s e) in
        closing-Linked h s srv s.closed l e refl u closes ok
