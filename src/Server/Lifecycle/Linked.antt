-- ===== src/Server/Lifecycle/Linked.antt =====
-- The link between the tunnels that are online and the sessions that hold them, and what it is to close
-- a session then.
use selftunnel.Common.{
  All-lookup, ℕ, Bool, true, false, not, List, Option, none, some, Text, if◌then◌else◌, lookup,
  insert, lookup-insert, nat_eq, text_eq, ◌==◌, ◌≡◌, refl, sym, ap, ◌∙◌, subst, some_inj, arith,
  Bool-cases, inl, inr, ==_sound, ==_ne, ℤ, down,
}
use selftunnel.Server.Lifecycle.{close_held}
use selftunnel.Server.Session.{Session, close_boxes, torn, first_close, tear_down, close_if, close}
use selftunnel.Server.Mailbox.{Mailbox}
use selftunnel.Server.Session.Invariant.{IsOk, close-IsOk}
use selftunnel.Server.Registry.{Tunnel, Tunnels}
use selftunnel.Server.Registry.Invariant.{IsEntry, IsRegistry, insert-IsRegistry}
use selftunnel.Server.Intake.{
  Server, tunnel_session, put_session, is_session, go_offline, leave_tunnel, closing, closing_found,
  close_session,
}

-- The registry and every session are sound, and a tunnel's session is there, open, and bound to that
-- tunnel.
pub record Linked (srv : Server) : Type 0 where
  pub registry : IsRegistry srv.tunnels
  pub sound : (h : ℕ) (s : Session) → lookup h srv.sessions ≡ some s → IsOk s
  pub held :
      (id : Text) (t : Tunnel) (h : ℕ)
      → lookup id srv.tunnels ≡ some t
      → t.session ≡ some h
      → (s : Session) × (lookup h srv.sessions ≡ some s) × (s.tun ≡ some id) × (s.closed ≡ false)

-- The tunnel without its session.
abbrev pub vacated : Option Tunnel → Option Tunnel
vacated none = none
vacated (some t) = some (record t { session = none })

pub vacated_twice : (o : Option Tunnel) → vacated (vacated o) ≡ vacated o
vacated_twice none = refl
vacated_twice (some t) = refl

-- The server when the session `h`, torn down to `s`, has left the tunnel `id`.
abbrev pub after_close : ℕ → Text → Tunnel → Session → Server → Server
after_close h id t s srv = record (put_session h s srv) {
  tunnels = insert id (record t { session = none }) srv.tunnels;
  online_count = (go_offline h id (some t) srv).online_count;
}

is_session_self : (h : ℕ) (o : Option ℕ) → o ≡ some h → is_session h o ≡ true
is_session_self h o e = rw e (ground arith)

torn-tun :
    (s t : Session) (b : Bool) (o : Option (List Mailbox))
    → first_close (torn s o) ≡ some (b, t)
    → t.tun ≡ s.tun
torn-tun s t b none e = absurd (cc)
torn-tun s t b (some bs) e = ap (λ (p : Bool × Session). p.1.tun) (sym (some_inj e))

close_if-tun : (c : Bool) (s t : Session) (b : Bool) → close_if c s ≡ some (b, t) → t.tun ≡ s.tun
unfolding close_if tear_down
close_if-tun true s t b e = ap (λ (p : Bool × Session). p.1.tun) (sym (some_inj e))
close_if-tun false s t b e = elim (Bool-cases s.done) [
  | inl d ↦ absurd (cc (rw d at e))
  | inr d ↦ torn-tun s t b (close_boxes s.pending s.boxes) (rw d at e)
]

pub close-tun : (s t : Session) (b : Bool) → close s ≡ some (b, t) → t.tun ≡ s.tun
unfolding close
close-tun s t b e = close_if-tun s.closed s t b e

-- A closed session keeps its tunnel, and the rest of the server stays linked.
pub vacate-Linked :
    (h : ℕ) (id : Text) (t : Tunnel) (s u : Session) (srv : Server) (n : ℤ)
    → Linked srv
    → lookup id srv.tunnels ≡ some t
    → lookup h srv.sessions ≡ some s
    → s.tun ≡ some id
    → IsOk u
    → Linked (record srv {
      sessions = insert h u srv.sessions;
      tunnels = insert id (record t { session = none }) srv.tunnels;
      online_count = n;
    })
vacate-Linked h id t s u srv n l e there bound ok = record {
  registry =
      insert-IsRegistry id (record t { session = none }) srv.tunnels l.registry
        (All-lookup IsEntry id t srv.tunnels l.registry.entries e);
  sound = λ k x e. elim (Bool-cases (h == k)) [
    | inl same ↦ subst IsOk (some_inj (rw (lookup-insert h k u srv.sessions, same) at e)) ok
    | inr other ↦ l.sound k x (rw (lookup-insert h k u srv.sessions, other) at e)
  ];
  held = λ j x k e on. elim (Bool-cases (id == j)) [
    | inl same ↦ absurd (
        cc (
          ap (λ (y : Tunnel). y.session)
              (some_inj (rw (lookup-insert id j _ srv.tunnels, same) at e)),
          on,
        ))
    | inr other ↦
        let (y, at_k, tun, live) =
          l.held j x k (rw (lookup-insert id j _ srv.tunnels, other) at e) on in
        elim (Bool-cases (h == k)) [
          | inl clash ↦ absurd (apart j other y tun (sym there ∙ rw (==_sound h k clash) at_k))
          | inr fine ↦ (y, rw (lookup-insert h k u srv.sessions, fine) at_k, tun, live)
        ]
  ];
}
  where
    apart : (j : Text) → (id == j) ≡ false → (y : Session) → y.tun ≡ some j → some s ≡ some y → ⊥
    apart j other y tun same =
        let both : id ≡ j =
          some_inj (sym bound ∙ ap (λ (x : Session). x.tun) (some_inj same) ∙ tun) in
        ==_ne id j other both

-- Only the tunnel `id` has changed, and has lost its session if it had one.
abbrev pub Vacates : Text → Server → Server → Type 0
Vacates id srv srv' =
    (j : Text)
    → lookup j srv'.tunnels
      ≡ (if id == j then vacated (lookup j srv.tunnels) else lookup j srv.tunnels)

vacated_offline : (o : Option Tunnel) → tunnel_session o ≡ none → o ≡ vacated o
vacated_offline none e = refl
vacated_offline (some t) e = rw e refl

offline-Vacates :
    (id : Text) (srv : Server) → tunnel_session (lookup id srv.tunnels) ≡ none → Vacates id srv srv
offline-Vacates id srv e j = elim (Bool-cases (id == j)) [
  | inl same ↦ rw same (
      vacated_offline (lookup j srv.tunnels)
        (ap (λ (k : Text). tunnel_session (lookup k srv.tunnels)) (sym (==_sound id j same)) ∙ e))
  | inr other ↦ rw other refl
]

online-Vacates :
    (id : Text) (t : Tunnel) (ts : Tunnels)
    → lookup id ts ≡ some t
    → (j : Text)
    → lookup j (insert id (record t { session = none }) ts)
      ≡ (if id == j then vacated (lookup j ts) else lookup j ts)
online-Vacates id t ts e j = elim (Bool-cases (id == j)) [
  | inl same ↦
      let here : lookup j ts ≡ some t =
        ap (λ (k : Text). lookup k ts) (sym (==_sound id j same)) ∙ e in
      rw (lookup-insert id j (record t { session = none }) ts, same, here) refl
  | inr other ↦ rw (lookup-insert id j (record t { session = none }) ts, other) refl
]

pub go_offline_mine :
    (h : ℕ) (id : Text) (t : Tunnel) (srv : Server) (o : Option Tunnel)
    → o ≡ some t
    → t.session ≡ some h
    → go_offline h id o srv ≡ (record srv {
      tunnels = insert id (record t { session = none }) srv.tunnels;
      online_count = down srv.online_count;
    })
go_offline_mine h id t srv o e on = rw (e, on) (ground arith)

-- To close the session that holds a tunnel succeeds, takes the tunnel offline and keeps the rest
-- linked.
close_session-Vacates :
    (id : Text) (t : Tunnel) (h : ℕ) (srv : Server)
    → Linked srv
    → lookup id srv.tunnels ≡ some t
    → t.session ≡ some h
    → (srv' : Server) × (close_session h srv ≡ some srv') × Linked srv' × Vacates id srv srv'
unfolding close_session
close_session-Vacates id t h srv l e on =
    let (s, there, bound, live) = l.held id t h e on in
    let (u, closes, ok, shut) = close-IsOk s (l.sound h s there) in
    let first : close s ≡ some (true, u) = closes ∙ ap (λ (b : Bool). some (not b, u)) live in
    let left : leave_tunnel h u.tun (put_session h u srv)
        ≡ leave_tunnel h (some id) (put_session h u srv) =
      ap (λ (o : Option Text). leave_tunnel h o (put_session h u srv))
        (close-tun s u true first ∙ bound) in
    (
      record (put_session h u srv) {
        tunnels = insert id (record t { session = none }) srv.tunnels;
        online_count = down srv.online_count;
      },
      ap (closing_found h srv) there
          ∙ ap (closing h srv) first
          ∙ ap some
              (left ∙ go_offline_mine h id t (put_session h u srv) (lookup id srv.tunnels) e on),
      vacate-Linked h id t s u srv (down srv.online_count) l e there bound ok,
      online-Vacates id t srv.tunnels e,
    )

-- The turn of one tunnel in the loop of `Stop`.
pub close_held-Vacates :
    (id : Text) (srv : Server)
    → Linked srv
    → (srv' : Server) × (close_held (tunnel_session (lookup id srv.tunnels)) srv ≡ some srv')
      × Linked srv'
      × Vacates id srv srv'
close_held-Vacates id srv l = by_tunnel (lookup id srv.tunnels) refl
  where
    Goal : Option ℕ → Type 0
    Goal o = (srv' : Server) × (close_held o srv ≡ some srv') × Linked srv' × Vacates id srv srv'

    by_session :
        (t : Tunnel) (o : Option ℕ) → lookup id srv.tunnels ≡ some t → t.session ≡ o → Goal o
    by_session t none e on = (srv, refl, l, offline-Vacates id srv (ap tunnel_session e ∙ on))
    by_session t (some h) e on = close_session-Vacates id t h srv l e on

    by_tunnel : (o : Option Tunnel) → lookup id srv.tunnels ≡ o → Goal (tunnel_session o)
    by_tunnel none e = (srv, refl, l, offline-Vacates id srv (ap tunnel_session e))
    by_tunnel (some t) e = by_session t t.session e refl
