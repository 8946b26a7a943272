-- ===== src/Server/World/Hello.antt =====
-- A whole hello, from the registry to the acknowledgement, on a server whose tunnels and sessions are
-- linked.
use selftunnel.Common.{
  ℕ, Bool, false, List, Option, none, some, Text, All, lookup, insert, lookup-insert, nat_eq,
  text_eq, ◌==◌, nat_beq, up, ◌≡◌, refl, sym, ap, subst, ◌∙◌, some_inj, Bool-cases, inl, inr,
}
use selftunnel.Proto.{Frame}
use selftunnel.Server.Session.{Session, Arm, send_with_context}
use selftunnel.Server.Registry.{
  Tunnel, Tunnels, File, Supply, Registration, registered, random_failed, save_failed, drawing,
  register,
}
use selftunnel.Server.Registry.Draws.{IsDraw}
use selftunnel.Server.Registry.Invariant.{
  IsRegistry, Extends, register-Extends, register-IsRegistry,
}
use selftunnel.Server.Intake.{
  Server, HelloOutcome, put_session, tunnel_session, kick, bind, with_tun, send_to, send_found,
  acknowledge, ack_frame, welcome, handle_hello,
}
use selftunnel.Server.Intake.Counting.{bind_found}
use selftunnel.Server.Intake.Hello.{answered}
use selftunnel.Server.Lifecycle.Linked.{Linked}
use selftunnel.Server.Lifecycle.Welcoming.{welcome-Linked}
use selftunnel.Server.World.Sessions.{Fresh, Others, close_session-Others}

-- The sessions other than `h` are fresh.
pub record RestFresh (h : ℕ) (srv : Server) : Type 0 where
  pub rest : (k : ℕ) (s : Session) → (h == k) ≡ false → lookup k srv.sessions ≡ some s → Fresh s

pub put-RestFresh :
    (h : ℕ) (u : Session) (srv : Server) → RestFresh h srv → RestFresh h (put_session h u srv)
put-RestFresh h u srv r = record { rest = λ k s apart e. r.rest k s apart (taken k s apart e) }
  where
    taken :
        (k : ℕ) (s : Session)
        → (h == k) ≡ false
        → lookup k (insert h u srv.sessions) ≡ some s
        → lookup k srv.sessions ≡ some s
    taken k s apart e = rw (lookup-insert h k u srv.sessions, apart) at e

Others-RestFresh :
    (h o : ℕ) (srv srv' : Server) → Others o srv srv' → RestFresh h srv → RestFresh h srv'
Others-RestFresh h o srv srv' others r = record {
  rest = λ k s apart e. elim (others k s e) [
    | inl shut ↦ λ live. absurd (cc (shut, live))
    | inr (_, was) ↦ r.rest k s apart was
  ];
}

pub send_to-RestFresh :
    (arm : Arm) (timed_out : Bool) (f : Frame) (h : ℕ) (srv : Server)
    → RestFresh h srv
    → RestFresh h (send_to arm timed_out f h srv).1
unfolding send_to
send_to-RestFresh arm timed_out f h srv r = by_session (lookup h srv.sessions)
  where
    by_session : (o : Option Session) → RestFresh h (send_found arm timed_out f h srv o).1
    by_session none = r
    by_session (some s) = put-RestFresh h (send_with_context arm timed_out f s).1 srv r

kick-RestFresh :
    (h : ℕ) (o : Option ℕ) (srv srv' : Server)
    → kick h o srv ≡ some srv'
    → RestFresh h srv
    → RestFresh h srv'
unfolding kick
kick-RestFresh h none srv srv' e r = subst (RestFresh h) (some_inj e) r
kick-RestFresh h (some o) srv srv' e r = elim (Bool-cases (nat_beq o h)) [
  | inl same ↦ subst (RestFresh h) (some_inj (rw same at e)) r
  | inr other ↦ Others-RestFresh h o srv srv' (close_session-Others o srv srv' (rw other at e)) r
]

acknowledge-RestFresh :
    (arm : Arm) (timed_out : Bool) (ack : Frame) (h : ℕ) (o : Option Server) (out : HelloOutcome)
    (srv' : Server)
    → acknowledge arm timed_out ack h o ≡ some (out, srv')
    → ((x : Server) → o ≡ some x → RestFresh h x)
    → RestFresh h srv'
acknowledge-RestFresh arm timed_out ack h none out srv' e r = absurd (cc)
acknowledge-RestFresh arm timed_out ack h (some x) out srv' e r =
    subst (RestFresh h) (ap (λ (p : HelloOutcome × Server). p.1) (some_inj e)) (
      send_to-RestFresh arm timed_out ack h (record x { online_count = up x.online_count })
        (record { rest = (r x refl).rest }))

bind-RestFresh :
    (h : ℕ) (id : Text) (t : Tunnel) (srv : Server)
    → lookup id srv.tunnels ≡ some t
    → RestFresh h srv
    → RestFresh h (bind h id srv)
bind-RestFresh h id t srv found r =
    subst (RestFresh h) (sym (bind_found h id t srv found))
      (record { rest = (named (lookup h srv.sessions)).rest })
  where
    named : (o : Option Session) → RestFresh h (with_tun h id o srv)
    named none = r
    named (some s) = put-RestFresh h (record s { tun = some id }) srv r

-- What a hello leaves: the server is linked, and the sessions other than the greeted one are fresh.
pub record Greeted (h : ℕ) (srv : Server) : Type 0 where
  pub linked : Linked srv
  pub others : RestFresh h srv

welcome-Greeted :
    (arm : Arm) (timed_out : Bool) (h : ℕ) (s : Session) (srv : Server) (id : Text)
    (reused denied : Bool) (secret : Text) (t : Tunnel) (out : HelloOutcome) (srv' : Server)
    → Greeted h srv
    → lookup id srv.tunnels ≡ some t
    → lookup h srv.sessions ≡ some s
    → s.tun ≡ none
    → s.closed ≡ false
    → welcome arm timed_out h srv (registered id reused denied secret) ≡ some (out, srv')
    → Greeted h srv'
unfolding welcome
welcome-Greeted arm timed_out h s srv id reused denied secret t out srv' g found there free live e =
    let (out0, srv0, e0, l0) =
      welcome-Linked arm timed_out h s srv id reused denied secret t g.linked found there free
        live in
    record {
      linked = subst Linked (ap (λ (p : HelloOutcome × Server). p.1) (some_inj (sym e0 ∙ e))) l0;
      others =
          acknowledge-RestFresh arm timed_out (ack_frame id reused denied secret) h
            (kick h (tunnel_session (lookup id srv.tunnels)) (bind h id srv)) out srv' e
            (λ x q.
              kick-RestFresh h (tunnel_session (lookup id srv.tunnels)) (bind h id srv) x q
                (bind-RestFresh h id t srv found g.others));
    }

extended-Linked :
    (srv : Server) (ts : Tunnels) (file : File)
    → IsRegistry ts
    → Extends srv.tunnels ts
    → Linked srv
    → Linked (record srv { tunnels = ts; file = file })
extended-Linked srv ts file reg (inl same) l = record {
  registry = reg;
  sound = l.sound;
  held = λ id t h e on. l.held id t h (ap (λ (m : Tunnels). lookup id m) (sym same) ∙ e) on;
}
extended-Linked srv ts file reg (inr (k, u, added, free, _, _, off)) l = record {
  registry = reg;
  sound = l.sound;
  held = λ id t h e on.
      let here : lookup id (insert k u srv.tunnels) ≡ some t =
        ap (λ (m : Tunnels). lookup id m) (sym added) ∙ e in
      elim (Bool-cases (k == id)) [
        | inl same ↦
            let own : u ≡ t = some_inj (rw (lookup-insert k id u srv.tunnels, same) at here) in
            absurd (cc (sym off ∙ ap (λ (x : Tunnel). x.session) own ∙ on))
        | inr other ↦ l.held id t h (rw (lookup-insert k id u srv.tunnels, other) at here) on
      ];
}

module _ (sha256 : Text → List ℕ) where
  answered-Greeted :
      (w : Supply) (arm : Arm) (timed_out : Bool) (h : ℕ) (f : Frame) (s : Session) (srv : Server)
      (r : Registration) (ts : Tunnels) (file : File) (out : HelloOutcome) (srv' : Server)
      → All IsDraw w.id_draws
      → register sha256 w f.desired_id f.secret srv.tunnels srv.file ≡ (r, ts, file)
      → Greeted h (record srv { tunnels = ts; file = file })
      → lookup h srv.sessions ≡ some s
      → s.tun ≡ none
      → s.closed ≡ false
      → welcome arm timed_out h (record srv { tunnels = ts; file = file }) r ≡ some (out, srv')
      → Greeted h srv'
  unfolding welcome
  answered-Greeted w arm timed_out h f s srv (registered id reused denied secret) ts file out srv' v
        answer g there free live e =
      let (t, found, _) =
        answered sha256 w f.desired_id f.secret srv.tunnels srv.file id reused denied secret ts file
          v answer in
      welcome-Greeted arm timed_out h s (record srv { tunnels = ts; file = file }) id reused denied
        secret t out srv' g found there free live e
  answered-Greeted w arm timed_out h f s srv random_failed ts file out srv' v answer g there free
        live e =
      subst (Greeted h) (ap (λ (p : HelloOutcome × Server). p.1) (some_inj e)) g
  answered-Greeted w arm timed_out h f s srv save_failed ts file out srv' v answer g there free live
        e =
      subst (Greeted h) (ap (λ (p : HelloOutcome × Server). p.1) (some_inj e)) g
  answered-Greeted w arm timed_out h f s srv drawing ts file out srv' v answer g there free live e =
      subst (Greeted h) (ap (λ (p : HelloOutcome × Server). p.1) (some_inj e)) g

  -- The whole `handleHello` of an open session that holds no tunnel.
  pub handle_hello-Greeted :
      (w : Supply) (arm : Arm) (timed_out : Bool) (h : ℕ) (f : Frame) (s : Session) (srv : Server)
      (out : HelloOutcome) (srv' : Server)
      → All IsDraw w.id_draws
      → Greeted h srv
      → lookup h srv.sessions ≡ some s
      → s.tun ≡ none
      → s.closed ≡ false
      → handle_hello sha256 w arm timed_out h f srv ≡ some (out, srv')
      → Greeted h srv'
  unfolding handle_hello
  handle_hello-Greeted w arm timed_out h f s srv out srv' v g there free live e =
      let (r, ts, file) = register sha256 w f.desired_id f.secret srv.tunnels srv.file in
      let ext : Extends srv.tunnels ts =
        register-Extends sha256 w f.desired_id f.secret srv.tunnels srv.file v in
      let reg : IsRegistry ts =
        register-IsRegistry sha256 w f.desired_id f.secret srv.tunnels srv.file v
          g.linked.registry in
      answered-Greeted w arm timed_out h f s srv r ts file out srv' v refl
        (record {
          linked = extended-Linked srv ts file reg ext g.linked;
          others = record { rest = g.others.rest };
        })
        there free live e
