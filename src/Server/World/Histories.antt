-- ===== src/Server/World/Histories.antt =====
-- Every history of the server.
use selftunnel.Common.{
  ℕ, ◌+◌, Bool, true, false, List, [], ◌∷◌, Option, none, some, Text, All, All-lookup, lookup,
  lookup-insert, nat_eq, text_eq, ◌==◌, ◌≡◌, ◌≢◌, refl, sym, ap, subst, ◌∙◌, some_inj, Bool-cases,
  inl, inr, ==_sound, arith,
}
use selftunnel.Proto.{Frame, frame, get_stats}
use selftunnel.Server.Session.{
  Session, Arm, enqueue, torn_down, cancelled, new_session, send_with_context, select_send,
}
use selftunnel.Server.Session.Invariant.{new_session-IsOk, send_with_context-IsOk}
use selftunnel.Server.Registry.{Tunnel}
use selftunnel.Server.Registry.Invariant.{IsEntry, IsRegistry, insert-IsRegistry}
use selftunnel.Server.Admission.{counted, count_request}
use selftunnel.Server.Intake.{
  Server, put_session, tunnel_session, close_session, send_to, send_found,
}
use selftunnel.Server.Intake.Online.{Ahead}
use selftunnel.Server.Intake.ReadLoop.{goes_on, returns, blocks}
use selftunnel.Server.Lifecycle.{
  App, shut_down, handle_tunnel, poll_held, poll_listed, poll_stats, stop, running,
}
use selftunnel.Server.Registry.Listing.{list}
use selftunnel.Server.Lifecycle.Linked.{Linked, vacated}
use selftunnel.Server.Lifecycle.Closing.{put_session-Linked, close_session-Linked}
use selftunnel.Server.Lifecycle.Welcoming.{send_with_context-tun}
use selftunnel.Server.Lifecycle.Shutdown.{IsApp, stop_vacates}
use selftunnel.Server.World.Sessions.{put-AllFresh, close_session-Others, Others-AllFresh}
use selftunnel.Server.World.Reads.{IsWorld, put-IsWorld}
use selftunnel.Server.World.Passes.{read_pass-IsWorld}
use selftunnel.Server.World.Requests.{admit-IsWorld, leave-IsWorld}
use selftunnel.Server.World.{
  Step, connects, reads, ends, closes, sends, polls, admits, leaves, counts, Reach, here, then,
}

-- A server before its first connection: no tunnel of its registry is online.
pub record IsStart (srv : Server) : Type 0 where
  pub valid : IsRegistry srv.tunnels
  pub offline : All (λ (e : Text × Tunnel). e.1.session ≡ none) srv.tunnels
  pub no_sessions : srv.sessions ≡ []

start-IsWorld : (srv : Server) → IsStart srv → IsWorld srv
start-IsWorld srv i = record {
  linked = record {
    registry = i.valid;
    sound = λ h s e.
        absurd (empty h s (ap (λ (m : List (ℕ × Session)). lookup h m) (sym i.no_sessions) ∙ e));
    held = λ id t h e on. absurd (
        cc (
          All-lookup (λ (x : Text × Tunnel). x.1.session ≡ none) id t srv.tunnels i.offline e,
          on,
        ));
  };
  all_fresh = record {
    each = λ h s e.
        absurd (empty h s (ap (λ (m : List (ℕ × Session)). lookup h m) (sym i.no_sessions) ∙ e));
  };
}
  where
    empty : (h : ℕ) (s : Session) → lookup h [] ≡ some s → ⊥
    empty h s e = unfold lookup in absurd (cc)

connect-IsWorld :
    (h : ℕ) (remote_addr : Text) (now : ℕ) (srv : Server)
    → lookup h srv.sessions ≡ none
    → IsWorld srv
    → IsWorld (put_session h (new_session remote_addr now) srv)
connect-IsWorld h remote_addr now srv unused w = record {
  linked =
      put_session-Linked h (new_session remote_addr now) srv w.linked
        (new_session-IsOk remote_addr now)
        (λ id t e on.
          let (y, at_h, bound, live) = w.linked.held id t h e on in absurd (cc (unused, at_h)));
  all_fresh =
      put-AllFresh h (new_session remote_addr now) srv w.all_fresh
        (λ live quiet. unfold new_session in refl);
}

close-IsWorld :
    (h : ℕ) (srv srv' : Server) → close_session h srv ≡ some srv' → IsWorld srv → IsWorld srv'
close-IsWorld h srv srv' e w =
    let (x, q, l) = close_session-Linked h srv w.linked in
    record {
      linked = subst Linked (some_inj (sym q ∙ e)) l;
      all_fresh =
          Others-AllFresh h srv srv' (close_session-Others h srv srv' e)
            (λ k s apart at_k. w.all_fresh.each k s at_k);
    }

send_with_context-hello_done :
    (arm : Arm) (timed_out : Bool) (f : Frame) (s : Session)
    → (send_with_context arm timed_out f s).1.hello_done ≡ s.hello_done
unfolding send_with_context select_send
send_with_context-hello_done enqueue timed_out f s = ground arith
send_with_context-hello_done torn_down timed_out f s = ground arith
send_with_context-hello_done cancelled timed_out f s = ground arith

send-IsWorld :
    (arm : Arm) (timed_out : Bool) (f : Frame) (h : ℕ) (srv : Server)
    → IsWorld srv
    → IsWorld (send_to arm timed_out f h srv).1
unfolding send_to
send-IsWorld arm timed_out f h srv w = by_session (lookup h srv.sessions) refl
  where
    by_session :
        (o : Option Session)
        → lookup h srv.sessions ≡ o
        → IsWorld (send_found arm timed_out f h srv o).1
    by_session none e = w
    by_session (some s) e =
        let (tun, closed) = send_with_context-tun arm timed_out f s in
        put-IsWorld h s (send_with_context arm timed_out f s).1 srv w e
          (send_with_context-IsOk arm timed_out f s (w.linked.sound h s e)) tun closed
          (λ live quiet.
            tun
            ∙ w.all_fresh.each h s e (sym closed ∙ live)
                (sym (send_with_context-hello_done arm timed_out f s) ∙ quiet))

poll_held-IsWorld :
    (choices : ℕ → Arm × Bool) (o : Option ℕ) (srv : Server)
    → IsWorld srv
    → IsWorld (poll_held choices o srv)
poll_held-IsWorld choices none srv w = w
poll_held-IsWorld choices (some h) srv w =
    send-IsWorld (choices h).0 (choices h).1 (frame get_stats) h srv w

poll_listed-IsWorld :
    (choices : ℕ → Arm × Bool) (ts : List Tunnel) (srv : Server)
    → IsWorld srv
    → IsWorld (poll_listed choices ts srv)
unfolding poll_listed
poll_listed-IsWorld choices [] srv w = w
poll_listed-IsWorld choices (t ∷ ts) srv w =
    poll_listed-IsWorld choices ts
      (poll_held choices (tunnel_session (lookup t.id srv.tunnels)) srv)
      (poll_held-IsWorld choices (tunnel_session (lookup t.id srv.tunnels)) srv w)

counted-IsWorld :
    (id : Text) (o : Option Tunnel) (srv : Server)
    → lookup id srv.tunnels ≡ o
    → IsWorld srv
    → IsWorld (counted id o srv)
counted-IsWorld id none srv e w = w
counted-IsWorld id (some t) srv e w =
    let t' : Tunnel = record t { req_count = t.req_count + 1 } in
    record {
      linked = record {
        registry =
            insert-IsRegistry id t' srv.tunnels w.linked.registry
              (All-lookup IsEntry id t srv.tunnels w.linked.registry.entries e);
        sound = w.linked.sound;
        held = λ j x k at_j on. elim (Bool-cases (id == j)) [
          | inl same ↦
              let own : t' ≡ x = some_inj (rw (lookup-insert id j t' srv.tunnels, same) at at_j) in
              let here_t : lookup j srv.tunnels ≡ some t =
                ap (λ (y : Text). lookup y srv.tunnels) (sym (==_sound id j same)) ∙ e in
              w.linked.held j t k here_t (ap (λ (y : Tunnel). y.session) own ∙ on)
          | inr other ↦
              w.linked.held j x k (rw (lookup-insert id j t' srv.tunnels, other) at at_j) on
        ];
      };
      all_fresh = record { each = w.all_fresh.each };
    }

goes_on_whole : goes_on ≢ blocks
goes_on_whole e = absurd (cc)

returns_whole : returns ≢ blocks
returns_whole e = absurd (cc)

module _ (sha256 : Text → List ℕ) where
  step-IsWorld : {a b : Server} → Step sha256 a b → IsWorld a → IsWorld b
  unfolding handle_tunnel poll_stats count_request
  step-IsWorld (connects h remote_addr now srv unused) w =
      connect-IsWorld h remote_addr now srv unused w
  step-IsWorld (reads s c h m x srv srv' draws there live e) w =
      read_pass-IsWorld sha256 s c h m x srv srv' goes_on draws w there live e goes_on_whole
  step-IsWorld (ends s c h m x srv srv' draws there live e) w =
      read_pass-IsWorld sha256 s c h m x srv srv' returns draws w there live e returns_whole
  step-IsWorld (closes h srv srv' e) w = close-IsWorld h srv srv' e w
  step-IsWorld (sends arm timed_out f h srv) w = send-IsWorld arm timed_out f h srv w
  step-IsWorld (polls choices srv) w = poll_listed-IsWorld choices (list srv.tunnels) srv w
  step-IsWorld (admits url_path srv srv' a few e) w = admit-IsWorld url_path srv srv' a few e w
  step-IsWorld (leaves h req_id srv srv' e) w = leave-IsWorld h req_id srv srv' e w
  step-IsWorld (counts id srv) w = counted-IsWorld id (lookup id srv.tunnels) srv refl w

  Reach-IsWorld : {a b : Server} → Reach sha256 a b → IsWorld a → IsWorld b
  Reach-IsWorld here w = w
  Reach-IsWorld (then s r) w = Reach-IsWorld r (step-IsWorld s w)

  -- In every history of a server that starts with no connection: whatever connects, is read, sent,
  -- polled and torn down, and whatever requests come and leave while fewer are in flight in each session
  -- than there are ids, a tunnel that is online is held by an open session that is bound to
  -- it and to no other tunnel, the registry and every session stay sound, and a session that has not
  -- been greeted holds no tunnel.
  pub reachable-IsWorld :
      (start srv : Server) → IsStart start → Reach sha256 start srv → IsWorld srv
  reachable-IsWorld start srv i r = Reach-IsWorld r (start-IsWorld start i)

  -- So an app can be stopped at any time of such a history: it does not panic, and takes every tunnel
  -- offline and keeps the rest of what is known about it.
  pub reachable_stop :
      (start srv : Server) (a : App) (shutdown_ok : Bool) (d : ℕ)
      → IsStart start
      → Reach sha256 start srv
      → IsApp a
      → running a ≡ true
      → Ahead d srv
      → (a' : App) × (srv' : Server) × (stop shutdown_ok a srv
          ≡ some (shut_down shutdown_ok, a', srv'))
        × (running a' ≡ false)
        × ((id : Text) → lookup id srv'.tunnels ≡ vacated (lookup id srv.tunnels))
  reachable_stop start srv a shutdown_ok d i r app up ahead =
      let (a', srv', e, down, gone, _, _) =
        stop_vacates shutdown_ok a srv d app up (reachable-IsWorld start srv i r).linked ahead in
      (a', srv', e, down, gone)
