-- ===== src/Server/World/Passes.antt =====
-- The passes of a read loop keep the server's invariant.
use selftunnel.Common.{
  ℕ, Bool, true, false, not, List, Option, none, some, Text, All, if◌then◌else◌, lookup, nat_eq,
  text_eq, nat_beq, ◌≡◌, ◌≢◌, refl, sym, ap, subst, ◌∙◌, some_inj, lookup-insert_self,
}
use selftunnel.Proto.{
  Frame, FrameType, frame, hello, hello_ack, hello_version, stats, response_start, response_chunk,
  response_end,
}
use selftunnel.Proto
use selftunnel.Server.Session.{Session, touch}
use selftunnel.Server.Registry.{Supply}
use selftunnel.Server.Registry.Draws.{IsDraw}
use selftunnel.Server.Intake.{Server, version_mismatch, put_session, close_session, handle_hello}
use selftunnel.Server.Intake.ReadLoop.{
  Incoming, arrives, garbage, read_failed, Pass, goes_on, returns, blocks, Choices, reject,
  after_hello, retarget, on_hello, on_frame, on_message, ending, pass_found, read_pass,
}
use selftunnel.Server.World.Hello.{handle_hello-Greeted}
use selftunnel.Server.World.Reads.{
  IsWorld, AfterPass, world-Greeted, touch-IsWorld, ends-IsWorld, reject-Greeted,
  after_hello-AfterPass,
}
use selftunnel.Server.World.Frames.{settled, retarget-IsWorld, route-AfterPass}

module _ (sha256 : Text → List ℕ) where
  on_hello-AfterPass :
      (w : Supply) (c : Choices) (h : ℕ) (f : Frame) (s : Session) (srv : Server) (p : Pass)
      (srv' : Server)
      → All IsDraw w.id_draws
      → IsWorld srv
      → lookup h srv.sessions ≡ some s
      → s.closed ≡ false
      → on_hello sha256 w c h f s srv ≡ some (p, srv')
      → AfterPass h p srv'
  unfolding on_hello
  on_hello-AfterPass w c h f s srv p srv' v u there live e =
      by_tests s.hello_done (not (nat_beq f.version hello_version)) refl e
    where
      by_tests :
          (done wrong : Bool)
          → s.hello_done ≡ done
          → (if done
              then some (goes_on, srv)
              else if wrong
              then some (reject c.reject_arm c.reject_timed_out version_mismatch h srv)
              else after_hello c h (handle_hello sha256 w c.ack_arm c.ack_timed_out h f srv))
            ≡ some (p, srv')
          → AfterPass h p srv'
      by_tests true wrong done q = settled h srv u p srv' q
      by_tests false true quiet q =
          subst (λ (x : Pass × Server). AfterPass h x.0 x.1) (some_inj q)
            (reject-Greeted c.reject_arm c.reject_timed_out version_mismatch h srv
              (world-Greeted h srv u))
      by_tests false false quiet q =
          after_hello-AfterPass c h (handle_hello sha256 w c.ack_arm c.ack_timed_out h f srv) p srv'
            q
            (λ out x answer.
              handle_hello-Greeted sha256 w c.ack_arm c.ack_timed_out h f s srv out x v
                (world-Greeted h srv u) there (u.all_fresh.each h s there live quiet) live answer)

  on_frame-AfterPass :
      (t : FrameType) (w : Supply) (c : Choices) (h : ℕ) (f : Frame) (s : Session) (srv : Server)
      (p : Pass) (srv' : Server)
      → All IsDraw w.id_draws
      → IsWorld srv
      → lookup h srv.sessions ≡ some s
      → s.closed ≡ false
      → on_frame sha256 t w c h f s srv ≡ some (p, srv')
      → AfterPass h p srv'
  unfolding on_frame
  on_frame-AfterPass hello w c h f s srv p srv' v u there live e =
      on_hello-AfterPass w c h f s srv p srv' v u there live e
  on_frame-AfterPass stats w c h f s srv p srv' v u there live e =
      settled h (retarget w.write_ok f.target s.tun srv)
        (retarget-IsWorld w.write_ok f.target s.tun srv u) p srv' e
  on_frame-AfterPass response_start w c h f s srv p srv' v u there live e =
      route-AfterPass c.delivery_aborts f h s srv p srv' u there e
  on_frame-AfterPass response_chunk w c h f s srv p srv' v u there live e =
      route-AfterPass c.delivery_aborts f h s srv p srv' u there e
  on_frame-AfterPass response_end w c h f s srv p srv' v u there live e =
      route-AfterPass c.delivery_aborts f h s srv p srv' u there e
  on_frame-AfterPass Proto.hello_ack w c h f s srv p srv' v u there live e =
      settled h srv u p srv' e
  on_frame-AfterPass Proto.ping w c h f s srv p srv' v u there live e = settled h srv u p srv' e
  on_frame-AfterPass Proto.pong w c h f s srv p srv' v u there live e = settled h srv u p srv' e
  on_frame-AfterPass Proto.set_target w c h f s srv p srv' v u there live e =
      settled h srv u p srv' e
  on_frame-AfterPass Proto.set_target_ack w c h f s srv p srv' v u there live e =
      settled h srv u p srv' e
  on_frame-AfterPass Proto.get_stats w c h f s srv p srv' v u there live e =
      settled h srv u p srv' e
  on_frame-AfterPass Proto.request_start w c h f s srv p srv' v u there live e =
      settled h srv u p srv' e
  on_frame-AfterPass Proto.request_chunk w c h f s srv p srv' v u there live e =
      settled h srv u p srv' e
  on_frame-AfterPass Proto.request_end w c h f s srv p srv' v u there live e =
      settled h srv u p srv' e
  on_frame-AfterPass Proto.cancel w c h f s srv p srv' v u there live e = settled h srv u p srv' e
  on_frame-AfterPass (Proto.other x) w c h f s srv p srv' v u there live e =
      settled h srv u p srv' e

  on_message-AfterPass :
      (w : Supply) (c : Choices) (h : ℕ) (m : Incoming) (s : Session) (srv : Server) (p : Pass)
      (srv' : Server)
      → All IsDraw w.id_draws
      → IsWorld srv
      → lookup h srv.sessions ≡ some s
      → s.closed ≡ false
      → on_message sha256 w c h m s srv ≡ some (p, srv')
      → AfterPass h p srv'
  on_message-AfterPass w c h read_failed s srv p srv' v u there live e =
      subst (λ (x : Pass × Server). AfterPass h x.0 x.1) (some_inj e) (world-Greeted h srv u)
  on_message-AfterPass w c h garbage s srv p srv' v u there live e =
      settled h (put_session h (touch w.now s) srv) (touch-IsWorld h w.now s srv u there) p srv' e
  on_message-AfterPass w c h (arrives f) s srv p srv' v u there live e =
      on_frame-AfterPass f.type w c h f (touch w.now s) (put_session h (touch w.now s) srv) p srv' v
        (touch-IsWorld h w.now s srv u there) (lookup-insert_self h (touch w.now s) srv.sessions)
        (unfold touch in live) e

  ending-IsWorld :
      (h : ℕ) (o : Option (Pass × Server)) (p : Pass) (srv' : Server)
      → ending sha256 h o ≡ some (p, srv')
      → p ≢ blocks
      → ((q : Pass) (x : Server) → o ≡ some (q, x) → AfterPass h q x)
      → IsWorld srv'
  ending-IsWorld h none p srv' e whole g = absurd (cc)
  ending-IsWorld h (some (goes_on, x)) p srv' e whole g =
      subst IsWorld (ap (λ (q : Pass × Server). q.1) (some_inj e)) (g goes_on x refl)
  ending-IsWorld h (some (blocks, x)) p srv' e whole g =
      absurd (whole (sym (ap (λ (q : Pass × Server). q.0) (some_inj e))))
  ending-IsWorld h (some (returns, x)) p srv' e whole g = closed (close_session h x) refl e
    where
      closed :
          (o : Option Server)
          → close_session h x ≡ o
          → (let r : Option (Pass × Server) = elim o [ none ↦ none | some t ↦ some (returns, t) ] in
              r)
            ≡ some (p, srv')
          → IsWorld srv'
      closed none q f = absurd (cc)
      closed (some t) q f =
          subst IsWorld (ap (λ (y : Pass × Server). y.1) (some_inj f))
            (ends-IsWorld h x t (g returns x refl) q)

  -- A pass of the read loop of an open session that comes to its end.
  pub read_pass-IsWorld :
      (w : Supply) (c : Choices) (h : ℕ) (m : Incoming) (s : Session) (srv srv' : Server) (p : Pass)
      → All IsDraw w.id_draws
      → IsWorld srv
      → lookup h srv.sessions ≡ some s
      → s.closed ≡ false
      → read_pass sha256 w c h m srv ≡ some (p, srv')
      → p ≢ blocks
      → IsWorld srv'
  unfolding read_pass
  read_pass-IsWorld w c h m s srv srv' p v u there live e whole =
      ending-IsWorld h (on_message sha256 w c h m s srv) p srv'
        (ap (pass_found sha256 w c h m srv) (sym there) ∙ e) whole
        (λ q x answer. on_message-AfterPass w c h m s srv q x v u there live answer)
