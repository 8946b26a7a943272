-- ===== src/Server/World/Reads.antt =====
-- One pass of a session's read loop on a server whose tunnels and sessions are linked.
use selftunnel.Common.{
  ℕ, Bool, true, Option, none, some, lookup, lookup-insert, nat_eq, text_eq, ◌==◌, ◌≡◌, refl, sym,
  ap, subst, ◌∙◌, some_inj, Bool-cases, inl, inr, ==_sound,
}
use selftunnel.Server.Session.{Session, Arm, touch}
use selftunnel.Server.Session.Invariant.{IsOk}
use selftunnel.Server.Intake.{
  Server, HelloOutcome, HelloError, welcomed, unfinished, refused, put_session, close_session,
}
use selftunnel.Server.Intake.ReadLoop.{
  Pass, goes_on, returns, blocks, Choices, reject, hello_done_found, set_hello_done, after_hello,
}
use selftunnel.Server.Lifecycle.Linked.{Linked}
use selftunnel.Server.Lifecycle.Closing.{put_session-Linked, close_session-Linked}
use selftunnel.Server.Lifecycle.Welcoming.{send_to-Linked}
use selftunnel.Server.World.Sessions.{
  Fresh, AllFresh, put-AllFresh, close_session-Others, Others-AllFresh,
}
use selftunnel.Server.World.Hello.{send_to-RestFresh, Greeted}

-- The server between two passes.
pub record IsWorld (srv : Server) : Type 0 where
  pub linked : Linked srv
  pub all_fresh : AllFresh srv

-- Whether the session `h` may be about to be closed: then it need not be fresh.
abbrev pub AfterPass : ℕ → Pass → Server → Type 0
AfterPass h goes_on srv = IsWorld srv
AfterPass h returns srv = Greeted h srv
AfterPass h blocks srv = Unit {0}

pub world-Greeted : (h : ℕ) (srv : Server) → IsWorld srv → Greeted h srv
world-Greeted h srv w = record {
  linked = w.linked;
  others = record { rest = λ k s apart e. w.all_fresh.each k s e };
}

-- A session that is changed in other fields than those that link it.
pub put-IsWorld :
    (h : ℕ) (s u : Session) (srv : Server)
    → IsWorld srv
    → lookup h srv.sessions ≡ some s
    → IsOk u
    → u.tun ≡ s.tun
    → u.closed ≡ s.closed
    → Fresh u
    → IsWorld (put_session h u srv)
put-IsWorld h s u srv w there ok tun closed fresh = record {
  linked = put_session-Linked h u srv w.linked ok (λ id t e on.
      let (y, at_h, bound, live) = w.linked.held id t h e on in
      let same : s ≡ y = some_inj (sym there ∙ at_h) in
      (
        tun ∙ ap (λ (x : Session). x.tun) same ∙ bound,
        closed ∙ ap (λ (x : Session). x.closed) same ∙ live,
      ));
  all_fresh = put-AllFresh h u srv w.all_fresh fresh;
}

pub touch-IsWorld :
    (h now : ℕ) (s : Session) (srv : Server)
    → IsWorld srv
    → lookup h srv.sessions ≡ some s
    → IsWorld (put_session h (touch now s) srv)
unfolding touch
touch-IsWorld h now s srv w there =
    let ok : IsOk s = w.linked.sound h s there in
    put-IsWorld h s (touch now s) srv w there
      (record { live = ok.live; covered = ok.covered; agree = ok.agree }) refl refl
      (w.all_fresh.each h s there)

-- The end of a pass that returns: the session is closed.
pub ends-IsWorld :
    (h : ℕ) (srv srv' : Server) → Greeted h srv → close_session h srv ≡ some srv' → IsWorld srv'
ends-IsWorld h srv srv' g e =
    let (x, q, l) = close_session-Linked h srv g.linked in
    record {
      linked = subst Linked (some_inj (sym q ∙ e)) l;
      all_fresh = Others-AllFresh h srv srv' (close_session-Others h srv srv' e) g.others.rest;
    }

pub reject-Greeted :
    (arm : Arm) (timed_out : Bool) (x : HelloError) (h : ℕ) (srv : Server)
    → Greeted h srv
    → AfterPass h (reject arm timed_out x h srv).0 (reject arm timed_out x h srv).1
unfolding reject
reject-Greeted arm timed_out x h srv g = record {
  linked = send_to-Linked arm timed_out _ h srv g.linked;
  others = send_to-RestFresh arm timed_out _ h srv g.others;
}

-- A greeted session is not fresh any more, and need not be.
Greeted-IsWorld : (h : ℕ) (srv : Server) → Greeted h srv → IsWorld (set_hello_done h srv)
unfolding set_hello_done
Greeted-IsWorld h srv g = by_session (lookup h srv.sessions) refl
  where
    by_session :
        (o : Option Session) → lookup h srv.sessions ≡ o → IsWorld (hello_done_found h srv o)
    by_session none e = record {
      linked = g.linked;
      all_fresh = record {
        each = λ k s at_k. elim (Bool-cases (h == k)) [
          | inl same ↦
              absurd (cc (e, ap (λ (x : ℕ). lookup x srv.sessions) (==_sound h k same), at_k))
          | inr other ↦ g.others.rest k s other at_k
        ];
      };
    }
    by_session (some s) e =
        let u : Session = record s { hello_done = true } in
        let ok : IsOk s = g.linked.sound h s e in
        record {
          linked =
              put_session-Linked h u srv g.linked
                (record { live = ok.live; covered = ok.covered; agree = ok.agree })
                (λ id t f on.
                  let (y, at_h, bound, live) = g.linked.held id t h f on in
                  let same : s ≡ y = some_inj (sym e ∙ at_h) in
                  (
                    ap (λ (x : Session). x.tun) same ∙ bound,
                    ap (λ (x : Session). x.closed) same ∙ live,
                  ));
          all_fresh = record {
            each = λ k x at_k. elim (Bool-cases (h == k)) [
              | inl same ↦
                  let own : u ≡ x =
                    some_inj (rw (lookup-insert h k u srv.sessions, same) at at_k) in
                  λ live quiet. absurd (cc (ap (λ (z : Session). z.hello_done) own, quiet))
              | inr other ↦
                  g.others.rest k x other (rw (lookup-insert h k u srv.sessions, other) at at_k)
            ];
          };
        }

pub after_hello-AfterPass :
    (c : Choices) (h : ℕ) (o : Option (HelloOutcome × Server)) (p : Pass) (srv' : Server)
    → after_hello c h o ≡ some (p, srv')
    → ((out : HelloOutcome) (x : Server) → o ≡ some (out, x) → Greeted h x)
    → AfterPass h p srv'
after_hello-AfterPass c h none p srv' e g = absurd (cc)
after_hello-AfterPass c h (some (welcomed, x)) p srv' e g =
    subst (λ (q : Pass × Server). AfterPass h q.0 q.1) (some_inj e)
      (Greeted-IsWorld h x (g welcomed x refl))
after_hello-AfterPass c h (some (unfinished, x)) p srv' e g =
    subst (λ (q : Pass × Server). AfterPass h q.0 q.1) (some_inj e) tt
after_hello-AfterPass c h (some (refused err, x)) p srv' e g =
    subst (λ (q : Pass × Server). AfterPass h q.0 q.1) (some_inj e)
      (reject-Greeted c.reject_arm c.reject_timed_out err h x (g (refused err) x refl))
