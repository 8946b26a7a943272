-- ===== src/Server/World/Sessions.antt =====
-- The sessions of the server, and which of them an operation may leave changed.
use selftunnel.Common.{
  ℕ, Bool, true, false, List, Option, none, some, Text, lookup, insert, lookup-insert, nat_eq,
  text_eq, ◌==◌, ◌≡◌, ◌⊎◌, refl, sym, ap, subst, ◌∙◌, some_inj, Bool-cases, inl, inr, ==_sound,
}
use selftunnel.Server.Mailbox.{Mailbox}
use selftunnel.Server.Session.{Session, close, close_if, tear_down, torn, first_close, close_boxes}
use selftunnel.Server.Registry.{Tunnel}
use selftunnel.Server.Intake.{
  Server, put_session, is_session, go_offline, leave_tunnel, closing, closing_found, close_session,
}

-- A session that is open and has not been greeted holds no tunnel.
abbrev pub Fresh : Session → Type 0
Fresh s = s.closed ≡ false → s.hello_done ≡ false → s.tun ≡ none

pub record AllFresh (srv : Server) : Type 0 where
  pub each : (k : ℕ) (s : Session) → lookup k srv.sessions ≡ some s → Fresh s

-- Every session after it is closed, or is another one than `h` and as before.
abbrev pub Others : ℕ → Server → Server → Type 0
Others h srv srv' =
    (k : ℕ) (s : Session)
    → lookup k srv'.sessions ≡ some s
    → (s.closed ≡ true) ⊎ (((h == k) ≡ false) × (lookup k srv.sessions ≡ some s))

torn-closed :
    (s t : Session) (b : Bool) (o : Option (List Mailbox))
    → first_close (torn s o) ≡ some (b, t)
    → t.closed ≡ true
torn-closed s t b none e = absurd (cc)
torn-closed s t b (some bs) e = ap (λ (p : Bool × Session). p.1.closed) (sym (some_inj e))

close_if-closed :
    (c : Bool) (s t : Session) (b : Bool)
    → s.closed ≡ c
    → close_if c s ≡ some (b, t)
    → t.closed ≡ true
unfolding close_if tear_down
close_if-closed true s t b was e = ap (λ (p : Bool × Session). p.1.closed) (sym (some_inj e)) ∙ was
close_if-closed false s t b was e = elim (Bool-cases s.done) [
  | inl d ↦ absurd (cc (rw d at e))
  | inr d ↦ torn-closed s t b (close_boxes s.pending s.boxes) (rw d at e)
]

close-closed : (s t : Session) (b : Bool) → close s ≡ some (b, t) → t.closed ≡ true
unfolding close
close-closed s t b e = close_if-closed s.closed s t b refl e

close_if-same : (c : Bool) (s t : Session) → close_if c s ≡ some (false, t) → t ≡ s
unfolding close_if
close_if-same true s t e = ap (λ (p : Bool × Session). p.1) (sym (some_inj e))
close_if-same false s t e = clash (tear_down s) e
  where
    clash : (o : Option Session) → first_close o ≡ some (false, t) → t ≡ s
    clash none q = absurd (cc)
    clash (some u) q = absurd (cc)

close-same : (s t : Session) → close s ≡ some (false, t) → t ≡ s
unfolding close
close-same s t e = close_if-same s.closed s t e

leave_tunnel-sessions :
    (h : ℕ) (o : Option Text) (srv : Server) → (leave_tunnel h o srv).sessions ≡ srv.sessions
leave_tunnel-sessions h none srv = refl
leave_tunnel-sessions h (some id) srv = off (lookup id srv.tunnels)
  where
    off : (o : Option Tunnel) → (go_offline h id o srv).sessions ≡ srv.sessions
    off none = refl
    off (some t) = elim (Bool-cases (is_session h t.session)) [
      | inl mine ↦ rw mine refl
      | inr theirs ↦ rw theirs refl
    ]

-- A session is put at the place `h`.
pub put-cases :
    (h k : ℕ) (u s : Session) (m : List (ℕ × Session))
    → lookup k (insert h u m) ≡ some s
    → (s ≡ u) ⊎ (((h == k) ≡ false) × (lookup k m ≡ some s))
put-cases h k u s m e = elim (Bool-cases (h == k)) [
  | inl same ↦ inl (some_inj (sym (rw (lookup-insert h k u m, same) at e)))
  | inr other ↦ inr (other, rw (lookup-insert h k u m, other) at e)
]

pub put-AllFresh :
    (h : ℕ) (u : Session) (srv : Server) → AllFresh srv → Fresh u → AllFresh (put_session h u srv)
put-AllFresh h u srv f g = record {
  each = λ k s e. elim (put-cases h k u s srv.sessions e) [
    | inl same ↦ subst Fresh (sym same) g
    | inr (_, was) ↦ f.each k s was
  ];
}

stays-Others :
    (h : ℕ) (srv : Server) (o : Option Session)
    → lookup h srv.sessions ≡ o
    → ((s : Session) → o ≡ some s → s.closed ≡ true)
    → Others h srv srv
stays-Others h srv o e shut k s at_k = elim (Bool-cases (h == k)) [
  | inl same ↦
      inl (shut s (sym e ∙ ap (λ (x : ℕ). lookup x srv.sessions) (==_sound h k same) ∙ at_k))
  | inr other ↦ inr (other, at_k)
]

put-Others :
    (h : ℕ) (u : Session) (o : Option Text) (srv : Server)
    → u.closed ≡ true
    → Others h srv (leave_tunnel h o (put_session h u srv))
put-Others h u o srv shut k s e =
    let here : lookup k (insert h u srv.sessions) ≡ some s =
      ap (λ (m : List (ℕ × Session)). lookup k m)
        (sym (leave_tunnel-sessions h o (put_session h u srv)))
      ∙ e in
    elim (put-cases h k u s srv.sessions here) [
      | inl same ↦ inl (ap (λ (x : Session). x.closed) same ∙ shut)
      | inr was ↦ inr was
    ]

closing-Others :
    (h : ℕ) (s : Session) (srv srv' : Server) (c : Option (Bool × Session))
    → close s ≡ c
    → lookup h srv.sessions ≡ some s
    → closing h srv c ≡ some srv'
    → Others h srv srv'
closing-Others h s srv srv' none q there e = absurd (cc)
closing-Others h s srv srv' (some (false, t)) q there e = subst (Others h srv) (some_inj e) (
    stays-Others h srv (some s) there (λ x same.
      ap (λ (y : Session). y.closed) (sym (some_inj same) ∙ sym (close-same s t q))
      ∙ close-closed s t false q))
closing-Others h s srv srv' (some (true, u)) q there e =
    subst (Others h srv) (some_inj e) (put-Others h u u.tun srv (close-closed s u true q))

pub close_session-Others :
    (h : ℕ) (srv srv' : Server) → close_session h srv ≡ some srv' → Others h srv srv'
unfolding close_session
close_session-Others h srv srv' e = by_session (lookup h srv.sessions) refl e
  where
    by_session :
        (o : Option Session)
        → lookup h srv.sessions ≡ o
        → closing_found h srv o ≡ some srv'
        → Others h srv srv'
    by_session none there q =
        subst (Others h srv) (some_inj q) (stays-Others h srv none there (λ s same. absurd (cc)))
    by_session (some s) there q = closing-Others h s srv srv' (close s) refl there q

-- What is fresh but for the session `h` is fresh once that one is closed.
pub Others-AllFresh :
    (h : ℕ) (srv srv' : Server)
    → Others h srv srv'
    → ((k : ℕ) (s : Session) → (h == k) ≡ false → lookup k srv.sessions ≡ some s → Fresh s)
    → AllFresh srv'
Others-AllFresh h srv srv' o f = record {
  each = λ k s e. elim (o k s e) [
    | inl shut ↦ λ live. absurd (cc (shut, live))
    | inr (other, was) ↦ f k s other was
  ];
}
