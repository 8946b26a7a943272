-- ===== src/Server/Intake/Online.antt =====
-- The counter of online sessions against the tunnels that have one.
use selftunnel.Common.{
  ℕ, suc, ◌+◌, Bool, true, false, [], ◌∷◌, Option, none, some, Text, lookup, insert, nat_eq,
  text_eq, ◌==◌, nat_beq, pos, up, down, ◌≡◌, refl, ap, subst, some_inj, ◌∙◌, arith, Bool-cases,
  inl, inr,
}
use selftunnel.Server.Session.{Session, close}
use selftunnel.Server.Registry.{Tunnel, Tunnels}
use selftunnel.Server.Intake.{
  Server, put_session, is_session, go_offline, leave_tunnel, closing, closing_found, close_session,
  kick,
}

abbrev pub has_session : Option Tunnel → ℕ
has_session none = 0
has_session (some t) = elim t.session [ none ↦ 0 | some h ↦ 1 ]

-- The tunnels that are online.
abbrev pub online : Tunnels → ℕ
online [] = 0
online ((k, t) ∷ ts) = has_session (some t) + online ts

pub online-insert :
    (k : Text) (t : Tunnel) (ts : Tunnels)
    → online (insert k t ts) + has_session (lookup k ts) ≡ online ts + has_session (some t)
unfolding insert lookup
online-insert k t [] = omega arith
online-insert k t ((j, u) ∷ ts) = elim (Bool-cases (j == k)) [
  | inl same ↦ rw same (omega arith)
  | inr other ↦ rw other (omega (arith, online-insert k t ts))
]

-- The counter is ahead of the online tunnels by `d`.
abbrev pub Ahead : ℕ → Server → Type 0
Ahead d srv = srv.online_count ≡ pos (online srv.tunnels + d)

down_pos : (n m : ℕ) → n ≡ suc m → down (pos n) ≡ pos m
down_pos n m e = rw e

pub up_pos : (n m : ℕ) → suc n ≡ m → up (pos n) ≡ pos m
up_pos n m e = rw (← e)

is_session-has_session :
    (h : ℕ) (t : Tunnel) → is_session h t.session ≡ true → has_session (some t) ≡ 1
is_session-has_session h t e = go t.session e
  where
    go :
        (o : Option ℕ)
        → is_session h o ≡ true
        → (let r : ℕ = elim o [ none ↦ 0 | some x ↦ 1 ] in r) ≡ 1
    go none e = absurd (cc)
    go (some x) e = refl

go_offline-Ahead :
    (h : ℕ) (id : Text) (o : Option Tunnel) (srv : Server) (d : ℕ)
    → lookup id srv.tunnels ≡ o
    → Ahead d srv
    → Ahead d (go_offline h id o srv)
go_offline-Ahead h id none srv d e a = a
go_offline-Ahead h id (some t) srv d e a = elim (Bool-cases (is_session h t.session)) [
  | inr other ↦ rw other a
  | inl mine ↦
      let was : has_session (some t) ≡ 1 = is_session-has_session h t mine in
      let counted : online (insert id (record t { session = none }) srv.tunnels)
            + has_session (lookup id srv.tunnels)
          ≡ online srv.tunnels + 0 =
        online-insert id (record t { session = none }) srv.tunnels in
      let counted' : online (insert id (record t { session = none }) srv.tunnels)
            + has_session (some t)
          ≡ online srv.tunnels + 0 =
        rw e at counted in
      rw mine (ap down a ∙ down_pos _ _ (omega arith))
]

leave_tunnel-Ahead :
    (h : ℕ) (o : Option Text) (srv : Server) (d : ℕ) → Ahead d srv → Ahead d (leave_tunnel h o srv)
leave_tunnel-Ahead h none srv d a = a
leave_tunnel-Ahead h (some id) srv d a = go_offline-Ahead h id (lookup id srv.tunnels) srv d refl a

closing-Ahead :
    (h : ℕ) (srv srv' : Server) (d : ℕ) (c : Option (Bool × Session))
    → closing h srv c ≡ some srv'
    → Ahead d srv
    → Ahead d srv'
closing-Ahead h srv srv' d none e a = absurd (cc)
closing-Ahead h srv srv' d (some (false, s)) e a = subst (Ahead d) (some_inj e) a
closing-Ahead h srv srv' d (some (true, s)) e a =
    subst (Ahead d) (some_inj e) (leave_tunnel-Ahead h s.tun (put_session h s srv) d a)

closing_found-Ahead :
    (h : ℕ) (srv srv' : Server) (d : ℕ) (o : Option Session)
    → closing_found h srv o ≡ some srv'
    → Ahead d srv
    → Ahead d srv'
closing_found-Ahead h srv srv' d none e a = subst (Ahead d) (some_inj e) a
closing_found-Ahead h srv srv' d (some s) e a = closing-Ahead h srv srv' d (close s) e a

-- To close a session, whatever its state, moves the counter with the number of online tunnels.
pub close_session-Ahead :
    (h : ℕ) (srv srv' : Server) (d : ℕ)
    → close_session h srv ≡ some srv'
    → Ahead d srv
    → Ahead d srv'
unfolding close_session
close_session-Ahead h srv srv' d e a = closing_found-Ahead h srv srv' d (lookup h srv.sessions) e a

pub kick-Ahead :
    (h : ℕ) (o : Option ℕ) (srv srv' : Server) (d : ℕ)
    → kick h o srv ≡ some srv'
    → Ahead d srv
    → Ahead d srv'
unfolding kick
kick-Ahead h none srv srv' d e a = subst (Ahead d) (some_inj e) a
kick-Ahead h (some o) srv srv' d e a = elim (Bool-cases (nat_beq o h)) [
  | inl same ↦ subst (Ahead d) (some_inj (rw same at e)) a
  | inr other ↦ close_session-Ahead o srv srv' d (rw other at e) a
]
