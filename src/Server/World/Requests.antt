-- ===== src/Server/World/Requests.antt =====
-- A request comes to a session and leaves it: the server's invariant is kept.
use selftunnel.Common.{
  ℕ, ◌<◌, Bool, true, false, not, List, Option, none, some, Text, length, lookup, nat_eq, text_eq,
  ◌≡◌, refl, sym, ap, subst, ◌∙◌, some_inj, if◌then◌else◌,
}
use selftunnel.TunnelId.{valid_tunnel_id}
use selftunnel.Server.Mailbox.{Mailbox, close_box}
use selftunnel.Server.Session.{
  Session, u32_mod, next_req_id, register_pending, unregister_pending, unregister_found, forget,
}
use selftunnel.Server.Session.ReqId.{next_req_id_fresh}
use selftunnel.Server.Session.Invariant.{IsOk, register_pending-IsOk, unregister_pending-IsOk}
use selftunnel.Server.Registry.{Tunnel, get}
use selftunnel.Server.Intake.{Server}
use selftunnel.Server.Relay.{split_tunnel_path}
use selftunnel.Server.Admission.{
  Admission, turned_away, not_found, boxed, with_number, with_online, with_holder, with_known,
  admit, leave_done, leaving, leave,
}
use selftunnel.Server.World.{HasIds}
use selftunnel.Server.World.Reads.{IsWorld, put-IsWorld}

admitted-IsWorld :
    (h : ℕ) (s : Session) (path : Text) (srv srv' : Server) (a : Admission)
    → lookup h srv.sessions ≡ some s
    → length s.pending < u32_mod
    → with_number h path srv (next_req_id s) ≡ some (a, srv')
    → IsWorld srv
    → IsWorld srv'
unfolding register_pending
admitted-IsWorld h s path srv srv' a there few e w =
    let (n, drawn, free, _) = next_req_id_fresh s few in
    let ok : IsOk s = w.linked.sound h s there in
    let numbered : Session = record s { next_id = n } in
    let u : Session = (register_pending n numbered).1 in
    let same : some (a, srv') ≡ boxed h n path srv (register_pending n numbered) =
      sym e ∙ ap (with_number h path srv) drawn in
    subst IsWorld (ap (λ (p : Admission × Server). p.1) (some_inj (sym same))) (
      put-IsWorld h s u srv w there
        (register_pending-IsOk n numbered
          (record { live = ok.live; covered = ok.covered; agree = ok.agree }) free)
        refl refl (w.all_fresh.each h s there))

pub admit-IsWorld :
    (url_path : Text) (srv srv' : Server) (a : Admission)
    → HasIds srv
    → admit url_path srv ≡ some (a, srv')
    → IsWorld srv
    → IsWorld srv'
unfolding admit
admit-IsWorld url_path srv srv' a few e w =
    by_valid (not (valid_tunnel_id (split_tunnel_path url_path).0)) e
  where
    path : Text
    path = (split_tunnel_path url_path).1

    unchanged :
        (x : Admission)
        → (let p : Admission × Server = (x, srv) in some p) ≡ some (a, srv')
        → IsWorld srv'
    unchanged x q = subst IsWorld (ap (λ (p : Admission × Server). p.1) (some_inj q)) w

    by_online :
        (h : ℕ) (o : Option Session)
        → lookup h srv.sessions ≡ o
        → with_online h path srv o ≡ some (a, srv')
        → IsWorld srv'
    by_online h none there q = absurd (cc)
    by_online h (some s) there q = admitted-IsWorld h s path srv srv' a there (few h s there) q w

    by_holder : (o : Option ℕ) → with_holder path srv o ≡ some (a, srv') → IsWorld srv'
    by_holder none q = unchanged _ q
    by_holder (some h) q = by_online h (lookup h srv.sessions) refl q

    by_known : (o : Option Tunnel) → with_known path srv o ≡ some (a, srv') → IsWorld srv'
    by_known none q = unchanged _ q
    by_known (some t) q = by_holder t.session q

    by_valid :
        (wrong : Bool)
        → (if wrong
            then (let p : Admission × Server = (turned_away not_found, srv) in some p)
            else with_known path srv (get (split_tunnel_path url_path).0 srv.tunnels))
          ≡ some (a, srv')
        → IsWorld srv'
    by_valid true q = unchanged _ q
    by_valid false q = by_known (get (split_tunnel_path url_path).0 srv.tunnels) q

-- To forget a request leaves the session's tunnel and state.
abbrev SameLink : Session → Session → Type 0
SameLink s t = (t.tun ≡ s.tun) × (t.closed ≡ s.closed) × (t.hello_done ≡ s.hello_done)

forget-SameLink :
    (n : ℕ) (s t : Session) (o : Option (List Mailbox)) → forget n s o ≡ some t → SameLink s t
forget-SameLink n s t none e = absurd (cc)
forget-SameLink n s t (some bs) e = (
  ap (λ (x : Session). x.tun) (sym (some_inj e)),
  ap (λ (x : Session). x.closed) (sym (some_inj e)),
  ap (λ (x : Session). x.hello_done) (sym (some_inj e)),
)

unregister-SameLink :
    (n : ℕ) (s t : Session) (o : Option ℕ) → unregister_found n s o ≡ some t → SameLink s t
unregister-SameLink n s t none e = (
  ap (λ (x : Session). x.tun) (sym (some_inj e)),
  ap (λ (x : Session). x.closed) (sym (some_inj e)),
  ap (λ (x : Session). x.hello_done) (sym (some_inj e)),
)
unregister-SameLink n s t (some h) e = forget-SameLink n s t (close_box h s.boxes) e

pub leave-IsWorld :
    (h req_id : ℕ) (srv srv' : Server) → leave h req_id srv ≡ some srv' → IsWorld srv → IsWorld srv'
unfolding leave unregister_pending
leave-IsWorld h req_id srv srv' e w = by_session (lookup h srv.sessions) refl e
  where
    by_session :
        (o : Option Session)
        → lookup h srv.sessions ≡ o
        → leaving h req_id srv o ≡ some srv'
        → IsWorld srv'
    by_session none there q = subst IsWorld (some_inj q) w
    by_session (some s) there q =
        let (u, gone, ok, _) = unregister_pending-IsOk req_id s (w.linked.sound h s there) in
        let (tun, closed, done) = unregister-SameLink req_id s u (lookup req_id s.pending) gone in
        subst IsWorld (some_inj (sym (ap (leave_done h srv) gone) ∙ q)) (
          put-IsWorld h s u srv w there ok tun closed
            (λ live quiet. tun ∙ w.all_fresh.each h s there (sym closed ∙ live) (sym done ∙ quiet)))
