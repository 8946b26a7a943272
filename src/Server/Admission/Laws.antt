-- ===== src/Server/Admission/Laws.antt =====
-- Who is admitted, and what a request leaves behind.
use selftunnel.Common.{
  ℕ, ◌<◌, true, none, some, Text, length, lookup, lookup-insert_self, nat_eq, text_eq, ◌≡◌, ap, ◌∙◌,
}
use selftunnel.TunnelId.{valid_tunnel_id}
use selftunnel.Server.Session.{Session, next_req_id, register_pending, u32_mod}
use selftunnel.Server.Session.ReqId.{next_req_id_fresh}
use selftunnel.Server.Session.Invariant.{IsOk, register_pending-IsOk, unregister_pending-IsOk}
use selftunnel.Server.Registry.{Tunnel}
use selftunnel.Server.Intake.{Server, put_session}
use selftunnel.Server.Relay.{split_tunnel_path}
use selftunnel.Server.Admission.{
  admitted, with_known, with_holder, with_online, with_number, boxed, admit, leave, leaving,
  leave_done,
}

admit_valid :
    (url_path : Text) (srv : Server) (t : Tunnel) (h : ℕ) (s : Session)
    → valid_tunnel_id (split_tunnel_path url_path).0 ≡ true
    → lookup (split_tunnel_path url_path).0 srv.tunnels ≡ some t
    → t.session ≡ some h
    → lookup h srv.sessions ≡ some s
    → admit url_path srv ≡ with_number h (split_tunnel_path url_path).1 srv (next_req_id s)
unfolding admit
admit_valid url_path srv t h s v e o f = rw (v, e, with_known, o, with_holder, f, with_online)

renumbered : (s : Session) (n : ℕ) → IsOk s → IsOk (record s { next_id = n })
renumbered s n v = record { live = v.live; covered = v.covered; agree = v.agree }

-- A request to a valid id whose tunnel is online, in a session that keeps the invariant: it is admitted
-- under an id that no other request in flight has, its mailbox is registered under that id, and the session
-- still keeps the invariant. Once the handler has leave_done, the id is free again.
pub admit-leave :
    (url_path : Text) (srv : Server) (t : Tunnel) (h : ℕ) (s : Session)
    → valid_tunnel_id (split_tunnel_path url_path).0 ≡ true
    → lookup (split_tunnel_path url_path).0 srv.tunnels ≡ some t
    → t.session ≡ some h
    → lookup h srv.sessions ≡ some s
    → IsOk s
    → length s.pending < u32_mod
    → (req_id : ℕ) × (box : ℕ) × (s' : Session) × (s'' : Session) × (admit url_path srv
        ≡ some (admitted h req_id box (split_tunnel_path url_path).1, put_session h s' srv))
      × (lookup req_id s.pending ≡ none)
      × (lookup req_id s'.pending ≡ some box)
      × IsOk s'
      × (leave h req_id (put_session h s' srv) ≡ some (put_session h s'' (put_session h s' srv)))
      × (lookup req_id s''.pending ≡ none)
      × IsOk s''
unfolding leave register_pending
admit-leave url_path srv t h s v e o f ok few =
    let (req_id, drawn, free, small) = next_req_id_fresh s few in
    let s1 : Session = record s { next_id = req_id } in
    let s2 : Session = (register_pending req_id s1).1 in
    let ok2 : IsOk s2 = register_pending-IsOk req_id s1 (renumbered s req_id ok) free in
    let (s3, gone, ok3, empty) = unregister_pending-IsOk req_id s2 ok2 in
    (
      req_id,
      length s.boxes,
      s2,
      s3,
      admit_valid url_path srv t h s v e o f ∙ rw (drawn, with_number, boxed),
      free,
      lookup-insert_self req_id (length s.boxes) s.pending,
      ok2,
      rw (lookup-insert_self h s2 srv.sessions, leaving)
          (ap (leave_done h (put_session h s2 srv)) gone),
      empty,
      ok3,
    )
