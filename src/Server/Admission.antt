-- ===== src/Server/Admission.antt =====
-- How a request comes to a session: the beginning of `handleRelay` in internal/server/relay.go, up to the
-- mailbox, and its deferred end. `none` is a `NextReqID` that finds no id, or a panic.
pub mod Laws
mod Tests
use selftunnel.Common.{
  ℕ, ◌+◌, Bool, true, false, not, List, [], ◌∷◌, Option, none, some, Text, codes, if◌then◌else◌,
  lookup, insert, nat_eq, text_eq,
}
use selftunnel.TunnelId.{valid_tunnel_id}
use selftunnel.Server.Session.{Session, next_req_id, register_pending, unregister_pending}
use selftunnel.Server.Registry.{Tunnel, get}
use selftunnel.Server.Intake.{Server, put_session, put_tunnel}
use selftunnel.Server.Relay.{Response, no_response, write_json, split_tunnel_path}

-- A request is turned away, or goes to a session: under which id, with which mailbox of the session, and
-- for which path of the target.
pub data Admission : Type 0 where
  turned_away : Response → Admission
  admitted : ℕ → ℕ → ℕ → Text → Admission

-- `http.NotFound`.
unfoldable pub not_found : Response
not_found = record no_response {
  status = some 404;
  added =
      (codes "Content-Type", codes "text/plain; charset=utf-8")
      ∷ (codes "X-Content-Type-Options", codes "nosniff")
      ∷ [];
  body = codes "404 page not found\n";
}

abbrev pub boxed : ℕ → ℕ → Text → Server → ℕ × Session → Option (Admission × Server)
boxed h req_id path srv (box, s) = some (admitted h req_id box path, put_session h s srv)

abbrev pub with_number : ℕ → Text → Server → Option (ℕ × Session) → Option (Admission × Server)
with_number h path srv none = none
with_number h path srv (some (req_id, s)) = boxed h req_id path srv (register_pending req_id s)

abbrev pub with_online : ℕ → Text → Server → Option Session → Option (Admission × Server)
with_online h path srv none = none
with_online h path srv (some s) = with_number h path srv (next_req_id s)

abbrev pub with_holder : Text → Server → Option ℕ → Option (Admission × Server)
with_holder path srv none = some (turned_away (write_json 502 (codes "tunnel offline")), srv)
with_holder path srv (some h) = with_online h path srv (lookup h srv.sessions)

abbrev pub with_known : Text → Server → Option Tunnel → Option (Admission × Server)
with_known path srv none = some (turned_away (write_json 404 (codes "tunnel not found")), srv)
with_known path srv (some t) = with_holder path srv t.session

unfoldable pub admit : Text → Server → Option (Admission × Server)
admit url_path srv =
    let (id, path) = split_tunnel_path url_path in
    if not (valid_tunnel_id id)
    then some (turned_away not_found, srv)
    else with_known path srv (get id srv.tunnels)

abbrev pub counted : Text → Option Tunnel → Server → Server
counted id none srv = srv
counted id (some t) srv = put_tunnel id (record t { req_count = t.req_count + 1 }) srv

-- `tun.reqCount.Add(1)`, once the first frame is sent.
unfoldable pub count_request : Text → Server → Server
count_request id srv = counted id (lookup id srv.tunnels) srv

abbrev pub leave_done : ℕ → Server → Option Session → Option Server
leave_done h srv none = none
leave_done h srv (some s) = some (put_session h s srv)

abbrev pub leaving : ℕ → ℕ → Server → Option Session → Option Server
leaving h req_id srv none = some srv
leaving h req_id srv (some s) = leave_done h srv (unregister_pending req_id s)

-- The deferred `UnregisterPending`.
unfoldable pub leave : ℕ → ℕ → Server → Option Server
leave h req_id srv = leaving h req_id srv (lookup h srv.sessions)
