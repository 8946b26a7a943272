-- ===== src/Server/Lifecycle.antt =====
-- The `App` of internal/server/lifecycle.go, which starts and stops the relay server, with `New`,
-- `handleTunnel`, `PollStats` and `handleHealthz` of internal/server/server.go. The listener and the
-- HTTP server are Go's: what `net.Listen` and `Shutdown` answer is an input.
pub mod Linked
pub mod Closing
pub mod Welcoming
pub mod Sweep
pub mod Shutdown
mod Tests
use selftunnel.Common.{
  ℕ, Bool, true, false, not, ◌&&◌, List, [], ◌∷◌, Option, none, some, Text, if◌then◌else◌, lookup,
  nat_eq, text_eq, ◌==◌, ℤ, pos,
}
use selftunnel.Proto.{Frame, frame, get_stats}
use selftunnel.Server.Session.{Session, Arm, Sent, new_session}
use selftunnel.Server.Registry.{Tunnel, Tunnels, File, count}
use selftunnel.Server.Registry.Listing.{list}
use selftunnel.Server.Intake.{Server, put_session, tunnel_session, close_session, send_to}

-- `New`, but for the settings of the upgrader.
unfoldable pub new_server : Tunnels → File → List Text → Server
new_server registry file allowed_origins = record {
  tunnels = registry;
  file = file;
  sessions = [];
  online_count = pos 0;
  allowed_origins = allowed_origins;
}

-- `handleTunnel` up to `Run`: the session is made at the place `h` when the handshake succeeds.
unfoldable pub handle_tunnel : Bool → ℕ → Text → ℕ → Server → Option ℕ × Server
handle_tunnel upgraded h remote_addr now srv =
    if upgraded then (some h, put_session h (new_session remote_addr now) srv) else (none, srv)

-- `ln` is the resolved address of the listener.
pub record App : Type 0 where
  pub addr : Text
  pub cert_file : Text
  pub key_file : Text
  pub ln : Option Text
  pub http_srv : Bool

unfoldable pub new_app : Text → Text → Text → App
new_app addr cert_file key_file = record {
  addr = addr;
  cert_file = cert_file;
  key_file = key_file;
  ln = none;
  http_srv = false;
}

-- How the goroutine serves the listener.
pub data HttpServing : Type 0 where
  plain : HttpServing
  tls : Text → Text → HttpServing

pub data StartResult : Type 0 where
  already_running listen_failed : StartResult
  serving : HttpServing → StartResult

unfoldable pub use_tls : Text → Text → Bool
use_tls cert_file key_file = not (cert_file == []) && not (key_file == [])

abbrev pub serving_of : App → HttpServing
unfolding use_tls
serving_of a = if use_tls a.cert_file a.key_file then tls a.cert_file a.key_file else plain

abbrev pub start_listening : Option Text → App → StartResult × App
start_listening none a = (listen_failed, a)
start_listening (some resolved) a =
    (serving (serving_of a), record a { ln = some resolved; http_srv = true })

abbrev pub start_if : Option Text → Option Text → App → StartResult × App
start_if (some ln) listen a = (already_running, a)
start_if none listen a = start_listening listen a

-- `Start`: `listen` is the address of the listener that `net.Listen` gives, or its error.
unfoldable pub start : Option Text → App → StartResult × App
start listen a = start_if a.ln listen a

abbrev pub addr_of : Option Text → Text
addr_of none = []
addr_of (some resolved) = resolved

-- `Addr` and `Running`.
unfoldable pub app_addr : App → Text
app_addr a = addr_of a.ln

abbrev pub is_up : Option Text → Bool
is_up none = false
is_up (some resolved) = true

unfoldable pub running : App → Bool
running a = is_up a.ln

abbrev pub close_held : Option ℕ → Server → Option Server
close_held none srv = some srv
close_held (some h) srv = close_session h srv

abbrev pub then_close : (Server → Option Server) → Option Server → Option Server
then_close go none = none
then_close go (some srv) = go srv

-- The loop of `Stop` over the registry's list, which is taken before it. A tunnel is looked at when
-- its turn comes.
unfoldable pub close_listed : List Tunnel → Server → Option Server
close_listed [] srv = some srv
close_listed (t ∷ ts) srv =
    then_close (λ s. close_listed ts s) (close_held (tunnel_session (lookup t.id srv.tunnels)) srv)

-- What `Stop` answers: at once, or what `Shutdown` answers.
pub data StopResult : Type 0 where
  not_running : StopResult
  shut_down : Bool → StopResult

abbrev pub stopped : Bool → App → Option Server → Option (StopResult × App × Server)
stopped shutdown_ok a none = none
stopped shutdown_ok a (some srv) = some (shut_down shutdown_ok, a, srv)

-- `Stop`. `none` is a panic.
unfoldable pub stop : Bool → App → Server → Option (StopResult × App × Server)
unfolding close_listed
stop shutdown_ok a srv =
    let down : App = record a { ln = none; http_srv = false } in
    if a.http_srv
    then stopped shutdown_ok down (close_listed (list srv.tunnels) srv)
    else some (not_running, down, srv)

-- The frames of `PollStats` go to the sessions that are held; `choices` gives the arm of the select
-- and whether the time is out, for each session.
abbrev pub poll_held : (ℕ → Arm × Bool) → Option ℕ → Server → Server
poll_held choices none srv = srv
poll_held choices (some h) srv =
    let (arm, timed_out) = choices h in (send_to arm timed_out (frame get_stats) h srv).1

unfoldable pub poll_listed : (ℕ → Arm × Bool) → List Tunnel → Server → Server
poll_listed choices [] srv = srv
poll_listed choices (t ∷ ts) srv =
    poll_listed choices ts (poll_held choices (tunnel_session (lookup t.id srv.tunnels)) srv)

unfoldable pub poll_stats : (ℕ → Arm × Bool) → Server → Server
unfolding poll_listed
poll_stats choices srv = poll_listed choices (list srv.tunnels) srv

-- The fields of the health report.
pub record Health : Type 0 where
  pub ok : Bool
  pub registered : ℕ
  pub online : ℤ

unfoldable pub handle_healthz : Server → Health
handle_healthz srv = record { ok = true; registered = count srv.tunnels; online = srv.online_count }
