-- ===== src/Gui/RelayWindow.antt =====
-- The handlers of the window of cmd/selftunnel-server-gui/main.go on its state, each run as a whole; those
-- for ngrok are in Exposure. The text of a label is kept where other handlers depend on it. `none` is a
-- panic.
pub mod Exposure
pub mod Laws
pub mod Runs
use selftunnel.Common.{
  ℕ, ◌-◌, nat_beq, Bool, true, false, not, ◌&&◌, List, [], ◌∷◌, Option, none, some, Text, codes,
  if◌then◌else◌, lookup, text_eq, nat_eq, ◌==◌,
}
use selftunnel.Text.{trim_space}
use selftunnel.Server.Session.{Session, Arm}
use selftunnel.Server.Registry.{Tunnel, File, LoadError, Tunnels, new_registry, load, get}
use selftunnel.Server.Intake.{Server, tunnel_session}
use selftunnel.Server.Lifecycle.{
  App, StartResult, already_running, listen_failed, serving, StopResult, new_server, new_app, start,
  running, stop, close_held, poll_stats,
}
use selftunnel.Ngrok.{Manager, Effect}
use selftunnel.Ngrok
use selftunnel.Client.Connection.{Config}
use selftunnel.Client.Settings.{empty_config}
use selftunnel.Gui.Ports.{split_host_port}
use selftunnel.Gui.Sessions.{
  Settings, SettingsFields, save_settings, SessionRow, refresh_sessions, client_server_url,
}

-- `app` is the app with the server that it runs, whose registry is the window's; the flags tell which
-- buttons are enabled.
pub record Window : Type 0 where
  pub app : Option (App × Server)
  pub ng : Manager
  pub rows : List SessionRow
  pub selected : Option ℕ
  pub public_url : Text
  pub settings_file : Option SettingsFields
  pub start_enabled : Bool
  pub stop_enabled : Bool
  pub expose_enabled : Bool
  pub stop_expose_enabled : Bool
  pub public_label : Text

-- The entries of the form.
pub record Form : Type 0 where
  pub addr : Text
  pub data_dir : Text
  pub cert : Text
  pub key : Text
  pub token : Text

pub data Dialog : Type 0 where
  bad_address cannot_create_dir cannot_load cannot_start token_missing start_first ngrok_failed :
      Dialog

-- What the system answers to one start: for the settings file, the data directory, the registry file
-- and the listener.
pub record StartWorld : Type 0 where
  pub settings_ok : Bool
  pub mkdir_ok : Bool
  pub registry_file : File
  pub listen : Option Text

abbrev pub form_settings : Form → Settings
form_settings f = record {
  listen_addr = trim_space f.addr;
  data_dir = if trim_space f.data_dir == [] then codes "./data" else trim_space f.data_dir;
  cert_file = trim_space f.cert;
  key_file = trim_space f.key;
  ngrok_token = trim_space f.token;
  ngrok_binary = [];
}

abbrev pub app_started : Server → StartResult × App → Window → Option Dialog × Window
app_started srv (already_running, a) w = (some cannot_start, w)
app_started srv (listen_failed, a) w = (some cannot_start, w)
app_started srv (serving m, a) w =
    (none, record w { app = some (a, srv); start_enabled = false; stop_enabled = true })

unfoldable pub registry_loaded :
    Settings → StartWorld → Option LoadError × Tunnels → Window → Option Dialog × Window
unfolding start new_server new_app
registry_loaded set sw (some e, ts) w = (some cannot_load, w)
registry_loaded set sw (none, ts) w =
    let srv = new_server ts sw.registry_file (codes "native-client://" ∷ []) in
    app_started srv (start sw.listen (new_app set.listen_addr set.cert_file set.key_file)) w

unfoldable pub address_checked :
    Option (Text × Text) → Form → StartWorld → Window → Option Dialog × Window
unfolding save_settings
address_checked none f sw w = (some bad_address, w)
address_checked (some p) f sw w =
    let set = form_settings f in
    let saved : Window = record w {
      settings_file = save_settings sw.settings_ok w.settings_file set;
    } in
    if sw.mkdir_ok
    then registry_loaded set sw (load sw.registry_file new_registry) saved
    else (some cannot_create_dir, saved)

-- `startServer`.
unfoldable pub start_server : Form → StartWorld → Window → Option Dialog × Window
unfolding split_host_port
start_server f sw w = address_checked (split_host_port (trim_space f.addr)) f sw w

abbrev pub app_running : Option (App × Server) → Bool
app_running none = false
app_running (some (a, srv)) = running a

-- `guiState.running`.
unfoldable pub window_running : Window → Bool
window_running w = app_running w.app

abbrev pub server_stopped : Window → Option (StopResult × App × Server) → Option Window
server_stopped w none = none
server_stopped w (some r) =
    some (record w { public_url = []; app = none; start_enabled = true; stop_enabled = false })

-- The manager of ngrok after `Stop`, unless it panics.
abbrev pub after_ngrok : Option (List Effect) × Manager → (Manager → Option Window) → Option Window
after_ngrok (none, m) go = none
after_ngrok (some es, m) go = go m

abbrev pub stop_app : Bool → Option (App × Server) → Window → Option Window
stop_app shutdown_ok none w = some w
stop_app shutdown_ok (some (a, srv)) w =
    if running a
    then after_ngrok (Ngrok.stop w.ng)
        (λ m. server_stopped (record w { ng = m }) (stop shutdown_ok a srv))
    else some w

-- `stopServer`.
unfoldable pub stop_server : Bool → Window → Option Window
stop_server shutdown_ok w = stop_app shutdown_ok w.app w

abbrev pub row_at : ℕ → List SessionRow → Option SessionRow
row_at n [] = none
row_at n (r ∷ rs) = if nat_beq n 0 then some r else row_at (n - 1) rs

abbrev pub with_server : Window → App → Option Server → Option Window
with_server w a none = none
with_server w a (some srv) = some (record w { app = some (a, srv) })

abbrev pub disconnect_row : Option SessionRow → App → Server → Window → Option Window
disconnect_row none a srv w = some w
disconnect_row (some r) a srv w =
    with_server w a (close_held (tunnel_session (get r.id srv.tunnels)) srv)

abbrev pub disconnect_from : Option (App × Server) → Option ℕ → Window → Option Window
disconnect_from none selected w = some w
disconnect_from (some (a, srv)) none w = some w
disconnect_from (some (a, srv)) (some idx) w = disconnect_row (row_at idx w.rows) a srv w

-- The handler of the button "Disconnect selected".
unfoldable pub disconnect : Window → Option Window
disconnect w = disconnect_from w.app w.selected w

-- The configuration that the button "Generate client config…" saves.
unfoldable pub generate_config : Text → Bool → Window → Option Config
unfolding window_running
generate_config listen_addr tls w =
    if window_running w
    then some (record empty_config {
      server = client_server_url w.public_url (trim_space listen_addr) tls;
    })
    else none

abbrev pub refreshed : List SessionRow × Option ℕ → Window → Window
refreshed (rows, selected) w = record w { rows = rows; selected = selected }

abbrev pub registry_of : Option (App × Server) → Option (Tunnels × List (ℕ × Session))
registry_of none = none
registry_of (some (a, srv)) = some (srv.tunnels, srv.sessions)

abbrev pub polled : (ℕ → Arm × Bool) → Option (App × Server) → Option (App × Server)
polled choices none = none
polled choices (some (a, srv)) =
    if running a then some (a, poll_stats choices srv) else some (a, srv)

-- One round of the periodic goroutine; `stats` tells whether the slower ticker has fired too.
unfoldable pub tick : Bool → (ℕ → Arm × Bool) → Window → Window
tick stats choices w =
    let w' = refreshed (refresh_sessions (registry_of w.app) w.selected) w in
    if stats then record w' { app = polled choices w'.app } else w'

-- The window's end: ngrok and then the server are stopped.
unfoldable pub close_window : Bool → Window → Option Window
unfolding stop_server
close_window shutdown_ok w =
    after_ngrok (Ngrok.stop w.ng) (λ m. stop_server shutdown_ok (record w { ng = m }))

-- The window before any handler has run.
unfoldable pub new_window : Option SettingsFields → Window
new_window file = record {
  app = none;
  ng = Ngrok.zero_manager;
  rows = [];
  selected = none;
  public_url = [];
  settings_file = file;
  start_enabled = true;
  stop_enabled = false;
  expose_enabled = true;
  stop_expose_enabled = false;
  public_label = [];
}
