-- ===== src/Gui/ClientWindow.antt =====
-- The window of cmd/selftunnel-client-gui/main.go: its button, `stopClient` and `updateUI`. A `*Client` is
-- a place among the clients that were ever started, and the cancel function of a context is the place
-- of its client.
pub mod Laws
use selftunnel.Common.{
  ℕ, Bool, true, false, not, ◌&&◌, List, [], ◌∷◌, Option, none, some, Text, codes, if◌then◌else◌,
  lookup, insert, nat_eq, text_eq, ◌==◌,
}
use selftunnel.Text.{trim_space, to_lower}
use selftunnel.TunnelId.{is_valid_custom_id}
use selftunnel.Client.Address.{normalize_server, is_valid_target}
use selftunnel.Client.Connection.{
  Config, Status, disconnected, connecting, online, backing_off, Client, new_client, stop_client,
}
use selftunnel.Client.Settings.{Disk, SaveError, Writing, save_config}

-- A client whose `Run` was started, and whether its context is cancelled.
pub record Started : Type 0 where
  pub client : Client
  pub cancelled : Bool

pub record ClientWindow : Type 0 where
  pub cfg : Config
  pub c : Option ℕ
  pub ctx_cancel : Option ℕ
  pub clients : List (ℕ × Started)
  pub disk : Disk
  pub status_label : Text
  pub tun_id_label : Text
  pub connect_text : Text
  pub copy_enabled : Bool

pub record ClientForm : Type 0 where
  pub server_entry : Text
  pub target_entry : Text
  pub custom_entry : Text

pub data ClientDialog : Type 0 where
  missing_server invalid_target invalid_custom_id save_failed : ClientDialog

abbrev pub shown_id : Option Started → Text → Text
shown_id none old = old
shown_id (some s) old = s.client.tun_id

abbrev pub found : Option ℕ → List (ℕ × Started) → Option Started
found none cs = none
found (some h) cs = lookup h cs

-- `updateUI`.
unfoldable pub update_ui : Status → ClientWindow → ClientWindow
update_ui online w = record w {
  status_label = codes "Online";
  tun_id_label = shown_id (found w.c w.clients) w.tun_id_label;
  connect_text = codes "Disconnect";
  copy_enabled = true;
}
update_ui connecting w = record w {
  status_label = codes "Connecting...";
  connect_text = codes "Connecting";
  copy_enabled = false;
}
update_ui backing_off w = record w {
  status_label = codes "Reconnecting...";
  connect_text = codes "Reconnecting";
  copy_enabled = false;
}
update_ui disconnected w = record w {
  status_label = codes "Disconnected";
  tun_id_label = codes "-";
  connect_text = codes "Connect";
  copy_enabled = false;
}

abbrev pub change :
    ℕ → (Started → Started) → Option Started → List (ℕ × Started) → List (ℕ × Started)
change h f none cs = cs
change h f (some s) cs = insert h (f s) cs

abbrev pub stop_held : Option ℕ → List (ℕ × Started) → List (ℕ × Started)
stop_held none cs = cs
stop_held (some h) cs = change h (λ s. record s { client = stop_client s.client }) (lookup h cs) cs

abbrev pub cancel_held : Option ℕ → List (ℕ × Started) → List (ℕ × Started)
cancel_held none cs = cs
cancel_held (some h) cs = change h (λ s. record s { cancelled = true }) (lookup h cs) cs

-- `stopClient`.
unfoldable pub stop_window_client : ClientWindow → ClientWindow
unfolding update_ui
stop_window_client w = update_ui disconnected (record w {
  c = none;
  ctx_cancel = none;
  clients = cancel_held w.ctx_cancel (stop_held w.c w.clients);
})

unfoldable pub form_config : ClientForm → Config → Config
form_config f cfg = record cfg {
  server = normalize_server f.server_entry;
  target = trim_space f.target_entry;
  custom_id = to_lower (trim_space f.custom_entry);
}

-- The checks of the button, in their order.
unfoldable pub check_form : Config → Option ClientDialog
check_form cfg =
    if cfg.server == []
    then some missing_server
    else if not (cfg.target == []) && not (is_valid_target cfg.target)
    then some invalid_target
    else if not (cfg.custom_id == []) && not (is_valid_custom_id cfg.custom_id)
    then some invalid_custom_id
    else none

-- What the system answers to `SaveConfig`.
pub record SaveWorld : Type 0 where
  pub mkdir_ok : Bool
  pub write : Writing
  pub rename_ok : Bool

abbrev pub all_configured : Config → List (ℕ × Started) → List (ℕ × Started)
all_configured cfg [] = []
all_configured cfg ((h, s) ∷ cs) =
    (h, record s { client = record s.client { cfg = cfg } }) ∷ all_configured cfg cs

-- The configuration is one object, which the window shares with every client that it made.
abbrev pub share : Config → ClientWindow → ClientWindow
share cfg w = record w { cfg = cfg; clients = all_configured cfg w.clients }

abbrev pub after_save :
    Text → ℕ → Config → Option SaveError × Disk → ClientWindow → Option ClientDialog × ClientWindow
after_save config_path h cfg (some e, disk) w = (some save_failed, record w { disk = disk })
after_save config_path h cfg (none, disk) w = (
  none,
  record w {
    disk = disk;
    c = some h;
    ctx_cancel = some h;
    clients =
        insert h (record { client = new_client cfg config_path; cancelled = false }) w.clients;
  },
)

unfoldable pub connect_checked :
    Text
    → ℕ
    → SaveWorld
    → Config
    → Option ClientDialog
    → ClientWindow
    → Option ClientDialog × ClientWindow
unfolding save_config
connect_checked config_path h sw cfg (some d) w = (some d, w)
connect_checked config_path h sw cfg none w =
    after_save config_path h cfg (save_config sw.mkdir_ok sw.write sw.rename_ok cfg w.disk)
      (share cfg w)

abbrev pub is_online_status : Status → Bool
is_online_status online = true
is_online_status _ = false

abbrev pub is_online : Option Started → Bool
is_online none = false
is_online (some s) = is_online_status s.client.status

abbrev pub going_on : ℕ → (Client → Client) → Option Started → ClientWindow → ClientWindow
going_on h f none w = w
going_on h f (some s) w =
    share (f s.client).cfg
      (record w { clients = insert h (record s { client = f s.client }) w.clients })

-- A client that goes on: its connection loop and its callbacks change it, and with it the shared
-- configuration.
unfoldable pub client_goes_on : ℕ → (Client → Client) → ClientWindow → ClientWindow
client_goes_on h f w = going_on h f (lookup h w.clients) w

-- The button: a new client gets the place `h`.
unfoldable pub press :
    Text → ℕ → SaveWorld → ClientForm → ClientWindow → Option ClientDialog × ClientWindow
unfolding stop_window_client form_config check_form
press config_path h sw f w =
    if is_online (found w.c w.clients)
    then (none, stop_window_client w)
    else (let cfg = form_config f w.cfg in connect_checked config_path h sw cfg (check_form cfg) w)
