-- ===== src/Gui/Sessions.antt =====
-- The operator's settings, the session table and the derived addresses of
-- cmd/selftunnel-server-gui/main.go. The settings file is what it holds once it is parsed: the fields
-- that are there.
pub mod Laws
use selftunnel.Common.{
  ℕ, ◌-◌, Bool, true, false, List, [], ◌∷◌, ◌++◌, Option, none, some, Text, codes, if◌then◌else◌,
  length, ltb, leb, lookup, ◌==◌, text_eq, nat_eq, nat_beq,
}
use selftunnel.Text.{trim_suffix}
use selftunnel.Server.Session.{Session}
use selftunnel.Server.Registry.{Tunnel, Tunnels}
use selftunnel.Server.Registry.Listing.{list}
use selftunnel.Client.Address.{normalize_server}

pub record Settings : Type 0 where
  pub listen_addr : Text
  pub data_dir : Text
  pub cert_file : Text
  pub key_file : Text
  pub ngrok_token : Text
  pub ngrok_binary : Text

-- `data_path` is where `ResolveStatePath` puts the data.
unfoldable pub default_settings : Text → Settings
default_settings data_path = record {
  listen_addr = codes "127.0.0.1:8080";
  data_dir = data_path;
  cert_file = [];
  key_file = [];
  ngrok_token = [];
  ngrok_binary = [];
}

-- A field of the file, `none` when it is absent.
pub record SettingsFields : Type 0 where
  pub listen_addr_field : Option Text
  pub data_dir_field : Option Text
  pub cert_file_field : Option Text
  pub key_file_field : Option Text
  pub ngrok_token_field : Option Text
  pub ngrok_binary_field : Option Text

abbrev pub field_or : Option Text → Text → Text
field_or none old = old
field_or (some new) old = new

-- `json.Unmarshal` into settings that have values already. A file that is absent, not readable or
-- malformed is `none`: a malformed one is taken to set nothing.
abbrev pub unmarshal : Option SettingsFields → Settings → Settings
unmarshal none s = s
unmarshal (some f) s = record {
  listen_addr = field_or f.listen_addr_field s.listen_addr;
  data_dir = field_or f.data_dir_field s.data_dir;
  cert_file = field_or f.cert_file_field s.cert_file;
  key_file = field_or f.key_file_field s.key_file;
  ngrok_token = field_or f.ngrok_token_field s.ngrok_token;
  ngrok_binary = field_or f.ngrok_binary_field s.ngrok_binary;
}

abbrev pub default_if_empty : Text → Text → Text
default_if_empty s value = if s == [] then value else s

unfoldable pub load_settings : Text → Option SettingsFields → Settings
unfolding default_settings
load_settings data_path file =
    let s = unmarshal file (default_settings data_path) in
    record s {
      listen_addr = default_if_empty s.listen_addr (codes "127.0.0.1:8080");
      data_dir = default_if_empty s.data_dir data_path;
    }

abbrev pub omit_empty : Text → Option Text
omit_empty s = if s == [] then none else some s

-- The fields that `saveSettings` writes: the legacy key only when it has a value. A failed write, which
-- `write_ok` tells of, leaves the file as `kept` says.
unfoldable pub save_settings : Bool → Option SettingsFields → Settings → Option SettingsFields
save_settings write_ok kept s =
    if write_ok
    then some (record {
      listen_addr_field = some s.listen_addr;
      data_dir_field = some s.data_dir;
      cert_file_field = some s.cert_file;
      key_file_field = some s.key_file;
      ngrok_token_field = some s.ngrok_token;
      ngrok_binary_field = omit_empty s.ngrok_binary;
    })
    else kept

-- `since` is the time at which the session was established, if there is one.
pub record SessionRow : Type 0 where
  pub id : Text
  pub remote : Text
  pub since : Option ℕ
  pub target : Text
  pub status : Text
  pub reqs : ℕ

-- `cell`: the time and the number are printed by Go's library.
module _ (print_time : ℕ → Text) (print_number : ℕ → Text) where
  abbrev pub time_cell : Option ℕ → Text
  time_cell none = []
  time_cell (some t) = print_time t

  unfoldable pub cell : ℕ → SessionRow → Text
  cell col r =
      if nat_beq col 0
      then r.id
      else if nat_beq col 1
      then r.remote
      else if nat_beq col 2
      then time_cell r.since
      else if nat_beq col 3
      then r.target
      else if nat_beq col 4
      then print_number r.reqs
      else r.status

abbrev pub table_headers : List Text
table_headers =
    codes "Tunnel ID"
    ∷ codes "Remote"
    ∷ codes "Since"
    ∷ codes "Target"
    ∷ codes "Reqs"
    ∷ codes "Status"
    ∷ []

abbrev pub with_session_cells : Option Session → SessionRow → SessionRow
with_session_cells none r = r
with_session_cells (some s) r = record r {
  status = codes "online";
  remote = s.remote_addr;
  since = some s.started_at;
}

abbrev pub held_session : Option ℕ → List (ℕ × Session) → Option Session
held_session none sessions = none
held_session (some h) sessions = lookup h sessions

unfoldable pub row_of : List (ℕ × Session) → Tunnel → SessionRow
row_of sessions t = with_session_cells (held_session t.session sessions) (record {
  id = t.id;
  remote = [];
  since = none;
  target = t.target;
  status = codes "offline";
  reqs = t.req_count;
})

unfoldable pub rows_of : List (ℕ × Session) → List Tunnel → List SessionRow
unfolding row_of
rows_of sessions [] = []
rows_of sessions (t ∷ ts) = row_of sessions t ∷ rows_of sessions ts

-- The selected row; `none` is -1.
abbrev pub still_selected : ℕ → Option ℕ → Option ℕ
still_selected count none = none
still_selected count (some n) = if leb count n then none else some n

-- `refreshSessions`: without a registry the rows go and the selection stays.
unfoldable pub refresh_sessions :
    Option (Tunnels × List (ℕ × Session)) → Option ℕ → List SessionRow × Option ℕ
unfolding rows_of
refresh_sessions none selected = ([], selected)
refresh_sessions (some (reg, sessions)) selected =
    let rows = rows_of sessions (list reg) in (rows, still_selected (length rows) selected)

abbrev pub url_scheme : Bool → Text
url_scheme use_tls = if use_tls then codes "https" else codes "http"

unfoldable pub client_server_url : Text → Text → Bool → Text
client_server_url public_url listen_addr use_tls =
    if public_url == []
    then normalize_server
        (url_scheme use_tls ++ codes "://" ++ default_if_empty listen_addr (codes "127.0.0.1:8080"))
    else normalize_server public_url

unfoldable pub entry_template : Text → Text → Bool → Text
entry_template public_url listen_addr use_tls =
    trim_suffix (default_if_empty public_url (url_scheme use_tls ++ codes "://" ++ listen_addr))
      (codes "/")
    ++ codes "/t/{tunnelID}"
