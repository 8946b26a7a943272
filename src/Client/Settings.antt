-- ===== src/Client/Settings.antt =====
-- The configuration of the client in internal/client/client.go: `LoadConfig`, `SaveConfig`,
-- `ResolveStatePath`, `makeTLSConfig` with its use in `New`, the getters and setters, `Status.String`.
-- A file is what it holds once it is parsed.
pub mod Laws
mod Tests
use selftunnel.Common.{
  ℕ, Bool, true, false, not, ◌&&◌, List, [], ◌∷◌, ◌++◌, Option, none, some, Text, codes,
  if◌then◌else◌, ◌==◌, text_eq,
}
use selftunnel.Text.{trim_space, to_lower}
use selftunnel.Client.Address.{normalize_server}
use selftunnel.Client.Connection.{
  Config, Status, disconnected, connecting, online, backing_off, Client,
}

abbrev pub status_text : Status → Text
status_text connecting = codes "connecting"
status_text online = codes "online"
status_text backing_off = codes "backoff"
status_text disconnected = codes "disconnected"

abbrev pub empty_config : Config
empty_config = record { server = []; target = []; custom_id = []; tunnel_id = []; secret = [] }

-- The setters, on the fields that they guard.
unfoldable pub set_target : Text → Client → Client
set_target target c = record c { cfg = record c.cfg { target = trim_space target } }

unfoldable pub set_server : Text → Client → Client
set_server server c = record c { cfg = record c.cfg { server = normalize_server server } }

unfoldable pub set_custom_id : Text → Client → Client
set_custom_id id c = record c { cfg = record c.cfg { custom_id = to_lower (trim_space id) } }

abbrev pub target_of : Client → Text
target_of c = c.cfg.target

abbrev pub server_of : Client → Text
server_of c = c.cfg.server

abbrev pub custom_id_of : Client → Text
custom_id_of c = c.cfg.custom_id

-- A file of a configuration: absent, not readable, no configuration, or one.
pub data ConfigFile : Type 0 where
  absent unreadable malformed : ConfigFile
  holds : Config → ConfigFile

pub data Loaded : Type 0 where
  loaded : Config → Loaded
  read_error json_error : Loaded

unfoldable pub load_config : ConfigFile → Loaded
load_config absent = loaded empty_config
load_config unreadable = read_error
load_config malformed = json_error
load_config (holds cfg) = loaded cfg

-- The file of the configuration and the temporary one beside it.
pub record Disk : Type 0 where
  pub config : ConfigFile
  pub tmp : ConfigFile

pub data SaveError : Type 0 where
  mkdir_error write_error rename_error : SaveError

-- How the write of the temporary file ends: a failed one leaves it in some state.
pub data Writing : Type 0 where
  written : Writing
  write_fails : ConfigFile → Writing

abbrev pub renaming : Bool → Config → Disk → Option SaveError × Disk
renaming rename_ok cfg d =
    if rename_ok
    then (none, record { config = holds cfg; tmp = absent })
    else (some rename_error, record d { tmp = holds cfg })

abbrev pub writing : Writing → Bool → Config → Disk → Option SaveError × Disk
writing written rename_ok cfg d = renaming rename_ok cfg d
writing (write_fails part) rename_ok cfg d = (some write_error, record d { tmp = part })

-- `SaveConfig`: the directory is made, the temporary file written and then renamed.
unfoldable pub save_config : Bool → Writing → Bool → Config → Disk → Option SaveError × Disk
save_config mkdir_ok write rename_ok cfg d =
    if mkdir_ok then writing write rename_ok cfg d else (some mkdir_error, d)

-- Where a state file may stand: the working directory if a file can be made there, the user's
-- configuration directory if the subdirectory can be made there. `none` is an error.
pub record Places : Type 0 where
  pub working_dir : Option Text
  pub temp_made : Bool
  pub user_config_dir : Option Text
  pub subdir_made : Bool

module _ (join : Text → Text → Text) where
  abbrev pub in_config_dir : Bool → Option Text → Text → Text
  in_config_dir made none name = name
  in_config_dir made (some dir) name =
      if made then join (join dir (codes "selftunnel")) name else name

  abbrev pub in_working_dir : Bool → Option Text → Text → Text → Text
  in_working_dir made none name fallback = fallback
  in_working_dir made (some wd) name fallback = if made then join wd name else fallback

  -- `ResolveStatePath`; `join` is `filepath.Join`.
  unfoldable pub resolve_state_path : Places → Text → Text
  resolve_state_path p name =
      in_working_dir p.temp_made p.working_dir name
        (in_config_dir p.subdir_made p.user_config_dir name)

-- A certificate is the pair of its files.
pub record TlsConfig : Type 0 where
  pub insecure_skip_verify : Bool
  pub certificates : List (Text × Text)

-- `makeTLSConfig`: `pair_ok` tells whether the key pair can be loaded.
unfoldable pub make_tls_config : Bool → Bool → Text → Text → Option TlsConfig
make_tls_config pair_ok insecure cert_file key_file =
    if not (cert_file == []) && not (key_file == [])
    then if pair_ok
      then some
          (record { insecure_skip_verify = insecure; certificates = (cert_file, key_file) ∷ [] })
      else none
    else some (record { insecure_skip_verify = insecure; certificates = [] })

abbrev pub tls_or_plain : Bool → Option TlsConfig → TlsConfig
tls_or_plain insecure none = record { insecure_skip_verify = insecure; certificates = [] }
tls_or_plain insecure (some cfg) = cfg

-- The configuration that `New` gives to the HTTP client for the target.
unfoldable pub target_tls : Bool → Bool → Text → Text → TlsConfig
unfolding make_tls_config
target_tls pair_ok insecure cert_file key_file =
    tls_or_plain insecure (make_tls_config pair_ok insecure cert_file key_file)
