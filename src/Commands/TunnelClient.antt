-- ===== src/Commands/TunnelClient.antt =====
-- `main` and `printConnected` of cmd/selftunnel-client/main.go. `main` is a function from the parsed
-- flags, the configuration file and the end of `Run` to its own end; the logging is not modelled.
pub mod Laws
use selftunnel.Common.{
  ℕ, zero, suc, ◌+◌, ◌-◌, Bool, true, false, not, ◌&&◌, List, [], ◌∷◌, ◌++◌, Option, none, some,
  Text, codes, if◌then◌else◌, length, ltb, ◌==◌, text_eq,
}
use selftunnel.Text.{trim_space, to_lower}
use selftunnel.TunnelId.{is_valid_custom_id}
use selftunnel.Client.Address.{normalize_server, is_valid_target, public_tunnel_url}
use selftunnel.Client.Connection.{Config}
use selftunnel.Client.Settings.{ConfigFile, Loaded, loaded, read_error, json_error, load_config}

pub record ClientFlags : Type 0 where
  pub config_path : Text
  pub server : Text
  pub target : Text
  pub custom_id : Text
  pub insecure_target : Bool
  pub insecure_server : Bool
  pub client_cert : Text
  pub client_key : Text
  pub debug : Bool

abbrev pub over : Text → Text → Text → Text
over flag value old = if flag == [] then old else value

-- The flags override the file, and the server's address is normalized wherever it is from.
unfoldable pub override : ClientFlags → Config → Config
override flags cfg = record cfg {
  server = normalize_server (over flags.server (normalize_server flags.server) cfg.server);
  target = over flags.target (trim_space flags.target) cfg.target;
  custom_id = over flags.custom_id (to_lower (trim_space flags.custom_id)) cfg.custom_id;
}

pub data Refusal : Type 0 where
  load_failed missing_server invalid_target invalid_custom_id : Refusal

-- The checks on the configuration, in their order.
unfoldable pub check_config : Config → Option Refusal
check_config cfg =
    if cfg.server == []
    then some missing_server
    else if not (cfg.target == []) && not (is_valid_target cfg.target)
    then some invalid_target
    else if not (cfg.custom_id == []) && not (is_valid_custom_id cfg.custom_id)
    then some invalid_custom_id
    else none

-- The options of the client, but for its callbacks.
pub record Options : Type 0 where
  pub server_insecure : Bool
  pub target_insecure : Bool
  pub cert : Text
  pub key : Text
  pub debugging : Bool

abbrev pub options_of : ClientFlags → Options
options_of flags = record {
  server_insecure = flags.insecure_server;
  target_insecure = flags.insecure_target;
  cert = flags.client_cert;
  key = flags.client_key;
  debugging = flags.debug;
}

-- `refused` is `os.Exit(1)` before the client runs; `ran` has the configuration, the options, the path
-- that the configuration is saved at and the exit status.
pub data ClientEnd : Type 0 where
  refused : Refusal → ClientEnd
  ran : Config → Options → Text → ℕ → ClientEnd

abbrev pub run_unless : Option Refusal → Bool → ClientFlags → Config → ClientEnd
run_unless (some r) failed flags cfg = refused r
run_unless none failed flags cfg =
    ran cfg (options_of flags) flags.config_path (if failed then 1 else 0)

abbrev pub after_load : Bool → ClientFlags → Loaded → ClientEnd
unfolding override check_config
after_load failed flags read_error = refused load_failed
after_load failed flags json_error = refused load_failed
after_load failed flags (loaded cfg) =
    let cfg' = override flags cfg in run_unless (check_config cfg') failed flags cfg'

-- `main`: `file` is what stands at the path of the configuration, `failed` whether `Run` returns an
-- error.
unfoldable pub client_main : ConfigFile → Bool → ClientFlags → ClientEnd
unfolding load_config
client_main file failed flags = after_load failed flags (load_config file)

-- `strings.Repeat` of one character.
abbrev pub repeat : ℕ → ℕ → Text
repeat c zero = []
repeat c (suc n) = c ∷ repeat c n

-- `%-*s`: spaces at the end, up to the width in code points.
abbrev pub padded : ℕ → Text → Text
padded width s = s ++ repeat b' ' (width - length s)

abbrev pub widest : List Text → ℕ → ℕ
widest [] width = width
widest (line ∷ ls) width = widest ls (if ltb width (length line) then length line else width)

abbrev pub box_line : ℕ → Text → Text
box_line width line = codes "│  " ++ padded width line ++ codes "  │"

abbrev pub box_lines : ℕ → List Text → List Text
box_lines width [] = []
box_lines width (line ∷ ls) = box_line width line ∷ box_lines width ls

-- The lines of the box that `printConnected` prints around `lines`, without the blank ones.
unfoldable pub box_around : List Text → List Text
box_around lines =
    let width = widest lines 0 in
    let border = repeat 9472 (width + 4) in
    (codes "┌" ++ border ++ codes "┐")
    ∷ (box_lines width lines ++ (codes "└" ++ border ++ codes "┘") ∷ [])

unfoldable pub print_connected : Text → Text → List Text
unfolding box_around
print_connected server tunnel_id =
    box_around (codes "Tunnel connected" ∷ public_tunnel_url server tunnel_id ∷ [])
