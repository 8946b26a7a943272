-- ===== src/Commands/Tests.antt =====
-- The command lines on examples.
use selftunnel.Common.{false, List, [], ◌∷◌, Text, codes, text_beq, ◌≡◌, refl, arith}
use selftunnel.Text.{
  trim_space, trim_left, trim_right, to_lower, is_space, lower_rune, cut_prefix, cut_suffix,
  has_prefix, has_suffix, trim_suffix, byte_length, rune_length,
}
use selftunnel.TunnelId.{is_valid_custom_id, custom_id_loop}
use selftunnel.Client.Address.{normalize_server, is_valid_target, ws_scheme, with_intake_path}
use selftunnel.Client.Connection.{Config}
use selftunnel.Client.Settings.{absent, load_config, empty_config}
use selftunnel.Commands.RelayServer.{parse_list}
use selftunnel.Commands.RelayServer.Laws.{print_list, parse_list-print_list}
use selftunnel.Commands.TunnelClient.{
  ClientFlags, client_main, ran, options_of, override, check_config,
}
use selftunnel.Commands.TunnelClient.Laws.{IsRunnable, client_main-IsRunnable}

-- Pieces with white space around them, and one of nothing else.
abbrev pieces : List Text
pieces = codes " native-client://" ∷ codes "  " ∷ codes "https://a.example " ∷ []

parse_list-print_list_example :
    parse_list (print_list pieces) ≡ codes "native-client://" ∷ codes "https://a.example" ∷ []
unfolding text_beq trim_space trim_left trim_right is_space
parse_list-print_list_example = parse_list-print_list pieces (ground arith)

abbrev flags : ClientFlags
flags = record {
  config_path = codes "config.json";
  server = codes "https://r.example/";
  target = codes "http://127.0.0.1:80";
  custom_id = codes " AB12CD34 ";
  insecure_target = false;
  insecure_server = false;
  client_cert = [];
  client_key = [];
  debug = false;
}

abbrev chosen : Config
chosen = record empty_config {
  server = codes "wss://r.example/ws/tunnel";
  target = codes "http://127.0.0.1:80";
  custom_id = codes "ab12cd34";
}

runs : client_main absent false flags ≡ ran chosen (options_of flags) (codes "config.json") 0
unfolding client_main load_config override check_config text_beq trim_space trim_left trim_right
    is_space to_lower lower_rune normalize_server ws_scheme with_intake_path has_prefix has_suffix
    cut_prefix cut_suffix trim_suffix is_valid_target is_valid_custom_id custom_id_loop byte_length
    rune_length
runs = refl

client_main-IsRunnable_example : IsRunnable chosen
client_main-IsRunnable_example =
    client_main-IsRunnable absent false flags chosen (options_of flags) (codes "config.json") 0 runs
