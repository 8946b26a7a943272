-- ===== src/Gui/Tests.antt =====
-- The windows on examples.
use selftunnel.Common.{
  true, false, List, [], ◌∷◌, none, some, Text, codes, insert, nat_eq, text_eq, text_beq, ◌≡◌, refl,
  inl,
}
use selftunnel.Text.{
  trim_space, trim_left, trim_right, to_lower, is_space, has_prefix, cut_prefix, cut_suffix,
  has_suffix, trim_suffix,
}
use selftunnel.Client.Address.{normalize_server, ws_scheme, with_intake_path}
use selftunnel.Client.Connection.{new_client, connecting, Client}
use selftunnel.Client.Settings.{save_config, holds, absent, empty_config, written}
use selftunnel.Commands.TunnelClient.{ClientFlags, client_main, ran, options_of}
use selftunnel.Server.Registry.{Tunnel, missing, load}
use selftunnel.Server.Lifecycle.{start, running, new_app, new_server, stop, close_listed}
use selftunnel.Ngrok
use selftunnel.Server.Registry.Tests.{desired_id, mine}
use selftunnel.Server.Registry.Listing.{list, sort_by_id}
use selftunnel.Ngrok.{Answers}
use selftunnel.Gui.LogRing.{new_log_ring}
use selftunnel.Gui.LogRing.Laws.{last, written_lines, write_all, write_all-last}
use selftunnel.Gui.Ports.{has_rune, split_host_port, cut_last}
use selftunnel.Gui.Sessions.{Settings, save_settings, client_server_url}
use selftunnel.Gui.Sessions.Laws.{generated_config_runs}
use selftunnel.Gui.RelayWindow.{
  Window, Form, StartWorld, new_window, start_server, registry_loaded, address_checked, stop_server,
  form_settings,
}
use selftunnel.Gui.RelayWindow.Exposure.{begin_expose, expose_app, finish_expose}
use selftunnel.Gui.RelayWindow.Laws.{IsWindow}
use selftunnel.Gui.RelayWindow.Runs.{
  WindowEvent, starts, stops, exposes, on_event, whole_expose, on_events, on_events_consistent,
}
use selftunnel.Gui.ClientWindow.{
  ClientWindow, ClientForm, SaveWorld, press, connect_checked, check_form, form_config,
}
use selftunnel.Gui.ClientWindow.Laws.{Runs}

abbrev payloads : List Text
payloads = codes "one\ntwo\n" ∷ codes "\nthree\n" ∷ []

write_all-last_example :
    (write_all payloads (new_log_ring 2)).lines ≡ last 2 (written_lines payloads)
write_all-last_example = write_all-last 2 payloads

abbrev settings : Settings
settings = record {
  listen_addr = codes ":9090";
  data_dir = codes "data";
  cert_file = [];
  key_file = codes "key.pem";
  ngrok_token = codes "token";
  ngrok_binary = codes "/bin/ngrok";
}

abbrev tunnels : List (Text × Tunnel)
tunnels = (desired_id, mine) ∷ []

abbrev no_flags : ClientFlags
no_flags = record {
  config_path = codes "config.json";
  server = [];
  target = [];
  custom_id = [];
  insecure_target = false;
  insecure_server = false;
  client_cert = [];
  client_key = [];
  debug = false;
}

generated_config_runs_example :
    client_main
      (holds (record empty_config { server = client_server_url [] (codes ":80") true }))
      false
      no_flags
    ≡ ran
        (record empty_config { server = client_server_url [] (codes ":80") true })
        (options_of no_flags)
        (codes "config.json")
        0
generated_config_runs_example =
    generated_config_runs [] (codes ":80") true false no_flags (inl refl) refl refl refl

abbrev form : Form
form = record { addr = codes ":80"; data_dir = []; cert = []; key = []; token = codes "t" }

abbrev start_world : StartWorld
start_world = record {
  settings_ok = true;
  mkdir_ok = true;
  registry_file = missing;
  listen = some (codes "[::]:80");
}

abbrev answers : Answers
answers = record { new_agent = some 1; forwarder = some (2, codes "https://x.example") }

abbrev events : List WindowEvent
events = starts form start_world ∷ exposes (codes "t") answers ∷ stops true ∷ []

abbrev client_form : ClientForm
client_form = record { server_entry = codes "r.example"; target_entry = []; custom_entry = [] }

abbrev half_way : Client
half_way = record (new_client empty_config (codes "c.json")) { status = connecting }

abbrev pressed_once : ClientWindow
pressed_once = record {
  cfg = empty_config;
  c = some 0;
  ctx_cancel = some 0;
  clients = (0, record { client = half_way; cancelled = false }) ∷ [];
  disk = record { config = absent; tmp = absent };
  status_label = codes "Connecting...";
  tun_id_label = codes "-";
  connect_text = codes "Connecting";
  copy_enabled = false;
}

abbrev save_world : SaveWorld
save_world = record { mkdir_ok = true; write = written; rename_ok = true }

abbrev pressed_twice : ClientWindow
pressed_twice = (press (codes "c.json") 1 save_world client_form pressed_once).1

-- The window after the events: the label of the public address is still there.
abbrev after_events : Window
after_events = record (new_window none) {
  settings_file = save_settings true none (form_settings form);
  stop_expose_enabled = true;
  public_label = codes "https://x.example";
}

runs_events : on_events events (new_window none) ≡ some after_events
unfolding on_events on_event start_server begin_expose stop_server new_window split_host_port
    has_rune cut_last trim_space trim_left trim_right is_space text_beq load start running new_app
    new_server finish_expose stop whole_expose registry_loaded address_checked expose_app
    save_settings list sort_by_id close_listed Ngrok.start Ngrok.stop
runs_events = refl

on_events_consistent_example : IsWindow after_events
on_events_consistent_example = on_events_consistent none events after_events runs_events

abbrev fresh_window : ClientWindow
fresh_window = record pressed_once { c = none; ctx_cancel = none; clients = [] }

abbrev connecting_window : ClientWindow
connecting_window = record fresh_window {
  cfg = form_config client_form empty_config;
  c = some 1;
  ctx_cancel = some 1;
  clients =
      (
        1,
        record {
          client = new_client (form_config client_form empty_config) (codes "c.json");
          cancelled = false;
        },
      )
      ∷ [];
  disk = record { config = holds (form_config client_form empty_config); tmp = absent };
}

pressed : press (codes "c.json") 1 save_world client_form fresh_window ≡ (none, connecting_window)
unfolding press connect_checked save_config insert check_form form_config normalize_server
    trim_space trim_left trim_right is_space text_beq ws_scheme has_prefix cut_prefix has_suffix
    cut_suffix trim_suffix with_intake_path to_lower
pressed = refl
