-- ===== src/Commands/RelayServer.antt =====
-- `main` and `parseList` of cmd/selftunnel-server/main.go. `main` is a function from the parsed flags and
-- the answers of the system to its end; the logging is not modelled.
pub mod Laws
use selftunnel.Common.{
  ℕ, Bool, true, false, not, List, [], ◌∷◌, Option, none, some, Text, codes, if◌then◌else◌, ◌==◌,
  text_eq,
}
use selftunnel.Text.{trim_space, split}
use selftunnel.Server.Registry.{File, LoadError, Tunnels, new_registry, load}
use selftunnel.Server.Intake.{Server}
use selftunnel.Server.Lifecycle.{new_server, HttpServing, plain, tls, use_tls}

unfoldable pub keep_entries : List Text → List Text
keep_entries [] = []
keep_entries (p ∷ ps) =
    let rest = keep_entries ps in let q = trim_space p in if q == [] then rest else q ∷ rest

unfoldable pub parse_list : Text → List Text
unfolding keep_entries
parse_list s = if s == [] then [] else keep_entries (split b',' s)

pub record ServerFlags : Type 0 where
  pub addr : Text
  pub data_dir : Text
  pub cert_file : Text
  pub key_file : Text
  pub allowed_origins : Text
  pub debug : Bool

-- The defaults of the flags.
abbrev pub default_flags : ServerFlags
default_flags = record {
  addr = codes ":8080";
  data_dir = codes "./data";
  cert_file = [];
  key_file = [];
  allowed_origins = codes "native-client://";
  debug = false;
}

-- `os.Exit(1)` before the server runs, with its reason.
pub data Refusal : Type 0 where
  mkdir_failed : Refusal
  load_failed : LoadError → Refusal

-- `ran` has the address, how it is served, the server and whether requests are logged; the listener
-- runs until it fails, and with what `true` stands for, its error, the exit status is 1.
pub data ServerEnd : Type 0 where
  refused : Refusal → ServerEnd
  ran : Text → HttpServing → Server → Bool → ℕ → ServerEnd

abbrev pub exit_status : Bool → ℕ
exit_status true = 1
exit_status false = 0

abbrev pub serve_flags : ServerFlags → File → Bool → Tunnels → ServerEnd
unfolding parse_list new_server use_tls
serve_flags flags file failed tunnels =
    ran flags.addr
      (if use_tls flags.cert_file flags.key_file then tls flags.cert_file flags.key_file else plain)
      (new_server tunnels file (parse_list flags.allowed_origins)) flags.debug (exit_status failed)

abbrev pub after_load : ServerFlags → File → Bool → Option LoadError × Tunnels → ServerEnd
after_load flags file failed (some e, tunnels) = refused (load_failed e)
after_load flags file failed (none, tunnels) = serve_flags flags file failed tunnels

-- `main`: `file` is the registry file in the data directory, `failed` whether the listener ends with
-- an error.
unfoldable pub server_main : Bool → File → Bool → ServerFlags → ServerEnd
server_main mkdir_ok file failed flags =
    if mkdir_ok then after_load flags file failed (load file new_registry) else refused mkdir_failed
