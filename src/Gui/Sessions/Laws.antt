-- ===== src/Gui/Sessions/Laws.antt =====
-- The settings round trip, the addresses that the window hands out, and the table.
use selftunnel.Common.{
  ℕ, suc, ◌<◌, Bool, true, false, List, [], ◌∷◌, ◌++◌, ◌∷ʳ◌, Option, none, some, Text, codes,
  if◌then◌else◌, length, leb, append_assoc, ◌==◌, text_eq, text_beq, nat_eq, ◌≡◌, ◌≢◌, ◌⊎◌, refl,
  sym, ap, ◌∙◌, arith, some_inj, Bool-cases, inl, inr,
}
use selftunnel.Text.{trim_space, trim_suffix, is_space, has_suffix}
use selftunnel.Text.Trim.{trim_space_filled}
use selftunnel.Client.Address.{normalize_server, intake_path, public_tunnel_url}
use selftunnel.Client.Address.Laws.{
  IsIntake, normalize_server_shape, normalize_server-IsIntake, kept,
  public_tunnel_url-normalize_server,
}
use selftunnel.Client.Connection.{Config}
use selftunnel.Client.Settings.{holds, empty_config, load_config}
use selftunnel.Commands.TunnelClient.{
  ClientFlags, client_main, ran, options_of, override, check_config,
}
use selftunnel.Server.Session.{Session}
use selftunnel.Server.Registry.{Tunnel, Tunnels}
use selftunnel.Server.Registry.Listing.{list}
use selftunnel.Gui.Sessions.{
  Settings, SettingsFields, omit_empty, field_or, default_if_empty, default_settings, load_settings,
  save_settings, rows_of, still_selected, refresh_sessions, url_scheme, client_server_url,
  entry_template,
}

omit_empty_back : (s : Text) → field_or (omit_empty s) [] ≡ s
unfolding text_beq
omit_empty_back [] = refl
omit_empty_back (c ∷ s) = refl

default_if_empty_kept : (s value : Text) → (s == []) ≡ false → default_if_empty s value ≡ s
default_if_empty_kept s value e = rw e refl

-- Settings with a listen address and a data directory are loaded as they were saved.
pub load_settings-save_settings :
    (data_path : Text) (kept : Option SettingsFields) (s : Settings)
    → (s.listen_addr == []) ≡ false
    → (s.data_dir == []) ≡ false
    → load_settings data_path (save_settings true kept s) ≡ s
unfolding load_settings save_settings default_settings
load_settings-save_settings data_path kept s addr dir =
    ap
      (λ (b : Text). record s {
        listen_addr = default_if_empty s.listen_addr (codes "127.0.0.1:8080");
        data_dir = default_if_empty s.data_dir data_path;
        ngrok_binary = b;
      })
      (omit_empty_back s.ngrok_binary)
    ∙ ap
        (λ (a : Text). record s {
          listen_addr = a;
          data_dir = default_if_empty s.data_dir data_path;
        })
        (default_if_empty_kept s.listen_addr (codes "127.0.0.1:8080") addr)
    ∙ ap (λ (d : Text). record s { data_dir = d }) (default_if_empty_kept s.data_dir data_path dir)

rows_of-length :
    (sessions : List (ℕ × Session)) (ts : List Tunnel) → length (rows_of sessions ts) ≡ length ts
unfolding rows_of
rows_of-length sessions [] = refl
rows_of-length sessions (t ∷ ts) = ap suc (rows_of-length sessions ts)

still_selected-lt :
    (count : ℕ) (selected : Option ℕ) (n : ℕ) → still_selected count selected ≡ some n → n < count
still_selected-lt count none n e = absurd (cc)
still_selected-lt count (some m) n e = elim (Bool-cases (leb count m)) [
  | inl over ↦ absurd (cc (rw over at e))
  | inr under ↦ let same : m ≡ n = some_inj (rw under at e) in ground arith
]

-- After a refresh the table has a row for every tunnel of the registry, and a row that is still
-- selected is one of them.
pub refresh_sessions-selected :
    (reg : Tunnels) (sessions : List (ℕ × Session)) (selected : Option ℕ) (n : ℕ)
    → (refresh_sessions (some (reg, sessions)) selected).1 ≡ some n
    → (length (refresh_sessions (some (reg, sessions)) selected).0 ≡ length (list reg))
      × (n < length (list reg))
unfolding refresh_sessions
refresh_sessions-selected reg sessions selected n e =
    let rows : length (rows_of sessions (list reg)) ≡ length (list reg) =
      rows_of-length sessions (list reg) in
    let in_rows : n < length (rows_of sessions (list reg)) =
      still_selected-lt (length (rows_of sessions (list reg))) selected n e in
    (rows, rw rows at in_rows)

http_filled :
    (tls : Bool) (addr : Text) → (trim_space (url_scheme tls ++ codes "://" ++ addr) == []) ≡ false
http_filled true addr = trim_space_filled b'h' _ (unfold is_space in refl)
http_filled false addr = trim_space_filled b'h' _ (unfold is_space in refl)

blank_eq : text_beq [] [] ≡ true
unfolding text_beq
blank_eq = refl

normalized-IsIntake :
    (url : Text) → (trim_space url == []) ≡ false → IsIntake (normalize_server url)
normalized-IsIntake url filled = elim (normalize_server_shape url) [
  | inl (blank, _) ↦ absurd (cc (filled, blank, blank_eq))
  | inr i ↦ i
]

client_server_url-IsIntake :
    (public_url addr : Text) (tls : Bool)
    → (public_url ≡ []) ⊎ ((trim_space public_url == []) ≡ false)
    → IsIntake (client_server_url public_url addr tls)
unfolding client_server_url
client_server_url-IsIntake public_url addr tls (inl none_public) =
    rw (none_public, blank_eq)
      (normalized-IsIntake _ (http_filled tls (default_if_empty addr (codes "127.0.0.1:8080"))))
client_server_url-IsIntake public_url addr tls (inr filled) = elim (Bool-cases (public_url == [])) [
  | inl empty ↦
      rw empty
        (normalized-IsIntake _ (http_filled tls (default_if_empty addr (codes "127.0.0.1:8080"))))
  | inr other ↦ rw other (normalized-IsIntake public_url filled)
]

intake_filled : (u : Text) → IsIntake u → (u == []) ≡ false
unfolding text_beq
intake_filled u i = elim i.scheme [ inl (t, e) ↦ rw e refl | inr (t, e) ↦ rw e refl ]

-- The configuration that the window generates is one that the command line client starts with, and
-- runs with unchanged: when no flag overrides it, and when the public address, if there is one, is not
-- blank.
pub generated_config_runs :
    (public_url addr : Text) (tls failed : Bool) (flags : ClientFlags)
    → (public_url ≡ []) ⊎ ((trim_space public_url == []) ≡ false)
    → flags.server ≡ []
    → flags.target ≡ []
    → flags.custom_id ≡ []
    → (let cfg : Config = record empty_config { server = client_server_url public_url addr tls } in
        client_main (holds cfg) failed flags
        ≡ ran cfg (options_of flags) flags.config_path (if failed then 1 else 0))
unfolding client_main load_config override check_config text_beq
generated_config_runs public_url addr tls failed flags source server target custom =
    let url : Text = client_server_url public_url addr tls in
    let i : IsIntake url = client_server_url-IsIntake public_url addr tls source in
    let same : normalize_server url ≡ url = normalize_server-IsIntake url i in
    let filled : (url == []) ≡ false = intake_filled url i in
    rw (server, target, custom, same, filled) refl

scheme_form :
    (tls : Bool) (s : Text) (c : ℕ) (id : Text)
    → (public_tunnel_url (normalize_server (codes "https://" ++ (s ∷ʳ c))) id
        ≡ (codes "https://" ++ (s ∷ʳ c)) ++ codes "/t/" ++ id)
      × (public_tunnel_url (normalize_server (codes "http://" ++ (s ∷ʳ c))) id
          ≡ (codes "http://" ++ (s ∷ʳ c)) ++ codes "/t/" ++ id)
    → public_tunnel_url (normalize_server (url_scheme tls ++ codes "://" ++ (s ∷ʳ c))) id
      ≡ (url_scheme tls ++ codes "://" ++ (s ∷ʳ c)) ++ codes "/t/" ++ id
scheme_form true s c id (https, http) = https
scheme_form false s c id (https, http) = http

slash_kept :
    (tls : Bool) (s : Text) (c : ℕ)
    → is_space c ≡ false
    → c ≢ b'/'
    → trim_suffix (url_scheme tls ++ codes "://" ++ (s ∷ʳ c)) (codes "/")
      ≡ url_scheme tls ++ codes "://" ++ (s ∷ʳ c)
slash_kept true s c ink no_slash = kept s c [] ink no_slash (codes "https://")
slash_kept false s c ink no_slash = kept s c [] ink no_slash (codes "http://")

snoc_filled : (s : Text) (c : ℕ) → ((s ∷ʳ c) == []) ≡ false
unfolding text_beq
snoc_filled [] c = refl
snoc_filled (d ∷ s) c = refl

-- Without a public address, the entry point that the server's window shows and the one that a client
-- with the generated address prints are the same, for a listen address that does not end in a slash,
-- in white space or in the path of the intake.
pub entry_template-public_tunnel_url :
    (s : Text) (c : ℕ) (tls : Bool)
    → is_space c ≡ false
    → c ≢ b'/'
    → has_suffix (codes "wss://" ++ (s ∷ʳ c)) intake_path ≡ false
    → has_suffix (codes "ws://" ++ (s ∷ʳ c)) intake_path ≡ false
    → entry_template [] (s ∷ʳ c) tls
      ≡ public_tunnel_url (client_server_url [] (s ∷ʳ c) tls) (codes "{tunnelID}")
unfolding entry_template client_server_url
entry_template-public_tunnel_url s c tls ink no_slash wss ws =
    let shown : public_tunnel_url (normalize_server (url_scheme tls ++ codes "://" ++ (s ∷ʳ c)))
          (codes "{tunnelID}")
        ≡ (url_scheme tls ++ codes "://" ++ (s ∷ʳ c)) ++ codes "/t/{tunnelID}" =
      scheme_form tls s c (codes "{tunnelID}")
        (public_tunnel_url-normalize_server s c (codes "{tunnelID}") ink no_slash wss ws)
      ∙ append_assoc (url_scheme tls ++ codes "://" ++ (s ∷ʳ c)) (codes "/t/")
          (codes "{tunnelID}") in
    rw (blank_eq, snoc_filled s c)
      (ap (λ (t : Text). t ++ codes "/t/{tunnelID}") (slash_kept tls s c ink no_slash) ∙ sym shown)
