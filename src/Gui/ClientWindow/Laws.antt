-- ===== src/Gui/ClientWindow/Laws.antt =====
-- What the button of cmd/selftunnel-client-gui/main.go does to the clients.
use selftunnel.Common.{
  ℕ, Bool, true, false, not, ◌&&◌, List, [], Option, none, some, Text, if◌then◌else◌, lookup,
  insert, lookup-insert_self, nat_eq, text_eq, ◌==◌, ◌≡◌, refl, sym, ap, ◌∙◌, subst, Bool-cases,
  inl, inr,
}
use selftunnel.Client.Address.{is_valid_target}
use selftunnel.Client.Connection.{Config, Client, new_client, stop_client, close_client}
use selftunnel.Client.Settings.{Disk, save_config, load_config, loaded, SaveError}
use selftunnel.Client.Settings.Laws.{Kept, save_config-Kept}
use selftunnel.Commands.TunnelClient.{Refusal, check_config}
use selftunnel.Commands.TunnelClient
use selftunnel.TunnelId.{is_valid_custom_id}
use selftunnel.Commands.TunnelClient.Laws.{IsRunnable, runnable}
use selftunnel.Gui.ClientWindow.{
  Started, ClientWindow, ClientForm, ClientDialog, missing_server, invalid_target,
  invalid_custom_id, save_failed, found, update_ui, change, stop_held, cancel_held,
  stop_window_client, form_config, check_form, SaveWorld, share, after_save, connect_checked,
  is_online, press,
}

-- The client runs: neither is it stopped nor its context cancelled.
abbrev pub Runs : ℕ → List (ℕ × Started) → Type 0
Runs h cs = (s : Started) × (lookup h cs ≡ some s) × (s.client.stop ≡ false) × (s.cancelled ≡ false)

-- The refusal of the command line client that says the same.
abbrev pub refusal_of : Option ClientDialog → Option Refusal
refusal_of none = none
refusal_of (some missing_server) = some TunnelClient.missing_server
refusal_of (some invalid_target) = some TunnelClient.invalid_target
refusal_of (some invalid_custom_id) = some TunnelClient.invalid_custom_id
refusal_of (some save_failed) = some TunnelClient.load_failed

-- The window and the command line check a configuration alike.
check_form-check_config : (cfg : Config) → refusal_of (check_form cfg) ≡ check_config cfg
unfolding check_form check_config
check_form-check_config cfg = elim (Bool-cases (cfg.server == [])) [
  | inl blank ↦ rw blank refl
  | inr filled ↦ rw filled (
      tests (not (cfg.target == []) && not (is_valid_target cfg.target))
        (not (cfg.custom_id == []) && not (is_valid_custom_id cfg.custom_id)))
]
  where
    tests :
        (a b : Bool)
        → refusal_of (if a then some invalid_target else if b then some invalid_custom_id else none)
          ≡ (if a
              then some TunnelClient.invalid_target
              else if b
              then some TunnelClient.invalid_custom_id
              else none)
    tests true b = refl
    tests false true = refl
    tests false false = refl

-- The client at the place `h` is the window's, runs, and has the configuration that is on the disk.
pub record IsConnecting (config_path : Text) (h : ℕ) (w : ClientWindow) : Type 0 where
  pub held : w.c ≡ some h
  pub made :
      lookup h w.clients
      ≡ some (record { client = new_client w.cfg config_path; cancelled = false })
  pub saved : load_config w.disk.config ≡ loaded w.cfg
  pub runnable_cfg : IsRunnable w.cfg

after_save-IsConnecting :
    (config_path : Text) (h : ℕ) (sw : SaveWorld) (cfg : Config) (w w' : ClientWindow)
    (r : Option SaveError × Disk)
    → w.cfg ≡ cfg
    → Kept r.0 cfg w.disk r.1
    → IsRunnable cfg
    → after_save config_path h cfg r w ≡ (none, w')
    → IsConnecting config_path h w'
after_save-IsConnecting config_path h sw cfg w w' (some e, disk) same kept v q = absurd (cc)
after_save-IsConnecting config_path h sw cfg w w' (none, disk) same kept v q =
    subst (IsConnecting config_path h) (ap (λ (p : Option ClientDialog × ClientWindow). p.1) q)
      (record {
        held = refl;
        made =
            lookup-insert_self h _ w.clients
            ∙ ap
                (λ (x : Config).
                  some (record { client = new_client x config_path; cancelled = false }))
                (sym same);
        saved = kept ∙ ap loaded (sym same);
        runnable_cfg = subst IsRunnable (sym same) v;
      })

connect_checked-IsConnecting :
    (config_path : Text) (h : ℕ) (sw : SaveWorld) (f : ClientForm) (w w' : ClientWindow)
    (r : Option ClientDialog)
    → check_form (form_config f w.cfg) ≡ r
    → connect_checked config_path h sw (form_config f w.cfg) r w ≡ (none, w')
    → IsConnecting config_path h w'
unfolding connect_checked form_config
connect_checked-IsConnecting config_path h sw f w w' (some d) e q = absurd (cc)
connect_checked-IsConnecting config_path h sw f w w' none e q =
    let cfg : Config = form_config f w.cfg in
    after_save-IsConnecting config_path h sw cfg (share cfg w) w'
      (save_config sw.mkdir_ok sw.write sw.rename_ok cfg w.disk) refl
      (save_config-Kept sw.mkdir_ok sw.write sw.rename_ok cfg w.disk)
      (runnable f.server_entry cfg refl (sym (check_form-check_config cfg) ∙ ap refusal_of e)) q

-- When the button of a window whose client is not online ends without a dialog, the window holds a new
-- client that runs with the configuration of the form; it is one that the command line would run with,
-- and it is saved.
pub press-IsConnecting :
    (config_path : Text) (h : ℕ) (sw : SaveWorld) (f : ClientForm) (w w' : ClientWindow)
    → is_online (found w.c w.clients) ≡ false
    → press config_path h sw f w ≡ (none, w')
    → IsConnecting config_path h w'
unfolding press
press-IsConnecting config_path h sw f w w' off e =
    connect_checked-IsConnecting config_path h sw f w w' (check_form (form_config f w.cfg)) refl
      (rw off at e)

close_client-stop : (c : Client) → (close_client c).stop ≡ c.stop
unfolding close_client
close_client-stop c = elim (Bool-cases c.closed) [
  | inl shut ↦ rw shut (sym (sym refl))
  | inr live ↦ rw live refl
]

stop_client-stop : (c : Client) → (stop_client c).stop ≡ true
unfolding stop_client
stop_client-stop c = close_client-stop (record c { stop = true })

-- To close the window stops the client that it holds and cancels its context.
pub stop_window_client_stops :
    (h : ℕ) (w : ClientWindow) (s : Started)
    → w.c ≡ some h
    → w.ctx_cancel ≡ some h
    → lookup h w.clients ≡ some s
    → (s' : Started) × (lookup h (stop_window_client w).clients ≡ some s')
      × (s'.client.stop ≡ true)
      × (s'.cancelled ≡ true)
unfolding stop_window_client update_ui
stop_window_client_stops h w s held ctx e =
    let t : Started = record s { client = stop_client s.client } in
    let after : stop_held w.c w.clients ≡ insert h t w.clients =
      ap (λ (o : Option ℕ). stop_held o w.clients) held
      ∙ ap
          (λ (o : Option Started).
            change h (λ x. record x { client = stop_client x.client }) o w.clients)
          e in
    let cs : List (ℕ × Started) = insert h t w.clients in
    let cancels : cancel_held w.ctx_cancel (stop_held w.c w.clients)
        ≡ insert h (record t { cancelled = true }) cs =
      ap (λ (o : Option ℕ). cancel_held o (stop_held w.c w.clients)) ctx
      ∙ ap (λ (x : List (ℕ × Started)). cancel_held (some h) x) after
      ∙ ap (λ (o : Option Started). change h (λ x. record x { cancelled = true }) o cs)
          (lookup-insert_self h t w.clients) in
    (
      record t { cancelled = true },
      ap (lookup h) cancels ∙ lookup-insert_self h (record t { cancelled = true }) cs,
      stop_client-stop s.client,
      refl,
    )
