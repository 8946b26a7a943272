-- ===== src/Gui/RelayWindow/Exposure.antt =====
-- The handlers of the window of cmd/selftunnel-server-gui/main.go for ngrok; the part of `expose` that
-- waits for it is a handler of its own.
use selftunnel.Common.{
  ℕ, true, false, List, [], Option, none, some, Text, codes, if◌then◌else◌, text_eq, nat_eq, ◌==◌,
}
use selftunnel.Text.{trim_space}
use selftunnel.Server.Intake.{Server}
use selftunnel.Server.Lifecycle.{App, running, app_addr}
use selftunnel.Ngrok.{Manager, Answers, Effect, started}
use selftunnel.Ngrok
use selftunnel.Gui.Ports.{port_of}
use selftunnel.Gui.RelayWindow.{
  Window, Dialog, token_missing, start_first, ngrok_failed, after_ngrok,
}

-- How `expose` begins: with a dialog, or with a goroutine that makes ngrok forward to a port.
pub data Exposing : Type 0 where
  not_exposed : Dialog → Exposing
  dials : ℕ → Exposing

unfoldable pub expose_app : Option (App × Server) → Window → Exposing × Window
unfolding app_addr port_of
expose_app none w = (not_exposed start_first, w)
expose_app (some (a, srv)) w =
    if running a
    then (
      dials (port_of (app_addr a)),
      record w { expose_enabled = false; public_label = codes "starting ngrok…" },
    )
    else (not_exposed start_first, w)

-- `expose` up to its goroutine.
unfoldable pub begin_expose : Text → Window → Exposing × Window
begin_expose token w =
    if trim_space token == [] then (not_exposed token_missing, w) else expose_app w.app w

abbrev pub exposed : Ngrok.StartResult × List Effect × Manager → Window → Option Dialog × Window
exposed (started url, es, m) w = (
  none,
  record w {
    ng = m;
    expose_enabled = true;
    public_url = url;
    public_label = url;
    stop_expose_enabled = true;
  },
)
exposed (r, es, m) w =
    (some ngrok_failed, record w { ng = m; expose_enabled = true; public_label = [] })

-- The goroutine of `expose`, with what it does on the main thread at its end.
unfoldable pub finish_expose : Answers → Text → ℕ → Window → Option Dialog × Window
finish_expose answers token port w = exposed (Ngrok.start answers (trim_space token) port w.ng) w

-- The handler of the button "Stop ngrok".
unfoldable pub stop_expose : Window → Option Window
stop_expose w = after_ngrok (Ngrok.stop w.ng) (λ m.
    some (record w { ng = m; public_url = []; public_label = []; stop_expose_enabled = false }))
