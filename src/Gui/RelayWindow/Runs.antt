-- ===== src/Gui/RelayWindow/Runs.antt =====
-- Histories of the window of cmd/selftunnel-server-gui/main.go.
use selftunnel.Common.{
  ℕ, Bool, true, false, List, [], ◌∷◌, Option, none, some, Text, codes, ◌==◌, text_eq, ◌≡◌, refl,
  sym, ap, subst, some_inj, Bool-cases, inl, inr,
}
use selftunnel.Text.{trim_space}
use selftunnel.Server.Session.{Arm}
use selftunnel.Server.Intake.{Server}
use selftunnel.Server.Lifecycle.{App, running, app_addr}
use selftunnel.Ngrok.{
  Manager, Answers, Effect, started, is_running, zero_manager, close_endpoint, start_if, agent_with,
}
use selftunnel.Ngrok
use selftunnel.Ngrok.Laws
use selftunnel.Gui.Sessions.{SessionRow, SettingsFields}
use selftunnel.Gui.Ports.{split_host_port, port_of}
use selftunnel.Gui.RelayWindow.{
  Window, Form, StartWorld, start_server, stop_server, row_at, with_server, disconnect_row,
  disconnect_from, disconnect, polled, tick, new_window,
}
use selftunnel.Gui.RelayWindow.Exposure.{
  Exposing, not_exposed, dials, expose_app, begin_expose, finish_expose, stop_expose,
}
use selftunnel.Gui.RelayWindow.Laws.{
  has_app, AppUp, IsWindow, moved, address_checked-IsWindow, ngrok_stopped, zero-IsManager,
  stop_app-IsWindow, start_if-IsManager, exposed-IsWindow,
}

-- A handler that runs, or the server that works.
pub data WindowEvent : Type 0 where
  starts : Form → StartWorld → WindowEvent
  stops : Bool → WindowEvent
  exposes : Text → Answers → WindowEvent
  stops_ngrok disconnects : WindowEvent
  ticks : Bool → (ℕ → Arm × Bool) → WindowEvent
  works : (Server → Server) → WindowEvent

abbrev pub worked : (Server → Server) → Option (App × Server) → Option (App × Server)
worked f none = none
worked f (some (a, srv)) = some (a, f srv)

unfoldable pub whole_expose : Text → Answers → Exposing × Window → Window
unfolding finish_expose
whole_expose token answers (not_exposed d, w) = w
whole_expose token answers (dials port, w) = (finish_expose answers token port w).1

unfoldable pub on_event : WindowEvent → Window → Option Window
unfolding start_server begin_expose stop_server stop_expose disconnect tick
on_event (starts f sw) w = some (start_server f sw w).1
on_event (stops shutdown_ok) w = stop_server shutdown_ok w
on_event (exposes token answers) w = some (whole_expose token answers (begin_expose token w))
on_event stops_ngrok w = stop_expose w
on_event disconnects w = disconnect w
on_event (ticks stats choices) w = some (tick stats choices w)
on_event (works f) w = some (record w { app = worked f w.app })

whole_expose-IsWindow :
    (token : Text) (answers : Answers) (o : Option (App × Server)) (w : Window)
    → w.app ≡ o
    → IsWindow w
    → IsWindow (whole_expose token answers (expose_app o w))
unfolding whole_expose finish_expose expose_app
whole_expose-IsWindow token answers none w e v = v
whole_expose-IsWindow token answers (some (a, srv)) w e v = elim (Bool-cases (running a)) [
  | inr down ↦ rw down v
  | inl up ↦ rw up (
      unfold Ngrok.start in
      exposed-IsWindow (Ngrok.start answers (trim_space token) (port_of (app_addr a)) w.ng).0
        (Ngrok.start answers (trim_space token) (port_of (app_addr a)) w.ng).1
        (Ngrok.start answers (trim_space token) (port_of (app_addr a)) w.ng).2
        (record w { expose_enabled = false; public_label = codes "starting ngrok…" }) (ap has_app e)
        (Laws.start-Settled answers (trim_space token) (port_of (app_addr a)) w.ng)
        (start_if-IsManager w.ng.fwd (trim_space token) answers (port_of (app_addr a)) w.ng
          v.manager)
        (moved w _ v v.app_up refl refl refl refl refl))
]

stop_expose-IsWindow : (w w' : Window) → stop_expose w ≡ some w' → IsWindow w → IsWindow w'
unfolding stop_expose Ngrok.stop
stop_expose-IsWindow w w' e v =
    let same = ngrok_stopped (close_endpoint w.ng.agent w.ng.fwd) _ w' e in
    subst IsWindow (some_inj same) (record {
      app_up = v.app_up;
      stoppable = v.stoppable;
      startable = v.startable;
      address = refl;
      manager = zero-IsManager;
      forwards = λ off. refl;
    })

with_server-IsWindow :
    (w w' : Window) (a : App) (srv : Server) (o : Option Server)
    → w.app ≡ some (a, srv)
    → with_server w a o ≡ some w'
    → IsWindow w
    → IsWindow w'
with_server-IsWindow w w' a srv none app e v = absurd (cc)
with_server-IsWindow w w' a srv (some srv') app e v =
    subst IsWindow (some_inj e)
      (moved w _ v (subst AppUp app v.app_up) (ap has_app (sym app)) refl refl refl refl)

disconnect_row-IsWindow :
    (w w' : Window) (a : App) (srv : Server) (r : Option SessionRow)
    → w.app ≡ some (a, srv)
    → disconnect_row r a srv w ≡ some w'
    → IsWindow w
    → IsWindow w'
disconnect_row-IsWindow w w' a srv none app e v = subst IsWindow (some_inj e) v
disconnect_row-IsWindow w w' a srv (some r) app e v = with_server-IsWindow w w' a srv _ app e v

disconnect_from-IsWindow :
    (w w' : Window) (o : Option (App × Server)) (selected : Option ℕ)
    → w.app ≡ o
    → disconnect_from o selected w ≡ some w'
    → IsWindow w
    → IsWindow w'
disconnect_from-IsWindow w w' none selected app e v = subst IsWindow (some_inj e) v
disconnect_from-IsWindow w w' (some (a, srv)) none app e v = subst IsWindow (some_inj e) v
disconnect_from-IsWindow w w' (some (a, srv)) (some idx) app e v =
    disconnect_row-IsWindow w w' a srv (row_at idx w.rows) app e v

polled-up :
    (choices : ℕ → Arm × Bool) (o : Option (App × Server))
    → AppUp o
    → AppUp (polled choices o) × (has_app (polled choices o) ≡ has_app o)
polled-up choices none up = (tt, refl)
polled-up choices (some (a, srv)) up = rw up (up, refl)

worked-up :
    (f : Server → Server) (o : Option (App × Server))
    → AppUp o
    → AppUp (worked f o) × (has_app (worked f o) ≡ has_app o)
worked-up f none up = (tt, refl)
worked-up f (some (a, srv)) up = (up, refl)

tick-IsWindow :
    (stats : Bool) (choices : ℕ → Arm × Bool) (w : Window)
    → IsWindow w
    → IsWindow (tick stats choices w)
unfolding tick
tick-IsWindow false choices w v = moved w _ v v.app_up refl refl refl refl refl
tick-IsWindow true choices w v =
    let (up, same) = polled-up choices w.app v.app_up in moved w _ v up same refl refl refl refl

on_event-IsWindow :
    (e : WindowEvent) (w w' : Window) → on_event e w ≡ some w' → IsWindow w → IsWindow w'
unfolding on_event start_server begin_expose stop_server disconnect whole_expose
on_event-IsWindow (starts f sw) w w' e v =
    subst IsWindow (some_inj e)
      (address_checked-IsWindow (split_host_port (trim_space f.addr)) f sw w v)
on_event-IsWindow (stops shutdown_ok) w w' e v = stop_app-IsWindow shutdown_ok w.app w w' e v
on_event-IsWindow (exposes token answers) w w' e v =
    subst IsWindow (some_inj e) (elim (Bool-cases (trim_space token == [])) [
      | inl empty ↦ rw empty v
      | inr filled ↦ rw filled (whole_expose-IsWindow token answers w.app w refl v)
    ])
on_event-IsWindow stops_ngrok w w' e v = stop_expose-IsWindow w w' e v
on_event-IsWindow disconnects w w' e v = disconnect_from-IsWindow w w' w.app w.selected refl e v
on_event-IsWindow (ticks stats choices) w w' e v =
    subst IsWindow (some_inj e) (tick-IsWindow stats choices w v)
on_event-IsWindow (works f) w w' e v =
    let (up, same) = worked-up f w.app v.app_up in
    subst IsWindow (some_inj e) (moved w _ v up same refl refl refl refl)

abbrev pub then_events : (Window → Option Window) → Option Window → Option Window
then_events go none = none
then_events go (some w) = go w

unfoldable pub on_events : List WindowEvent → Window → Option Window
on_events [] w = some w
on_events (e ∷ es) w = then_events (λ x. on_events es x) (on_event e w)

then_events-IsWindow :
    (go : Window → Option Window) (o : Option Window) (w' : Window)
    → then_events go o ≡ some w'
    → ((x : Window) → o ≡ some x → IsWindow x)
    → ((x : Window) → go x ≡ some w' → IsWindow x → IsWindow w')
    → IsWindow w'
then_events-IsWindow go none w' e v next = absurd (cc)
then_events-IsWindow go (some x) w' e v next = next x e (v x refl)

on_events-IsWindow :
    (es : List WindowEvent) (w w' : Window) → on_events es w ≡ some w' → IsWindow w → IsWindow w'
unfolding on_events
on_events-IsWindow [] w w' e v = subst IsWindow (some_inj e) v
on_events-IsWindow (x ∷ es) w w' e v =
    then_events-IsWindow (λ y. on_events es y) (on_event x w) w' e
      (λ y f. on_event-IsWindow x w y f v) (λ y f u. on_events-IsWindow es y w' f u)

new_window-IsWindow : (file : Option SettingsFields) → IsWindow (new_window file)
unfolding new_window
new_window-IsWindow file = record {
  app_up = tt;
  stoppable = refl;
  startable = refl;
  address = refl;
  manager = zero-IsManager;
  forwards = λ e. refl;
}

-- After any handlers, run one after the other while the server works between them: the app that the
-- window holds is up; the server can be stopped when there is one and started when there is none; and
-- the public address that the window keeps, from which it makes the entry URL and client configurations,
-- is that of the ngrok endpoint, which is there only with an app. Of the label it says nothing.
pub on_events_consistent :
    (file : Option SettingsFields) (es : List WindowEvent) (w : Window)
    → on_events es (new_window file) ≡ some w
    → IsWindow w
on_events_consistent file es w e =
    on_events-IsWindow es (new_window file) w e (new_window-IsWindow file)
