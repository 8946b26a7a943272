-- ===== src/Gui/RelayWindow/Laws.antt =====
-- What the handlers of cmd/selftunnel-server-gui/main.go keep when none of them runs inside another.
use selftunnel.Common.{
  ℕ, Bool, true, false, not, List, [], ◌∷◌, Option, none, some, Text, text_eq, ◌≡◌, refl, sym, ap,
  subst, ◌∙◌, some_inj, Bool-cases, inl, inr,
}
use selftunnel.Server.Registry.{load, new_registry, LoadError, Tunnels}
use selftunnel.Server.Intake.{Server}
use selftunnel.Server.Lifecycle.{App, StopResult, start, new_app, running, new_server, stop}
use selftunnel.Ngrok.{
  Manager, Answers, Effect, started, is_running, zero_manager, close_endpoint, start_if, agent_with,
}
use selftunnel.Ngrok
use selftunnel.Ngrok.Laws
use selftunnel.Gui.Sessions.{Settings}
use selftunnel.Gui.RelayWindow.{
  Window, Form, StartWorld, form_settings, app_started, registry_loaded, address_checked,
  server_stopped, after_ngrok, stop_app,
}
use selftunnel.Gui.RelayWindow.Exposure.{exposed}

abbrev pub has_app : Option (App × Server) → Bool
has_app none = false
has_app (some p) = true

abbrev pub AppUp : Option (App × Server) → Type 0
AppUp none = Unit {0}
AppUp (some (a, srv)) = running a ≡ true

-- The manager of ngrok is consistent.
pub record IsManager (m : Manager) : Type 0 where
  pub together : is_running m.agent ≡ is_running m.fwd
  pub addressed : is_running m.fwd ≡ false → m.public_url ≡ []

-- The app that the window holds is up and just then the server can be stopped and not started; the
-- public address is that of ngrok, which forwards only to an app that is up.
pub record IsWindow (w : Window) : Type 0 where
  pub app_up : AppUp w.app
  pub stoppable : w.stop_enabled ≡ has_app w.app
  pub startable : w.start_enabled ≡ not (has_app w.app)
  pub address : w.public_url ≡ w.ng.public_url
  pub manager : IsManager w.ng
  pub forwards : has_app w.app ≡ false → is_running w.ng.fwd ≡ false

-- A handler that leaves ngrok, the buttons and the app's being up alone.
pub moved :
    (w w' : Window)
    → IsWindow w
    → AppUp w'.app
    → has_app w'.app ≡ has_app w.app
    → w'.stop_enabled ≡ w.stop_enabled
    → w'.start_enabled ≡ w.start_enabled
    → w'.public_url ≡ w.public_url
    → w'.ng ≡ w.ng
    → IsWindow w'
moved w w' v up app stop_same start_same url ng = record {
  app_up = up;
  stoppable = stop_same ∙ v.stoppable ∙ sym app;
  startable = start_same ∙ v.startable ∙ ap not (sym app);
  address = url ∙ v.address ∙ ap (λ (m : Manager). m.public_url) (sym ng);
  manager = subst IsManager (sym ng) v.manager;
  forwards = λ e. ap (λ (m : Manager). is_running m.fwd) ng ∙ v.forwards (sym app ∙ e);
}

started-IsWindow :
    (listen : Option Text) (a : App) (srv : Server) (w : Window)
    → a.ln ≡ none
    → IsWindow w
    → IsWindow (app_started srv (start listen a) w).1
unfolding start
started-IsWindow none a srv w idle v = rw idle v
started-IsWindow (some resolved) a srv w idle v = rw idle (record {
  app_up = unfold running in refl;
  stoppable = refl;
  startable = refl;
  address = v.address;
  manager = v.manager;
  forwards = λ e. absurd (cc);
})

registry_loaded-IsWindow :
    (set : Settings) (sw : StartWorld) (r : Option LoadError × Tunnels) (w : Window)
    → IsWindow w
    → IsWindow (registry_loaded set sw r w).1
unfolding registry_loaded new_server new_app
registry_loaded-IsWindow set sw (some e, ts) w v = v
registry_loaded-IsWindow set sw (none, ts) w v =
    started-IsWindow sw.listen (new_app set.listen_addr set.cert_file set.key_file) _ w refl v

pub address_checked-IsWindow :
    (p : Option (Text × Text)) (f : Form) (sw : StartWorld) (w : Window)
    → IsWindow w
    → IsWindow (address_checked p f sw w).1
unfolding address_checked registry_loaded
address_checked-IsWindow none f sw w v = v
address_checked-IsWindow (some p) f sw w v = elim (Bool-cases sw.mkdir_ok) [
  | inl made ↦ rw made (
      registry_loaded-IsWindow (form_settings f) sw (load sw.registry_file new_registry) _
        (moved w _ v v.app_up refl refl refl refl refl))
  | inr failed ↦ rw failed (moved w _ v v.app_up refl refl refl refl refl)
]

stopped-IsWindow :
    (w w' : Window) (r : Option (StopResult × App × Server))
    → IsManager w.ng
    → w.ng.public_url ≡ []
    → is_running w.ng.fwd ≡ false
    → server_stopped w r ≡ some w'
    → IsWindow w'
stopped-IsWindow w w' none m url off e = absurd (cc)
stopped-IsWindow w w' (some r) m url off e = subst IsWindow (some_inj e) (record {
  app_up = tt;
  stoppable = refl;
  startable = refl;
  address = sym url;
  manager = m;
  forwards = λ e. off;
})

-- A stop of ngrok leaves its zero value.
pub ngrok_stopped :
    (r : Option (List Effect)) (go : Manager → Option Window) (w' : Window)
    → after_ngrok (r, zero_manager) go ≡ some w'
    → go zero_manager ≡ some w'
ngrok_stopped none go w' e = absurd (cc)
ngrok_stopped (some es) go w' e = e

pub zero-IsManager : IsManager zero_manager
zero-IsManager = record { together = refl; addressed = λ e. refl }

pub stop_app-IsWindow :
    (shutdown_ok : Bool) (o : Option (App × Server)) (w w' : Window)
    → stop_app shutdown_ok o w ≡ some w'
    → IsWindow w
    → IsWindow w'
unfolding Ngrok.stop
stop_app-IsWindow shutdown_ok none w w' e v = subst IsWindow (some_inj e) v
stop_app-IsWindow shutdown_ok (some (a, srv)) w w' e v = elim (Bool-cases (running a)) [
  | inl up ↦
      stopped-IsWindow (record w { ng = zero_manager }) w' (stop shutdown_ok a srv) zero-IsManager
        refl refl (ngrok_stopped (close_endpoint w.ng.agent w.ng.fwd) _ w' (rw up at e))
  | inr down ↦ subst IsWindow (some_inj (rw down at e)) v
]

pub start_if-IsManager :
    (f : Option ℕ) (token : Text) (answers : Answers) (port : ℕ) (m : Manager)
    → IsManager m
    → IsManager (start_if f token answers port m).2
start_if-IsManager (some f) token answers port m v = v
start_if-IsManager none [] answers port m v = v
start_if-IsManager none (c ∷ token) answers port m v =
    by_answers answers.new_agent answers.forwarder
  where
    by_answers : (n : Option ℕ) (fw : Option (ℕ × Text)) → IsManager (agent_with n port fw m).2
    by_answers none fw = v
    by_answers (some n) none = v
    by_answers (some n) (some (f, url)) = record { together = refl; addressed = λ e. absurd (cc) }

pub exposed-IsWindow :
    (r : Ngrok.StartResult) (es : List Effect) (m : Manager) (w : Window)
    → has_app w.app ≡ true
    → Laws.Settled r w.ng m
    → IsManager m
    → IsWindow w
    → IsWindow (exposed (r, es, m) w).1
exposed-IsWindow (started url) es m w up p v i = record {
  app_up = i.app_up;
  stoppable = i.stoppable;
  startable = i.startable;
  address = sym p.2;
  manager = v;
  forwards = λ e. absurd (cc (up, e));
}
exposed-IsWindow Ngrok.already_running es m w up p v i =
    moved w _ i i.app_up refl refl refl refl p.1
exposed-IsWindow Ngrok.token_required es m w up p v i = moved w _ i i.app_up refl refl refl refl p.1
exposed-IsWindow Ngrok.agent_failed es m w up p v i = moved w _ i i.app_up refl refl refl refl p.1
exposed-IsWindow Ngrok.forward_failed es m w up p v i = moved w _ i i.app_up refl refl refl refl p.1
