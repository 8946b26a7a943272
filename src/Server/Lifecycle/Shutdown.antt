-- ===== src/Server/Lifecycle/Shutdown.antt =====
-- What `Stop` of internal/server/lifecycle.go does to the tunnels and the sessions.
use selftunnel.Common.{
  ℕ, Bool, true, false, [], ◌∷◌, Option, none, some, Text, if◌then◌else◌, lookup, Distinct, nat_eq,
  text_eq, ◌==◌, pos, ◌≡◌, refl, sym, ap, ◌∙◌, some_inj, arith, Bool-cases, inl, inr, ==_refl,
  ==_sound,
}
use selftunnel.Server.Registry.{Tunnel, Tunnels}
use selftunnel.Server.Registry.Listing.{list}
use selftunnel.Server.Intake.{Server}
use selftunnel.Server.Intake.Online.{online, has_session, Ahead}
use selftunnel.Server.Lifecycle.Linked.{Linked, vacated}
use selftunnel.Server.Lifecycle.{
  App, StartResult, already_running, listen_failed, serving, start_if, not_running, shut_down,
  close_listed, stopped, stop, start, running, is_up,
}
use selftunnel.Server.Lifecycle.Sweep.{close_listed-Swept, close_listed-Ahead, all_vacated}

vacated_session : (o : Option Tunnel) (t : Tunnel) → vacated o ≡ some t → t.session ≡ none
vacated_session none t e = absurd (cc)
vacated_session (some u) t e = ap (λ (x : Tunnel). x.session) (sym (some_inj e))

offline_count : (o : Option ℕ) (t : Tunnel) → t.session ≡ o → o ≡ none → has_session (some t) ≡ 0
offline_count o t e n = rw (e, n) refl

none_online :
    (ts : Tunnels)
    → Distinct ts
    → ((k : Text) (t : Tunnel) → lookup k ts ≡ some t → t.session ≡ none)
    → online ts ≡ 0
unfolding lookup
none_online [] d off = refl
none_online ((k, t) ∷ ts) d off =
    let here : has_session (some t) ≡ 0 =
      offline_count t.session t refl (off k t (rw (==_refl k) refl)) in
    let there : online ts ≡ 0 = none_online ts d.1 (λ j u e. off j u (rw (apart j u e) e)) in
    omega (arith, here, there)
  where
    apart : (j : Text) (u : Tunnel) → lookup j ts ≡ some u → (k == j) ≡ false
    apart j u e = elim (Bool-cases (k == j)) [
      | inl same ↦ absurd (cc (sym d.0 ∙ ap (λ (x : Text). lookup x ts) (==_sound k j same) ∙ e))
      | inr other ↦ other
    ]

-- The listener and the HTTP server are there together.
abbrev pub IsApp : App → Type 0
IsApp a = a.http_srv ≡ is_up a.ln

-- A running app is stopped without a panic, whatever its shutdown answers: it is not running any
-- more, every tunnel has lost its session and kept the rest, and the counter of online sessions is at
-- what it had been ahead by; the server is linked again.
pub stop_vacates :
    (shutdown_ok : Bool) (a : App) (srv : Server) (d : ℕ)
    → IsApp a
    → running a ≡ true
    → Linked srv
    → Ahead d srv
    → (a' : App) × (srv' : Server) × (stop shutdown_ok a srv
        ≡ some (shut_down shutdown_ok, a', srv'))
      × (running a' ≡ false)
      × ((id : Text) → lookup id srv'.tunnels ≡ vacated (lookup id srv.tunnels))
      × (srv'.online_count ≡ pos d)
      × Linked srv'
unfolding stop running
stop_vacates shutdown_ok a srv d app up l ahead =
    let (srv', e, l', s) = close_listed-Swept (list srv.tunnels) srv l in
    let gone = all_vacated srv srv' l.registry s in
    let idle : online srv'.tunnels ≡ 0 =
      none_online srv'.tunnels l'.registry.distinct
        (λ k t f. vacated_session (lookup k srv.tunnels) t (sym (gone k) ∙ f)) in
    let counted = close_listed-Ahead (list srv.tunnels) srv srv' d e ahead in
    (
      record a { ln = none; http_srv = false },
      srv',
      taken (app ∙ up) e,
      refl,
      gone,
      counted ∙ ap pos (omega (arith, idle)),
      l',
    )
  where
    taken :
        {srv' : Server}
        → a.http_srv ≡ true
        → close_listed (list srv.tunnels) srv ≡ some srv'
        → (if a.http_srv
            then stopped shutdown_ok
                (record a { ln = none; http_srv = false })
                (close_listed (list srv.tunnels) srv)
            else some (not_running, record a { ln = none; http_srv = false }, srv))
          ≡ some (shut_down shutdown_ok, record a { ln = none; http_srv = false }, srv')
    taken on e = rw (on, e) refl

-- What a start promises about the app after it.
abbrev pub Promised : StartResult → App → App → Type 0
Promised already_running a a' = (running a ≡ true) × (a' ≡ a)
Promised listen_failed a a' = (running a ≡ false) × (a' ≡ a)
Promised (serving m) a a' =
    (running a ≡ false) × (running a' ≡ true) × (a' ≡ record a { ln = a'.ln; http_srv = true })

-- A running app refuses to be started and is left as it is; a stopped one is left stopped when the
-- listener fails and is running otherwise. The listener and the HTTP server stay together.
pub start-Promised :
    (listen : Option Text) (a : App)
    → IsApp a
    → Promised (start listen a).0 a (start listen a).1 × IsApp (start listen a).1
unfolding start running
start-Promised listen a app = by_state a.ln listen refl
  where
    by_state :
        (o l : Option Text)
        → a.ln ≡ o
        → Promised (start_if o l a).0 a (start_if o l a).1 × IsApp (start_if o l a).1
    by_state (some x) l e = ((ap is_up e, refl), app)
    by_state none none e = ((ap is_up e, refl), app)
    by_state none (some x) e = ((ap is_up e, refl, refl), refl)

-- To stop an app that is not running changes nothing.
stop_idle :
    (shutdown_ok : Bool) (a : App) (srv : Server)
    → IsApp a
    → a.ln ≡ none
    → stop shutdown_ok a srv ≡ some (not_running, a, srv)
unfolding stop
stop_idle shutdown_ok a srv app e =
    let off : a.http_srv ≡ false = app ∙ ap is_up e in rw (off, e) refl
