-- ===== src/Server/Lifecycle/Tests.antt =====
-- A server with one tunnel that is online, started, taken over, closed and stopped.
use selftunnel.Common.{
  ℕ, true, false, [], ◌∷◌, some, Text, codes, lookup, All-lookup, nat_eq, text_eq, ◌≡◌, refl, subst,
  some_inj, pos,
}
use selftunnel.TunnelId.{id_re_matches, all_id_runes, is_id_rune}
use selftunnel.Server.Session.{Session, new_session}
use selftunnel.Server.Session.Invariant.{IsOk, new_session-IsOk}
use selftunnel.Server.Registry.{Tunnel, missing, owned_tunnel, new_tunnel}
use selftunnel.Server.Registry.Invariant.{IsRegistry}
use selftunnel.Server.Registry.Tests.{desired_id, mine}
use selftunnel.Server.Intake.{Server}
use selftunnel.Server.Intake.Online.{Ahead}
use selftunnel.Server.Lifecycle.{App, shut_down, new_app, stop, running}
use selftunnel.Server.Lifecycle.Linked.{Linked, vacated}
use selftunnel.Server.Lifecycle.Shutdown.{stop_vacates}

abbrev holder : Session
holder = record (new_session (codes "10.0.0.1") 5) { tun = some desired_id; hello_done = true }

abbrev guest : Session
guest = new_session (codes "10.0.0.2") 6

abbrev held_tunnel : Tunnel
held_tunnel = record mine { session = some 0 }

abbrev relay_server : Server
relay_server = record {
  tunnels = (desired_id, held_tunnel) ∷ [];
  file = missing;
  sessions = (0, holder) ∷ (1, guest) ∷ [];
  online_count = pos 1;
  allowed_origins = [];
}

holder-IsOk : IsOk holder
unfolding new_session
holder-IsOk =
    let v : IsOk (new_session (codes "10.0.0.1") 5) = new_session-IsOk (codes "10.0.0.1") 5 in
    record { live = v.live; covered = v.covered; agree = refl }

relay_server-IsRegistry : IsRegistry relay_server.tunnels
unfolding id_re_matches all_id_runes is_id_rune owned_tunnel new_tunnel lookup
relay_server-IsRegistry = record { entries = ((refl, refl), tt); distinct = (refl, tt) }

relay_server-Linked : Linked relay_server
unfolding lookup new_session owned_tunnel new_tunnel
relay_server-Linked = record {
  registry = relay_server-IsRegistry;
  sound = λ h s e.
      All-lookup (λ (x : ℕ × Session). IsOk x.1) h s relay_server.sessions
        (holder-IsOk, (new_session-IsOk (codes "10.0.0.2") 6, tt)) e;
  held = λ id t h e on.
      All-lookup
        (λ (x : Text × Tunnel).
          (k : ℕ)
          → x.1.session ≡ some k
          → (s : Session) × (lookup k relay_server.sessions ≡ some s)
            × (s.tun ≡ some x.0)
            × (s.closed ≡ false))
        id t relay_server.tunnels
        (
          (λ k on_k. (
            holder,
            subst (λ (n : ℕ). lookup n relay_server.sessions ≡ some holder) (some_inj on_k) refl,
            refl,
            refl,
          )),
          tt,
        )
        e h on;
}

abbrev app : App
app = record (new_app (codes ":8080") [] []) { ln = some (codes "127.0.0.1:8080"); http_srv = true }

relay_counts : Ahead 0 relay_server
unfolding owned_tunnel new_tunnel
relay_counts = refl

stop_vacates_example :
    (a' : App) × (srv' : Server) × (stop true app relay_server ≡ some (shut_down true, a', srv'))
    × (running a' ≡ false)
    × ((id : Text) → lookup id srv'.tunnels ≡ vacated (lookup id relay_server.tunnels))
    × (srv'.online_count ≡ pos 0)
    × Linked srv'
unfolding running
stop_vacates_example =
    stop_vacates true app relay_server 0 refl refl relay_server-Linked relay_counts
