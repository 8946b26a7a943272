-- ===== src/Server/Intake/Hello.antt =====
-- The hello of a session, from the registry's answer to the acknowledgement.
use selftunnel.Common.{
  ℕ, ◌+◌, Bool, true, false, List, Option, none, some, Text, lookup, insert, nat_eq, text_eq, pos,
  ◌≡◌, refl, sym, ap, subst, ◌∙◌, arith, inl, inr, All, ◌⊎◌,
}
use selftunnel.Proto.{Frame}
use selftunnel.Server.Session.{Arm}
use selftunnel.Server.Registry.{
  Tunnel, Tunnels, File, Supply, Registration, registered, random_failed, save_failed, register,
  new_tunnel, owned_tunnel,
}
use selftunnel.Server.Registry.Draws.{IsDraw}
use selftunnel.Server.Registry.Invariant.{Extends, register-Extends}
use selftunnel.Server.Registry.Ownership.{register-Issued}
use selftunnel.Server.Registry.Refusal.{register_reused}
use selftunnel.Server.Intake.{
  Server, HelloOutcome, refused, registration_failed, tunnel_session, welcome, handle_hello,
}
use selftunnel.Server.Intake.Online.{online, online-insert, has_session, Ahead}
use selftunnel.Server.Intake.Counting.{replaced, welcome-Ahead}

Extends-online : (ts ts' : Tunnels) → Extends ts ts' → online ts' ≡ online ts
Extends-online ts ts' (inl same) = rw same
Extends-online ts ts' (inr (k, t, added, free, valid, own, off)) =
    let counted : online (insert k t ts) + has_session (lookup k ts)
        ≡ online ts + has_session (some t) =
      online-insert k t ts in
    let was : has_session (lookup k ts) ≡ 0 = ap has_session free in
    let is : has_session (some t) ≡ 0 = offline_zero t.session off in rw added (omega arith)
  where
    offline_zero :
        (o : Option ℕ) → o ≡ none → (let r : ℕ = elim o [ none ↦ 0 | some x ↦ 1 ] in r) ≡ 0
    offline_zero none e = refl
    offline_zero (some x) e = absurd (cc)

module _ (sha256 : Text → List ℕ) where
  -- The answered tunnel is in the map, with the session that it had before the call.
  pub answered :
      (w : Supply) (desired secret : Text) (ts : Tunnels) (file : File) (id : Text)
      (reused denied : Bool) (s : Text) (ts' : Tunnels) (file' : File)
      → All IsDraw w.id_draws
      → register sha256 w desired secret ts file ≡ (registered id reused denied s, ts', file')
      → (t : Tunnel) × (lookup id ts' ≡ some t) × (t.session ≡ tunnel_session (lookup id ts))
  answered w desired secret ts file id true denied s ts' file' v e =
      let (t, found, _, same, _, same_map, _) =
        register_reused sha256 w desired secret ts file id denied s ts' file' e in
      let here : lookup id ts ≡ some t = rw same found in (t, rw same_map here, rw here)
  answered w desired secret ts file id false denied s ts' file' v e =
      let i = register-Issued sha256 w desired secret ts file id denied s ts' file' v e in
      (owned_tunnel sha256 id w.now s, i.stored, rw i.free (unfold owned_tunnel new_tunnel in refl))

  -- The counter of online sessions and the number of online tunnels, after a hello that the registry
  -- answers: they stay as far apart as they were if the tunnel was offline, and move one further apart
  -- if it had a session, which the new one replaces. (The replaced session finds the tunnel taken when
  -- it is closed, and does not count down.)
  pub handle_hello_counts :
      (w : Supply) (arm : Arm) (timed_out : Bool) (h : ℕ) (f : Frame) (srv : Server) (id : Text)
      (reused denied : Bool) (s : Text) (ts' : Tunnels) (file' : File) (out : HelloOutcome)
      (srv' : Server) (d : ℕ)
      → All IsDraw w.id_draws
      → register sha256 w f.desired_id f.secret srv.tunnels srv.file
        ≡ (registered id reused denied s, ts', file')
      → handle_hello sha256 w arm timed_out h f srv ≡ some (out, srv')
      → srv.online_count ≡ pos (online srv.tunnels + d)
      → srv'.online_count
        ≡ pos (online srv'.tunnels + (d + replaced (tunnel_session (lookup id srv.tunnels))))
  unfolding handle_hello
  handle_hello_counts w arm timed_out h f srv id reused denied s ts' file' out srv' d v answer e a =
      let (t, found, old) =
        answered w f.desired_id f.secret srv.tunnels srv.file id reused denied s ts' file' v
          answer in
      let srv1 : Server = record srv { tunnels = ts'; file = file' } in
      let extended : Extends srv.tunnels ts' =
        subst (λ (r : Registration × Tunnels × File). Extends srv.tunnels r.1) answer
          (register-Extends sha256 w f.desired_id f.secret srv.tunnels srv.file v) in
      let a1 : Ahead d srv1 =
        a ∙ ap (λ (n : ℕ). pos (n + d)) (sym (Extends-online srv.tunnels ts' extended)) in
      rw old at (
        welcome-Ahead arm timed_out h srv1 id reused denied s t out srv' d found a1
          (rw answer at e))

  -- A hello that the registry refuses moves neither: the session is not bound.
  pub handle_hello-refused :
      (w : Supply) (arm : Arm) (timed_out : Bool) (h : ℕ) (f : Frame) (srv : Server) (ts' : Tunnels)
      (file' : File) (r : Registration)
      → All IsDraw w.id_draws
      → register sha256 w f.desired_id f.secret srv.tunnels srv.file ≡ (r, ts', file')
      → (r ≡ random_failed) ⊎ (r ≡ save_failed)
      → (handle_hello sha256 w arm timed_out h f srv
          ≡ some (refused registration_failed, record srv { tunnels = ts'; file = file' }))
        × (online ts' ≡ online srv.tunnels)
  unfolding handle_hello welcome
  handle_hello-refused w arm timed_out h f srv ts' file' r v answer failed =
      let extended : Extends srv.tunnels ts' =
        subst (λ (q : Registration × Tunnels × File). Extends srv.tunnels q.1) answer
          (register-Extends sha256 w f.desired_id f.secret srv.tunnels srv.file v) in
      (
        elim failed [ inl broken ↦ rw (answer, broken) | inr broken ↦ rw (answer, broken) ],
        Extends-online srv.tunnels ts' extended,
      )
