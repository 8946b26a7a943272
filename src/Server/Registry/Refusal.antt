-- ===== src/Server/Registry/Refusal.antt =====
-- `Register` on its other branches: a wrong secret, and a disk that fails with what comes of it.
use selftunnel.Common.{
  ℕ, Bool, true, false, List, [], Option, none, some, Text, All, lookup, ◌==◌, text_eq, ne→==_false,
  ◌≡◌, ◌≢◌, refl, sym, ◌∙◌, arith, Bool-cases, inl, inr,
}
use selftunnel.TunnelId.{id_re_matches}
use selftunnel.Server.Registry.Draws.{IsDraw, clean_desired-cases}
use selftunnel.Server.Registry.Ownership.{register-Issued}
use selftunnel.Server.Registry.{
  Tunnel, Tunnels, File, Supply, Registration, registered, Draw, drew, draw_failed, out_of_draws,
  save_locked, clean_desired, draw_id, verify_secret, issue, issue_secret, allocate, claim,
  register,
}

named_valid :
    (desired : Text) → clean_desired desired ≢ [] → id_re_matches (clean_desired desired) ≡ true
named_valid desired n = elim (clean_desired-cases desired) [ inl z ↦ absurd (n z) | inr g ↦ g ]

module _ (sha256 : Text → List ℕ) where
  issue_denied :
      (w : Supply) (x : Text) (d : Bool) (ts : Tunnels) (file : File) (o : Option (List ℕ))
      (id : Text) (reused denied : Bool) (s : Text) (ts' : Tunnels) (file' : File)
      → issue sha256 w x d ts file o ≡ (registered id reused denied s, ts', file')
      → (reused ≡ false) × (denied ≡ d)
  unfolding issue save_locked
  issue_denied w x d ts file none id reused denied s ts' file' e = absurd (cc)
  issue_denied w x d ts file (some b) id reused denied s ts' file' e = ground arith

  allocate_denied :
      (w : Supply) (r : Draw) (d : Bool) (ts : Tunnels) (file : File) (id : Text)
      (reused denied : Bool) (s : Text) (ts' : Tunnels) (file' : File)
      → allocate sha256 w r d ts file ≡ (registered id reused denied s, ts', file')
      → (reused ≡ false) × (denied ≡ d)
  unfolding allocate issue_secret
  allocate_denied w (drew x) d ts file id reused denied s ts' file' e =
      issue_denied w x d ts file w.secret_draw id reused denied s ts' file' e
  allocate_denied w draw_failed d ts file id reused denied s ts' file' e = absurd (cc)
  allocate_denied w out_of_draws d ts file id reused denied s ts' file' e = absurd (cc)

  refused_call :
      (w : Supply) (desired secret : Text) (ts : Tunnels) (file : File) (t : Tunnel)
      → clean_desired desired ≢ []
      → lookup (clean_desired desired) ts ≡ some t
      → verify_secret sha256 t secret ≡ false
      → register sha256 w desired secret ts file
        ≡ allocate sha256 w (draw_id w.id_draws ts) true ts file
  unfolding register claim
  refused_call w desired secret ts file t named found refuses =
      rw (ne→==_false (clean_desired desired) [] named, found, refuses)

  claim_reused :
      (w : Supply) (x secret : Text) (ts : Tunnels) (file : File) (o : Option Tunnel) (id : Text)
      (denied : Bool) (s : Text) (ts' : Tunnels) (file' : File)
      → lookup x ts ≡ o
      → claim sha256 w x secret ts file o ≡ (registered id true denied s, ts', file')
      → (t : Tunnel) × (lookup x ts ≡ some t)
        × (verify_secret sha256 t secret ≡ true)
        × (id ≡ x)
        × (denied ≡ false)
        × (ts' ≡ ts)
        × (file' ≡ file)
  unfolding claim issue_secret
  claim_reused w x secret ts file none id denied s ts' file' found e =
      absurd (cc ((issue_denied w x false ts file w.secret_draw id true denied s ts' file' e).0))
  claim_reused w x secret ts file (some t) id denied s ts' file' found e =
      elim (Bool-cases (verify_secret sha256 t secret)) [
        | inl opens ↦
            let e' : ◌≡◌ {A = Registration × Tunnels × File} (registered x true false [], ts, file)
                (registered id true denied s, ts', file') =
              rw opens at e in
            (t, found, opens, ground arith, ground arith, ground arith, ground arith)
        | inr refuses ↦ absurd (
            cc (
              (allocate_denied w (draw_id w.id_draws ts) true ts file id true denied s ts' file'
                (rw refuses at e)).0))
      ]

  -- A hello is answered as a reuse only if its desired id, trimmed and lowercased, is registered and its
  -- secret opens that tunnel; then that id is given, and neither the map nor the file changes.
  pub register_reused :
      (w : Supply) (desired secret : Text) (ts : Tunnels) (file : File) (id : Text) (denied : Bool)
      (s : Text) (ts' : Tunnels) (file' : File)
      → register sha256 w desired secret ts file ≡ (registered id true denied s, ts', file')
      → (t : Tunnel) × (lookup (clean_desired desired) ts ≡ some t)
        × (verify_secret sha256 t secret ≡ true)
        × (id ≡ clean_desired desired)
        × (denied ≡ false)
        × (ts' ≡ ts)
        × (file' ≡ file)
  unfolding register
  register_reused w desired secret ts file id denied s ts' file' e =
      elim (Bool-cases (clean_desired desired == [])) [
        | inl empty ↦ absurd (
            cc (
              (allocate_denied w (draw_id w.id_draws ts) false ts file id true denied s ts' file'
                (rw empty at e)).0))
        | inr named ↦
            claim_reused w (clean_desired desired) secret ts file
              (lookup (clean_desired desired) ts) id denied s ts' file' refl (rw named at e)
      ]

  -- Where the desired id is taken and the secret does not open it, a successful call is marked as denied
  -- and not as a reuse, and gives another id, one that was free.
  pub register_denies :
      (w : Supply) (desired secret : Text) (ts : Tunnels) (file : File) (t : Tunnel) (id : Text)
      (reused denied : Bool) (s : Text) (ts' : Tunnels) (file' : File)
      → All IsDraw w.id_draws
      → clean_desired desired ≢ []
      → lookup (clean_desired desired) ts ≡ some t
      → verify_secret sha256 t secret ≡ false
      → register sha256 w desired secret ts file ≡ (registered id reused denied s, ts', file')
      → (reused ≡ false) × (denied ≡ true) × (id ≢ clean_desired desired) × (lookup id ts ≡ none)
  register_denies w desired secret ts file t id reused denied s ts' file' v named found refuses e =
      let call = refused_call w desired secret ts file t named found refuses in
      let (fresh, marked) =
        allocate_denied w (draw_id w.id_draws ts) true ts file id reused denied s ts' file'
          (sym call ∙ e) in
      let i =
        register-Issued sha256 w desired secret ts file id denied s ts' file' v (rw fresh at e) in
      (fresh, marked, λ q. absurd (cc (i.free, found, q)), i.free)
