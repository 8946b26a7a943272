-- ===== src/Server/Registry/Ownership.antt =====
-- What `Register` promises: an id that is given out can be reclaimed with its secret and with nothing
-- else, and no call touches the tunnels that others hold.
use selftunnel.Common.{
  ℕ, Bool, true, false, List, [], ◌∷◌, Option, none, some, Text, length, All, lookup, insert,
  lookup-insert_self, ◌==◌, text_eq, nat_eq, text_beq_refl, ne→==_false, ==_refl, ◌≡◌, ◌≢◌, refl,
  ap, arith, Bool-cases, inl, inr,
}
use selftunnel.TunnelId.{id_re_matches}
use selftunnel.TunnelId.Laws.{id_re-clean}
use selftunnel.Base64.{encode, encode_raw_url}
use selftunnel.Base64.Laws.{encode-cons}
use selftunnel.Server.Registry.Draws.{
  IsDraw, clean_desired-cases, clean_desired_valid, draw_id_sound,
}
use selftunnel.Server.Registry.{
  Tunnel, Tunnels, File, Supply, registered, Draw, drew, draw_failed, out_of_draws, save_locked,
  clean_desired, draw_id, hash_secret, verify_secret, owned_tunnel, issue, issue_secret, allocate,
  claim, register,
}

hash-ne-nil : (h : List ℕ) → h ≢ [] → encode h ≢ []
hash-ne-nil [] n = absurd (n refl)
hash-ne-nil (d ∷ s) n = let (x, t, e) = encode-cons d s in λ z. absurd (cc (e, z))

module _ (sha256 : Text → List ℕ) where
  -- An id with its secret is reclaimed whatever the random source, the clock and the disk do: nothing
  -- is written and the map stays.
  pub claims_with_secret :
      (w : Supply) (id s : Text) (ts : Tunnels) (file : File) (t : Tunnel)
      → id_re_matches id ≡ true
      → lookup id ts ≡ some t
      → verify_secret sha256 t s ≡ true
      → register sha256 w id s ts file ≡ (registered id true false [], ts, file)
  unfolding register claim
  claims_with_secret w id s ts file t valid found opens =
      let nonempty = (id_re-clean id valid).1 in
      rw (clean_desired_valid id valid, ne→==_false id [] nonempty, found, opens)

  -- What a registration that issued a secret has done.
  pub record Issued (ts ts' : Tunnels) (now : ℕ) (id s : Text) : Type 0 where
    pub free : lookup id ts ≡ none
    pub valid : id_re_matches id ≡ true
    pub stored : lookup id ts' ≡ some (owned_tunnel sha256 id now s)

  issue-Issued :
      (w : Supply) (x : Text) (d : Bool) (ts : Tunnels) (file : File) (o : Option (List ℕ))
      (id : Text) (denied : Bool) (s : Text) (ts' : Tunnels) (file' : File)
      → lookup x ts ≡ none
      → id_re_matches x ≡ true
      → issue sha256 w x d ts file o ≡ (registered id false denied s, ts', file')
      → Issued ts ts' w.now id s
  unfolding issue save_locked
  issue-Issued w x d ts file none id denied s ts' file' free valid e = absurd (cc)
  issue-Issued w x d ts file (some b) id denied s ts' file' free valid e =
      let same : x ≡ id = ground arith in
      let secret : encode_raw_url b ≡ s = ground arith in
      let map_same : insert x (owned_tunnel sha256 x w.now (encode_raw_url b)) ts ≡ ts' =
        ground arith in
      record {
        free = rw (← same) free;
        valid = rw (← same) valid;
        stored = rw (← map_same, ← same, ← secret) (lookup-insert_self x _ ts);
      }

  allocate-Issued :
      (w : Supply) (r : Draw) (d : Bool) (ts : Tunnels) (file : File) (id : Text) (denied : Bool)
      (s : Text) (ts' : Tunnels) (file' : File)
      → ((x : Text) → r ≡ drew x → (lookup x ts ≡ none) × (id_re_matches x ≡ true))
      → allocate sha256 w r d ts file ≡ (registered id false denied s, ts', file')
      → Issued ts ts' w.now id s
  unfolding allocate
  allocate-Issued w (drew x) d ts file id denied s ts' file' h e =
      let (free, valid) = h x refl in
      issue-Issued w x d ts file w.secret_draw id denied s ts' file' free valid
        (unfold issue_secret in e)
  allocate-Issued w draw_failed d ts file id denied s ts' file' h e = absurd (cc)
  allocate-Issued w out_of_draws d ts file id denied s ts' file' h e = absurd (cc)

  claim-Issued :
      (w : Supply) (x secret : Text) (ts : Tunnels) (file : File) (o : Option Tunnel) (id : Text)
      (denied : Bool) (s : Text) (ts' : Tunnels) (file' : File)
      → All IsDraw w.id_draws
      → lookup x ts ≡ o
      → id_re_matches x ≡ true
      → claim sha256 w x secret ts file o ≡ (registered id false denied s, ts', file')
      → Issued ts ts' w.now id s
  unfolding claim
  claim-Issued w x secret ts file none id denied s ts' file' v free valid e =
      issue-Issued w x false ts file w.secret_draw id denied s ts' file' free valid
        (unfold issue_secret in e)
  claim-Issued w x secret ts file (some t) id denied s ts' file' v found valid e =
      elim (Bool-cases (verify_secret sha256 t secret)) [
        | inl opens ↦ absurd (cc (rw opens at e))
        | inr refuses ↦
            allocate-Issued w (draw_id w.id_draws ts) true ts file id denied s ts' file'
              (λ y. draw_id_sound w.id_draws ts y v) (rw refuses at e)
      ]

  pub register-Issued :
      (w : Supply) (desired secret : Text) (ts : Tunnels) (file : File) (id : Text) (denied : Bool)
      (s : Text) (ts' : Tunnels) (file' : File)
      → All IsDraw w.id_draws
      → register sha256 w desired secret ts file ≡ (registered id false denied s, ts', file')
      → Issued ts ts' w.now id s
  unfolding register
  register-Issued w desired secret ts file id denied s ts' file' v e =
      elim (Bool-cases (clean_desired desired == [])) [
        | inl empty ↦
            allocate-Issued w (draw_id w.id_draws ts) false ts file id denied s ts' file'
              (λ y. draw_id_sound w.id_draws ts y v) (rw empty at e)
        | inr named ↦
            claim-Issued w (clean_desired desired) secret ts file
              (lookup (clean_desired desired) ts) id denied s ts' file' v refl (named_valid named)
              (rw named at e)
      ]
    where
      named_valid :
          (clean_desired desired == []) ≡ false → id_re_matches (clean_desired desired) ≡ true
      named_valid n = elim (clean_desired-cases desired) [
        | inl z ↦ absurd (cc (n, ap (λ (x : Text). x == []) z, text_beq_refl []))
        | inr g ↦ g
      ]

module _ (sha256 : Text → List ℕ) (digest : (s : Text) → length (sha256 s) ≡ 32) where
  hash_secret-ne-nil : (s : Text) → hash_secret sha256 s ≢ []
  unfolding hash_secret
  hash_secret-ne-nil s = hash-ne-nil (sha256 s) (λ e. absurd (omega (arith, digest s, ap length e)))

  -- The secret whose hash is kept opens the tunnel.
  pub verify_secret_own :
      (t : Tunnel) (s : Text)
      → t.secret_hash ≡ hash_secret sha256 s
      → verify_secret sha256 t s ≡ true
  unfolding verify_secret
  verify_secret_own t s e = rw (
    e,
    ne→==_false (hash_secret sha256 s) [] (hash_secret-ne-nil s),
    ==_refl (hash_secret sha256 s),
  )

  -- A secret with another hash does not open it.
  pub verify_secret_other :
      (t : Tunnel) (s s' : Text)
      → t.secret_hash ≡ hash_secret sha256 s
      → hash_secret sha256 s ≢ hash_secret sha256 s'
      → verify_secret sha256 t s' ≡ false
  unfolding verify_secret
  verify_secret_other t s s' e apart = rw (
    e,
    ne→==_false (hash_secret sha256 s) [] (hash_secret-ne-nil s),
    ne→==_false (hash_secret sha256 s) (hash_secret sha256 s') apart,
  )

  -- Whoever was issued an id with a secret, be it the desired one or a random one, reclaims that same
  -- id with them in the next hello, from any later supply and file, and the registry stays as it is.
  pub register_reclaims :
      (w : Supply) (desired secret : Text) (ts : Tunnels) (file : File) (id : Text) (denied : Bool)
      (s : Text) (ts' : Tunnels) (file' : File) (w' : Supply) (file'' : File)
      → All IsDraw w.id_draws
      → register sha256 w desired secret ts file ≡ (registered id false denied s, ts', file')
      → register sha256 w' id s ts' file'' ≡ (registered id true false [], ts', file'')
  register_reclaims w desired secret ts file id denied s ts' file' w' file'' v e =
      let i = register-Issued sha256 w desired secret ts file id denied s ts' file' v e in
      claims_with_secret sha256 w' id s ts' file'' _ i.valid i.stored
        (verify_secret_own _ s (unfold owned_tunnel in refl))
