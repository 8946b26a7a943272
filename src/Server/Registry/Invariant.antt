-- ===== src/Server/Registry/Invariant.antt =====
-- The registry's invariant, and what `Register` leaves alone.
use mathlib.Core.Option
use selftunnel.Common.{
  ℕ, Bool, true, false, List, [], Option, none, some, Text, if◌then◌else◌, All, lookup, insert,
  lookup-insert, All-insert, All-lookup, ==_sound, insert-Distinct, Distinct, ◌==◌, text_eq, nat_eq,
  text_beq_refl, ne→==_false, ◌≡◌, refl, ap, Bool-cases, Option-cases, inl, inr, ◌⊎◌,
}
use selftunnel.TunnelId.{id_re_matches}
use selftunnel.Server.Registry.Draws.{IsDraw, clean_desired-cases, draw_id_sound}
use selftunnel.Server.Registry.{
  Tunnel, Tunnels, File, Supply, Draw, drew, draw_failed, out_of_draws, new_tunnel, known,
  clean_desired, draw_id, verify_secret, owned_tunnel, issue, issue_secret, allocate, claim,
  register, set_target, set_target_found, with_target,
}

-- An entry stands under its own id, which is a valid one.
abbrev pub IsEntry : Text × Tunnel → Type 0
IsEntry (k, t) = (id_re_matches k ≡ true) × (t.id ≡ k)

pub record IsRegistry (ts : Tunnels) : Type 0 where
  pub entries : All IsEntry ts
  pub distinct : Distinct ts

pub insert-IsRegistry :
    (k : Text) (t : Tunnel) (ts : Tunnels)
    → IsRegistry ts
    → IsEntry (k, t)
    → IsRegistry (insert k t ts)
insert-IsRegistry k t ts r e = record {
  entries = All-insert IsEntry k t ts r.entries e;
  distinct = insert-Distinct k t ts r.distinct;
}

-- What a registration does to the map: nothing, or a new entry under a valid id that was free.
abbrev pub Extends : Tunnels → Tunnels → Type 0
Extends ts ts' =
    (ts' ≡ ts)
    ⊎ ((k : Text) × (t : Tunnel) × (ts' ≡ insert k t ts)
        × (lookup k ts ≡ none)
        × (id_re_matches k ≡ true)
        × (t.id ≡ k)
        × (t.session ≡ none))

module _ (sha256 : Text → List ℕ) where
  issue-Extends :
      (w : Supply) (x : Text) (d : Bool) (ts : Tunnels) (file : File) (o : Option (List ℕ))
      → lookup x ts ≡ none
      → id_re_matches x ≡ true
      → Extends ts (issue sha256 w x d ts file o).1
  unfolding issue new_tunnel owned_tunnel
  issue-Extends w x d ts file none free valid = inr (x, _, refl, free, valid, refl, refl)
  issue-Extends w x d ts file (some b) free valid = inr (x, _, refl, free, valid, refl, refl)

  allocate-Extends :
      (w : Supply) (r : Draw) (d : Bool) (ts : Tunnels) (file : File)
      → ((x : Text) → r ≡ drew x → (lookup x ts ≡ none) × (id_re_matches x ≡ true))
      → Extends ts (allocate sha256 w r d ts file).1
  unfolding allocate issue_secret
  allocate-Extends w (drew x) d ts file h =
      issue-Extends w x d ts file w.secret_draw (h x refl).0 (h x refl).1
  allocate-Extends w draw_failed d ts file h = inl refl
  allocate-Extends w out_of_draws d ts file h = inl refl

  claim-Extends :
      (w : Supply) (x secret : Text) (ts : Tunnels) (file : File) (o : Option Tunnel)
      → All IsDraw w.id_draws
      → lookup x ts ≡ o
      → id_re_matches x ≡ true
      → Extends ts (claim sha256 w x secret ts file o).1
  unfolding claim issue_secret
  claim-Extends w x secret ts file none v free valid =
      issue-Extends w x false ts file w.secret_draw free valid
  claim-Extends w x secret ts file (some t) v found valid =
      elim (Bool-cases (verify_secret sha256 t secret)) [
        | inl opens ↦ rw opens (inl refl)
        | inr refuses ↦ rw refuses (
            allocate-Extends w (draw_id w.id_draws ts) true ts file
              (λ y. draw_id_sound w.id_draws ts y v))
      ]

  pub register-Extends :
      (w : Supply) (desired secret : Text) (ts : Tunnels) (file : File)
      → All IsDraw w.id_draws
      → Extends ts (register sha256 w desired secret ts file).1
  unfolding register
  register-Extends w desired secret ts file v = elim (Bool-cases (clean_desired desired == [])) [
    | inl empty ↦ rw empty (
        allocate-Extends w (draw_id w.id_draws ts) false ts file
          (λ y. draw_id_sound w.id_draws ts y v))
    | inr named ↦ rw named (
        claim-Extends w (clean_desired desired) secret ts file (lookup (clean_desired desired) ts) v
          refl
          (elim (clean_desired-cases desired) [
            | inl z ↦ absurd (cc (named, ap (λ (x : Text). x == []) z, text_beq_refl []))
            | inr g ↦ g
          ]))
  ]

  -- No call of `Register`, whatever its outcome, changes or drops a tunnel that is registered: neither
  -- its owner's hash nor its session, target or counter.
  pub register_preserves :
      (w : Supply) (desired secret : Text) (ts : Tunnels) (file : File) (k : Text) (t : Tunnel)
      → All IsDraw w.id_draws
      → lookup k ts ≡ some t
      → lookup k (register sha256 w desired secret ts file).1 ≡ some t
  register_preserves w desired secret ts file k t v e =
      elim (register-Extends w desired secret ts file v) [
        | inl same ↦ rw same e
        | inr (x, u, added, free, _, _, _) ↦
            rw (added, lookup-insert x k u ts, ne→==_false x k (λ q. absurd (cc (free, e, q)))) e
      ]

  -- Every outcome of `Register`, the failures included, leaves a registry whose entries stand under
  -- their own valid ids, each once.
  pub register-IsRegistry :
      (w : Supply) (desired secret : Text) (ts : Tunnels) (file : File)
      → All IsDraw w.id_draws
      → IsRegistry ts
      → IsRegistry (register sha256 w desired secret ts file).1
  register-IsRegistry w desired secret ts file v r =
      elim (register-Extends w desired secret ts file v) [
        | inl same ↦ rw same r
        | inr (x, u, added, _, valid, own, _) ↦ rw added (insert-IsRegistry x u ts r (valid, own))
      ]

set_target_found-IsRegistry :
    (write_ok : Bool) (id target : Text) (ts : Tunnels) (file : File) (o : Option Tunnel)
    → lookup id ts ≡ o
    → IsRegistry ts
    → IsRegistry (set_target_found write_ok id target ts file o).1
set_target_found-IsRegistry write_ok id target ts file none e r = r
set_target_found-IsRegistry write_ok id target ts file (some t) e r =
    insert-IsRegistry id (with_target target t) ts r
      (unfold with_target in All-lookup IsEntry id t ts r.entries e)

-- `SetTarget` keeps the invariant; it tells whether the tunnel exists, gives that one the new target
-- and leaves every other entry as it is.
pub set_target_lem :
    (write_ok : Bool) (id target : Text) (ts : Tunnels) (file : File) (k : Text)
    → IsRegistry ts
    → IsRegistry (set_target write_ok id target ts file).1
      × ((set_target write_ok id target ts file).0 ≡ known (lookup id ts))
      × (lookup k (set_target write_ok id target ts file).1
          ≡ (if id == k then Option.map (with_target target) (lookup id ts) else lookup k ts))
unfolding set_target
set_target_lem write_ok id target ts file k r = (
  set_target_found-IsRegistry write_ok id target ts file (lookup id ts) refl r,
  elim (Option-cases (lookup id ts)) [
    | inl n ↦ rw (n, set_target_found)
    | inr (t, e) ↦ rw (e, set_target_found)
  ],
  elim (Option-cases (lookup id ts)) [
    | inl n ↦ rw (n, set_target_found) (missing_key (Bool-cases (id == k)) n)
    | inr (t, e) ↦ rw (e, set_target_found) (lookup-insert id k (with_target target t) ts)
  ],
)
  where
    missing_key :
        ((id == k) ≡ true) ⊎ ((id == k) ≡ false)
        → lookup id ts ≡ none
        → lookup k ts ≡ (if id == k then none else lookup k ts)
    missing_key (inl same) n = rw same (rw (← ==_sound id k same) n)
    missing_key (inr other) n = rw other
