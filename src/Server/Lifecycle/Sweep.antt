-- ===== src/Server/Lifecycle/Sweep.antt =====
-- The loop of `Stop` of internal/server/lifecycle.go over the registry's list.
use selftunnel.Common.{
  ℕ, List, [], ◌∷◌, Option, none, some, Text, lookup, All, All-lookup, All-mono, nat_eq, text_eq,
  ◌==◌, ◌≡◌, ◌⊎◌, refl, ap, ◌∙◌, subst, some_inj, Bool-cases, inl, inr, ==_refl,
}
use selftunnel.Server.Registry.{Tunnel}
use selftunnel.Server.Registry.Invariant.{IsEntry, IsRegistry}
use selftunnel.Server.Registry.Listing.{list, All-list}
use selftunnel.Server.Intake.{Server, tunnel_session}
use selftunnel.Server.Intake.Online.{Ahead, close_session-Ahead}
use selftunnel.Server.Lifecycle.Linked.{Linked, vacated, vacated_twice, Vacates, close_held-Vacates}
use selftunnel.Server.Lifecycle.{close_held, then_close, close_listed}

-- The tunnels of `ts` are offline, and nothing else has changed about any tunnel.
pub record Swept (ts : List Tunnel) (srv srv' : Server) : Type 0 where
  pub swept : All (λ (t : Tunnel). lookup t.id srv'.tunnels ≡ vacated (lookup t.id srv.tunnels)) ts
  pub others :
      (j : Text)
      → (lookup j srv'.tunnels ≡ lookup j srv.tunnels)
        ⊎ (lookup j srv'.tunnels ≡ vacated (lookup j srv.tunnels))

turn :
    (id : Text) (srv srv' : Server)
    → Vacates id srv srv'
    → (j : Text)
    → (lookup j srv'.tunnels ≡ lookup j srv.tunnels)
      ⊎ (lookup j srv'.tunnels ≡ vacated (lookup j srv.tunnels))
turn id srv srv' v j = elim (Bool-cases (id == j)) [
  | inl same ↦ inr (rw same at (v j))
  | inr other ↦ inl (rw other at (v j))
]

module _ {A : Type 0} (f : A → A) (twice : (a : A) → f (f a) ≡ f a) where
  both : (a b c : A) → (b ≡ a) ⊎ (b ≡ f a) → (c ≡ b) ⊎ (c ≡ f b) → (c ≡ a) ⊎ (c ≡ f a)
  both a b c (inl x) (inl y) = inl (y ∙ x)
  both a b c (inl x) (inr y) = inr (y ∙ ap f x)
  both a b c (inr x) (inl y) = inr (y ∙ x)
  both a b c (inr x) (inr y) = inr (y ∙ ap f x ∙ twice a)

  first_done : (a b c : A) → b ≡ f a → (c ≡ b) ⊎ (c ≡ f b) → c ≡ f a
  first_done a b c x (inl y) = y ∙ x
  first_done a b c x (inr y) = y ∙ ap f x ∙ twice a

  later_done : (a b c : A) → (b ≡ a) ⊎ (b ≡ f a) → c ≡ f b → c ≡ f a
  later_done a b c (inl x) y = y ∙ ap f x
  later_done a b c (inr x) y = y ∙ ap f x ∙ twice a

Swept-step :
    (t : Tunnel) (ts : List Tunnel) (srv mid srv' : Server)
    → Vacates t.id srv mid
    → Swept ts mid srv'
    → Swept (t ∷ ts) srv srv'
Swept-step t ts srv mid srv' v s = record {
  swept = (
    first_done vacated vacated_twice (lookup t.id srv.tunnels) (lookup t.id mid.tunnels)
        (lookup t.id srv'.tunnels) (rw (==_refl t.id) at (v t.id)) (s.others t.id),
    All-mono _ _
        (λ u.
          later_done vacated vacated_twice (lookup u.id srv.tunnels) (lookup u.id mid.tunnels)
            (lookup u.id srv'.tunnels) (turn t.id srv mid v u.id))
        ts s.swept,
  );
  others = λ j.
      both vacated vacated_twice (lookup j srv.tunnels) (lookup j mid.tunnels)
        (lookup j srv'.tunnels) (turn t.id srv mid v j) (s.others j);
}

pub close_listed-Swept :
    (ts : List Tunnel) (srv : Server)
    → Linked srv
    → (srv' : Server) × (close_listed ts srv ≡ some srv') × Linked srv' × Swept ts srv srv'
unfolding close_listed
close_listed-Swept [] srv l = (srv, refl, l, record { swept = tt; others = λ j. inl refl })
close_listed-Swept (t ∷ ts) srv l =
    let (mid, e, l', v) = close_held-Vacates t.id srv l in
    let (srv', e', l'', s) = close_listed-Swept ts mid l' in
    (srv', ap (then_close (λ x. close_listed ts x)) e ∙ e', l'', Swept-step t ts srv mid srv' v s)

close_held-Ahead :
    (o : Option ℕ) (srv srv' : Server) (d : ℕ)
    → close_held o srv ≡ some srv'
    → Ahead d srv
    → Ahead d srv'
close_held-Ahead none srv srv' d e a = subst (Ahead d) (some_inj e) a
close_held-Ahead (some h) srv srv' d e a = close_session-Ahead h srv srv' d e a

mid_Ahead :
    (o : Option ℕ) (next : Server → Option Server) (srv srv' : Server) (d : ℕ)
    → (r : Option Server) → close_held o srv ≡ r
    → then_close next r ≡ some srv'
    → Ahead d srv
    → (mid : Server) × (next mid ≡ some srv') × Ahead d mid
mid_Ahead o next srv srv' d none q e a = absurd (cc)
mid_Ahead o next srv srv' d (some mid) q e a = (mid, e, close_held-Ahead o srv mid d q a)

pub close_listed-Ahead :
    (ts : List Tunnel) (srv srv' : Server) (d : ℕ)
    → close_listed ts srv ≡ some srv'
    → Ahead d srv
    → Ahead d srv'
unfolding close_listed
close_listed-Ahead [] srv srv' d e a = subst (Ahead d) (some_inj e) a
close_listed-Ahead (t ∷ ts) srv srv' d e a =
    let (mid, f, b) =
      mid_Ahead (tunnel_session (lookup t.id srv.tunnels)) (λ x. close_listed ts x) srv srv' d _
        refl e a in
    close_listed-Ahead ts mid srv' d f b

pub all_vacated :
    (srv srv' : Server)
    → IsRegistry srv.tunnels
    → Swept (list srv.tunnels) srv srv'
    → (id : Text) → lookup id srv'.tunnels ≡ vacated (lookup id srv.tunnels)
all_vacated srv srv' r s id = by_tunnel (lookup id srv.tunnels) refl
  where
    unknown : (o o' : Option Tunnel) → o ≡ none → (o' ≡ o) ⊎ (o' ≡ vacated o) → o' ≡ vacated o
    unknown o o' e (inl same) = same ∙ rw e refl
    unknown o o' e (inr gone) = gone

    by_tunnel :
        (o : Option Tunnel)
        → lookup id srv.tunnels ≡ o
        → lookup id srv'.tunnels ≡ vacated (lookup id srv.tunnels)
    by_tunnel none e = unknown (lookup id srv.tunnels) (lookup id srv'.tunnels) e (s.others id)
    by_tunnel (some t) e =
        let own : t.id ≡ id = (All-lookup IsEntry id t srv.tunnels r.entries e).1 in
        subst (λ (k : Text). lookup k srv'.tunnels ≡ vacated (lookup k srv.tunnels)) own
          (All-lookup
            (λ (x : Text × Tunnel).
              lookup x.1.id srv'.tunnels ≡ vacated (lookup x.1.id srv.tunnels))
            id t srv.tunnels (All-list _ srv.tunnels s.swept) e)
