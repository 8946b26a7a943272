-- ===== src/Server/Registry/Listing.antt =====
-- `Registry.List` of internal/server/registry.go: the tunnels in the order of their ids. The
-- library's sort is modelled by insertion; on distinct ids every sort gives the same list.
use mathlib.Core.List.{Perm}
use mathlib.Core.List.Perm
use selftunnel.Common.{
  Bool, true, false, ◌&&◌, ◌||◌, List, [], ◌∷◌, map, All, Text, if◌then◌else◌, ltb, nat_beq, nat_eq,
  ◌≡◌, refl, arith, Bool-cases, inl, inr, text_eq,
}
use selftunnel.Server.Registry.{Tunnel, Tunnels}

-- `<` on strings.
unfoldable pub text_less : Text → Text → Bool
text_less s [] = false
text_less [] (d ∷ t) = true
text_less (c ∷ s) (d ∷ t) = ltb c d || (nat_beq c d && text_less s t)

unfoldable pub insert_by_id : Tunnel → List Tunnel → List Tunnel
insert_by_id t [] = t ∷ []
insert_by_id t (u ∷ us) = if text_less u.id t.id then u ∷ insert_by_id t us else t ∷ u ∷ us

unfoldable pub sort_by_id : List Tunnel → List Tunnel
sort_by_id [] = []
sort_by_id (t ∷ ts) = insert_by_id t (sort_by_id ts)

unfoldable pub list : Tunnels → List Tunnel
unfolding sort_by_id
list ts = sort_by_id (map (λ e. e.1) ts)

-- No tunnel of the list comes before an earlier one.
abbrev pub FirstOf : Text → List Tunnel → Type 0
FirstOf id [] = Unit {0}
FirstOf id (u ∷ us) = (text_less u.id id ≡ false) × FirstOf id us

abbrev pub IsSorted : List Tunnel → Type 0
IsSorted [] = Unit {0}
IsSorted (t ∷ ts) = FirstOf t.id ts × IsSorted ts

text_less_asym : (s t : Text) → text_less s t ≡ true → text_less t s ≡ false
unfolding text_less
text_less_asym s [] h = absurd (cc)
text_less_asym [] (d ∷ t) h = refl
text_less_asym (c ∷ s) (d ∷ t) h = ground (arith, text_less_asym s t)

-- What is not before `b`, which is not before `a`, is not before `a`.
text_less_neg_trans :
    (a b c : Text) → text_less b a ≡ false → text_less c b ≡ false → text_less c a ≡ false
unfolding text_less
text_less_neg_trans [] b c h k = refl
text_less_neg_trans (x ∷ a) [] c h k = absurd (cc)
text_less_neg_trans (x ∷ a) (y ∷ b) [] h k = absurd (cc)
text_less_neg_trans (x ∷ a) (y ∷ b) (z ∷ c) h k = ground (arith, text_less_neg_trans a b c)

FirstOf-mono : (a b : Text) (us : List Tunnel) → text_less b a ≡ false → FirstOf b us → FirstOf a us
FirstOf-mono a b [] h f = tt
FirstOf-mono a b (u ∷ us) h f = (text_less_neg_trans a b u.id h f.0, FirstOf-mono a b us h f.1)

insert_by_id-FirstOf :
    (id : Text) (t : Tunnel) (us : List Tunnel)
    → text_less t.id id ≡ false
    → FirstOf id us
    → FirstOf id (insert_by_id t us)
unfolding insert_by_id
insert_by_id-FirstOf id t [] h f = (h, tt)
insert_by_id-FirstOf id t (u ∷ us) h f = elim (Bool-cases (text_less u.id t.id)) [
  | inl b ↦ rw b (f.0, insert_by_id-FirstOf id t us h f.1)
  | inr b ↦ rw b (h, f)
]

insert_by_id-IsSorted : (t : Tunnel) (us : List Tunnel) → IsSorted us → IsSorted (insert_by_id t us)
unfolding insert_by_id
insert_by_id-IsSorted t [] s = (tt, tt)
insert_by_id-IsSorted t (u ∷ us) s = elim (Bool-cases (text_less u.id t.id)) [
  | inl b ↦ rw b (
    insert_by_id-FirstOf u.id t us (text_less_asym u.id t.id b) s.0,
    insert_by_id-IsSorted t us s.1,
  )
  | inr b ↦ rw b ((b, FirstOf-mono t.id u.id us b s.0), s)
]

sort_by_id-IsSorted : (ts : List Tunnel) → IsSorted (sort_by_id ts)
unfolding sort_by_id
sort_by_id-IsSorted [] = tt
sort_by_id-IsSorted (t ∷ ts) = insert_by_id-IsSorted t (sort_by_id ts) (sort_by_id-IsSorted ts)

insert_by_id-perm : (t : Tunnel) (us : List Tunnel) → Perm (insert_by_id t us) (t ∷ us)
unfolding insert_by_id
insert_by_id-perm t [] = Perm.refl (t ∷ [])
insert_by_id-perm t (u ∷ us) = elim (Bool-cases (text_less u.id t.id)) [
  | inl b ↦ rw b (Perm.trans (Perm.cons u (insert_by_id-perm t us)) (Perm.swap t u us))
  | inr b ↦ rw b (Perm.refl (t ∷ u ∷ us))
]

sort_by_id-perm : (ts : List Tunnel) → Perm (sort_by_id ts) ts
unfolding sort_by_id
sort_by_id-perm [] = Perm.refl []
sort_by_id-perm (t ∷ ts) =
    Perm.trans (insert_by_id-perm t (sort_by_id ts)) (Perm.cons t (sort_by_id-perm ts))

-- The list has every registered tunnel once, in the order of the ids.
pub list-IsSorted_perm :
    (ts : Tunnels) → IsSorted (list ts) × Perm (list ts) (map (λ (e : Text × Tunnel). e.1) ts)
unfolding list
list-IsSorted_perm ts =
    (sort_by_id-IsSorted (map (λ e. e.1) ts), sort_by_id-perm (map (λ e. e.1) ts))

All-insert_by_id :
    (P : Tunnel → Type 0) (t : Tunnel) (us : List Tunnel)
    → All P (insert_by_id t us)
    → P t × All P us
unfolding insert_by_id
All-insert_by_id P t [] h = h
All-insert_by_id P t (u ∷ us) h = elim (Bool-cases (text_less u.id t.id)) [
  | inl b ↦
      let k : P u × All P (insert_by_id t us) = rw b at h in
      let (p, q) = All-insert_by_id P t us k.1 in (p, (k.0, q))
  | inr b ↦ rw b at h
]

All-sort_by_id : (P : Tunnel → Type 0) (ts : List Tunnel) → All P (sort_by_id ts) → All P ts
unfolding sort_by_id
All-sort_by_id P [] h = h
All-sort_by_id P (t ∷ ts) h =
    let (p, q) = All-insert_by_id P t (sort_by_id ts) h in (p, All-sort_by_id P ts q)

All-entries :
    (P : Tunnel → Type 0) (ts : Tunnels)
    → All P (map (λ e. e.1) ts)
    → All (λ (e : Text × Tunnel). P e.1) ts
All-entries P [] h = h
All-entries P (e ∷ ts) h = (h.0, All-entries P ts h.1)

-- What holds of the listed tunnels holds of the registered ones.
pub All-list :
    (P : Tunnel → Type 0) (ts : Tunnels) → All P (list ts) → All (λ (e : Text × Tunnel). P e.1) ts
unfolding list
All-list P ts h = All-entries P ts (All-sort_by_id P (map (λ e. e.1) ts) h)
