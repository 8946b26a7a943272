-- ===== src/Server/Registry/Draws.antt =====
-- The desired id as it is honoured, and the loop over the random draws.
use selftunnel.Common.{
  ℕ, true, List, [], ◌∷◌, Option, none, some, Text, length, All, ◌++◌, lookup, ◌==◌, text_eq,
  nat_eq, text_beq_sound, ne→==_false, ◌≡◌, ◌≢◌, refl, ap, Bool-cases, Option-cases, inl, inr, ◌⊎◌,
}
use selftunnel.Text.{trim_space, to_lower}
use selftunnel.TunnelId.{id_re_matches, generate_id}
use selftunnel.TunnelId.Laws.{generate_id_valid, id_re-clean}
use selftunnel.Server.Registry.{Tunnels, Draw, drew, out_of_draws, clean_desired, drawn_id, draw_id}

-- `rand.Read` fills the eight bytes that it is given.
abbrev pub IsDraw : Option (List ℕ) → Type 0
IsDraw none = Unit {0}
IsDraw (some b) = length b ≡ 8

pub clean_desired-cases :
    (desired : Text) → (clean_desired desired ≡ []) ⊎ (id_re_matches (clean_desired desired) ≡ true)
unfolding clean_desired
clean_desired-cases desired =
    let d = to_lower (trim_space desired) in
    elim (Bool-cases (d == [])) [
      | inl e ↦ inl (rw e (text_beq_sound d [] e))
      | inr n ↦ elim (Bool-cases (id_re_matches d)) [
        | inl g ↦ inr (rw (n, g) g)
        | inr b ↦ inl (rw (n, b))
      ]
    ]

pub clean_desired_valid : (id : Text) → id_re_matches id ≡ true → clean_desired id ≡ id
unfolding clean_desired
clean_desired_valid id h =
    let (same, some_text) = id_re-clean id h in rw (same, ne→==_false id [] some_text, h) refl

drawn_id-cases :
    (o : Option Text) (ts : Tunnels) (rest : Draw) (id : Text)
    → drawn_id o ts rest ≡ drew id
    → ((o ≡ some id) × (lookup id ts ≡ none)) ⊎ (rest ≡ drew id)
drawn_id-cases none ts rest id e = absurd (cc)
drawn_id-cases (some x) ts rest id e = elim (Option-cases (lookup x ts)) [
  | inl free ↦
      let same : drew x ≡ drew id = rw free at e in
      let is_id : x ≡ id = cc same in inl (ap some is_id, rw (← is_id) free)
  | inr (t, taken) ↦ inr (rw taken at e)
]

-- What is drawn is free, and a valid id.
pub draw_id_sound :
    (bs : List (Option (List ℕ))) (ts : Tunnels) (id : Text)
    → All IsDraw bs
    → draw_id bs ts ≡ drew id
    → (lookup id ts ≡ none) × (id_re_matches id ≡ true)
unfolding draw_id
draw_id_sound [] ts id v e = absurd (cc)
draw_id_sound (none ∷ bs) ts id v e = absurd (unfold generate_id in cc e)
draw_id_sound (some b ∷ bs) ts id v e =
    elim (drawn_id-cases (generate_id (some b)) ts (draw_id bs ts) id e) [
      | inl (g, free) ↦ (free, generate_id_valid b id v.0 g)
      | inr later ↦ draw_id_sound bs ts id v.1 later
    ]

drawn_id-out :
    (o : Option Text) (ts : Tunnels) (rest : Draw)
    → drawn_id o ts rest ≡ out_of_draws
    → rest ≡ out_of_draws
drawn_id-out none ts rest e = absurd (cc)
drawn_id-out (some x) ts rest e = elim (Option-cases (lookup x ts)) [
  | inl free ↦ absurd (cc (rw free at e))
  | inr (t, taken) ↦ rw taken at e
]

-- The loop over the draws is over at the latest when one gives a free id.
pub draw_id_ends :
    (bs cs : List (Option (List ℕ))) (b : List ℕ) (id : Text) (ts : Tunnels)
    → generate_id (some b) ≡ some id
    → lookup id ts ≡ none
    → draw_id (bs ++ some b ∷ cs) ts ≢ out_of_draws
unfolding draw_id
draw_id_ends [] cs b id ts g free e = absurd (cc (rw (g, free) at e))
draw_id_ends (x ∷ bs) cs b id ts g free e =
    draw_id_ends bs cs b id ts g free (drawn_id-out (generate_id x) ts _ e)
