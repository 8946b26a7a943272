-- ===== src/Client/Power/Laws.antt =====
-- The helpers that a `cmdInhibitor` of internal/client/power.go keeps alive.
use selftunnel.Common.{
  ℕ, List, [], ◌∷◌, Option, none, some, Text, nat_beq, ◌≡◌, refl, arith, Bool-cases, inl, inr,
  some_inj,
}
use selftunnel.Client.Power.{
  CmdInhibitor, new_cmd_inhibitor, inhibit_if, inhibit, ended, release_if, release, helper_exits,
}

-- A call of the inhibitor, or a helper that ends by itself.
pub data PowerEvent : Type 0 where
  inhibit_call : List Text → Option ℕ → PowerEvent
  release_call : PowerEvent
  exits : ℕ → PowerEvent

unfoldable pub on_event : PowerEvent → CmdInhibitor → CmdInhibitor
unfolding inhibit release helper_exits
on_event (inhibit_call cmd launched) i = (inhibit cmd launched i).1
on_event release_call i = (release i).1
on_event (exits p) i = helper_exits p i

abbrev pub on_events : List PowerEvent → CmdInhibitor → CmdInhibitor
on_events [] i = i
on_events (e ∷ es) i = on_events es (on_event e i)

-- At most one helper runs, and it is the one that the inhibitor can cancel.
abbrev pub IsOwned : Option ℕ → List ℕ → Type 0
IsOwned o [] = Unit {0}
IsOwned o (p ∷ []) = o ≡ some p
IsOwned o (p ∷ q ∷ ps) = ⊥

ended_self : (p : ℕ) → ended p (p ∷ []) ≡ []
ended_self p = ground arith

ended-IsOwned : (p : ℕ) (o : Option ℕ) (ps : List ℕ) → IsOwned o ps → IsOwned o (ended p ps)
ended-IsOwned p o [] w = tt
ended-IsOwned p o (q ∷ []) w = elim (Bool-cases (nat_beq p q)) [
  | inl same ↦ rw same tt
  | inr other ↦ rw other w
]
ended-IsOwned p o (q ∷ r ∷ ps) w = absurd w

ended_owned : (p : ℕ) (ps : List ℕ) → IsOwned (some p) ps → ended p ps ≡ []
ended_owned p [] w = refl
ended_owned p (q ∷ []) w = let same : p ≡ q = some_inj w in ground arith
ended_owned p (q ∷ r ∷ ps) w = absurd w

none_owned : (ps : List ℕ) → IsOwned none ps → ps ≡ []
none_owned [] w = refl
none_owned (p ∷ []) w = absurd (cc)
none_owned (p ∷ q ∷ ps) w = absurd w

inhibit_if-IsOwned :
    (o : Option ℕ) (cmd : List Text) (launched : Option ℕ) (i : CmdInhibitor)
    → i.cancel ≡ o
    → IsOwned i.cancel i.helpers
    → IsOwned (inhibit_if o cmd launched i).1.cancel (inhibit_if o cmd launched i).1.helpers
inhibit_if-IsOwned (some p) cmd launched i e w = w
inhibit_if-IsOwned none cmd none i e w = w
inhibit_if-IsOwned none cmd (some p) i e w =
    let idle : i.helpers ≡ [] = none_owned i.helpers (rw e at w) in rw idle refl

release_if-IsOwned :
    (o : Option ℕ) (i : CmdInhibitor)
    → i.cancel ≡ o
    → IsOwned i.cancel i.helpers
    → IsOwned (release_if o i).1.cancel (release_if o i).1.helpers
release_if-IsOwned none i e w = w
release_if-IsOwned (some p) i e w = rw (ended_owned p i.helpers (rw e at w)) tt

on_event-IsOwned :
    (e : PowerEvent) (i : CmdInhibitor)
    → IsOwned i.cancel i.helpers
    → IsOwned (on_event e i).cancel (on_event e i).helpers
unfolding on_event inhibit release helper_exits
on_event-IsOwned (inhibit_call cmd launched) i w = inhibit_if-IsOwned i.cancel cmd launched i refl w
on_event-IsOwned release_call i w = release_if-IsOwned i.cancel i refl w
on_event-IsOwned (exits p) i w = ended-IsOwned p i.cancel i.helpers w

on_events-IsOwned :
    (es : List PowerEvent) (i : CmdInhibitor)
    → IsOwned i.cancel i.helpers
    → IsOwned (on_events es i).cancel (on_events es i).helpers
on_events-IsOwned [] i w = w
on_events-IsOwned (e ∷ es) i w = on_events-IsOwned es (on_event e i) (on_event-IsOwned e i w)

release_none :
    (o : Option ℕ) (i : CmdInhibitor)
    → i.cancel ≡ o
    → IsOwned i.cancel i.helpers
    → ((release_if o i).0 ≡ none) × ((release_if o i).1 ≡ new_cmd_inhibitor)
release_none none i e w = (refl, rw (e, none_owned i.helpers (rw e at w)) refl)
release_none (some p) i e w = (refl, rw (ended_owned p i.helpers (rw e at w)) refl)

-- After any history of calls and of helpers ending by themselves, a release succeeds and leaves no
-- helper running.
pub release_frees :
    (es : List PowerEvent)
    → ((release (on_events es new_cmd_inhibitor)).0 ≡ none)
      × ((release (on_events es new_cmd_inhibitor)).1 ≡ new_cmd_inhibitor)
unfolding release
release_frees es =
    let i = on_events es new_cmd_inhibitor in
    release_none i.cancel i refl (on_events-IsOwned es new_cmd_inhibitor tt)

-- After any history, when the helper that an inhibitor started has ended by itself, none runs, and a
-- further `inhibit` answers success without starting one.
pub inhibit-helper_exits :
    (es : List PowerEvent) (p : ℕ) (cmd : List Text) (launched : Option ℕ)
    → (on_events es new_cmd_inhibitor).cancel ≡ some p
    → ((inhibit cmd launched (helper_exits p (on_events es new_cmd_inhibitor))).0 ≡ none)
      × ((inhibit cmd launched (helper_exits p (on_events es new_cmd_inhibitor))).1.helpers ≡ [])
unfolding inhibit helper_exits
inhibit-helper_exits es p cmd launched e =
    let i = on_events es new_cmd_inhibitor in
    let owned : IsOwned i.cancel i.helpers = on_events-IsOwned es new_cmd_inhibitor tt in
    rw e (refl, ended_owned p i.helpers (rw e at owned))
