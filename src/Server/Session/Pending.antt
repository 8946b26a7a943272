-- ===== src/Server/Session/Pending.antt =====
-- No channel of a session is ever closed twice, and the teardown reaches every open mailbox.
use selftunnel.Common.{
  ℕ, true, List, [], ◌∷◌, ◌∷ʳ◌, some, length, lookup, insert, delete, nat_eq, ◌==◌, ◌≡◌, ◌≢◌, refl,
  sym, ◌∙◌, subst, arith, Bool-cases, Option-cases, inl, inr, ne→==_false, ==_ne,
}
use selftunnel.Server.Mailbox.{Mailbox, is_open, close_box}
use selftunnel.Server.Mailbox.Laws.{is_open-lt, close_box_open, is_open-close_box, is_open_new}
use selftunnel.Server.Session.{close_boxes}

-- The place is in no entry of the map.
abbrev pub Fresh : ℕ → List (ℕ × ℕ) → Type 0
Fresh h [] = Unit {0}
Fresh h ((j, i) ∷ p) = (i ≢ h) × Fresh h p

-- The mailboxes in flight are open and different.
abbrev pub Live : List (ℕ × ℕ) → List Mailbox → Type 0
Live [] bs = Unit {0}
Live ((k, h) ∷ p) bs = (is_open bs h ≡ true) × Fresh h p × Live p bs

pub Live-close_box :
    (h : ℕ) (p : List (ℕ × ℕ)) (bs cs : List Mailbox)
    → close_box h bs ≡ some cs
    → Fresh h p
    → Live p bs
    → Live p cs
Live-close_box h [] bs cs e f l = tt
Live-close_box h ((j, i) ∷ p) bs cs e f l = (
  rw (is_open-close_box h bs cs i e, ne→==_false h i (λ x. f.0 (sym x))) l.0,
  l.1,
  Live-close_box h p bs cs e f.1 l.2,
)

pub close_boxes-total :
    (p : List (ℕ × ℕ)) (bs : List Mailbox)
    → Live p bs
    → (cs : List Mailbox) × (close_boxes p bs ≡ some cs)
close_boxes-total [] bs l = (bs, unfold close_boxes in refl)
close_boxes-total ((k, h) ∷ p) bs l =
    let (cs, e) = close_box_open h bs l.0 in
    let (ds, d) = close_boxes-total p cs (Live-close_box h p bs cs e l.1 l.2) in
    (ds, steps k h p bs cs e ∙ d)
  where
    steps :
        (k h : ℕ) (p : List (ℕ × ℕ)) (bs cs : List Mailbox)
        → close_box h bs ≡ some cs
        → close_boxes ((k, h) ∷ p) bs ≡ close_boxes p cs
    steps k h p bs cs e = unfold close_boxes in rw e

pub open_other :
    (h : ℕ) (bs ds : List Mailbox) (j : ℕ)
    → close_box h bs ≡ some ds
    → is_open ds j ≡ true
    → (is_open bs j ≡ true) × (h ≢ j)
open_other h bs ds j d o = elim (Bool-cases (h == j)) [
  | inl same ↦ absurd (ground (arith, is_open-close_box h bs ds j d))
  | inr other ↦ (ground (arith, is_open-close_box h bs ds j d), ==_ne h j other)
]

-- A mailbox that is open afterwards was open before and not in flight.
pub close_boxes-open :
    (p : List (ℕ × ℕ)) (bs cs : List Mailbox) (j : ℕ)
    → close_boxes p bs ≡ some cs
    → is_open cs j ≡ true
    → (is_open bs j ≡ true) × Fresh j p
unfolding close_boxes
close_boxes-open [] bs cs j e o = (ground arith, tt)
close_boxes-open ((k, h) ∷ p) bs cs j e o = elim (Option-cases (close_box h bs)) [
  | inl n ↦ absurd (ground arith)
  | inr (ds, d) ↦
      let (was, fresh) = close_boxes-open p ds cs j (ground arith) o in
      let (first, other) = open_other h bs ds j d was in (first, (other, fresh))
]

pub Live-lookup :
    (k h : ℕ) (p : List (ℕ × ℕ)) (bs : List Mailbox)
    → Live p bs
    → lookup k p ≡ some h
    → is_open bs h ≡ true
unfolding lookup
Live-lookup k h [] bs l e = cc
Live-lookup k h ((j, i) ∷ p) bs l e = ground (arith, Live-lookup k h p bs l.2)

pub Fresh-lookup : (k h : ℕ) (p : List (ℕ × ℕ)) → Fresh h p → lookup k p ≢ some h
unfolding lookup
Fresh-lookup k h [] f e = cc
Fresh-lookup k h ((j, i) ∷ p) f e = ground (arith, Fresh-lookup k h p f.1, f.0)

Fresh-delete : (k h : ℕ) (p : List (ℕ × ℕ)) → Fresh h p → Fresh h (delete k p)
unfolding delete
Fresh-delete k h [] f = tt
Fresh-delete k h ((j, i) ∷ p) f = elim (Bool-cases (j == k)) [
  | inl t ↦ rw t (Fresh-delete k h p f.1)
  | inr t ↦ rw t (f.0, Fresh-delete k h p f.1)
]

pub Live-delete : (k : ℕ) (p : List (ℕ × ℕ)) (bs : List Mailbox) → Live p bs → Live (delete k p) bs
unfolding delete
Live-delete k [] bs l = tt
Live-delete k ((j, i) ∷ p) bs l = elim (Bool-cases (j == k)) [
  | inl t ↦ rw t (Live-delete k p bs l.2)
  | inr t ↦ rw t (l.0, Fresh-delete k i p l.1, Live-delete k p bs l.2)
]

Fresh-insert : (k h i : ℕ) (p : List (ℕ × ℕ)) → Fresh h p → i ≢ h → Fresh h (insert k i p)
unfolding insert
Fresh-insert k h i [] f n = (n, tt)
Fresh-insert k h i ((j, g) ∷ p) f n = elim (Bool-cases (j == k)) [
  | inl t ↦ rw t (n, f.1)
  | inr t ↦ rw t (f.0, Fresh-insert k h i p f.1 n)
]

pub Live-new : (p : List (ℕ × ℕ)) (bs : List Mailbox) (b : Mailbox) → Live p bs → Live p (bs ∷ʳ b)
Live-new [] bs b l = tt
Live-new ((j, i) ∷ p) bs b l = (still_open i l.0, l.1, Live-new p bs b l.2)
  where
    still_open : (i : ℕ) → is_open bs i ≡ true → is_open (bs ∷ʳ b) i ≡ true
    still_open i o =
        rw
          (
            is_open_new bs b i,
            ne→==_false (length bs) i (λ e. absurd (omega (arith, is_open-lt bs i o))),
          )
          o

-- A place past the store is in no entry.
pub Live-Fresh : (p : List (ℕ × ℕ)) (bs : List Mailbox) → Live p bs → Fresh (length bs) p
Live-Fresh [] bs l = tt
Live-Fresh ((j, i) ∷ p) bs l =
    (λ e. absurd (omega (arith, is_open-lt bs i l.0)), Live-Fresh p bs l.2)

pub Live-insert :
    (k h : ℕ) (p : List (ℕ × ℕ)) (bs : List Mailbox)
    → Live p bs
    → Fresh h p
    → is_open bs h ≡ true
    → Live (insert k h p) bs
unfolding insert
Live-insert k h [] bs l f o = (o, tt, tt)
Live-insert k h ((j, i) ∷ p) bs l f o = elim (Bool-cases (j == k)) [
  | inl t ↦ rw t (o, f.1, l.2)
  | inr t ↦ rw t (l.0, Fresh-insert k i h p l.1 (λ e. f.0 (sym e)), Live-insert k h p bs l.2 f.1 o)
]

pub Fresh-delete-lookup :
    (k h : ℕ) (p : List (ℕ × ℕ)) (bs : List Mailbox)
    → Live p bs
    → lookup k p ≡ some h
    → Fresh h (delete k p)
unfolding lookup delete
Fresh-delete-lookup k h [] bs l e = tt
Fresh-delete-lookup k h ((j, i) ∷ p) bs l e = elim (Bool-cases (j == k)) [
  | inl t ↦ rw t (Fresh-delete k h p (subst (λ (x : ℕ). Fresh x p) (ground arith) l.1))
  | inr t ↦
      let below : lookup k p ≡ some h = rw t at e in
      rw t (
        (λ x. Fresh-lookup k h p (subst (λ (y : ℕ). Fresh y p) x l.1) below),
        Fresh-delete-lookup k h p bs l.2 below,
      )
]
