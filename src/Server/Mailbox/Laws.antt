-- ===== src/Server/Mailbox/Laws.antt =====
-- The store of mailboxes: what is open after a mailbox is closed, added or filled.
use selftunnel.Common.{
  ℕ, zero, suc, ◌<◌, true, false, not, List, [], ◌∷◌, ◌∷ʳ◌, some, if◌then◌else◌, length, ◌==◌,
  nat_eq, ◌≡◌, ◌≢◌, refl, arith, Option-cases, inl, inr,
}
use selftunnel.Server.Mailbox.{Mailbox, get_box, set_box, is_open, close_box}

pub is_open-lt : (bs : List Mailbox) (h : ℕ) → is_open bs h ≡ true → h < length bs
unfolding is_open
is_open-lt [] h e = absurd (ground arith)
is_open-lt (b ∷ bs) zero e = omega arith
is_open-lt (b ∷ bs) (suc h) e = omega (arith, is_open-lt bs h e)

-- An open mailbox can be closed: no panic.
pub close_box_open :
    (h : ℕ) (bs : List Mailbox)
    → is_open bs h ≡ true
    → (cs : List Mailbox) × (close_box h bs ≡ some cs)
unfolding is_open close_box
close_box_open h [] e = absurd (ground arith)
close_box_open zero (b ∷ bs) e = (record b { done = true } ∷ bs, ground arith)
close_box_open (suc h) (b ∷ bs) e = let (cs, c) = close_box_open h bs e in (b ∷ cs, rw c)

pub is_open-close_box :
    (h : ℕ) (bs cs : List Mailbox) (j : ℕ)
    → close_box h bs ≡ some cs
    → is_open cs j ≡ (if h == j then false else is_open bs j)
unfolding is_open close_box
is_open-close_box h [] cs j e = cc
is_open-close_box zero (b ∷ bs) cs zero e = ground arith
is_open-close_box zero (b ∷ bs) cs (suc j) e = ground arith
is_open-close_box (suc h) (b ∷ bs) cs zero e = elim (Option-cases (close_box h bs)) [
  | inl n ↦ absurd (ground arith)
  | inr (ds, d) ↦ ground arith
]
is_open-close_box (suc h) (b ∷ bs) cs (suc j) e = elim (Option-cases (close_box h bs)) [
  | inl n ↦ absurd (ground arith)
  | inr (ds, d) ↦ ground (arith, is_open-close_box h bs ds j d)
]

pub is_open_new :
    (bs : List Mailbox) (b : Mailbox) (j : ℕ)
    → is_open (bs ∷ʳ b) j ≡ (if length bs == j then not b.done else is_open bs j)
unfolding is_open
is_open_new [] b zero = ground arith
is_open_new [] b (suc j) = ground arith
is_open_new (x ∷ bs) b zero = ground arith
is_open_new (x ∷ bs) b (suc j) = ground (arith, is_open_new bs b j)

-- To fill a mailbox opens and closes nothing.
pub is_open-set_box :
    (bs : List Mailbox) (h : ℕ) (b c : Mailbox) (j : ℕ)
    → get_box bs h ≡ some b
    → c.done ≡ b.done
    → is_open (set_box bs h c) j ≡ is_open bs j
unfolding is_open get_box set_box
is_open-set_box [] h b c j g e = cc
is_open-set_box (x ∷ bs) zero b c zero g e = ground arith
is_open-set_box (x ∷ bs) zero b c (suc j) g e = refl
is_open-set_box (x ∷ bs) (suc h) b c zero g e = refl
is_open-set_box (x ∷ bs) (suc h) b c (suc j) g e = is_open-set_box bs h b c j g e

pub length-set_box : (bs : List Mailbox) (h : ℕ) (c : Mailbox) → length (set_box bs h c) ≡ length bs
unfolding set_box
length-set_box [] h c = refl
length-set_box (x ∷ bs) zero c = refl
length-set_box (x ∷ bs) (suc h) c = omega (arith, length-set_box bs h c)

pub get_box-set_box_self :
    (bs : List Mailbox) (h : ℕ) (b c : Mailbox)
    → get_box bs h ≡ some b
    → get_box (set_box bs h c) h ≡ some c
unfolding get_box set_box
get_box-set_box_self [] h b c g = cc
get_box-set_box_self (x ∷ bs) zero b c g = refl
get_box-set_box_self (x ∷ bs) (suc h) b c g = get_box-set_box_self bs h b c g

pub get_box-set_box_ne :
    (bs : List Mailbox) (h : ℕ) (c : Mailbox) (j : ℕ)
    → h ≢ j
    → get_box (set_box bs h c) j ≡ get_box bs j
unfolding get_box set_box
get_box-set_box_ne [] h c j n = refl
get_box-set_box_ne (x ∷ bs) zero c zero n = absurd (n refl)
get_box-set_box_ne (x ∷ bs) zero c (suc j) n = refl
get_box-set_box_ne (x ∷ bs) (suc h) c zero n = refl
get_box-set_box_ne (x ∷ bs) (suc h) c (suc j) n = get_box-set_box_ne bs h c j (λ e. n (omega arith))

pub get_box-is_open :
    (bs : List Mailbox) (h : ℕ)
    → is_open bs h ≡ true
    → (b : Mailbox) × (get_box bs h ≡ some b) × (b.done ≡ false)
unfolding get_box is_open
get_box-is_open [] h o = absurd (ground arith)
get_box-is_open (x ∷ bs) zero o = (x, refl, ground arith)
get_box-is_open (x ∷ bs) (suc h) o = get_box-is_open bs h o
