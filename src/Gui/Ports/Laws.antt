-- ===== src/Gui/Ports/Laws.antt =====
-- The port of a listener's address is read back.
use selftunnel.Common.{
  ℕ, zero, suc, ◌+◌, ◌-◌, ◌*◌, ◌/◌, ◌%◌, ◌≤◌, ◌<◌, false, ◌||◌, [], ◌∷◌, ◌++◌, ◌∷ʳ◌, Option, none,
  some, Text, if◌then◌else◌, ltb, All, All-append, ◌==◌, nat_eq, ◌≡◌, refl, ap, ◌∙◌, arith,
  Bool-cases, inl, inr, ==_refl,
}
use selftunnel.Gui.Ports.{
  has_rune, cut_last, split_before, split_cut, split_host_port, port_loop, port_found, port_of,
  int_mod,
}

-- The decimal digits of a number, for which `fuel` rounds are enough when the number is not more.
unfoldable pub decimal : ℕ → ℕ → Text
decimal zero n = (b'0' + n) ∷ []
decimal (suc fuel) n =
    let rest = decimal fuel (n / 10) in
    if ltb n 10 then (b'0' + n) ∷ [] else rest ∷ʳ (b'0' + n % 10)

abbrev pub IsDigit : ℕ → Type 0
IsDigit c = (b'0' ≤ c) × (c ≤ b'9')

decimal-IsDigit : (fuel n : ℕ) → n ≤ fuel → All IsDigit (decimal fuel n)
unfolding decimal
decimal-IsDigit zero n le = ((omega arith, omega arith), tt)
decimal-IsDigit (suc fuel) n le = elim (Bool-cases (ltb n 10)) [
  | inl small ↦ rw small ((omega arith, ground arith), tt)
  | inr big ↦ rw big (
      All-append IsDigit (decimal fuel (n / 10)) ((b'0' + n % 10) ∷ [])
        (decimal-IsDigit fuel (n / 10) (ground arith)) ((omega arith, omega arith), tt))
]

-- The number that digits stand for, from the left and after the number `n`.
abbrev horner : ℕ → Text → ℕ
horner n [] = n
horner n (c ∷ s) = horner (n * 10 + (c - b'0')) s

horner_snoc : (n : ℕ) (s : Text) (c : ℕ) → horner n (s ∷ʳ c) ≡ horner n s * 10 + (c - b'0')
horner_snoc n [] c = refl
horner_snoc n (d ∷ s) c = horner_snoc (n * 10 + (d - b'0')) s c

horner-decimal : (fuel n : ℕ) → n ≤ fuel → horner 0 (decimal fuel n) ≡ n
unfolding decimal
horner-decimal zero n le = omega arith
horner-decimal (suc fuel) n le = elim (Bool-cases (ltb n 10)) [
  | inl small ↦ rw small (omega arith)
  | inr big ↦
      let before : horner 0 (decimal fuel (n / 10)) ≡ n / 10 =
        horner-decimal fuel (n / 10) (ground arith) in
      rw big (horner_snoc 0 (decimal fuel (n / 10)) (b'0' + n % 10) ∙ rw before (omega arith))
]

horner-le : (n : ℕ) (s : Text) → n ≤ horner n s
horner-le n [] = omega arith
horner-le n (c ∷ s) = omega (arith, horner-le (n * 10 + (c - b'0')) s)

port_loop-horner :
    (n : ℕ) (s : Text) → All IsDigit s → horner n s < int_mod → port_loop n s ≡ horner n s
unfolding port_loop
port_loop-horner n [] ds small = refl
port_loop-horner n (c ∷ s) ds small =
    let m : ℕ = n * 10 + (c - b'0') in
    let fits : m % int_mod ≡ m = omega (arith, horner-le m s, small) in
    let digit : (ltb c b'0' || ltb b'9' c) ≡ false = ground (arith, ds.0) in
    rw (digit, fits) (port_loop-horner m s ds.1 small)

-- A digit is none of the characters that `net.SplitHostPort` looks for.
no_rune : (c : ℕ) (s : Text) → b'9' < c → All IsDigit s → has_rune c s ≡ false
unfolding has_rune
no_rune c [] big ds = refl
no_rune c (d ∷ s) big ds = ground (arith, no_rune c s big ds.1, ds.0)

cut_last-none : (sep : ℕ) (s : Text) → has_rune sep s ≡ false → cut_last sep s ≡ none
unfolding cut_last has_rune
cut_last-none sep [] e = refl
cut_last-none sep (c ∷ s) e =
    let here : (c == sep) ≡ false = ground arith in
    let later : has_rune sep s ≡ false = ground arith in rw (cut_last-none sep s later, here) refl

cut_last_found :
    (sep : ℕ) (s t : Text) → has_rune sep t ≡ false → cut_last sep (s ++ sep ∷ t) ≡ some (s, t)
unfolding cut_last
cut_last_found sep [] t e = rw (cut_last-none sep t e, ==_refl sep) refl
cut_last_found sep (c ∷ s) t e = rw (cut_last_found sep s t e) refl

-- A host without colons and brackets.
pub record IsHost (s : Text) : Type 0 where
  pub no_colon : has_rune b':' s ≡ false
  pub no_left : has_rune b'[' s ≡ false
  pub no_right : has_rune b']' s ≡ false

split_before_host :
    (port host : Text)
    → IsHost host
    → has_rune b'[' port ≡ false
    → has_rune b']' port ≡ false
    → split_before port host ≡ some (host, port)
split_before_host port [] h left right = rw (left, right) refl
split_before_host port (c ∷ s) h left right =
    let first : (c == b'[') ≡ false = unfold has_rune in ground (arith, h.no_left) in
    rw (first, h.no_colon, h.no_left, left, h.no_right, right) refl

-- The address of a listener, a host without colons and brackets and the decimal digits of a port, gives
-- the port back.
pub port_of-decimal :
    (host : Text) (fuel n : ℕ)
    → IsHost host
    → n ≤ fuel
    → n < int_mod
    → port_of (host ++ b':' ∷ decimal fuel n) ≡ n
unfolding port_of split_host_port
port_of-decimal host fuel n h le small =
    let digits : All IsDigit (decimal fuel n) = decimal-IsDigit fuel n le in
    let value : horner 0 (decimal fuel n) ≡ n = horner-decimal fuel n le in
    ap (λ (o : Option (Text × Text)). port_found (split_cut o))
      (cut_last_found b':' host (decimal fuel n)
        (no_rune b':' (decimal fuel n) (omega arith) digits))
    ∙ ap port_found (
        split_before_host (decimal fuel n) host h
          (no_rune b'[' (decimal fuel n) (omega arith) digits)
          (no_rune b']' (decimal fuel n) (omega arith) digits))
    ∙ port_loop-horner 0 (decimal fuel n) digits (rw value small)
    ∙ value
