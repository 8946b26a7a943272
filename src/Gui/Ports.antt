-- ===== src/Gui/Ports.antt =====
-- `portOf` of cmd/selftunnel-server-gui/main.go, with `net.SplitHostPort`.
pub mod Laws
use selftunnel.Common.{
  ℕ, ◌+◌, ◌-◌, ◌*◌, ◌%◌, ◌^◌, Bool, true, false, ◌||◌, List, [], ◌∷◌, Option, none, some, Text,
  codes, if◌then◌else◌, ltb, ◌==◌, nat_eq,
}
use selftunnel.Text.{cut_at}

unfoldable pub has_rune : ℕ → Text → Bool
has_rune c [] = false
has_rune c (d ∷ s) = d == c || has_rune c s

abbrev pub cut_later : ℕ → Option (Text × Text) → Option (Text × Text)
cut_later c none = none
cut_later c (some (before, after)) = some (c ∷ before, after)

abbrev pub cut_here : ℕ → ℕ → Text → Option (Text × Text)
cut_here sep c s = if c == sep then some ([], s) else none

abbrev pub last_of : Option (Text × Text) → Option (Text × Text) → Option (Text × Text)
last_of none here = here
last_of (some p) here = some p

-- The text before and after the last `sep`.
unfoldable pub cut_last : ℕ → Text → Option (Text × Text)
cut_last sep [] = none
cut_last sep (c ∷ s) = last_of (cut_later c (cut_last sep s)) (cut_here sep c s)

-- The host between brackets ends just before the last colon.
abbrev pub bracketed : Text → Text × Option Text → Option (Text × Text)
bracketed port (host, none) = none
bracketed port (host, some (c ∷ s)) = none
bracketed port (host, some []) =
    if has_rune b'[' host || has_rune b'[' port || has_rune b']' port
    then none
    else some (host, port)

abbrev pub split_before : Text → Text → Option (Text × Text)
split_before port [] = if has_rune b'[' port || has_rune b']' port then none else some ([], port)
split_before port (c ∷ s) =
    if c == b'['
    then bracketed port (cut_at b']' s)
    else if has_rune b':' (c ∷ s)
    then none
    else if has_rune b'[' (c ∷ s) || has_rune b'[' port
    then none
    else if has_rune b']' (c ∷ s) || has_rune b']' port
    then none
    else some (c ∷ s, port)

abbrev pub split_cut : Option (Text × Text) → Option (Text × Text)
split_cut none = none
split_cut (some (before, port)) = split_before port before

-- `net.SplitHostPort`; `none` is its error.
unfoldable pub split_host_port : Text → Option (Text × Text)
unfolding cut_last
split_host_port hostport = split_cut (cut_last b':' hostport)

abbrev pub default_port : ℕ
default_port = 8080

-- An `int` has 64 bits; the number is its bit pattern.
abbrev pub int_mod : ℕ
int_mod = 2 ^ 64

unfoldable pub port_loop : ℕ → Text → ℕ
port_loop n [] = n
port_loop n (c ∷ s) =
    let rest = port_loop ((n * 10 + (c - b'0')) % int_mod) s in
    if ltb c b'0' || ltb b'9' c then default_port else rest

abbrev pub port_found : Option (Text × Text) → ℕ
port_found none = default_port
port_found (some (host, port)) = port_loop 0 port

unfoldable pub port_of : Text → ℕ
unfolding split_host_port port_loop
port_of addr = port_found (split_host_port addr)
