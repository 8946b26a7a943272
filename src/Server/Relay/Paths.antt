-- ===== src/Server/Relay/Paths.antt =====
-- `splitTunnelPath`, `filterHeaders` and `writeResponseHeaders` of internal/server/relay.go.
use selftunnel.Common.{
  ℕ, Bool, true, false, ◌||◌, List, [], ◌∷◌, ◌++◌, none, some, Text, codes, ◌==◌, nat_eq, text_eq,
  lookup, ◌≡◌, refl, sym, ap, arith, Bool-cases, inl, inr, All, if◌then◌else◌, All-append, ==_sound,
  some_inj, append_assoc,
}
use selftunnel.Text.{cut_at, equal_fold}
use selftunnel.Text.Affix.{trim_prefix-append}
use selftunnel.Proto.{Headers}
use selftunnel.Server.Relay.{
  split_tunnel_path, is_hop_by_hop, filter_headers, response_headers, add_all,
}

-- Text without that character.
abbrev pub Free : ℕ → Text → Type 0
Free sep s = All (λ c. (c == sep) ≡ false) s

cut_at-none : (sep : ℕ) (s : Text) → Free sep s → cut_at sep s ≡ (s, none)
unfolding cut_at
cut_at-none sep [] h = refl
cut_at-none sep (c ∷ s) h = rw (h.0, cut_at-none sep s h.1)

cut_at-some : (sep : ℕ) (s r : Text) → Free sep s → cut_at sep (s ++ sep ∷ r) ≡ (s, some r)
unfolding cut_at
cut_at-some sep [] r h = ground arith
cut_at-some sep (c ∷ s) r h = rw (h.0, cut_at-some sep s r h.1)

-- The path of a tunnel splits into the id and the rest, which is `/` where there is none, for every id
-- without a slash.
pub split_tunnel_path_lem :
    (id rest : Text)
    → Free b'/' id
    → (split_tunnel_path (codes "/t/" ++ id ++ b'/' ∷ rest) ≡ (id, b'/' ∷ rest))
      × (split_tunnel_path (codes "/t/" ++ id) ≡ (id, codes "/"))
unfolding split_tunnel_path
split_tunnel_path_lem id rest h = (
  rw (trim_prefix-append (codes "/t/") (id ++ b'/' ∷ rest), cut_at-some b'/' id rest h),
  rw (trim_prefix-append (codes "/t/") id, cut_at-none b'/' id h),
)

-- The filter drops the hop-by-hop headers, whatever the case of their names, and passes every other
-- one on with its values.
pub lookup-filter_headers :
    (k : Text) (h : Headers)
    → lookup k (filter_headers h) ≡ (if is_hop_by_hop k then none else lookup k h)
unfolding filter_headers lookup
lookup-filter_headers k [] = ground arith
lookup-filter_headers k ((j, vv) ∷ h) = elim (Bool-cases (j == k)) [
  | inl same ↦ met (==_sound j k same) same (lookup-filter_headers k h)
  | inr apart ↦ elim (Bool-cases (is_hop_by_hop j)) [
    | inl t ↦ rw (t, apart) (lookup-filter_headers k h)
    | inr f ↦ rw (f, apart) (lookup-filter_headers k h)
  ]
]
  where
    met :
        j ≡ k
        → (j == k) ≡ true
        → lookup k (filter_headers h) ≡ (if is_hop_by_hop k then none else lookup k h)
        → lookup k (if is_hop_by_hop j then filter_headers h else (j, vv) ∷ filter_headers h)
          ≡ (if is_hop_by_hop k then none else if j == k then some vv else lookup k h)
    met q same rest = elim (Bool-cases (is_hop_by_hop k)) [
      | inl t ↦ rw (ap is_hop_by_hop q, t) (rw t at rest)
      | inr f ↦ rw (ap is_hop_by_hop q, f, same)
    ]

-- The names that `writeResponseHeaders` leaves out.
abbrev pub is_skipped : Text → Bool
is_skipped k = is_hop_by_hop k || equal_fold k (codes "Content-Length")

add_all-kept :
    (k : Text) (vs : List Text)
    → is_skipped k ≡ false
    → All (λ (p : Text × Text). is_skipped p.0 ≡ false) (add_all k vs)
add_all-kept k [] h = tt
add_all-kept k (v ∷ vs) h = (h, add_all-kept k vs h)

-- The caller gets no hop-by-hop header and no `Content-Length`, whatever the client's frame lists.
pub response_headers-kept :
    (h : Headers) → All (λ (p : Text × Text). is_skipped p.0 ≡ false) (response_headers h)
unfolding response_headers
response_headers-kept [] = tt
response_headers-kept ((k, vv) ∷ h) = elim (Bool-cases (is_skipped k)) [
  | inl t ↦ rw t (response_headers-kept h)
  | inr f ↦ rw f (
      All-append (λ (p : Text × Text). is_skipped p.0 ≡ false) (add_all k vv) (response_headers h)
        (add_all-kept k vv f) (response_headers-kept h))
]

-- The values of a name stand together in the response.
abbrev pub Adds : Text → List Text → List (Text × Text) → Type 0
Adds k vv out =
    (before : List (Text × Text)) × (after : List (Text × Text)) × (out
      ≡ before ++ (add_all k vv ++ after))

Adds-more :
    (k : Text) (vv : List Text) (front out : List (Text × Text))
    → Adds k vv out
    → Adds k vv (front ++ out)
Adds-more k vv front out (before, after, e) =
    (front ++ before, after, rw e (sym (append_assoc front before (add_all k vv ++ after))))

-- The caller gets every other header that the client's frame has, all its values in their order.
pub response_headers-Adds :
    (k : Text) (vv : List Text) (h : Headers)
    → lookup k h ≡ some vv
    → is_skipped k ≡ false
    → Adds k vv (response_headers h)
unfolding response_headers lookup
response_headers-Adds k vv [] e f = absurd (cc)
response_headers-Adds k vv ((j, ww) ∷ h) e f = elim (Bool-cases (j == k)) [
  | inl same ↦ first (==_sound j k same) (some_inj (rw same at e))
  | inr apart ↦ elim (Bool-cases (is_skipped j)) [
    | inl t ↦ rw t (response_headers-Adds k vv h (rw apart at e) f)
    | inr g ↦ rw g (
        Adds-more k vv (add_all j ww) (response_headers h)
          (response_headers-Adds k vv h (rw apart at e) f))
  ]
]
  where
    first :
        j ≡ k
        → ww ≡ vv
        → Adds k vv
            (if is_skipped j then response_headers h else add_all j ww ++ response_headers h)
    first q r = rw (q, f, r) ([], response_headers h, refl)
