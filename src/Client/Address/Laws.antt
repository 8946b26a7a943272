-- ===== src/Client/Address/Laws.antt =====
-- Every input is normalized to a WebSocket address of the intake path, once and for all; the public
-- address gives the host back.
use selftunnel.Common.{
  ℕ, false, [], ◌∷◌, ◌++◌, ◌∷ʳ◌, Text, ◌==◌, nat_eq, text_eq, codes, drop, ◌≡◌, ◌≢◌, refl, sym, ap,
  ◌∙◌, arith, Bool-cases, inl, inr, ◌⊎◌, append_assoc, text_beq_sound, text_beq,
}
use selftunnel.Text.{
  has_prefix, has_suffix, trim_suffix, trim_space, cut_prefix, cut_suffix, is_space, trim_left,
  trim_right,
}
use selftunnel.Text.Affix.{
  has_prefix-append, has_prefix_sound, has_suffix-append, has_suffix_sound, trim_suffix-append,
  trim_suffix-append_long,
}
use selftunnel.Text.Trim.{trim_space_ink}
use selftunnel.Client.Address.{
  intake_path, ws_scheme, with_intake_path, normalize_server, http_scheme, public_tunnel_url,
}

-- `wss://` or `ws://` in front, and the path of the tunnel intake at the end.
pub record IsIntake (r : Text) : Type 0 where
  pub scheme : ((t : Text) × (r ≡ codes "wss://" ++ t)) ⊎ ((t : Text) × (r ≡ codes "ws://" ++ t))
  pub path : (b : Text) × (r ≡ b ++ intake_path)

-- A text with one of the two schemes.
abbrev HasWs : Text → Type 0
HasWs r = ((t : Text) × (r ≡ codes "wss://" ++ t)) ⊎ ((t : Text) × (r ≡ codes "ws://" ++ t))

ws_scheme-HasWs : (s : Text) → HasWs (ws_scheme s)
unfolding ws_scheme
ws_scheme-HasWs s = elim (Bool-cases (has_prefix s (codes "https://"))) [
  | inl a ↦ rw a (inl (drop 8 s, refl))
  | inr a ↦ elim (Bool-cases (has_prefix s (codes "http://"))) [
    | inl b ↦ rw (a, b) (inr (drop 7 s, refl))
    | inr b ↦ elim (Bool-cases (has_prefix s (codes "wss://"))) [
      | inl c ↦ rw (a, b, c) (inl (has_prefix_sound s (codes "wss://") c))
      | inr c ↦ elim (Bool-cases (has_prefix s (codes "ws://"))) [
        | inl d ↦ rw (a, b, c, d) (inr (has_prefix_sound s (codes "ws://") d))
        | inr d ↦ rw (a, b, c, d) (inl (s, refl))
      ]
    ]
  ]
]

-- The intake path leaves what stands in front of it.
with_intake_path-append : (p t : Text) → (u : Text) × (with_intake_path (p ++ t) ≡ p ++ u)
unfolding with_intake_path
with_intake_path-append p t = elim (Bool-cases (has_suffix (p ++ t) intake_path)) [
  | inl a ↦ (t, rw a)
  | inr a ↦ (t ++ intake_path, rw a (append_assoc p t intake_path))
]

-- Dropping the last slash cannot damage the scheme: where it does, the intake path mends it.
keeps_wss :
    (t : Text)
    → (u : Text) × (with_intake_path (trim_suffix (codes "wss://" ++ t) (codes "/"))
        ≡ codes "wss://" ++ u)
keeps_wss [] =
    unfold with_intake_path trim_suffix cut_suffix has_suffix text_beq in (codes "ws/tunnel", refl)
keeps_wss (x ∷ t) =
    rw (trim_suffix-append_long (codes "wss://") (x ∷ t) (codes "/") (omega arith))
      (with_intake_path-append (codes "wss://") (trim_suffix (x ∷ t) (codes "/")))

keeps_ws :
    (t : Text)
    → (u : Text) × (with_intake_path (trim_suffix (codes "ws://" ++ t) (codes "/"))
        ≡ codes "ws://" ++ u)
keeps_ws [] =
    unfold with_intake_path trim_suffix cut_suffix has_suffix text_beq in (codes "ws/tunnel", refl)
keeps_ws (x ∷ t) =
    rw (trim_suffix-append_long (codes "ws://") (x ∷ t) (codes "/") (omega arith))
      (with_intake_path-append (codes "ws://") (trim_suffix (x ∷ t) (codes "/")))

keeps_scheme : (w : Text) → HasWs w → HasWs (with_intake_path (trim_suffix w (codes "/")))
keeps_scheme w (inl (t, e)) = rw e (inl (keeps_wss t))
keeps_scheme w (inr (t, e)) = rw e (inr (keeps_ws t))

with_intake_path-path : (s : Text) → (b : Text) × (with_intake_path s ≡ b ++ intake_path)
unfolding with_intake_path
with_intake_path-path s = elim (Bool-cases (has_suffix s intake_path)) [
  | inl a ↦ rw a (has_suffix_sound s intake_path a)
  | inr a ↦ rw a (s, refl)
]

-- White space gives the empty text; any other input gives an intake address.
pub normalize_server_shape :
    (url : Text)
    → ((trim_space url ≡ []) × (normalize_server url ≡ [])) ⊎ IsIntake (normalize_server url)
unfolding normalize_server
normalize_server_shape url = elim (Bool-cases (trim_space url == [])) [
  | inl a ↦ inl (text_beq_sound (trim_space url) [] a, rw a)
  | inr a ↦ rw a (
      inr (record {
        scheme = keeps_scheme (ws_scheme (trim_space url)) (ws_scheme-HasWs (trim_space url));
        path = with_intake_path-path (trim_suffix (ws_scheme (trim_space url)) (codes "/"));
      }))
]

ends_with_l : (b : Text) → b ++ intake_path ≡ (b ++ codes "/ws/tunne") ∷ʳ b'l'
ends_with_l b = sym (append_assoc b (codes "/ws/tunne") (codes "l"))

-- A scheme starts with `w`, the path with a slash, so something of the scheme is in front.
front : (b u : Text) → b ++ intake_path ≡ b'w' ∷ u → (c : Text) × (b ≡ b'w' ∷ c)
front [] u e = absurd (ground arith)
front (x ∷ c) u e = (c, ground arith)

trim_space_path :
    (b u : Text) → b ++ intake_path ≡ b'w' ∷ u → trim_space (b ++ intake_path) ≡ b ++ intake_path
trim_space_path b u e =
    let (c, ec) = front b u e in
    rw (ec, ends_with_l (b'w' ∷ c))
      (trim_space_ink b'w' (c ++ codes "/ws/tunne") b'l' (unfold is_space in refl)
        (unfold is_space in refl))

slash_kept : (b : Text) → trim_suffix (b ++ intake_path) (codes "/") ≡ b ++ intake_path
slash_kept b =
    trim_suffix-append_long b intake_path (codes "/") (omega arith)
    ∙ unfold trim_suffix cut_suffix text_beq in refl

with_intake_path_kept : (b : Text) → with_intake_path (b ++ intake_path) ≡ b ++ intake_path
unfolding with_intake_path
with_intake_path_kept b = rw (has_suffix-append b intake_path)

wss_kept : (t : Text) → ws_scheme (codes "wss://" ++ t) ≡ codes "wss://" ++ t
unfolding ws_scheme has_prefix cut_prefix
wss_kept [] = refl
wss_kept (c ∷ t) = refl

ws_kept : (t : Text) → ws_scheme (codes "ws://" ++ t) ≡ codes "ws://" ++ t
unfolding ws_scheme has_prefix cut_prefix
ws_kept [] = refl
ws_kept (c ∷ t) = refl

ws_scheme_kept : (r : Text) → HasWs r → ws_scheme r ≡ r
ws_scheme_kept r (inl (t, e)) = rw e (wss_kept t)
ws_scheme_kept r (inr (t, e)) = rw e (ws_kept t)

HasWs-w : (r : Text) → HasWs r → (u : Text) × (r ≡ b'w' ∷ u)
HasWs-w r (inl (t, e)) = (codes "ss://" ++ t, e)
HasWs-w r (inr (t, e)) = (codes "s://" ++ t, e)

-- An intake address is its own normal form.
pub normalize_server-IsIntake : (r : Text) → IsIntake r → normalize_server r ≡ r
unfolding normalize_server
normalize_server-IsIntake r i =
    let (u, ew) = HasWs-w r i.scheme in
    let (b, eb) = i.path in
    let trimmed : trim_space r ≡ r = rw eb (trim_space_path b u (sym eb ∙ ew)) in
    let nonempty : (r == []) ≡ false = rw ew (unfold text_beq in refl) in
    rw (trimmed, nonempty, ws_scheme_kept r i.scheme, eb, slash_kept b) (with_intake_path_kept b)

-- Normalizing twice is normalizing once, for every input.
pub normalize_server_idem :
    (url : Text) → normalize_server (normalize_server url) ≡ normalize_server url
normalize_server_idem url = elim (normalize_server_shape url) [
  | inl (_, e) ↦ rw e (unfold normalize_server trim_space trim_left trim_right text_beq in refl)
  | inr i ↦ normalize_server-IsIntake (normalize_server url) i
]

-- The last character is no slash.
pub last_kept : (p : Text) (c : ℕ) → c ≢ b'/' → trim_suffix (p ∷ʳ c) (codes "/") ≡ p ∷ʳ c
last_kept p c h =
    trim_suffix-append_long p (c ∷ []) (codes "/") (omega arith) ∙ ap (◌++◌ p) (single c h)
  where
    single : (c : ℕ) → c ≢ b'/' → trim_suffix (c ∷ []) (codes "/") ≡ c ∷ []
    single c h = unfold trim_suffix cut_suffix text_beq in ground arith

not_https : (h : Text) → has_prefix (codes "http://" ++ h) (codes "https://") ≡ false
unfolding has_prefix cut_prefix
not_https h = refl

http_of_wss : (h : Text) → http_scheme (codes "wss://" ++ h) ≡ codes "https://" ++ h
unfolding http_scheme
http_of_wss h = rw (has_prefix-append (codes "wss://") h)

http_of_ws : (h : Text) → http_scheme (codes "ws://" ++ h) ≡ codes "http://" ++ h
unfolding http_scheme
http_of_ws h = rw (not_wss h, has_prefix-append (codes "ws://") h)
  where
    not_wss : (h : Text) → has_prefix (codes "ws://" ++ h) (codes "wss://") ≡ false
    not_wss h = unfold has_prefix cut_prefix in refl

module _ (s : Text) (c : ℕ) (id : Text) (ink : is_space c ≡ false) (no_slash : c ≢ b'/') where
  trimmed_url :
      (x : ℕ) (p : Text)
      → is_space x ≡ false
      → trim_space ((x ∷ p) ++ (s ∷ʳ c)) ≡ (x ∷ p) ++ (s ∷ʳ c)
  trimmed_url x p hx = rw (← append_assoc p s (c ∷ [])) (trim_space_ink x (p ++ s) c hx ink)

  pub kept : (p : Text) → trim_suffix (p ++ (s ∷ʳ c)) (codes "/") ≡ p ++ (s ∷ʳ c)
  kept p = rw (← append_assoc p s (c ∷ [])) (last_kept (p ++ s) c no_slash)

  normalize_https :
      has_suffix (codes "wss://" ++ (s ∷ʳ c)) intake_path ≡ false
      → normalize_server (codes "https://" ++ (s ∷ʳ c))
        ≡ (codes "wss://" ++ (s ∷ʳ c)) ++ intake_path
  unfolding normalize_server ws_scheme with_intake_path
  normalize_https h =
      rw
        (
          trimmed_url b'h' (codes "ttps://") (unfold is_space in refl),
          has_prefix-append (codes "https://") (s ∷ʳ c),
          kept (codes "wss://"),
          h,
        )
        (unfold text_beq in refl)

  normalize_http :
      has_suffix (codes "ws://" ++ (s ∷ʳ c)) intake_path ≡ false
      → normalize_server (codes "http://" ++ (s ∷ʳ c)) ≡ (codes "ws://" ++ (s ∷ʳ c)) ++ intake_path
  unfolding normalize_server ws_scheme with_intake_path
  normalize_http h =
      rw
        (
          trimmed_url b'h' (codes "ttp://") (unfold is_space in refl),
          not_https (s ∷ʳ c),
          has_prefix-append (codes "http://") (s ∷ʳ c),
          kept (codes "ws://"),
          h,
        )
        (unfold text_beq in refl)

  -- A public address that does not end in a slash, in white space or in the intake path: the client
  -- shows it again, with the tunnel's path behind it, under the scheme it had.
  pub public_tunnel_url-normalize_server :
      has_suffix (codes "wss://" ++ (s ∷ʳ c)) intake_path ≡ false
      → has_suffix (codes "ws://" ++ (s ∷ʳ c)) intake_path ≡ false
      → (public_tunnel_url (normalize_server (codes "https://" ++ (s ∷ʳ c))) id
          ≡ (codes "https://" ++ (s ∷ʳ c)) ++ codes "/t/" ++ id)
        × (public_tunnel_url (normalize_server (codes "http://" ++ (s ∷ʳ c))) id
            ≡ (codes "http://" ++ (s ∷ʳ c)) ++ codes "/t/" ++ id)
  unfolding public_tunnel_url
  public_tunnel_url-normalize_server h h' = (
    rw (
      normalize_https h,
      trim_suffix-append (codes "wss://" ++ (s ∷ʳ c)) intake_path,
      http_of_wss (s ∷ʳ c),
    ),
    rw (
      normalize_http h',
      trim_suffix-append (codes "ws://" ++ (s ∷ʳ c)) intake_path,
      http_of_ws (s ∷ʳ c),
    ),
  )
