-- ===== src/Base64/Laws.antt =====
-- Every list of bytes is decoded from its encoding.
use selftunnel.Common.{
  ℕ, ◌+◌, ◌*◌, ◌/◌, ◌%◌, ◌<◌, false, List, [], ◌∷◌, Option, some, Text, nat_eq, ◌≡◌, ◌∙◌, ◌≢◌, refl,
  ap, nat_beq, arith, All,
}
use selftunnel.Base64.{
  letter, digit, encode, decode, decode_groups, skip_newlines, prepend, full_group, last_group,
}

digit-letter : (v : ℕ) → v < 64 → digit (letter v) ≡ some v
unfolding digit letter
digit-letter v h = ground arith

letter_plain : (v : ℕ) → v < 64 → (letter v ≢ b'=') × (letter v ≢ 10) × (letter v ≢ 13)
unfolding letter
letter_plain v h = ground arith

abbrev pub IsByte : ℕ → Type 0
IsByte c = c < 256

skip_letter :
    (v : ℕ) (s : Text) → v < 64 → skip_newlines (letter v ∷ s) ≡ letter v ∷ skip_newlines s
unfolding skip_newlines
skip_letter v s h = ground (arith, letter_plain v h)

skip_pad : (s : Text) → skip_newlines (b'=' ∷ s) ≡ b'=' ∷ skip_newlines s
unfolding skip_newlines
skip_pad s = refl

digits_of_triple :
    (a b c : ℕ)
    → IsByte a
    → IsByte b
    → IsByte c
    → (a / 4 < 64) × (a % 4 * 16 + b / 16 < 64) × (b % 16 * 4 + c / 64 < 64) × (c % 64 < 64)
digits_of_triple a b c ha hb hc = omega arith

bytes_of_triple :
    (a b c : ℕ)
    → IsByte a
    → IsByte b
    → IsByte c
    → (a / 4 * 4 + (a % 4 * 16 + b / 16) / 16)
        ∷ ((a % 4 * 16 + b / 16) % 16 * 16 + (b % 16 * 4 + c / 64) / 4)
        ∷ ((b % 16 * 4 + c / 64) % 4 * 64 + c % 64)
        ∷ []
      ≡ a ∷ b ∷ c ∷ []
bytes_of_triple a b c ha hb hc = ground arith

full_group-letters :
    (a b c : ℕ) (rest : Option (List ℕ))
    → IsByte a
    → IsByte b
    → IsByte c
    → full_group
        (letter (a / 4))
        (letter (a % 4 * 16 + b / 16))
        (letter (b % 16 * 4 + c / 64))
        (letter (c % 64))
        rest
      ≡ prepend (a ∷ b ∷ c ∷ []) rest
full_group-letters a b c rest ha hb hc =
    let (h0, h1, h2, h3) = digits_of_triple a b c ha hb hc in
    rw (digit-letter _ h0, digit-letter _ h1, digit-letter _ h2, digit-letter _ h3)
      (ap (λ (bs : List ℕ). prepend bs rest) (bytes_of_triple a b c ha hb hc))

letter_no_pad : (v : ℕ) → v < 64 → nat_beq (letter v) b'=' ≡ false
letter_no_pad v h = ground (arith, letter_plain v h)

last_group-three :
    (a b c : ℕ)
    → IsByte a
    → IsByte b
    → IsByte c
    → last_group
        (letter (a / 4))
        (letter (a % 4 * 16 + b / 16))
        (letter (b % 16 * 4 + c / 64))
        (letter (c % 64))
      ≡ some (a ∷ b ∷ c ∷ [])
last_group-three a b c ha hb hc =
    let (h0, h1, h2, h3) = digits_of_triple a b c ha hb hc in
    rw
      (
        digit-letter _ h0,
        digit-letter _ h1,
        letter_no_pad _ h3,
        digit-letter _ h2,
        digit-letter _ h3,
      )
      (ap some (bytes_of_triple a b c ha hb hc))

last_group-two :
    (a b : ℕ)
    → IsByte a
    → IsByte b
    → last_group (letter (a / 4)) (letter (a % 4 * 16 + b / 16)) (letter (b % 16 * 4)) b'='
      ≡ some (a ∷ b ∷ [])
last_group-two a b ha hb =
    let h0 : a / 4 < 64 = omega arith in
    let h1 : a % 4 * 16 + b / 16 < 64 = omega arith in
    let h2 : b % 16 * 4 < 64 = omega arith in
    rw (digit-letter _ h0, digit-letter _ h1, letter_no_pad _ h2, digit-letter _ h2) (ground arith)

last_group-one :
    (a : ℕ) → IsByte a → last_group (letter (a / 4)) (letter (a % 4 * 16)) b'=' b'=' ≡ some (a ∷ [])
last_group-one a ha =
    let h0 : a / 4 < 64 = omega arith in
    let h1 : a % 4 * 16 < 64 = omega arith in
    rw (digit-letter _ h0, digit-letter _ h1) (ground arith)

-- Letters are no line ends, so the decoder reads all of an encoding.
skip-encode : (s : List ℕ) → All IsByte s → skip_newlines (encode s) ≡ encode s
unfolding encode
skip-encode [] h = unfold skip_newlines in refl
skip-encode (a ∷ []) h =
    rw (skip_letter (a / 4) _ (omega arith), skip_letter (a % 4 * 16) _ (omega arith))
      (unfold skip_newlines in refl)
skip-encode (a ∷ b ∷ []) h =
    rw
      (
        skip_letter (a / 4) _ (omega arith),
        skip_letter (a % 4 * 16 + b / 16) _ (omega arith),
        skip_letter (b % 16 * 4) _ (omega arith),
      )
      (unfold skip_newlines in refl)
skip-encode (a ∷ b ∷ c ∷ s) h =
    let (h0, h1, h2, h3) = digits_of_triple a b c h.0 h.1.0 h.1.1.0 in
    rw (
      skip_letter (a / 4) _ h0,
      skip_letter (a % 4 * 16 + b / 16) _ h1,
      skip_letter (b % 16 * 4 + c / 64) _ h2,
      skip_letter (c % 64) _ h3,
      skip-encode s h.1.1.1,
    )

pub encode-cons : (d : ℕ) (s : List ℕ) → (x : ℕ) × (t : Text) × (encode (d ∷ s) ≡ x ∷ t)
unfolding encode
encode-cons d [] = (_, _, refl)
encode-cons d (b ∷ []) = (_, _, refl)
encode-cons d (b ∷ c ∷ s) = (_, _, refl)

more_groups :
    (x y z w : ℕ) (t : Text) (v : ℕ) (r : Text)
    → t ≡ v ∷ r
    → decode_groups (x ∷ y ∷ z ∷ w ∷ t) ≡ full_group x y z w (decode_groups t)
more_groups x y z w t v r e = rw e (unfold decode_groups in refl)

decode_groups-encode : (s : List ℕ) → All IsByte s → decode_groups (encode s) ≡ some s
unfolding encode decode_groups
decode_groups-encode [] h = refl
decode_groups-encode (a ∷ []) (ha, _) = last_group-one a ha
decode_groups-encode (a ∷ b ∷ []) h = last_group-two a b h.0 h.1.0
decode_groups-encode (a ∷ b ∷ c ∷ []) h = last_group-three a b c h.0 h.1.0 h.1.1.0
decode_groups-encode (a ∷ b ∷ c ∷ d ∷ s) h =
    let (x, t, e) = encode-cons d s in
    more_groups _ _ _ _ _ x t e
    ∙ full_group-letters a b c _ h.0 h.1.0 h.1.1.0
    ∙ ap (prepend (a ∷ b ∷ c ∷ [])) (decode_groups-encode (d ∷ s) h.1.1.1)

-- What the sender encodes is what the receiver decodes, for every list of bytes.
pub decode-encode : (s : List ℕ) → All IsByte s → decode (encode s) ≡ some s
unfolding decode
decode-encode s h = rw (skip-encode s h) (decode_groups-encode s h)
