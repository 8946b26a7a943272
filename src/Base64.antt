-- ===== src/Base64.antt =====
-- Go's `encoding/base64`, as the program uses it: `StdEncoding` for bodies and hashes, and
-- `RawURLEncoding` for the ownership secret.
pub mod Laws
mod Tests
use selftunnel.Common.{
  ℕ, ◌+◌, ◌-◌, ◌*◌, ◌/◌, ◌%◌, ◌<◌, Bool, true, false, ◌&&◌, ◌||◌, not, List, [], ◌∷◌, ◌++◌, Option,
  none, some, Text, ltb, leb, ◌==◌, nat_eq, if◌then◌else◌,
}

-- The letter of a six-bit digit, and the digit of a letter.
unfoldable pub letter : ℕ → ℕ
letter v =
    if ltb v 26
    then b'A' + v
    else if ltb v 52
    then b'a' + (v - 26)
    else if ltb v 62
    then b'0' + (v - 52)
    else if v == 62
    then b'+'
    else b'/'

unfoldable pub digit : ℕ → Option ℕ
digit c =
    if leb b'A' c && leb c b'Z'
    then some (c - b'A')
    else if leb b'a' c && leb c b'z'
    then some (c - b'a' + 26)
    else if leb b'0' c && leb c b'9'
    then some (c - b'0' + 52)
    else if c == b'+'
    then some 62
    else if c == b'/'
    then some 63
    else none

-- `StdEncoding.EncodeToString`.
unfoldable pub encode : List ℕ → Text
encode [] = []
encode (a ∷ []) = letter (a / 4) ∷ letter (a % 4 * 16) ∷ b'=' ∷ b'=' ∷ []
encode (a ∷ b ∷ []) =
    letter (a / 4) ∷ letter (a % 4 * 16 + b / 16) ∷ letter (b % 16 * 4) ∷ b'=' ∷ []
encode (a ∷ b ∷ c ∷ s) =
    letter (a / 4)
    ∷ letter (a % 4 * 16 + b / 16)
    ∷ letter (b % 16 * 4 + c / 64)
    ∷ letter (c % 64)
    ∷ encode s

-- `DecodeString` skips line ends.
unfoldable pub skip_newlines : Text → Text
skip_newlines [] = []
skip_newlines (c ∷ s) = if c == 10 || c == 13 then skip_newlines s else c ∷ skip_newlines s

abbrev pub prepend : List ℕ → Option (List ℕ) → Option (List ℕ)
prepend b none = none
prepend b (some s) = some (b ++ s)

infixl 5 ◌>>=◌
abbrev pub ◌>>=◌ {ℓ κ} : {A : Type ℓ} {B : Type κ} → Option A → (A → Option B) → Option B
none >>= f = none
some a >>= f = f a

abbrev pub full_group : ℕ → ℕ → ℕ → ℕ → Option (List ℕ) → Option (List ℕ)
full_group x y z w rest = do
  a ← digit x
  b ← digit y
  c ← digit z
  d ← digit w
  prepend ((a * 4 + b / 16) ∷ (b % 16 * 16 + c / 4) ∷ (c % 4 * 64 + d) ∷ []) rest

-- A last group may end in one or two padding characters.
abbrev pub last_group : ℕ → ℕ → ℕ → ℕ → Option (List ℕ)
last_group x y z w = do
  a ← digit x
  b ← digit y
  let one = some ((a * 4 + b / 16) ∷ [])
  let two = digit z >>= (λ c. some ((a * 4 + b / 16) ∷ (b % 16 * 16 + c / 4) ∷ []))
  let three = full_group x y z w (some [])
  if w == b'=' then if z == b'=' then one else two else three

unfoldable pub decode_groups : Text → Option (List ℕ)
decode_groups [] = some []
decode_groups (x ∷ []) = none
decode_groups (x ∷ y ∷ []) = none
decode_groups (x ∷ y ∷ z ∷ []) = none
decode_groups (x ∷ y ∷ z ∷ w ∷ []) = last_group x y z w
decode_groups (x ∷ y ∷ z ∷ w ∷ v ∷ s) = full_group x y z w (decode_groups (v ∷ s))

unfoldable pub decode : Text → Option (List ℕ)
unfolding decode_groups skip_newlines
decode s = decode_groups (skip_newlines s)

-- `RawURLEncoding.EncodeToString`: another pair of letters, and no padding.
unfoldable pub url_letter : ℕ → ℕ
url_letter v = if v == 62 then b'-' else if v == 63 then b'_' else letter v

unfoldable pub encode_raw_url : List ℕ → Text
encode_raw_url [] = []
encode_raw_url (a ∷ []) = url_letter (a / 4) ∷ url_letter (a % 4 * 16) ∷ []
encode_raw_url (a ∷ b ∷ []) =
    url_letter (a / 4) ∷ url_letter (a % 4 * 16 + b / 16) ∷ url_letter (b % 16 * 4) ∷ []
encode_raw_url (a ∷ b ∷ c ∷ s) =
    url_letter (a / 4)
    ∷ url_letter (a % 4 * 16 + b / 16)
    ∷ url_letter (b % 16 * 4 + c / 64)
    ∷ url_letter (c % 64)
    ∷ encode_raw_url s
