-- ===== src/Base64/Tests.antt =====
-- Encodings on examples.
use selftunnel.Common.{[], ◌∷◌, some, none, codes, ◌≡◌, refl}
use selftunnel.Base64.{encode, decode, skip_newlines, letter, digit, encode_raw_url, url_letter}

encoded : encode (codes "hello") ≡ codes "aGVsbG8="
unfolding encode letter
encoded = refl

decoded : decode (codes "aGVs\nbG8=") ≡ some (codes "hello")
unfolding decode skip_newlines digit
decoded = refl

malformed : decode (codes "aGV") ≡ none
unfolding decode skip_newlines digit
malformed = refl

raw_url : encode_raw_url (251 ∷ 255 ∷ []) ≡ codes "-_8"
unfolding encode_raw_url url_letter letter
raw_url = refl
