-- ===== src/Server/Registry/Tests.antt =====
-- The registry on examples: the theorems at inputs that meet their hypotheses, and a few runs.
use selftunnel.Common.{
  ℕ, ◌%◌, ◌+◌, true, false, List, [], ◌∷◌, map, none, some, Text, codes, length, lookup, insert,
  text_eq, text_beq, ◌≡◌, refl, arith,
}
use selftunnel.Text.{trim_space, trim_left, trim_right, to_lower, is_space, lower_rune}
use selftunnel.TunnelId.{id_re_matches, all_id_runes, is_id_rune}
use selftunnel.Base64.{encode, encode_raw_url, letter, url_letter}
use selftunnel.Server.Registry.{
  Tunnel, Tunnels, missing, records, Supply, registered, clean_desired, new_tunnel, owned_tunnel,
  register, claim, issue, issue_secret, hash_secret, verify_secret, load, save_locked, to_record,
  new_registry,
}
use selftunnel.Server.Registry.Ownership.{register_reclaims}
use selftunnel.Server.Registry.Invariant.{IsRegistry, register_preserves}
use selftunnel.Server.Registry.Storage.{restored, load-save_locked}

-- A hash of 32 bytes that stands in for SHA-256.
unfoldable pub demo_sum : Text → ℕ
demo_sum [] = 0
demo_sum (c ∷ s) = (c + demo_sum s) % 256

unfoldable pub demo_hash : Text → List ℕ
demo_hash s =
    demo_sum s
    ∷ 0
    ∷ 0
    ∷ 0
    ∷ 0
    ∷ 0
    ∷ 0
    ∷ 0
    ∷ 0
    ∷ 0
    ∷ 0
    ∷ 0
    ∷ 0
    ∷ 0
    ∷ 0
    ∷ 0
    ∷ 0
    ∷ 0
    ∷ 0
    ∷ 0
    ∷ 0
    ∷ 0
    ∷ 0
    ∷ 0
    ∷ 0
    ∷ 0
    ∷ 0
    ∷ 0
    ∷ 0
    ∷ 0
    ∷ 0
    ∷ 0
    ∷ []

demo_digest : (s : Text) → length (demo_hash s) ≡ 32
unfolding demo_hash
demo_digest s = refl

abbrev pub supply : Supply
supply = record {
  now = 7;
  id_draws = some (0 ∷ 1 ∷ 2 ∷ 3 ∷ 4 ∷ 5 ∷ 6 ∷ 7 ∷ []) ∷ [];
  secret_draw = some (1 ∷ 2 ∷ 3 ∷ []);
  write_ok = true;
}

abbrev pub desired_id : Text
desired_id = codes "ab12cd34"

abbrev pub mine : Tunnel
mine = owned_tunnel demo_hash desired_id 7 (codes "AQID")

desired_clean : clean_desired (codes " AB12CD34 ") ≡ desired_id
unfolding clean_desired trim_space trim_left trim_right is_space to_lower lower_rune id_re_matches
    all_id_runes is_id_rune text_beq
desired_clean = refl

first_call : register demo_hash supply (codes " AB12CD34 ") [] [] missing ≡ (
  registered desired_id false false (codes "AQID"),
  (desired_id, mine) ∷ [],
  records (map to_record ((desired_id, mine) ∷ [])),
)
unfolding register claim issue_secret issue save_locked encode_raw_url url_letter letter insert
    lookup text_beq clean_desired trim_space trim_left trim_right is_space to_lower lower_rune
    id_re_matches all_id_runes is_id_rune
first_call = refl

register_reclaims_example :
    register demo_hash supply desired_id (codes "AQID") ((desired_id, mine) ∷ []) missing
    ≡ (registered desired_id true false [], (desired_id, mine) ∷ [], missing)
register_reclaims_example =
    register_reclaims demo_hash demo_digest supply (codes " AB12CD34 ") [] [] missing desired_id
      false (codes "AQID") _ (records (map to_record ((desired_id, mine) ∷ []))) supply missing
      (omega arith) first_call

abbrev held : Tunnels
held = (desired_id, mine) ∷ []

held-IsRegistry : IsRegistry held
unfolding id_re_matches all_id_runes is_id_rune owned_tunnel new_tunnel lookup
held-IsRegistry = record { entries = ((refl, refl), tt); distinct = (refl, tt) }

found_held : lookup desired_id held ≡ some mine
unfolding lookup text_beq
found_held = refl

second_call :
    register demo_hash supply desired_id (codes "AQID") held missing
    ≡ (registered desired_id true false [], held, missing)
unfolding register claim lookup text_beq clean_desired trim_space trim_left trim_right is_space
    to_lower lower_rune id_re_matches all_id_runes is_id_rune verify_secret owned_tunnel new_tunnel
    hash_secret demo_hash demo_sum encode letter
second_call = refl

abbrev wrong_secret : Text
wrong_secret = codes "BBBB"

refuses_wrong : verify_secret demo_hash mine wrong_secret ≡ false
unfolding verify_secret owned_tunnel new_tunnel hash_secret demo_hash demo_sum encode letter
    text_beq
refuses_wrong = refl

abbrev drawn_entry : Tunnel
drawn_entry = owned_tunnel demo_hash (codes "abcdefgh") 7 (codes "AQID")

abbrev two_tunnels : Tunnels
two_tunnels = (desired_id, mine) ∷ (codes "abcdefgh", drawn_entry) ∷ []

register_preserves_example :
    lookup desired_id (register demo_hash supply desired_id wrong_secret held missing).1 ≡ some mine
register_preserves_example =
    register_preserves demo_hash supply desired_id wrong_secret held missing desired_id mine
      (omega arith) found_held

abbrev no_disk : Supply
no_disk = record supply { write_ok = false }

load-save_locked_example :
    ((load (save_locked true held missing).1 new_registry).0 ≡ none)
    × (lookup desired_id (load (save_locked true held missing).1 new_registry).1
        ≡ restored (lookup desired_id held) none)
load-save_locked_example = load-save_locked held missing desired_id held-IsRegistry
