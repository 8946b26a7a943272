-- ===== src/Server/Registry.antt =====
-- The tunnel registry of internal/server/registry.go: the map of tunnels, its file, and `Register`.
-- A `*Tunnel` is the key under which the map holds it: every entry is made by `newTunnel(id)`, is
-- stored under that id and stays. The file is what `tunnels.json` holds once it is parsed.
pub mod Draws
pub mod Ownership
pub mod Invariant
pub mod Refusal
pub mod Storage
pub mod Listing
pub mod Tests
use selftunnel.Common.{
  ℕ, suc, ◌+◌, Bool, true, false, not, ◌&&◌, ◌||◌, List, [], ◌∷◌, ◌++◌, map, Option, none, some,
  Text, if◌then◌else◌, length, lookup, insert, ◌==◌, text_eq, nat_eq, ltb,
}
use selftunnel.Text.{trim_space, to_lower}
use selftunnel.TunnelId.{id_re_matches, generate_id}
use selftunnel.Base64.{encode, encode_raw_url}

pub record TunnelRecord : Type 0 where
  pub id : Text
  pub secret_hash : Text
  pub target : Text
  pub created_at : ℕ

-- `session` is the place of the online session among the server's sessions.
pub record Tunnel : Type 0 where
  pub id : Text
  pub secret_hash : Text
  pub created_at : ℕ
  pub session : Option ℕ
  pub target : Text
  pub req_count : ℕ

abbrev pub Tunnels : Type 0
Tunnels = List (Text × Tunnel)

unfoldable pub new_tunnel : Text → ℕ → Tunnel
new_tunnel id now = record {
  id = id;
  secret_hash = [];
  created_at = now;
  session = none;
  target = [];
  req_count = 0;
}

-- The state of the file: absent, not readable, not a list of records, or the records.
pub data File : Type 0 where
  missing unreadable malformed : File
  records : List TunnelRecord → File

-- `NewRegistry`, but for the name of the file.
abbrev pub new_registry : Tunnels
new_registry = []

pub data LoadError : Type 0 where
  read_error json_error : LoadError

unfoldable pub restore : TunnelRecord → Tunnel
restore rec = record {
  id = rec.id;
  secret_hash = rec.secret_hash;
  created_at = rec.created_at;
  session = none;
  target = rec.target;
  req_count = 0;
}

unfoldable pub load_records : List TunnelRecord → Tunnels → Tunnels
load_records [] ts = ts
load_records (rec ∷ recs) ts =
    load_records recs (if not (id_re_matches rec.id) then ts else insert rec.id (restore rec) ts)

unfoldable pub load : File → Tunnels → Option LoadError × Tunnels
unfolding load_records
load missing ts = (none, ts)
load unreadable ts = (some read_error, ts)
load malformed ts = (some json_error, ts)
load (records recs) ts = (none, load_records recs ts)

unfoldable pub to_record : Text × Tunnel → TunnelRecord
to_record (k, t) = record {
  id = t.id;
  secret_hash = t.secret_hash;
  target = t.target;
  created_at = t.created_at;
}

-- `saveLocked`: a failed write or rename leaves the old file. The result says whether it worked.
unfoldable pub save_locked : Bool → Tunnels → File → Bool × File
save_locked write_ok ts file =
    if write_ok then (true, records (map to_record ts)) else (false, file)

-- `Get`, and the tests on an entry.
abbrev pub get : Text → Tunnels → Option Tunnel
get = lookup

unfoldable pub count : Tunnels → ℕ
count = length

abbrev pub known : Option Tunnel → Bool
known none = false
known (some t) = true

unfoldable pub with_target : Text → Tunnel → Tunnel
with_target target t = record t { target = target }

abbrev pub set_target_found :
    Bool → Text → Text → Tunnels → File → Option Tunnel → Bool × Tunnels × File
set_target_found write_ok id target ts file none = (false, ts, file)
set_target_found write_ok id target ts file (some t) =
    let ts' = insert id (with_target target t) ts in (true, ts', (save_locked write_ok ts' file).1)

-- `Registry.SetTarget`; a failed save is ignored.
unfoldable pub set_target : Bool → Text → Text → Tunnels → File → Bool × Tunnels × File
set_target write_ok id target ts file = set_target_found write_ok id target ts file (get id ts)

-- What the world gives to one call of `Register`: the time, the draws of `rand.Read` for ids and for
-- the secret (`none` is its error), and whether the file can be written.
pub record Supply : Type 0 where
  pub now : ℕ
  pub id_draws : List (Option (List ℕ))
  pub secret_draw : Option (List ℕ)
  pub write_ok : Bool

pub data Registration : Type 0 where
  registered : Text → Bool → Bool → Text → Registration
  random_failed save_failed : Registration
  -- the draws so far all hit known ids
  drawing : Registration

-- The desired id as it is honoured: trimmed, lowercased, and empty if it does not match.
unfoldable pub clean_desired : Text → Text
clean_desired desired =
    let d = to_lower (trim_space desired) in
    if not (d == []) && not (id_re_matches d) then [] else d

-- `for { id, err := generateID() … }`.
pub data Draw : Type 0 where
  drew : Text → Draw
  draw_failed out_of_draws : Draw

abbrev pub drawn_id : Option Text → Tunnels → Draw → Draw
drawn_id none ts rest = draw_failed
drawn_id (some id) ts rest = if known (lookup id ts) then rest else drew id

unfoldable pub draw_id : List (Option (List ℕ)) → Tunnels → Draw
draw_id [] ts = out_of_draws
draw_id (b ∷ bs) ts = drawn_id (generate_id b) ts (draw_id bs ts)

-- The hash is SHA-256 of the text's UTF-8 form: a parameter.
module _ (sha256 : Text → List ℕ) where
  unfoldable pub hash_secret : Text → Text
  hash_secret secret = encode (sha256 secret)

  unfoldable pub verify_secret : Tunnel → Text → Bool
  verify_secret t secret =
      if t.secret_hash == [] then secret == [] else t.secret_hash == hash_secret secret

  -- The entry of a fresh allocation whose secret is known.
  unfoldable pub owned_tunnel : Text → ℕ → Text → Tunnel
  owned_tunnel id now secret = record (new_tunnel id now) { secret_hash = hash_secret secret }

  -- The end of `Register` for a fresh allocation of `id`, which is in the map by then: the secret is
  -- drawn, its hash is kept, and the registry is saved. A failure leaves the entry in the map.
  unfoldable pub issue :
      Supply → Text → Bool → Tunnels → File → Option (List ℕ) → Registration × Tunnels × File
  unfolding owned_tunnel
  issue w id denied ts file none = (random_failed, insert id (new_tunnel id w.now) ts, file)
  issue w id denied ts file (some b) =
      let s = encode_raw_url b in
      let ts' = insert id (owned_tunnel id w.now s) ts in
      let (ok, file') = save_locked w.write_ok ts' file in
      (if ok then registered id false denied s else save_failed, ts', file')

  unfoldable pub issue_secret :
      Supply → Text → Bool → Tunnels → File → Registration × Tunnels × File
  unfolding issue
  issue_secret w id denied ts file = issue w id denied ts file w.secret_draw

  unfoldable pub allocate : Supply → Draw → Bool → Tunnels → File → Registration × Tunnels × File
  unfolding issue_secret
  allocate w (drew id) denied ts file = issue_secret w id denied ts file
  allocate w draw_failed denied ts file = (random_failed, ts, file)
  allocate w out_of_draws denied ts file = (drawing, ts, file)

  unfoldable pub claim :
      Supply → Text → Text → Tunnels → File → Option Tunnel → Registration × Tunnels × File
  unfolding allocate
  claim w d secret ts file none = issue_secret w d false ts file
  claim w d secret ts file (some t) =
      if verify_secret t secret
      then (registered d true false [], ts, file)
      else allocate w (draw_id w.id_draws ts) true ts file

  unfoldable pub register : Supply → Text → Text → Tunnels → File → Registration × Tunnels × File
  unfolding claim
  register w desired secret ts file =
      let d = clean_desired desired in
      if d == []
      then allocate w (draw_id w.id_draws ts) false ts file
      else claim w d secret ts file (lookup d ts)
