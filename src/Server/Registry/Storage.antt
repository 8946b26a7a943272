-- ===== src/Server/Registry/Storage.antt =====
-- The registry file: what is saved is what is loaded.
use selftunnel.Common.{
  true, not, List, [], ◌∷◌, map, Option, none, some, Text, if◌then◌else◌, All, Distinct, lookup,
  insert, lookup-insert, ◌==◌, text_eq, ==_sound, ◌≡◌, refl, ap, ◌∙◌, Bool-cases, inl, inr,
}
use selftunnel.TunnelId.{id_re_matches}
use selftunnel.Server.Registry.Invariant.{IsEntry, IsRegistry, insert-IsRegistry}
use selftunnel.Server.Registry.{
  Tunnel, TunnelRecord, Tunnels, File, records, missing, unreadable, malformed, new_registry,
  restore, load_records, load, to_record, save_locked,
}

-- What a restart keeps of a tunnel: its ownership data and target.
abbrev pub offline : Tunnel → Tunnel
offline t = record t { session = none; req_count = 0 }

abbrev pub restored : Option Tunnel → Option Tunnel → Option Tunnel
restored none o = o
restored (some t) o = some (offline t)

restore-to_record : (k : Text) (t : Tunnel) → restore (to_record (k, t)) ≡ offline t
unfolding restore to_record
restore-to_record k t = refl

loaded_entry :
    (x j : Text) (v : Tunnel) (acc : Tunnels)
    → x ≡ j
    → id_re_matches j ≡ true
    → (if not (id_re_matches x) then acc else insert x v acc) ≡ insert j v acc
loaded_entry x j v acc e valid = rw (e, valid)

lookup_after :
    (j k : Text) (t : Tunnel) (ts acc : Tunnels)
    → lookup j ts ≡ none
    → restored (lookup k ts) (lookup k (insert j (offline t) acc))
      ≡ restored (if j == k then some t else lookup k ts) (lookup k acc)
lookup_after j k t ts acc new = elim (Bool-cases (j == k)) [
  | inl same ↦
      let here : lookup k ts ≡ none = rw (← ==_sound j k same) new in
      rw (lookup-insert j k (offline t) acc, same, here)
  | inr other ↦ rw (lookup-insert j k (offline t) acc, other)
]

lookup-load_records :
    (ts acc : Tunnels) (k : Text)
    → All IsEntry ts
    → Distinct ts
    → lookup k (load_records (map to_record ts) acc) ≡ restored (lookup k ts) (lookup k acc)
unfolding load_records lookup restore to_record
lookup-load_records [] acc k es ds = refl
lookup-load_records ((j, t) ∷ ts) acc k es ds =
    ap (λ (m : Tunnels). lookup k (load_records (map to_record ts) m))
      (loaded_entry t.id j (offline t) acc es.0.1 es.0.0)
    ∙ lookup-load_records ts (insert j (offline t) acc) k es.1 ds.1
    ∙ lookup_after j k t ts acc ds.0

restored-IsRegistry :
    (rec : TunnelRecord) (acc : Tunnels)
    → id_re_matches rec.id ≡ true
    → IsRegistry acc
    → IsRegistry (insert rec.id (restore rec) acc)
unfolding restore
restored-IsRegistry rec acc valid r = insert-IsRegistry rec.id _ acc r (valid, refl)

load_records-IsRegistry :
    (recs : List TunnelRecord) (acc : Tunnels) → IsRegistry acc → IsRegistry (load_records recs acc)
unfolding load_records
load_records-IsRegistry [] acc r = r
load_records-IsRegistry (rec ∷ recs) acc r = elim (Bool-cases (id_re_matches rec.id)) [
  | inl valid ↦ rw valid (load_records-IsRegistry recs _ (restored-IsRegistry rec acc valid r))
  | inr broken ↦ rw broken (load_records-IsRegistry recs acc r)
]

-- Whatever the file holds, damaged records and repeated ids included, a started server has a
-- registry that keeps the invariant.
pub load-IsRegistry : (file : File) → IsRegistry (load file new_registry).1
unfolding load
load-IsRegistry missing = record { entries = tt; distinct = tt }
load-IsRegistry unreadable = record { entries = tt; distinct = tt }
load-IsRegistry malformed = record { entries = tt; distinct = tt }
load-IsRegistry (records recs) =
    load_records-IsRegistry recs [] (record { entries = tt; distinct = tt })

-- After a save that works, a server that starts from the file knows exactly the tunnels that were
-- registered, each with its hash, target and creation time, offline and with its counter at zero.
pub load-save_locked :
    (ts : Tunnels) (file : File) (k : Text)
    → IsRegistry ts
    → ((load (save_locked true ts file).1 new_registry).0 ≡ none)
      × (lookup k (load (save_locked true ts file).1 new_registry).1 ≡ restored (lookup k ts) none)
unfolding load save_locked
load-save_locked ts file k r =
    (refl, lookup-load_records ts [] k r.entries r.distinct ∙ unfold lookup in refl)
