-- ===== src/Client/Settings/Laws.antt =====
-- The configuration file, the addresses that the setters leave, and the certificate for the target.
use selftunnel.Common.{
  ℕ, Bool, true, false, not, ◌&&◌, List, [], ◌∷◌, Option, none, some, Text, if◌then◌else◌, ◌==◌,
  text_eq, ◌≡◌, ◌⊎◌, refl, sym, ap, ◌∙◌, Bool-cases, inl, inr,
}
use selftunnel.Client.Connection.{Config}
use selftunnel.Client.Settings.{
  loaded, load_config, Disk, SaveError, Writing, written, write_fails, renaming, writing,
  save_config, make_tls_config, target_tls,
}

-- What a reader of the configuration file sees after a save.
abbrev pub Kept : Option SaveError → Config → Disk → Disk → Type 0
Kept none cfg d d' = load_config d'.config ≡ loaded cfg
Kept (some e) cfg d d' = d'.config ≡ d.config

renaming-Kept :
    (rename_ok : Bool) (cfg : Config) (d : Disk)
    → Kept (renaming rename_ok cfg d).0 cfg d (renaming rename_ok cfg d).1
unfolding load_config
renaming-Kept true cfg d = refl
renaming-Kept false cfg d = refl

writing-Kept :
    (write : Writing) (rename_ok : Bool) (cfg : Config) (d : Disk)
    → Kept (writing write rename_ok cfg d).0 cfg d (writing write rename_ok cfg d).1
writing-Kept written rename_ok cfg d = renaming-Kept rename_ok cfg d
writing-Kept (write_fails part) rename_ok cfg d = refl

-- A save that succeeds is what the next load reads; one that fails, at whichever of its steps, leaves
-- the configuration file as it was.
pub save_config-Kept :
    (mkdir_ok : Bool) (write : Writing) (rename_ok : Bool) (cfg : Config) (d : Disk)
    → Kept
        (save_config mkdir_ok write rename_ok cfg d).0
        cfg
        d
        (save_config mkdir_ok write rename_ok cfg d).1
unfolding save_config
save_config-Kept true write rename_ok cfg d = writing-Kept write rename_ok cfg d
save_config-Kept false write rename_ok cfg d = refl

-- A certificate that cannot be loaded leaves the target's TLS configuration as it is without one.
pub target_tls_fallback :
    (insecure : Bool) (cert_file key_file : Text)
    → target_tls false insecure cert_file key_file ≡ target_tls true insecure [] []
unfolding target_tls make_tls_config
target_tls_fallback insecure cert_file key_file =
    elim (Bool-cases (not (cert_file == []) && not (key_file == []))) [
      | inl both ↦ rw both (unfold selftunnel.Common.text_beq in refl)
      | inr one ↦ rw one (unfold selftunnel.Common.text_beq in refl)
    ]
