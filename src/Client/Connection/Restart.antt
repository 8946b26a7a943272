-- ===== src/Client/Connection/Restart.antt =====
-- A client that comes back: `connect` against the server's registry.
use selftunnel.Common.{
  ℕ, Bool, true, false, List, [], ◌∷◌, Option, none, some, Text, length, ◌≡◌, refl, ◌∙◌,
  if◌then◌else◌, All, text_eq, text_beq,
}
use selftunnel.Text.{trim_space, trim_left, trim_right, to_lower}
use selftunnel.Proto.{Frame}
use selftunnel.Client.Connection.{Client, Config, hello_frame, adopt, with_secret}
use selftunnel.Server.Intake.{ack_frame}
use selftunnel.Server.Registry.{
  Tunnels, File, Supply, Registration, registered, random_failed, save_failed, drawing, register,
  allocate, issue, issue_secret, Draw, drew, draw_failed, out_of_draws, draw_id, clean_desired,
}
use selftunnel.Server.Registry.Draws.{IsDraw}
use selftunnel.Server.Registry.Ownership.{register_reclaims}

abbrev pub is_reused : Registration → Bool
is_reused (registered id reused denied s) = reused
is_reused random_failed = false
is_reused save_failed = false
is_reused drawing = false

clean_empty : clean_desired [] ≡ []
unfolding clean_desired trim_space trim_left trim_right to_lower text_beq
clean_empty = refl

settled :
    (ok : Bool) (id : Text) (denied : Bool) (s : Text)
    → is_reused (if ok then registered id false denied s else save_failed) ≡ false
settled true id denied s = refl
settled false id denied s = refl

with_secret-custom_id : (s : Text) (cfg : Config) → (with_secret s cfg).custom_id ≡ cfg.custom_id
with_secret-custom_id [] cfg = refl
with_secret-custom_id (c ∷ s) cfg = refl

asks_custom :
    (save_ok : Bool) (ack : Frame) (c : Client)
    → (hello_frame (adopt save_ok ack c).cfg).desired_id ≡ c.cfg.custom_id
unfolding hello_frame adopt
asks_custom save_ok ack c =
    with_secret-custom_id ack.secret (record c.cfg { tunnel_id = ack.tunnel_id })

module _ (sha256 : Text → List ℕ) where
  issue-fresh :
      (w : Supply) (id : Text) (denied : Bool) (ts : Tunnels) (file : File) (o : Option (List ℕ))
      → is_reused (issue sha256 w id denied ts file o).0 ≡ false
  unfolding issue
  issue-fresh w id denied ts file none = refl
  issue-fresh w id denied ts file (some b) = settled _ id denied _

  allocate-fresh :
      (w : Supply) (d : Draw) (denied : Bool) (ts : Tunnels) (file : File)
      → is_reused (allocate sha256 w d denied ts file).0 ≡ false
  unfolding allocate issue_secret
  allocate-fresh w (drew id) denied ts file = issue-fresh w id denied ts file w.secret_draw
  allocate-fresh w draw_failed denied ts file = refl
  allocate-fresh w out_of_draws denied ts file = refl

  register-fresh :
      (w : Supply) (desired secret : Text) (ts : Tunnels) (file : File)
      → desired ≡ []
      → is_reused (register sha256 w desired secret ts file).0 ≡ false
  unfolding register text_beq
  register-fresh w desired secret ts file e =
      rw (e, clean_empty) (allocate-fresh w (draw_id w.id_draws ts) false ts file)

  -- A client without a custom id is never given its tunnel back, not even right after a handshake whose
  -- id and secret it has kept: its hello does not name the id.
  pub restart_forgets :
      (w : Supply) (save_ok : Bool) (ack : Frame) (c : Client) (ts : Tunnels) (file : File)
      → c.cfg.custom_id ≡ []
      → is_reused
          (register sha256 w
            (hello_frame (adopt save_ok ack c).cfg).desired_id
            (hello_frame (adopt save_ok ack c).cfg).secret
            ts
            file).0
        ≡ false
  restart_forgets w save_ok ack c ts file e =
      register-fresh w _ (hello_frame (adopt save_ok ack c).cfg).secret ts file
        (asks_custom save_ok ack c ∙ e)

  -- A client with a custom id, as the server spells it, that was given this id with a secret: it asks for
  -- it again with that secret, and is given it back by the registry that the first call left, whatever
  -- the random source, the clock and the disk do, and the registry stays as it is.
  pub restart_reclaims :
      (w w' : Supply) (c : Client) (save_ok denied : Bool) (secret : Text) (x : ℕ) (s : Text)
      (ts ts' : Tunnels) (file file' file'' : File)
      → ((t : Text) → length (sha256 t) ≡ 32)
      → All IsDraw w.id_draws
      → secret ≡ x ∷ s
      → register sha256 w (hello_frame c.cfg).desired_id (hello_frame c.cfg).secret ts file
        ≡ (registered c.cfg.custom_id false denied secret, ts', file')
      → register sha256 w'
          (hello_frame
            (adopt save_ok (ack_frame c.cfg.custom_id false denied secret) c).cfg).desired_id
          (hello_frame (adopt save_ok (ack_frame c.cfg.custom_id false denied secret) c).cfg).secret
          ts'
          file''
        ≡ (registered c.cfg.custom_id true false [], ts', file'')
  unfolding hello_frame adopt ack_frame text_beq
  restart_reclaims w w' c save_ok denied secret x s ts ts' file file' file'' digest v q e = rw q (
      rw q at (
        register_reclaims sha256 digest w _ _ ts file c.cfg.custom_id denied secret ts' file' w'
          file'' v e))
