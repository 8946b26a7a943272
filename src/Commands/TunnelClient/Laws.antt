-- ===== src/Commands/TunnelClient/Laws.antt =====
-- Which configuration cmd/selftunnel-client/main.go runs with, and the shape of its notice.
use selftunnel.Common.{
  ℕ, zero, suc, ◌+◌, ◌-◌, ◌≤◌, Bool, true, false, not, ◌&&◌, List, [], ◌∷◌, ◌++◌, Option, none,
  some, Text, codes, if◌then◌else◌, length, length-append, ltb, All, All-append, subst, ◌==◌,
  text_eq, text_beq, ==_sound, ◌≡◌, ◌⊎◌, refl, ap, ◌∙◌, arith, Bool-cases, inl, inr,
}
use selftunnel.TunnelId.{is_valid_custom_id}
use selftunnel.Client.Address.{normalize_server, is_valid_target}
use selftunnel.Client.Address.Laws.{IsIntake, normalize_server_shape}
use selftunnel.Client.Connection.{Config}
use selftunnel.Client.Settings.{ConfigFile, Loaded, loaded, read_error, json_error, load_config}
use selftunnel.Commands.TunnelClient.{
  ClientFlags, over, override, Refusal, check_config, Options, ClientEnd, refused, ran, run_unless,
  after_load, client_main, repeat, padded, widest, box_line, box_lines, box_around,
}

-- A configuration that the client may run with.
pub record IsRunnable (cfg : Config) : Type 0 where
  pub intake : IsIntake cfg.server
  pub target_ok : (cfg.target ≡ []) ⊎ (is_valid_target cfg.target ≡ true)
  pub custom_ok : (cfg.custom_id ≡ []) ⊎ (is_valid_custom_id cfg.custom_id ≡ true)

passes :
    (s : Text) (valid : Bool) → (not (s == []) && not valid) ≡ false → (s ≡ []) ⊎ (valid ≡ true)
passes s true e = inr refl
passes s false e = elim (Bool-cases (s == [])) [
  | inl empty ↦ inl (==_sound s [] empty)
  | inr filled ↦ absurd (cc (rw filled at e))
]

checked :
    (cfg : Config)
    → check_config cfg ≡ none
    → ((cfg.server == []) ≡ false)
      × ((cfg.target ≡ []) ⊎ (is_valid_target cfg.target ≡ true))
      × ((cfg.custom_id ≡ []) ⊎ (is_valid_custom_id cfg.custom_id ≡ true))
checked cfg e =
    let a : (cfg.server == []) ≡ false = unfold check_config in ground arith in
    let b : (not (cfg.target == []) && not (is_valid_target cfg.target)) ≡ false =
      unfold check_config in ground arith in
    let c : (not (cfg.custom_id == []) && not (is_valid_custom_id cfg.custom_id)) ≡ false =
      unfold check_config in ground arith in
    (
      a,
      passes cfg.target (is_valid_target cfg.target) b,
      passes cfg.custom_id (is_valid_custom_id cfg.custom_id) c,
    )

empty_eq : text_beq [] [] ≡ true
unfolding text_beq
empty_eq = refl

pub runnable :
    (url : Text) (cfg : Config)
    → cfg.server ≡ normalize_server url
    → check_config cfg ≡ none
    → IsRunnable cfg
runnable url cfg e ok =
    let (filled, target, custom) = checked cfg ok in
    record {
      intake = rw e (elim (normalize_server_shape url) [
        | inl (_, empty) ↦ absurd (cc (filled, ap (λ (s : Text). s == []) (e ∙ empty), empty_eq))
        | inr i ↦ i
      ]);
      target_ok = target;
      custom_ok = custom;
    }

ran_inj :
    {c c' : Config} {o o' : Options} {p p' : Text} {n n' : ℕ}
    → ran c o p n ≡ ran c' o' p' n'
    → c ≡ c'
ran_inj {c} e = ap (λ (x : ClientEnd). elim x [ refused r ↦ c | ran d o p n ↦ d ]) e

run_unless-IsRunnable :
    (r : Option Refusal) (failed : Bool) (flags : ClientFlags) (url : Text) (cfg cfg' : Config)
    (opts : Options) (path : Text) (status : ℕ)
    → check_config cfg ≡ r
    → cfg.server ≡ normalize_server url
    → run_unless r failed flags cfg ≡ ran cfg' opts path status
    → IsRunnable cfg'
run_unless-IsRunnable (some r) failed flags url cfg cfg' opts path status ok e ran_it = absurd (cc)
run_unless-IsRunnable none failed flags url cfg cfg' opts path status ok e ran_it =
    subst IsRunnable (ran_inj ran_it) (runnable url cfg e ok)

after_load-IsRunnable :
    (file : Loaded) (failed : Bool) (flags : ClientFlags) (cfg : Config) (opts : Options)
    (path : Text) (status : ℕ)
    → after_load failed flags file ≡ ran cfg opts path status
    → IsRunnable cfg
unfolding override check_config after_load
after_load-IsRunnable read_error failed flags cfg opts path status e = absurd (cc)
after_load-IsRunnable json_error failed flags cfg opts path status e = absurd (cc)
after_load-IsRunnable (loaded c) failed flags cfg opts path status e =
    run_unless-IsRunnable (check_config (override flags c)) failed flags
      (over flags.server (normalize_server flags.server) c.server) (override flags c) cfg opts path
      status refl refl e

-- Whatever the flags and the file say, the client runs only with a server address that is a WebSocket
-- address of the intake, with no target or one with an HTTP scheme, and with no custom id or a valid
-- one.
pub client_main-IsRunnable :
    (file : ConfigFile) (failed : Bool) (flags : ClientFlags) (cfg : Config) (opts : Options)
    (path : Text) (status : ℕ)
    → client_main file failed flags ≡ ran cfg opts path status
    → IsRunnable cfg
unfolding client_main
client_main-IsRunnable file failed flags cfg opts path status e =
    after_load-IsRunnable (load_config file) failed flags cfg opts path status e

length-repeat : (c n : ℕ) → length (repeat c n) ≡ n
length-repeat c zero = refl
length-repeat c (suc n) = ap suc (length-repeat c n)

length-padded : (width : ℕ) (s : Text) → length s ≤ width → length (padded width s) ≡ width
length-padded width s fits = omega (
  arith,
  length-append s (repeat b' ' (width - length s)),
  length-repeat b' ' (width - length s),
  fits,
)

widest_start : (ls : List Text) (w : ℕ) → w ≤ widest ls w
widest_start [] w = omega arith
widest_start (l ∷ ls) w = elim (Bool-cases (ltb w (length l))) [
  | inl wider ↦ rw wider (ground (arith, widest_start ls (length l)))
  | inr fits ↦ rw fits (widest_start ls w)
]

widen-le : (n w : ℕ) → n ≤ (if ltb w n then n else w)
widen-le n w = ground arith

widest_under :
    (ls : List Text) (w bound : ℕ) → widest ls w ≤ bound → All (λ (l : Text). length l ≤ bound) ls
widest_under [] w bound e = tt
widest_under (l ∷ ls) w bound e =
    let wider : ℕ = if ltb w (length l) then length l else w in
    let here : length l ≤ wider = widen-le (length l) w in
    let later : wider ≤ widest ls wider = widest_start ls wider in
    (omega (arith, here, later, e), widest_under ls wider bound e)

length-box_line : (width : ℕ) (l : Text) → length l ≤ width → length (box_line width l) ≡ width + 6
length-box_line width l fits =
    omega (arith, length-append (padded width l) (codes "  │"), length-padded width l fits)

box_lines-All :
    (width : ℕ) (ls : List Text)
    → All (λ (l : Text). length l ≤ width) ls
    → All (λ (l : Text). length l ≡ width + 6) (box_lines width ls)
box_lines-All width [] fits = tt
box_lines-All width (l ∷ ls) fits = (length-box_line width l fits.0, box_lines-All width ls fits.1)

length-border : (c d n : ℕ) → length ((c ∷ []) ++ repeat 9472 (n + 4) ++ (d ∷ [])) ≡ n + 6
length-border c d n =
    omega (arith, length-append (repeat 9472 (n + 4)) (d ∷ []), length-repeat 9472 (n + 4))

-- All lines of a box are of the same width, which leaves two columns and a border on both sides of
-- the widest line inside.
pub box_around_width :
    (lines : List Text) → All (λ (l : Text). length l ≡ widest lines 0 + 6) (box_around lines)
unfolding box_around
box_around_width lines = (
  length-border 9484 9488 (widest lines 0),
  All-append _ (box_lines (widest lines 0) lines) _
      (box_lines-All (widest lines 0) lines (widest_under lines 0 (widest lines 0) (omega arith)))
      (length-border 9492 9496 (widest lines 0), tt),
)
