-- ===== src/Client/Power.antt =====
-- The sleep inhibitors of internal/client: `cmdInhibitor` of power.go, with the helper commands of
-- power_linux.go and power_darwin.go, `winInhibitor` of power_windows.go and `noopInhibitor` of
-- power_unsupported.go. Helper processes are numbers, and the system's answers inputs of the calls.
pub mod Laws
mod Tests
use Prim.Native.Nat.{bit_or}
use selftunnel.Common.{
  ℕ, Bool, true, false, List, [], ◌∷◌, Option, none, some, Text, codes, if◌then◌else◌, nat_beq,
}

-- `start_failed` has the path of the command.
pub data PowerError : Type 0 where
  start_failed : Text → PowerError
  call_failed : PowerError

-- The field `cancel`, and the helpers that run: those started and neither cancelled nor ended.
pub record CmdInhibitor : Type 0 where
  pub cancel : Option ℕ
  pub helpers : List ℕ

abbrev pub new_cmd_inhibitor : CmdInhibitor
new_cmd_inhibitor = record { cancel = none; helpers = [] }

-- The arguments of the helper commands; the process id is that of the client, in decimal.
abbrev pub linux_cmd : List Text
linux_cmd =
    codes "systemd-inhibit"
    ∷ codes "--what=sleep:idle"
    ∷ codes "--who=selftunnel"
    ∷ codes "--why=Keeping tunnel relay connection alive"
    ∷ codes "--mode=block"
    ∷ codes "sleep"
    ∷ codes "infinity"
    ∷ []

unfoldable pub darwin_cmd : Text → List Text
darwin_cmd pid = codes "caffeinate" ∷ codes "-i" ∷ codes "-w" ∷ pid ∷ []

abbrev pub path_of : List Text → Text
path_of [] = []
path_of (path ∷ args) = path

abbrev pub start_helper : List Text → Option ℕ → CmdInhibitor → Option PowerError × CmdInhibitor
start_helper cmd none i = (some (start_failed (path_of cmd)), i)
start_helper cmd (some helper) i =
    (none, record { cancel = some helper; helpers = helper ∷ i.helpers })

abbrev pub inhibit_if :
    Option ℕ → List Text → Option ℕ → CmdInhibitor → Option PowerError × CmdInhibitor
inhibit_if (some helper) cmd launched i = (none, i)
inhibit_if none cmd launched i = start_helper cmd launched i

-- `inhibit`: `launched` is the process that `cmd.Start` gives, or its error.
unfoldable pub inhibit : List Text → Option ℕ → CmdInhibitor → Option PowerError × CmdInhibitor
inhibit cmd launched i = inhibit_if i.cancel cmd launched i

abbrev pub ended : ℕ → List ℕ → List ℕ
ended p [] = []
ended p (q ∷ qs) = if nat_beq p q then ended p qs else q ∷ ended p qs

abbrev pub release_if : Option ℕ → CmdInhibitor → Option PowerError × CmdInhibitor
release_if none i = (none, i)
release_if (some helper) i = (none, record { cancel = none; helpers = ended helper i.helpers })

unfoldable pub release : CmdInhibitor → Option PowerError × CmdInhibitor
release i = release_if i.cancel i

-- A helper that ends by itself, which `cmd.Wait` reaps.
unfoldable pub helper_exits : ℕ → CmdInhibitor → CmdInhibitor
helper_exits p i = record i { helpers = ended p i.helpers }

pub record WinInhibitor : Type 0 where
  pub active : Bool

abbrev pub es_continuous : ℕ
es_continuous = 2147483648

abbrev pub es_system_required : ℕ
es_system_required = 1

abbrev pub es_display_required : ℕ
es_display_required = 2

abbrev pub awake_flags : ℕ
awake_flags = bit_or (bit_or es_continuous es_system_required) es_display_required

-- What one call of `SetThreadExecutionState` returns: the previous state, 0 when it failed, and the
-- error value of `LazyProc.Call`, `none` for nil.
pub record CallResult : Type 0 where
  pub previous : ℕ
  pub call_error : Option PowerError

-- The flags that the call is made with, if it is made, stand first in the result.
abbrev pub win_inhibit_called :
    CallResult → WinInhibitor → Option ℕ × Option PowerError × WinInhibitor
win_inhibit_called r i =
    if nat_beq r.previous 0
    then (some awake_flags, r.call_error, i)
    else (some awake_flags, none, record { active = true })

unfoldable pub win_inhibit : CallResult → WinInhibitor → Option ℕ × Option PowerError × WinInhibitor
win_inhibit r i = if i.active then (none, none, i) else win_inhibit_called r i

unfoldable pub win_release : CallResult → WinInhibitor → Option ℕ × Option PowerError × WinInhibitor
win_release r i =
    if i.active
    then (some es_continuous, r.call_error, record { active = false })
    else (none, none, i)

abbrev pub noop_inhibit : Option PowerError
noop_inhibit = none

abbrev pub noop_release : Option PowerError
noop_release = none
