-- ===== src/Client/Power/Tests.antt =====
-- Runs of the sleep inhibitors.
use selftunnel.Common.{List, [], ◌∷◌, none, some, ◌≡◌, refl, true, false}
use selftunnel.Client.Power.{
  call_failed, new_cmd_inhibitor, linux_cmd, release, awake_flags, win_release,
}
use selftunnel.Client.Power.Laws.{PowerEvent, inhibit_call, release_call, on_events, release_frees}

abbrev events : List PowerEvent
events =
    inhibit_call linux_cmd (some 7)
    ∷ release_call
    ∷ inhibit_call linux_cmd none
    ∷ inhibit_call linux_cmd (some 9)
    ∷ []

release_frees_example :
    ((release (on_events events new_cmd_inhibitor)).0 ≡ none)
    × ((release (on_events events new_cmd_inhibitor)).1 ≡ new_cmd_inhibitor)
release_frees_example = release_frees events

flags : awake_flags ≡ 2147483651
flags = refl

-- `LazyProc.Call` always gives an error value: a release that works reports it.
win_release_reports :
    win_release
      (record { previous = 2147483651; call_error = some call_failed })
      (record { active = true })
    ≡ (some 2147483648, some call_failed, record { active = false })
unfolding win_release
win_release_reports = refl
