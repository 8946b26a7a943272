-- ===== src/Ngrok/Tests.antt =====
-- Runs of the manager.
use selftunnel.Common.{List, [], ◌∷◌, none, some, codes, ◌≡◌}
use selftunnel.Ngrok.{Manager, zero_manager, Answers, Command, start_call, stop_call}
use selftunnel.Ngrok.Laws.{Open, Holds, history, history-Holds}

abbrev answers : Answers
answers = record { new_agent = some 1; forwarder = some (2, codes "https://x.ngrok.app") }

abbrev refused : Answers
refused = record { new_agent = some 3; forwarder = none }

abbrev commands : List Command
commands =
    stop_call
    ∷ start_call refused (codes "token") 8080
    ∷ start_call answers (codes "token") 8080
    ∷ start_call answers (codes "token") 9090
    ∷ []

history-Holds_example :
    (o : Open) × (m : Manager) × (history commands ([], []) zero_manager ≡ some (o, m)) × Holds o m
history-Holds_example = history-Holds commands
