-- ===== src/Server/Writer/Tests.antt =====
-- Runs of the write loop.
use selftunnel.Common.{ℕ, zero, suc, true, false, List, [], ◌∷◌, none, some, codes, ◌≡◌, refl}
use selftunnel.Proto.{Frame, frame, get_stats, set_target}
use selftunnel.Server.Session.{new_session, enqueue, send_with_context, select_send}
use selftunnel.Server.Writer.{Writer, dequeues, ticks, selects, write_pass}
use selftunnel.Server.Writer.Laws.{
  Act, offers, writes, act, acts, all_accepted, outgoing, acts-outgoing,
}

abbrev fresh : Writer
fresh = record {
  session = new_session (codes "10.0.0.1") 5;
  wire = [];
  pinging = none;
  write_done = false;
}

abbrev sends : List Act
sends =
    offers enqueue false (frame get_stats)
    ∷ writes (ticks 7)
    ∷ writes (selects enqueue false)
    ∷ writes (dequeues true)
    ∷ offers enqueue false (frame set_target)
    ∷ []

acts-outgoing_example : outgoing (acts sends fresh) ≡ all_accepted sends fresh
unfolding act write_pass send_with_context select_send new_session
acts-outgoing_example = acts-outgoing sends fresh refl

abbrev many : ℕ → List Frame
many zero = []
many (suc n) = frame get_stats ∷ many n

-- A ping on a full queue, and what the goroutines try meanwhile.
abbrev full : Writer
full = record fresh { session = record fresh.session { send_q = many 256 }; pinging = some 7 }

abbrev tries : List Act
tries =
    offers enqueue false (frame get_stats)
    ∷ writes (dequeues true)
    ∷ writes (selects enqueue false)
    ∷ []
