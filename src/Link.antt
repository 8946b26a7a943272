-- ===== src/Link.antt =====
-- The sending side of a connection, as the streaming code of both programs sees it: the frames that
-- went out, and how the further sends will fare (`true` is success; none listed means that all do).
-- For the server it stands for `sendWithContext` of internal/server/tunnel.go, for the client for
-- `sendFrame` of internal/client/client.go: a send that fails has queued nothing.
use selftunnel.Common.{ℕ, Bool, true, false, List, [], ◌∷◌, ◌∷ʳ◌}
use selftunnel.Proto.{Frame}

pub record Link : Type 0 where
  pub sent : List Frame
  pub outcomes : List Bool

abbrev pub transmit_as : List Bool → Frame → Link → Bool × Link
transmit_as [] f l = (true, record l { sent = l.sent ∷ʳ f })
transmit_as (true ∷ os) f l = (true, record { sent = l.sent ∷ʳ f; outcomes = os })
transmit_as (false ∷ os) f l = (false, record l { outcomes = os })

unfoldable pub transmit : Frame → Link → Bool × Link
transmit f l = transmit_as l.outcomes f l

-- `body.Read`: the bytes read, and whether there is more, the end or an error behind them.
pub data ReadEnd : Type 0 where
  more eof read_error : ReadEnd

abbrev pub Reads : Type 0
Reads = List (List ℕ × ReadEnd)
