-- ===== src/Ngrok.antt =====
-- The `Manager` of internal/ngrok/ngrok.go. The SDK is not modelled: what its calls answer is an input
-- of `start`, and the calls made are a list of effects, in order. An agent and a forwarder are numbers
-- that the SDK gives out.
pub mod Laws
mod Tests
use selftunnel.Common.{ℕ, Bool, true, false, List, [], ◌∷◌, Option, none, some, Text, ◌==◌, text_eq}

pub record Manager : Type 0 where
  pub agent : Option ℕ
  pub fwd : Option ℕ
  pub public_url : Text

-- The zero value, with which every manager begins.
abbrev pub zero_manager : Manager
zero_manager = record { agent = none; fwd = none; public_url = [] }

-- What `NewAgent` and `Forward` answer, `none` being an error.
pub record Answers : Type 0 where
  pub new_agent : Option ℕ
  pub forwarder : Option (ℕ × Text)

-- `forwarded` has the agent, the forwarder and the local port of the upstream.
pub data Effect : Type 0 where
  agent_made : ℕ → Effect
  forwarded : ℕ → ℕ → ℕ → Effect
  fwd_closed : ℕ → Effect
  disconnected : ℕ → Effect

pub data StartResult : Type 0 where
  already_running token_required agent_failed forward_failed : StartResult
  started : Text → StartResult

abbrev pub forward_with : ℕ → ℕ → Option (ℕ × Text) → Manager → StartResult × List Effect × Manager
forward_with agent port none m = (forward_failed, agent_made agent ∷ disconnected agent ∷ [], m)
forward_with agent port (some (fwd, url)) m = (
  started url,
  agent_made agent ∷ forwarded agent fwd port ∷ [],
  record m { agent = some agent; fwd = some fwd; public_url = url },
)

abbrev pub agent_with :
    Option ℕ → ℕ → Option (ℕ × Text) → Manager → StartResult × List Effect × Manager
agent_with none port forwarder m = (agent_failed, [], m)
agent_with (some agent) port forwarder m = forward_with agent port forwarder m

abbrev pub start_authorized : Text → Answers → ℕ → Manager → StartResult × List Effect × Manager
start_authorized [] answers port m = (token_required, [], m)
start_authorized (c ∷ authtoken) answers port m =
    agent_with answers.new_agent port answers.forwarder m

abbrev pub start_if : Option ℕ → Text → Answers → ℕ → Manager → StartResult × List Effect × Manager
start_if (some fwd) authtoken answers port m = (already_running, [], m)
start_if none authtoken answers port m = start_authorized authtoken answers port m

unfoldable pub start : Answers → Text → ℕ → Manager → StartResult × List Effect × Manager
start answers authtoken local_port m = start_if m.fwd authtoken answers local_port m

-- The calls on what was taken out of the manager; `none` for a missing agent is a nil dereference.
abbrev pub close_endpoint : Option ℕ → Option ℕ → Option (List Effect)
close_endpoint agent none = some []
close_endpoint none (some fwd) = none
close_endpoint (some agent) (some fwd) = some (fwd_closed fwd ∷ disconnected agent ∷ [])

unfoldable pub stop : Manager → Option (List Effect) × Manager
stop m = (close_endpoint m.agent m.fwd, record m { agent = none; fwd = none; public_url = [] })

abbrev pub is_running : Option ℕ → Bool
is_running none = false
is_running (some fwd) = true

unfoldable pub running : Manager → Bool
running m = is_running m.fwd

-- A call of the manager by the front end.
pub data Command : Type 0 where
  start_call : Answers → Text → ℕ → Command
  stop_call : Command

unfoldable pub perform : Command → Manager → Option (List Effect) × Manager
unfolding start stop
perform (start_call answers authtoken port) m =
    let (r, effects, m') = start answers authtoken port m in (some effects, m')
perform stop_call m = stop m
