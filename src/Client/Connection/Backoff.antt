-- ===== src/Client/Connection/Backoff.antt =====
-- The delays of `sleepBackoff`.
use selftunnel.Common.{ℕ, ◌+◌, ◌-◌, ◌*◌, ◌/◌, ◌≤◌, ◌<◌, arith}
use selftunnel.Client.Connection.{initial_backoff, max_backoff, doubled, jitter_bound, delay}

-- A doubled backoff stays between its start and its ceiling, and does not fall.
pub doubled_bounds :
    (b : ℕ)
    → initial_backoff ≤ b
    → b ≤ max_backoff
    → (initial_backoff ≤ doubled b) × (doubled b ≤ max_backoff) × (b ≤ doubled b)
unfolding doubled
doubled_bounds b lo hi = ground arith

-- Whatever the draw, the delay is within a fifth of the backoff, and never above 72 seconds.
pub delay_bounds :
    (b draw : ℕ)
    → b ≤ max_backoff
    → draw < jitter_bound b
    → (b - b / 5 ≤ delay b draw) × (delay b draw ≤ b + b / 5) × (delay b draw ≤ 72 * 1000000000)
unfolding delay jitter_bound
delay_bounds b draw hi d = (omega arith, omega arith, omega arith)
