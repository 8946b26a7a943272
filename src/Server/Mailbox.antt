-- ===== src/Server/Mailbox.antt =====
-- The response mailboxes of internal/server/tunnel.go: `pendingResp` and its two channels. A relay
-- handler keeps its `*pendingResp` after the map has forgotten it, so the mailboxes of a session are
-- a store, and the map holds places in it. Closing a closed channel panics: that is `none`.
pub mod Laws
use selftunnel.Common.{
  ℕ, zero, suc, Bool, true, false, not, List, [], ◌∷◌, Option, none, some, if◌then◌else◌,
}
use selftunnel.Proto.{Frame}

pub record Mailbox : Type 0 where
  pub ch : List Frame
  pub done : Bool

-- `make(chan *proto.Frame, 16)`.
abbrev pub mailbox_cap : ℕ
mailbox_cap = 16

unfoldable pub get_box : List Mailbox → ℕ → Option Mailbox
get_box [] h = none
get_box (b ∷ bs) zero = some b
get_box (b ∷ bs) (suc h) = get_box bs h

unfoldable pub set_box : List Mailbox → ℕ → Mailbox → List Mailbox
set_box [] h v = []
set_box (b ∷ bs) zero v = v ∷ bs
set_box (b ∷ bs) (suc h) v = b ∷ set_box bs h v

unfoldable pub is_open : List Mailbox → ℕ → Bool
is_open [] h = false
is_open (b ∷ bs) zero = not b.done
is_open (b ∷ bs) (suc h) = is_open bs h

abbrev pub onto : Mailbox → Option (List Mailbox) → Option (List Mailbox)
onto b none = none
onto b (some bs) = some (b ∷ bs)

-- `close(pr.done)`.
unfoldable pub close_box : ℕ → List Mailbox → Option (List Mailbox)
close_box h [] = none
close_box zero (b ∷ bs) = if b.done then none else some (record b { done = true } ∷ bs)
close_box (suc h) (b ∷ bs) = onto b (close_box h bs)
