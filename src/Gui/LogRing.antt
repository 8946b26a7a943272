-- ===== src/Gui/LogRing.antt =====
-- The log panes: `logRing` of cmd/selftunnel-server-gui/main.go with the lines that its window shows, and
-- `appendLog` of cmd/selftunnel-client-gui/main.go.
pub mod Laws
use selftunnel.Common.{
  ℕ, ◌-◌, Bool, true, false, not, ◌&&◌, List, [], ◌∷◌, ◌++◌, ◌∷ʳ◌, length, drop, Text, codes, ltb,
  if◌then◌else◌, ◌==◌, text_eq, nat_eq,
}
use selftunnel.Text.{split, contains}

pub record LogRing : Type 0 where
  pub lines : List Text
  pub max : ℕ

unfoldable pub new_log_ring : ℕ → LogRing
new_log_ring max = record { lines = []; max = max }

-- `strings.TrimRight` of one character.
abbrev pub keep_unless : ℕ → ℕ → Text → Text
keep_unless cut c [] = if c == cut then [] else c ∷ []
keep_unless cut c (d ∷ s) = c ∷ d ∷ s

unfoldable pub trim_right_of : ℕ → Text → Text
trim_right_of cut [] = []
trim_right_of cut (c ∷ s) = keep_unless cut c (trim_right_of cut s)

-- The last `max` of the lines, if there are more.
unfoldable pub bounded : ℕ → List Text → List Text
bounded max lines = if ltb max (length lines) then drop (length lines - max) lines else lines

-- The body of the loop of `Write`.
unfoldable pub add_line : LogRing → Text → LogRing
unfolding bounded
add_line r line = if line == [] then r else record r { lines = bounded r.max (r.lines ∷ʳ line) }

unfoldable pub add_lines : LogRing → List Text → LogRing
add_lines r [] = r
add_lines r (line ∷ ls) = add_lines (add_line r line) ls

-- `Write`; it reports the whole payload as written.
unfoldable pub write : Text → LogRing → LogRing
unfolding add_lines trim_right_of
write p r = add_lines r (split 10 (trim_right_of 10 p))

-- The tests of `filtered` on one line.
unfoldable pub shown : Text → Text → Text → Bool
shown level part line =
    if not (level == codes "All") && not (contains line (codes " " ++ level ++ codes " "))
    then false
    else if not (part == []) && not (contains line part)
    then false
    else true

unfoldable pub filter_lines : Text → Text → List Text → List Text
filter_lines level part [] = []
filter_lines level part (line ∷ ls) =
    let rest = filter_lines level part ls in if shown level part line then line ∷ rest else rest

unfoldable pub filtered : Text → Text → LogRing → List Text
unfolding filter_lines
filtered level part r = filter_lines level part r.lines

abbrev pub display : ℕ
display = 500

-- The lines that `refreshLogs` puts into the grid.
unfoldable pub displayed : Text → Text → LogRing → List Text
unfolding filtered bounded
displayed level part r = bounded display (filtered level part r)

-- `appendLog` of the client's window.
unfoldable pub append_log : Text → List Text → List Text
unfolding bounded
append_log line log_lines = bounded display (log_lines ∷ʳ line)
