-- ===== src/Commands/RelayServer/Laws.antt =====
-- What `parseList` of cmd/selftunnel-server/main.go makes of a list.
use selftunnel.Common.{
  false, Bool, true, List, [], ◌∷◌, ◌++◌, map, if◌then◌else◌, Text, All, ◌==◌, nat_eq, text_eq,
  text_beq, ◌≡◌, refl, ap, ◌∙◌,
}
use selftunnel.Text.{trim_space, trim_left, trim_right, split}
use selftunnel.Commands.RelayServer.{keep_entries, parse_list}

-- No character of the text is a comma.
abbrev pub NoComma : Text → Type 0
NoComma [] = Unit {0}
NoComma (c ∷ s) = ((c == b',') ≡ false) × NoComma s

abbrev pub with_commas : Text → List Text → Text
with_commas p [] = p
with_commas p (q ∷ ps) = p ++ b',' ∷ with_commas q ps

-- The pieces written with commas between them.
abbrev pub print_list : List Text → Text
print_list [] = []
print_list (p ∷ ps) = with_commas p ps

split_last : (s : Text) → NoComma s → split b',' s ≡ s ∷ []
unfolding split
split_last [] n = refl
split_last (c ∷ s) n = rw (n.0, split_last s n.1) refl

split_first : (s t : Text) → NoComma s → split b',' (s ++ b',' ∷ t) ≡ s ∷ split b',' t
unfolding split
split_first [] t n = refl
split_first (c ∷ s) t n = rw (n.0, split_first s t n.1) refl

split-with_commas :
    (p : Text) (ps : List Text)
    → NoComma p
    → All NoComma ps
    → split b',' (with_commas p ps) ≡ p ∷ ps
split-with_commas p [] v vs = split_last p v
split-with_commas p (q ∷ ps) v vs =
    split_first p (with_commas q ps) v ∙ ap (λ r. p ∷ r) (split-with_commas q ps vs.0 vs.1)

-- The texts that are not empty.
abbrev pub filled_entry : Bool → Text → List Text → List Text
filled_entry true p ps = ps
filled_entry false p ps = p ∷ ps

abbrev pub non_empty : List Text → List Text
non_empty [] = []
non_empty (p ∷ ps) = filled_entry (p == []) p (non_empty ps)

keep_entry :
    (b : Bool) (q : Text) (rest : List Text)
    → (if b then rest else q ∷ rest) ≡ filled_entry b q rest
keep_entry true q rest = refl
keep_entry false q rest = refl

keep_entries-trim : (ps : List Text) → keep_entries ps ≡ non_empty (map trim_space ps)
unfolding keep_entries
keep_entries-trim [] = refl
keep_entries-trim (p ∷ ps) =
    keep_entry (trim_space p == []) (trim_space p) (keep_entries ps)
    ∙ ap (λ (r : List Text). filled_entry (trim_space p == []) (trim_space p) r)
        (keep_entries-trim ps)

comma_filled : (p t : Text) → ((p ++ b',' ∷ t) == []) ≡ false
unfolding text_beq
comma_filled [] t = refl
comma_filled (c ∷ p) t = refl

parse_filled :
    (p : Text) (ps : List Text)
    → NoComma p
    → All NoComma ps
    → (with_commas p ps == []) ≡ false
    → parse_list (with_commas p ps) ≡ non_empty (map trim_space (p ∷ ps))
unfolding parse_list
parse_filled p ps v vs filled =
    rw filled (ap keep_entries (split-with_commas p ps v vs) ∙ keep_entries-trim (p ∷ ps))

-- A list of any pieces without commas, written with commas between them, is parsed to the pieces in
-- their order, each without the white space at its ends, and without those of which then nothing is
-- left; a text of no characters is a list of none.
pub parse_list-print_list :
    (ps : List Text) → All NoComma ps → parse_list (print_list ps) ≡ non_empty (map trim_space ps)
unfolding parse_list text_beq trim_space trim_left trim_right
parse_list-print_list [] vs = refl
parse_list-print_list ([] ∷ []) vs = refl
parse_list-print_list ((c ∷ p) ∷ []) vs = parse_filled (c ∷ p) [] vs.0 vs.1 refl
parse_list-print_list (p ∷ q ∷ ps) vs =
    parse_filled p (q ∷ ps) vs.0 vs.1 (comma_filled p (with_commas q ps))
