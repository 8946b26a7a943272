-- ===== src/Gui/LogRing/Laws.antt =====
-- What a log pane keeps.
use selftunnel.Common.{
  ℕ, zero, suc, ◌+◌, ◌-◌, ◌≤◌, true, false, List, [], ◌∷◌, ◌++◌, ◌∷ʳ◌, length, length-append,
  length-drop, drop, Text, ltb, if◌then◌else◌, ◌==◌, text_eq, ◌≡◌, refl, sym, ap, subst, ◌∙◌, arith,
  Bool-cases, inl, inr, append_assoc, append-nil,
}
use selftunnel.Text.{split}
use selftunnel.Gui.LogRing.{
  LogRing, new_log_ring, trim_right_of, bounded, add_line, add_lines, write,
}

-- The last `n` of a list.
abbrev pub last {ℓ} : {A : Type ℓ} → ℕ → List A → List A
last n xs = drop (length xs - n) xs

-- The lines of a list that are not empty.
abbrev pub filled : List Text → List Text
filled [] = []
filled (l ∷ ls) = if l == [] then filled ls else l ∷ filled ls

-- The lines of the payloads that were written, in order.
abbrev pub written_lines : List Text → List Text
written_lines [] = []
written_lines (p ∷ ps) = filled (split 10 (trim_right_of 10 p)) ++ written_lines ps

abbrev pub write_all : List Text → LogRing → LogRing
write_all [] r = r
write_all (p ∷ ps) r = write_all ps (write p r)

bounded-last : (max : ℕ) (ls : List Text) → bounded max ls ≡ last max ls
unfolding bounded
bounded-last max ls = elim (Bool-cases (ltb max (length ls))) [
  | inl more ↦ rw more refl
  | inr fits ↦ let none_over : length ls - max ≡ 0 = ground arith in rw (fits, none_over) refl
]

drop-append : (n : ℕ) (xs ys : List Text) → n ≤ length xs → drop n (xs ++ ys) ≡ drop n xs ++ ys
drop-append zero xs ys le = refl
drop-append (suc n) [] ys le = absurd (omega (arith, le))
drop-append (suc n) (x ∷ xs) ys le = drop-append n xs ys (omega (arith, le))

drop-nil : (m : ℕ) → drop {A = Text} m [] ≡ []
drop-nil zero = refl
drop-nil (suc m) = refl

drop-drop : (m n : ℕ) (xs : List Text) → drop m (drop n xs) ≡ drop (n + m) xs
drop-drop m zero xs = ap (λ (k : ℕ). drop k xs) (omega arith)
drop-drop m (suc n) [] = drop-nil m ∙ sym (drop-nil (suc n + m))
drop-drop m (suc n) (x ∷ xs) =
    let same : suc (n + m) ≡ suc n + m = omega arith in
    drop-drop m n xs ∙ ap (λ (k : ℕ). drop k (x ∷ xs)) same

-- To keep the last of what was kept and more is to keep the last of it all.
last-last : (n : ℕ) (xs ys : List Text) → last n (last n xs ++ ys) ≡ last n (xs ++ ys)
last-last n xs ys = elim (Bool-cases (ltb n (length xs))) [
  | inr fits ↦
      let none_over : length xs - n ≡ 0 = ground arith in
      ap (λ (k : ℕ). last n (drop k xs ++ ys)) none_over
  | inl more ↦
      let over : ℕ = length xs - n in
      let fewer : over ≤ length xs = omega arith in
      let left : length (last n xs ++ ys) - n ≡ length ys =
        ground (arith, length-append (last n xs) ys, length-drop over xs) in
      let all : length (xs ++ ys) - n ≡ over + length ys = ground (arith, length-append xs ys) in
      ap (λ (k : ℕ). drop k (last n xs ++ ys)) left
      ∙ ap (drop (length ys)) (sym (drop-append over xs ys fewer))
      ∙ drop-drop (length ys) over (xs ++ ys)
      ∙ ap (λ (k : ℕ). drop k (xs ++ ys)) (sym all)
]

-- The ring holds the last lines of `hist`.
abbrev HoldsLast : ℕ → List Text → LogRing → Type 0
HoldsLast max hist r = (r.max ≡ max) × (r.lines ≡ last max hist)

add_line-HoldsLast :
    (max : ℕ) (hist : List Text) (r : LogRing) (line : Text)
    → (line == []) ≡ false
    → HoldsLast max hist r
    → HoldsLast max (hist ∷ʳ line) (add_line r line)
unfolding add_line
add_line-HoldsLast max hist r line e h = rw e (
  h.0,
  bounded-last r.max (r.lines ∷ʳ line)
      ∙ ap (λ (n : ℕ). last n (r.lines ∷ʳ line)) h.0
      ∙ ap (λ (ls : List Text). last max (ls ∷ʳ line)) h.1
      ∙ last-last max hist (line ∷ []),
)

add_line_empty : (r : LogRing) (line : Text) → (line == []) ≡ true → add_line r line ≡ r
unfolding add_line
add_line_empty r line e = rw e refl

add_lines-HoldsLast :
    (max : ℕ) (ls hist : List Text) (r : LogRing)
    → HoldsLast max hist r
    → HoldsLast max (hist ++ filled ls) (add_lines r ls)
unfolding add_lines
add_lines-HoldsLast max [] hist r h = rw (append-nil hist) h
add_lines-HoldsLast max (line ∷ ls) hist r h = elim (Bool-cases (line == [])) [
  | inl empty ↦ rw empty (
      subst (HoldsLast max (hist ++ filled ls))
        (ap (λ (q : LogRing). add_lines q ls) (sym (add_line_empty r line empty)))
        (add_lines-HoldsLast max ls hist r h))
  | inr text ↦ rw text (
      subst (λ (t : List Text). HoldsLast max t (add_lines (add_line r line) ls))
        (append_assoc hist (line ∷ []) (filled ls))
        (add_lines-HoldsLast max ls (hist ∷ʳ line) (add_line r line)
          (add_line-HoldsLast max hist r line text h)))
]

write_all-HoldsLast :
    (max : ℕ) (ps : List Text) (hist : List Text) (r : LogRing)
    → HoldsLast max hist r
    → HoldsLast max (hist ++ written_lines ps) (write_all ps r)
unfolding write
write_all-HoldsLast max [] hist r h = rw (append-nil hist) h
write_all-HoldsLast max (p ∷ ps) hist r h =
    let lines : List Text = split 10 (trim_right_of 10 p) in
    subst (λ (t : List Text). HoldsLast max t (write_all ps (write p r)))
      (append_assoc hist (filled lines) (written_lines ps))
      (write_all-HoldsLast max ps (hist ++ filled lines) (write p r)
        (add_lines-HoldsLast max lines hist r h))

-- After any payloads, the ring holds the last `max` of the lines in them that are not empty, in the
-- order in which they came.
pub write_all-last :
    (max : ℕ) (ps : List Text)
    → (write_all ps (new_log_ring max)).lines ≡ last max (written_lines ps)
unfolding new_log_ring
write_all-last max ps =
    (write_all-HoldsLast max ps [] (new_log_ring max) (refl, sym (drop-nil (0 - max)))).1
