-- ===== src/Client/Requests/Assembly.antt =====
-- What the server's upload sends is what the client assembles.
use selftunnel.Common.{
  ℕ, suc, ◌+◌, ◌<◌, false, List, [], ◌∷◌, ◌++◌, ◌∷ʳ◌, some, nat_eq, nat_beq, lookup, insert, length,
  concat, ◌≡◌, refl, ap, ◌∙◌, arith,
}
use selftunnel.Proto.{Frame}
use selftunnel.Client.Requests.{Chunks, Requests, assemble, on_request_frame, consume}

consume-append :
    (fs gs : List Frame) (c : Requests) → consume (fs ++ gs) c ≡ consume gs (consume fs c)
unfolding consume
consume-append [] gs c = refl
consume-append (f ∷ fs) gs c = consume-append fs gs (on_request_frame f.type f c)

-- The chunks 0, 1, …, in the order in which they arrived.
abbrev pub numbered : ℕ → List (List ℕ) → Chunks
numbered n [] = []
numbered n (b ∷ bs) = (n, b) ∷ numbered (suc n) bs

-- Each of those chunks is found under its number, from `i` on.
abbrev Holds : ℕ → List (List ℕ) → Chunks → Type 0
Holds i [] m = Unit
Holds i (b ∷ bs) m = (lookup i m ≡ some b) × Holds (suc i) bs m

apart : (i j : ℕ) → i < j → nat_beq i j ≡ false
apart i j lt = ground arith

lookup_behind : (i j : ℕ) (b : List ℕ) (m : Chunks) → i < j → lookup j ((i, b) ∷ m) ≡ lookup j m
unfolding lookup
lookup_behind i j b m lt = rw (apart i j lt)

lookup_head : (i : ℕ) (b : List ℕ) (m : Chunks) → lookup i ((i, b) ∷ m) ≡ some b
unfolding lookup
lookup_head i b m = ground arith

Holds-behind :
    (i j : ℕ) (b : List ℕ) (bs : List (List ℕ)) (m : Chunks)
    → i < j
    → Holds j bs m
    → Holds j bs ((i, b) ∷ m)
Holds-behind i j b [] m lt h = tt
Holds-behind i j b (x ∷ bs) m lt h =
    (lookup_behind i j b m lt ∙ h.0, Holds-behind i (suc j) b bs m (omega arith) h.1)

numbered-Holds : (i : ℕ) (bs : List (List ℕ)) → Holds i bs (numbered i bs)
numbered-Holds i [] = tt
numbered-Holds i (b ∷ bs) = (
  lookup_head i b (numbered (suc i) bs),
  Holds-behind i (suc i) b bs (numbered (suc i) bs) (omega arith) (numbered-Holds (suc i) bs),
)

assemble-Holds :
    (i : ℕ) (bs : List (List ℕ)) (m : Chunks) → Holds i bs m → assemble (length bs) i m ≡ concat bs
unfolding assemble
assemble-Holds i [] m h = refl
assemble-Holds i (b ∷ bs) m h = rw (h.0, assemble-Holds (suc i) bs m h.1)

length-numbered : (i : ℕ) (bs : List (List ℕ)) → length (numbered i bs) ≡ length bs
length-numbered i [] = refl
length-numbered i (b ∷ bs) = ap suc (length-numbered (suc i) bs)

-- Chunks that arrive under the numbers 0, 1, … are put together in that order.
pub assemble-numbered :
    (bs : List (List ℕ)) → assemble (length (numbered 0 bs)) 0 (numbered 0 bs) ≡ concat bs
assemble-numbered bs =
    rw (length-numbered 0 bs) (assemble-Holds 0 bs (numbered 0 bs) (numbered-Holds 0 bs))

-- The next chunk goes behind the ones that arrived.
pub insert-numbered :
    (i n : ℕ) (bs : List (List ℕ)) (b : List ℕ)
    → n ≡ i + length bs
    → insert n b (numbered i bs) ≡ numbered i (bs ∷ʳ b)
unfolding insert
insert-numbered i n [] b e = rw (same) refl
  where
    same : n ≡ i
    same = omega arith
insert-numbered i n (x ∷ bs) b e =
    rw (apart i n (omega arith), insert-numbered (suc i) n bs b (omega arith))
