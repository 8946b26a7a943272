-- ===== src/Server/Session/ReqId.antt =====
-- `NextReqID` ends: it tries at most one id more than there are requests in flight.
use selftunnel.Common.{
  ℕ, zero, suc, ◌+◌, ◌%◌, ◌≤◌, ◌<◌, true, false, List, [], ◌∷◌, none, some, length, lookup, delete,
  lookup-delete, nat_eq, ◌≡◌, ◌≢◌, refl, sym, ◌∙◌, ne→==_false, arith, Bool-cases, Option-cases,
  inl, inr,
}
use selftunnel.Server.Session.{Session, u32_mod, is_used, next_req_id_loop, next_req_id}

pub length-delete-le : (k : ℕ) (p : List (ℕ × ℕ)) → length (delete k p) ≤ length p
unfolding delete
length-delete-le k [] = omega arith
length-delete-le k ((j, h) ∷ p) = ground (arith, length-delete-le k p)

length-delete-lt :
    (k : ℕ) (p : List (ℕ × ℕ)) → is_used (lookup k p) ≡ true → length (delete k p) < length p
unfolding lookup delete
length-delete-lt k [] u = absurd (ground arith)
length-delete-lt k ((j, h) ∷ p) u = ground (arith, length-delete-le k p, length-delete-lt k p)

-- A key that the loop does not reach can be taken out.
loop-delete :
    (rounds j k : ℕ) (p : List (ℕ × ℕ))
    → k < u32_mod
    → j + rounds < u32_mod
    → next_req_id_loop rounds ((k + j) % u32_mod) p
      ≡ next_req_id_loop rounds ((k + j) % u32_mod) (delete k p)
unfolding next_req_id_loop
loop-delete zero j k p hk hj = refl
loop-delete (suc rounds) j k p hk hj =
    let same : ((k + j) % u32_mod + 1) % u32_mod ≡ (k + (j + 1)) % u32_mod = omega arith in
    let other : (k + (j + 1)) % u32_mod ≢ k = omega arith in
    rw (
      same,
      lookup-delete k ((k + (j + 1)) % u32_mod) p,
      ne→==_false k ((k + (j + 1)) % u32_mod) (λ e. other (sym e)),
      loop-delete rounds (j + 1) k p hk (omega arith),
    )

after_used :
    (rounds n : ℕ) (p : List (ℕ × ℕ))
    → rounds < u32_mod
    → let id = (n + 1) % u32_mod in
      next_req_id_loop rounds id p ≡ next_req_id_loop rounds id (delete id p)
after_used rounds n p h =
    let id = (n + 1) % u32_mod in
    let at_start : (id + 0) % u32_mod ≡ id = omega arith in
    rw at_start at (loop-delete rounds 0 id p (omega arith) (omega arith))

loop_skips :
    (rounds n : ℕ) (p : List (ℕ × ℕ))
    → is_used (lookup ((n + 1) % u32_mod) p) ≡ true
    → next_req_id_loop (suc rounds) n p ≡ next_req_id_loop rounds ((n + 1) % u32_mod) p
unfolding next_req_id_loop
loop_skips rounds n p used = rw used

loop_takes :
    (rounds n : ℕ) (p : List (ℕ × ℕ))
    → is_used (lookup ((n + 1) % u32_mod) p) ≡ false
    → next_req_id_loop (suc rounds) n p ≡ some ((n + 1) % u32_mod)
unfolding next_req_id_loop
loop_takes rounds n p free = rw free

-- With more rounds than requests in flight an id is found.
loop_total :
    (rounds n : ℕ) (p : List (ℕ × ℕ))
    → length p < rounds
    → rounds ≤ u32_mod
    → (id : ℕ) × (next_req_id_loop rounds n p ≡ some id)
loop_total zero n p h k = absurd (omega arith)
loop_total (suc rounds) n p h k =
    let id = (n + 1) % u32_mod in
    elim (Bool-cases (is_used (lookup id p))) [
      | inl used ↦
          let (r, e) =
            loop_total rounds id (delete id p) (omega (arith, length-delete-lt id p used))
              (omega arith) in
          (r, loop_skips rounds n p used ∙ after_used rounds n p (omega arith) ∙ e)
      | inr free ↦ (id, loop_takes rounds n p free)
    ]

-- What the loop returns is free.
loop_sound :
    (rounds n id : ℕ) (p : List (ℕ × ℕ))
    → next_req_id_loop rounds n p ≡ some id
    → (lookup id p ≡ none) × (id < u32_mod)
unfolding next_req_id_loop
loop_sound zero n id p e = cc
loop_sound (suc rounds) n id p e = elim (Option-cases (lookup ((n + 1) % u32_mod) p)) [
  | inl free ↦ let found : (n + 1) % u32_mod ≡ id = ground arith in (rw (← found) free, omega arith)
  | inr (h, used) ↦ loop_sound rounds ((n + 1) % u32_mod) id p (ground arith)
]

-- `NextReqID` returns as long as fewer than 2^32 requests are in flight. Its id fits into 32 bits and
-- is held by no request in flight; the session changes in its counter alone, which is that id.
pub next_req_id_fresh :
    (s : Session)
    → length s.pending < u32_mod
    → (id : ℕ) × (next_req_id s ≡ some (id, record s { next_id = id }))
      × (lookup id s.pending ≡ none)
      × (id < u32_mod)
unfolding next_req_id
next_req_id_fresh s h =
    let (id, e) =
      loop_total (suc (length s.pending)) s.next_id s.pending (omega arith) (omega arith) in
    let (free, small) = loop_sound (suc (length s.pending)) s.next_id id s.pending e in
    (id, rw e, free, small)
