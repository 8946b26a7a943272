-- ===== src/Client/Slots/Laws.antt =====
-- What every history of the calls keeps, and what it may do.
use selftunnel.Common.{
  ℕ, suc, ◌≤◌, ◌<◌, List, [], ◌∷◌, ◌++◌, ◌∷ʳ◌, Option, none, some, length, length-append, lookup,
  nat_eq, All, All-append, All-append_inv, All-mono, ◌≡◌, refl, ap, subst, ◌∙◌, arith, Bool-cases,
  inl, inr, ltb,
}
use selftunnel.Proto.{Frame, cancel}
use selftunnel.Client.Requests.{Requests, Job, on_request_frame, handle_cancel, cancel_active}
use selftunnel.Client.Slots.{
  max_concurrent, Pool, new_pool, acquire, write_to, send_frame, finish_call, receive,
  lose_connection, new_connection, ◌⟶◌, acquires, sends, finishes, receives, loses, dials, ◌⟶*◌,
  here, then,
}

-- No more calls run than there are slots, and their numbers were given out.
pub record IsPool (p : Pool) : Type 0 where
  pub bounded : length p.running ≤ max_concurrent
  pub numbered : All (λ (c : ℕ × ℕ). c.0 < p.next_call) p.running

fewer :
    (before after : List (ℕ × ℕ)) (c : ℕ × ℕ)
    → length (before ++ after) ≤ length (before ++ c ∷ after)
fewer before after c = omega (arith, length-append before after, length-append before (c ∷ after))

step-IsPool : {p q : Pool} → p ⟶ q → IsPool p → IsPool q
unfolding acquire send_frame finish_call receive lose_connection new_connection
step-IsPool (acquires before job after p waits room) v = record {
  bounded = omega (arith, length-append p.running ((p.next_call, job.req_id) ∷ []), room);
  numbered =
      All-append _ p.running _
        (All-mono (λ (c : ℕ × ℕ). c.0 < p.next_call) (λ (c : ℕ × ℕ). c.0 < suc p.next_call)
          (λ c lt. omega (arith, lt)) p.running v.numbered)
        (omega arith, tt);
}
step-IsPool (sends before call req_id after f p runs same) v = kept p.conn
  where
    kept : (o : Option ℕ) → IsPool (write_to o f p)
    kept none = v
    kept (some g) = record { bounded = v.bounded; numbered = v.numbered }
step-IsPool (finishes before call req_id after p runs) v =
    let (l, r) = All-append_inv _ before ((call, req_id) ∷ after) (subst (All _) runs v.numbered) in
    record {
      bounded = omega (arith, fewer before after (call, req_id), ap length runs, v.bounded);
      numbered = All-append _ before after l r.1;
    }
step-IsPool (receives t f p) v = record { bounded = v.bounded; numbered = v.numbered }
step-IsPool (loses p) v = record { bounded = v.bounded; numbered = v.numbered }
step-IsPool (dials p) v = record { bounded = v.bounded; numbered = v.numbered }

steps-IsPool : {p q : Pool} → p ⟶* q → IsPool p → IsPool q
steps-IsPool here v = v
steps-IsPool (then s t) v = steps-IsPool t (step-IsPool s v)

-- In every history of a client at most eight calls of the target run at once.
pub reachable-IsPool : (p : Pool) → new_pool ⟶* p → IsPool p
reachable-IsPool p steps = steps-IsPool steps (record { bounded = omega arith; numbered = tt })

first_of :
    (rs : List (ℕ × ℕ))
    → max_concurrent ≤ length rs
    → (c : ℕ × ℕ) × (rest : List (ℕ × ℕ)) × (rs ≡ c ∷ rest)
first_of [] full = absurd (omega (arith, full))
first_of (c ∷ rest) full = (c, rest, refl)

-- A job that waits is never shut out for good: from every reachable state there is a continuation in
-- which it has a slot.
pub waiting_can_run :
    (p : Pool) (before : List Job) (job : Job) (after : List Job)
    → new_pool ⟶* p
    → p.requests.jobs ≡ before ++ job ∷ after
    → (q : Pool) × (rest : List (ℕ × ℕ)) × (call : ℕ) × (p ⟶* q)
      × (q.running ≡ rest ∷ʳ (call, job.req_id))
unfolding acquire finish_call
waiting_can_run p before job after steps waits =
    elim (Bool-cases (ltb (length p.running) max_concurrent)) [
      | inl room ↦ (
        acquire before job after p,
        p.running,
        p.next_call,
        then (acquires before job after p waits (ground (arith, room))) here,
        refl,
      )
      | inr full ↦
          let (c, rest, e) = first_of p.running (ground (arith, full)) in
          let bounded = (reachable-IsPool p steps).bounded in
          let p' : Pool = finish_call [] c.1 rest p in
          let fits : length rest < max_concurrent = omega (arith, bounded, ap length e) in
          (
            acquire before job after p',
            rest,
            p.next_call,
            then (finishes [] c.0 c.1 rest p e)
                (then (acquires before job after p' waits fits) here),
            refl,
          )
    ]

cancel-unregistered :
    (r : Requests) (req_id : ℕ)
    → lookup req_id r.active ≡ none
    → ((handle_cancel req_id r).jobs ≡ r.jobs) × ((handle_cancel req_id r).cancelled ≡ r.cancelled)
unfolding handle_cancel
cancel-unregistered r req_id e = rw (e, cancel_active) (refl, refl)

-- A cancel frame for a job that waits for a slot is lost: the job stays, and when it takes a slot its
-- call runs and has not been cancelled.
pub cancel_lost :
    (p : Pool) (before : List Job) (job : Job) (after : List Job) (f : Frame)
    → p.requests.jobs ≡ before ++ job ∷ after
    → lookup job.req_id p.requests.active ≡ none
    → f.req_id ≡ job.req_id
    → length p.running < max_concurrent
    → (q : Pool) × (receive cancel f p ⟶ q)
      × (q.running ≡ p.running ∷ʳ (p.next_call, job.req_id))
      × (q.requests.cancelled ≡ p.requests.cancelled)
unfolding receive on_request_frame acquire
cancel_lost p before job after f waits free same room =
    let (jobs, kept) =
      cancel-unregistered p.requests f.req_id
        (ap (λ (n : ℕ). lookup n p.requests.active) same ∙ free) in
    (
      acquire before job after (receive cancel f p),
      acquires before job after (receive cancel f p) (jobs ∙ waits) room,
      refl,
      kept,
    )

-- The loss of a connection and the next dial leave every call running, uncancelled and with its place in
-- `active`; and a frame that such a call sends afterwards goes over the new connection, under the request
-- id that the call had on the old one.
pub stale_answer :
    (p : Pool) (before : List (ℕ × ℕ)) (call req_id : ℕ) (after : List (ℕ × ℕ)) (f : Frame)
    → p.running ≡ before ++ (call, req_id) ∷ after
    → f.req_id ≡ req_id
    → let q = new_connection (lose_connection p) in
      (p ⟶* q)
      × (q.running ≡ p.running)
      × (q.requests ≡ p.requests)
      × (q ⟶ send_frame f q)
      × ((send_frame f q).wire ≡ p.wire ∷ʳ (suc p.connections, f))
unfolding lose_connection new_connection send_frame
stale_answer p before call req_id after f runs same = (
  then (loses p) (then (dials (lose_connection p)) here),
  refl,
  refl,
  sends before call req_id after f (new_connection (lose_connection p)) runs same,
  refl,
)
