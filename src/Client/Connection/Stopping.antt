-- ===== src/Client/Connection/Stopping.antt =====
-- What `Stop` does to a client, by the phase in which it comes.
use selftunnel.Common.{Bool, true, false, ◌||◌, [], ◌∷◌, ◌≡◌, refl, ap, ◌∙◌, Bool-cases, inl, inr}
use selftunnel.Proto.{Frame}
use selftunnel.Client.Connection.{
  Client, Loop, rearmed, greeted, reading, waiting, returned, no_error, stops, begins, dials,
  publishes, greets, prevents, read_ends, wakes, replies, close_client, stop_client, rearm, publish,
  greet, prevent_sleep, accepted, adopt, after_pass, begin, move, run, online, initial_backoff,
}

close_client-stop : (c : Client) → (close_client c).stop ≡ c.stop
unfolding close_client
close_client-stop c = elim (Bool-cases c.closed) [ inl t ↦ rw t | inr f ↦ rw f ]

or_true : (a b : Bool) → b ≡ true → (a || b) ≡ true
or_true true b e = refl
or_true false b e = e

after_pass-stopped :
    (d : Bool) (c : Client)
    → c.stop ≡ true
    → after_pass d c ≡ record { phase = returned no_error; ctx_done = d; client = close_client c }
unfolding after_pass
after_pass-stopped d c e = rw (or_true d c.stop e)

-- `Stop` on a client that is online: as soon as the read loop ends, `Run` returns without an error.
pub stop_online :
    (l : Loop) → l.phase ≡ reading → (run (stops ∷ read_ends ∷ []) l).phase ≡ returned no_error
unfolding run move stop_client
stop_online l e = rw e (
    ap (λ (x : Loop). x.phase)
      (after_pass-stopped l.ctx_done (close_client (close_client (record l.client { stop = true })))
        (close_client-stop (close_client (record l.client { stop = true }))
          ∙ close_client-stop (record l.client { stop = true }))))

-- Online in spite of `Stop`.
abbrev pub OnlineStopped : Loop → Type 0
OnlineStopped l =
    (l.phase ≡ reading)
    × (l.client.stop ≡ true)
    × (l.client.conn_open ≡ true)
    × (l.client.status ≡ online)

-- `Stop` on a client that waits to reconnect: `Run` does not return. When the timer fires it dials again,
-- and a server that accepts the hello has the client online, with `stop` set and the connection open.
pub stop_waiting :
    (l : Loop) (save_ok : Bool) (ack : Frame)
    → l.phase ≡ waiting
    → l.ctx_done ≡ false
    → accepted ack ≡ true
    → OnlineStopped (
        run
          (stops
            ∷ wakes false
            ∷ begins
            ∷ dials true
            ∷ publishes
            ∷ greets save_ok (replies ack)
            ∷ prevents
            ∷ [])
          l)
unfolding run move stop_client begin rearm publish greet adopt prevent_sleep
stop_waiting l save_ok ack p d a =
    rw (p, d, a) (refl, close_client-stop (record l.client { stop = true }), refl, refl)

-- The system is kept awake after `Run` has returned.
abbrev pub AwakeReturned : Loop → Type 0
AwakeReturned l = (l.phase ≡ returned no_error) × (l.client.inhibited ≡ true)

closed_close : (c : Client) → c.closed ≡ true → close_client c ≡ c
unfolding close_client
closed_close c e = rw e

close-closed : (c : Client) → (close_client c).closed ≡ true
unfolding close_client
close-closed c = elim (Bool-cases c.closed) [ inl t ↦ rw (closed_close c t) t | inr f ↦ rw f refl ]

-- The pass that ends for a client that was stopped and is kept awake, and another `Stop` after it.
ends_awake :
    (d : Bool) (c : Client)
    → c.stop ≡ true
    → c.closed ≡ true
    → c.inhibited ≡ true
    → AwakeReturned (record (after_pass d (close_client c)) {
      client = stop_client (after_pass d (close_client c)).client;
    })
unfolding stop_client
ends_awake d c stopped closed awake =
    let shut = closed_close c closed in
    let ends : after_pass d (close_client c)
        ≡ record { phase = returned no_error; ctx_done = d; client = c } =
      ap (after_pass d) shut
      ∙ after_pass-stopped d c stopped
      ∙ ap (λ (x : Client). record { phase = returned no_error; ctx_done = d; client = x }) shut in
    (
      ap (λ (l : Loop). l.phase) ends,
      ap (λ (l : Loop). (stop_client l.client).inhibited) ends
          ∙ ap (λ (x : Client). x.inhibited) (closed_close (record c { stop = true }) closed)
          ∙ awake,
    )

-- `Stop` between the answer to the hello and `PreventSleep`: `connect` goes on, `PreventSleep` runs after
-- the `AllowSleep` of `close`, and since the once-flag is set nothing takes it back: when the read loop
-- has ended and `Run` has returned, the system is still kept awake, even after another `Stop`.
pub stop_greeted :
    (l : Loop)
    → l.phase ≡ greeted
    → AwakeReturned (run (stops ∷ prevents ∷ read_ends ∷ stops ∷ []) l)
unfolding run move stop_client prevent_sleep
stop_greeted l p = rw p (
    ends_awake l.ctx_done _ (close_client-stop (record l.client { stop = true }))
      (close-closed (record l.client { stop = true })) refl)

stopped_online :
    (d : Bool) (c : Client)
    → c.closed ≡ true
    → c.conn_open ≡ true
    → c.status ≡ online
    → OnlineStopped (record { phase = reading; ctx_done = d; client = stop_client c })
unfolding stop_client
stopped_online d c shut up on =
    let same = closed_close (record c { stop = true }) shut in
    (
      refl,
      ap (λ (x : Client). x.stop) same,
      ap (λ (x : Client). x.conn_open) same ∙ up,
      ap (λ (x : Client). x.status) same ∙ on,
    )

-- `Stop` between the re-arming of the once-flag and the publishing of the connection: it closes the
-- connection before, the new one stays open, and with a server that accepts the hello the client goes
-- online. The once-flag is set, so that another `Stop` does not close the connection either.
pub stop_rearmed :
    (l : Loop) (save_ok : Bool) (ack : Frame)
    → l.phase ≡ rearmed
    → accepted ack ≡ true
    → OnlineStopped
        (run (stops ∷ publishes ∷ greets save_ok (replies ack) ∷ prevents ∷ stops ∷ []) l)
unfolding run move stop_client publish greet adopt prevent_sleep
stop_rearmed l save_ok ack p a =
    let published = publish (stop_client l.client) in
    rw (p, a)
      (stopped_online l.ctx_done
        (record (prevent_sleep (adopt save_ok ack published)) {
          backoff = initial_backoff;
          status = online;
        })
        (close-closed (record l.client { stop = true })) refl refl)
