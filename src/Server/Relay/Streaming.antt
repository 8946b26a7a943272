-- ===== src/Server/Relay/Streaming.antt =====
-- The second stage of `handleRelay` in internal/server/relay.go, on every course of events.
use selftunnel.Common.{
  ℕ, Bool, List, [], ◌∷◌, ◌++◌, append_assoc, append-nil, ◌≡◌, refl, sym, ◌∙◌, ◌⊎◌, inl, inr,
}
use selftunnel.Link.{Link}
use selftunnel.Server.Relay.{
  Response, Relay, Event, receives, mailbox_done, timer_fires, caller_gone, finish, stream,
  maybe_send_cancel,
}
use selftunnel.Server.Relay.Frames.{stream_frame-elim}

-- What stage two may make of an answer that has begun.
abbrev pub Continues : ℕ → Link → Response → Relay → Type 0
Continues id l w r =
    (r.response.status ≡ w.status)
    × (r.response.added ≡ w.added)
    × ((b : List ℕ) × (r.response.body ≡ w.body ++ b))
    × ((r.link ≡ l) ⊎ (r.link ≡ maybe_send_cancel id l))

stop : (id : ℕ) (l : Link) (w : Response) → Continues id l w (finish w l)
stop id l w = (refl, refl, ([], sym (append-nil w.body)), inl refl)

more_written :
    (id : ℕ) (l : Link) (w : Response) (b : List ℕ) (r : Relay)
    → Continues id l (record w { body = w.body ++ b }) r
    → Continues id l w r
more_written id l w b r (s, a, (c, e), x) = (s, a, (b ++ c, e ∙ append_assoc w.body b c), x)

-- Once the answer has begun, the status and the headers stay as they were written, the body only grows,
-- and the connection to the client carries at most one `cancel` more.
pub stream-Continues :
    (hijack : Bool) (id : ℕ) (es : List Event) (l : Link) (w : Response)
    → Continues id l w (stream hijack id es l w)
unfolding stream
stream-Continues hijack id [] l w = (refl, refl, ([], sym (append-nil w.body)), inl refl)
stream-Continues hijack id (receives f ∷ es) l w =
    stream_frame-elim (Continues id l w) f.type f l w (stream hijack id es l) (stop id l w) (λ b.
      more_written id l w b (stream hijack id es l (record w { body = w.body ++ b }))
        (stream-Continues hijack id es l (record w { body = w.body ++ b })))
stream-Continues hijack id (mailbox_done ∷ es) l w = stop id l w
stream-Continues hijack id (timer_fires ∷ es) l w =
    (refl, refl, ([], sym (append-nil w.body)), inr refl)
stream-Continues hijack id (caller_gone ∷ es) l w =
    (refl, refl, ([], sym (append-nil w.body)), inr refl)
