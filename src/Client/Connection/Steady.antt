-- ===== src/Client/Connection/Steady.antt =====
-- What holds of the client in each phase of `Run`, whatever happens.
use selftunnel.Common.{
  ◌≤◌, Bool, true, false, not, ◌&&◌, ◌||◌, List, [], ◌∷◌, Text, ◌≡◌, refl, sym, ap, ◌∙◌, arith,
  Bool-cases, inl, inr,
}
use selftunnel.Client.Connection.{
  Client, Config, Loop, Phase, top, dialling, greeting, rearmed, greeted, reading, waiting,
  returned, Move, cancels, stops, reconnects, closes, begins, dials, publishes, greets, prevents,
  read_ends, wakes, Greeting, hello_unsent, no_reply, replies, initial_backoff, max_backoff,
  close_client, stop_client, reconnect, rearm, publish, greet, prevent_sleep, accepted, adopt,
  begin_backoff, after_pass, after_greeting, connected, begin, dial, wake, move, run, start,
  new_client, hang_up,
}
use selftunnel.Client.Connection.Backoff.{doubled_bounds}

-- Without a connection: none is left open, and the system may sleep.
abbrev pub Idle : Client → Type 0
Idle c = (c.conn_open ≡ false) × (c.inhibited ≡ false)

abbrev pub Rests : Phase → Client → Type 0
Rests top c = Idle c
Rests dialling c = Idle c
Rests rearmed c = (c.conn_open ≡ false) × (c.closed ≡ false) × (c.inhibited ≡ false)
Rests greeting c = (c.conn_open ≡ not c.closed) × (c.inhibited ≡ false)
Rests greeted c = (c.conn_open ≡ true) × (c.closed ≡ false) × (c.inhibited ≡ false)
Rests reading c = (c.conn_open ≡ not c.closed) × (c.inhibited ≡ not c.closed)
Rests waiting c = Idle c
Rests (returned r) c = Idle c

abbrev pub InBounds : Client → Type 0
InBounds c = (initial_backoff ≤ c.backoff) × (c.backoff ≤ max_backoff)

abbrev pub IsSteady : Loop → Type 0
IsSteady l = Rests l.phase l.client × InBounds l.client

close_client-Idle :
    (c : Client)
    → (c.conn_open ≡ not c.closed)
    → (c.inhibited ≡ not c.closed)
    → Idle (close_client c)
unfolding close_client
close_client-Idle c o i = elim (Bool-cases c.closed) [
  | inl t ↦ rw t (o ∙ rw t, i ∙ rw t)
  | inr f ↦ rw f (refl, refl)
]

close_client-InBounds : (c : Client) → InBounds c → InBounds (close_client c)
unfolding close_client
close_client-InBounds c b = elim (Bool-cases c.closed) [ inl t ↦ rw t b | inr f ↦ rw f b ]

close_client-Idle_again : (c : Client) → Idle c → Idle (close_client c)
unfolding close_client
close_client-Idle_again c i = elim (Bool-cases c.closed) [
  | inl t ↦ rw t i
  | inr f ↦ rw f (refl, refl)
]

close_client-greeting : (c : Client) → Rests greeting c → Rests greeting (close_client c)
unfolding close_client
close_client-greeting c r = elim (Bool-cases c.closed) [
  | inl t ↦ rw t (rw t at r)
  | inr f ↦ rw f (refl, refl)
]

close_client-reading : (c : Client) → Rests reading c → Rests reading (close_client c)
unfolding close_client
close_client-reading c r = elim (Bool-cases c.closed) [
  | inl t ↦ rw t (rw t at r)
  | inr f ↦ rw f (refl, refl)
]

-- The two spots of `connect` at which a `close` is lost on it.
abbrev pub is_gap : Phase → Bool
is_gap rearmed = true
is_gap greeted = true
is_gap _ = false

-- `close` suits every other phase.
close_client-Rests :
    (p : Phase) (c : Client) → is_gap p ≡ false → Rests p c → Rests p (close_client c)
close_client-Rests top c q r = close_client-Idle_again c r
close_client-Rests dialling c q r = close_client-Idle_again c r
close_client-Rests rearmed c q r = absurd (cc)
close_client-Rests greeting c q r = close_client-greeting c r
close_client-Rests greeted c q r = absurd (cc)
close_client-Rests reading c q r = close_client-reading c r
close_client-Rests waiting c q r = close_client-Idle_again c r
close_client-Rests (returned x) c q r = close_client-Idle_again c r

stop-Rests : (p : Phase) (c : Client) → Rests p c → Rests p (record c { stop = true })
stop-Rests top c r = r
stop-Rests dialling c r = r
stop-Rests rearmed c r = r
stop-Rests greeting c r = r
stop-Rests greeted c r = r
stop-Rests reading c r = r
stop-Rests waiting c r = r
stop-Rests (returned x) c r = r

recon-Rests : (p : Phase) (c : Client) → Rests p c → Rests p (record c { recon = true })
recon-Rests top c r = r
recon-Rests dialling c r = r
recon-Rests rearmed c r = r
recon-Rests greeting c r = r
recon-Rests greeted c r = r
recon-Rests reading c r = r
recon-Rests waiting c r = r
recon-Rests (returned x) c r = r

after_pass-IsSteady : (d : Bool) (c : Client) → Idle c → InBounds c → IsSteady (after_pass d c)
unfolding after_pass begin_backoff
after_pass-IsSteady d c i b = elim (Bool-cases (d || c.stop)) [
  | inl t ↦ rw t (close_client-Idle_again c i, close_client-InBounds c b)
  | inr f ↦ elim (Bool-cases c.recon) [
    | inl t ↦ rw (f, t) (i, b)
    | inr g ↦ let up = doubled_bounds c.backoff b.0 b.1 in rw (f, g) (i, (up.0, up.1))
  ]
]

begin-IsSteady : (d : Bool) (c : Client) → Idle c → InBounds c → IsSteady (begin d c)
unfolding begin
begin-IsSteady true c i b = (close_client-Idle_again c i, close_client-InBounds c b)
begin-IsSteady false c i b = (i, b)

dial-IsSteady : (ok d : Bool) (c : Client) → Idle c → InBounds c → IsSteady (dial ok d c)
unfolding rearm
dial-IsSteady true d c i b = ((i.0, refl, i.1), b)
dial-IsSteady false d c i b = after_pass-IsSteady d c i b

wake-IsSteady : (x d : Bool) (c : Client) → Idle c → InBounds c → IsSteady (wake x d c)
wake-IsSteady true true c i b = (i, b)
wake-IsSteady true false c i b = (i, b)
wake-IsSteady false d c i b = (i, b)

hang_up-IsSteady :
    (d : Bool) (c : Client)
    → Rests greeting c
    → InBounds c
    → IsSteady (after_greeting d (hang_up c))
hang_up-IsSteady d c r b = after_pass-IsSteady d (record c { conn_open = false }) (refl, r.1) b

greet-IsSteady :
    (d save_ok : Bool) (g : Greeting) (c : Client)
    → Rests greeting c
    → InBounds c
    → IsSteady (after_greeting d (greet save_ok g c))
unfolding greet adopt
greet-IsSteady d save_ok hello_unsent c r b = hang_up-IsSteady d c r b
greet-IsSteady d save_ok no_reply c r b = hang_up-IsSteady d c r b
greet-IsSteady d save_ok (replies ack) c r b = elim (Bool-cases (c.conn_open && accepted ack)) [
  | inr f ↦ rw f (hang_up-IsSteady d c r b)
  | inl t ↦
      let up = is_open c.conn_open (accepted ack) t in
      rw t ((up, is_live c.closed (sym r.0 ∙ up), r.1), b)
]
  where
    is_open : (o a : Bool) → (o && a) ≡ true → o ≡ true
    is_open true a e = refl
    is_open false a e = absurd (cc)

    is_live : (x : Bool) → not x ≡ true → x ≡ false
    is_live true e = absurd (cc)
    is_live false e = refl

prevent-IsSteady :
    (d : Bool) (c : Client) → Rests greeted c → IsSteady (connected d (prevent_sleep c))
unfolding prevent_sleep
prevent-IsSteady d c r = ((r.0 ∙ ap not (sym r.1), ap not (sym r.1)), (omega arith, omega arith))

abbrev at_phase : Phase → Bool → Client → Loop
at_phase p d c = record { phase = p; ctx_done = d; client = c }

-- The outside closes the connection.
abbrev pub is_close : Move → Bool
is_close stops = true
is_close reconnects = true
is_close closes = true
is_close _ = false

move-IsSteady :
    (m : Move) (p : Phase) (d : Bool) (c : Client)
    → (is_close m && is_gap p) ≡ false
    → Rests p c
    → InBounds c
    → IsSteady (move m p (at_phase p d c))
unfolding move stop_client reconnect publish
move-IsSteady cancels p d c q r b = (r, b)
move-IsSteady stops p d c q r b = (
  close_client-Rests p (record c { stop = true }) q (stop-Rests p c r),
  close_client-InBounds (record c { stop = true }) b,
)
move-IsSteady reconnects p d c q r b = (
  close_client-Rests p (record c { recon = true }) q (recon-Rests p c r),
  close_client-InBounds (record c { recon = true }) b,
)
move-IsSteady closes p d c q r b = (close_client-Rests p c q r, close_client-InBounds c b)
move-IsSteady begins top d c q r b = begin-IsSteady d c r b
move-IsSteady begins dialling d c q r b = (r, b)
move-IsSteady begins rearmed d c q r b = (r, b)
move-IsSteady begins greeting d c q r b = (r, b)
move-IsSteady begins greeted d c q r b = (r, b)
move-IsSteady begins reading d c q r b = (r, b)
move-IsSteady begins waiting d c q r b = (r, b)
move-IsSteady begins (returned x) d c q r b = (r, b)
move-IsSteady (dials ok) top d c q r b = (r, b)
move-IsSteady (dials ok) dialling d c q r b = dial-IsSteady ok d c r b
move-IsSteady (dials ok) rearmed d c q r b = (r, b)
move-IsSteady (dials ok) greeting d c q r b = (r, b)
move-IsSteady (dials ok) greeted d c q r b = (r, b)
move-IsSteady (dials ok) reading d c q r b = (r, b)
move-IsSteady (dials ok) waiting d c q r b = (r, b)
move-IsSteady (dials ok) (returned x) d c q r b = (r, b)
move-IsSteady publishes top d c q r b = (r, b)
move-IsSteady publishes dialling d c q r b = (r, b)
move-IsSteady publishes rearmed d c q r b = ((ap not (sym r.1), r.2), b)
move-IsSteady publishes greeting d c q r b = (r, b)
move-IsSteady publishes greeted d c q r b = (r, b)
move-IsSteady publishes reading d c q r b = (r, b)
move-IsSteady publishes waiting d c q r b = (r, b)
move-IsSteady publishes (returned x) d c q r b = (r, b)
move-IsSteady (greets save_ok g) top d c q r b = (r, b)
move-IsSteady (greets save_ok g) dialling d c q r b = (r, b)
move-IsSteady (greets save_ok g) rearmed d c q r b = (r, b)
move-IsSteady (greets save_ok g) greeting d c q r b = greet-IsSteady d save_ok g c r b
move-IsSteady (greets save_ok g) greeted d c q r b = (r, b)
move-IsSteady (greets save_ok g) reading d c q r b = (r, b)
move-IsSteady (greets save_ok g) waiting d c q r b = (r, b)
move-IsSteady (greets save_ok g) (returned x) d c q r b = (r, b)
move-IsSteady prevents top d c q r b = (r, b)
move-IsSteady prevents dialling d c q r b = (r, b)
move-IsSteady prevents rearmed d c q r b = (r, b)
move-IsSteady prevents greeting d c q r b = (r, b)
move-IsSteady prevents greeted d c q r b = prevent-IsSteady d c r
move-IsSteady prevents reading d c q r b = (r, b)
move-IsSteady prevents waiting d c q r b = (r, b)
move-IsSteady prevents (returned x) d c q r b = (r, b)
move-IsSteady read_ends top d c q r b = (r, b)
move-IsSteady read_ends dialling d c q r b = (r, b)
move-IsSteady read_ends rearmed d c q r b = (r, b)
move-IsSteady read_ends greeting d c q r b = (r, b)
move-IsSteady read_ends greeted d c q r b = (r, b)
move-IsSteady read_ends reading d c q r b =
    after_pass-IsSteady d (close_client c) (close_client-Idle c r.0 r.1) (close_client-InBounds c b)
move-IsSteady read_ends waiting d c q r b = (r, b)
move-IsSteady read_ends (returned x) d c q r b = (r, b)
move-IsSteady (wakes y) top d c q r b = (r, b)
move-IsSteady (wakes y) dialling d c q r b = (r, b)
move-IsSteady (wakes y) rearmed d c q r b = (r, b)
move-IsSteady (wakes y) greeting d c q r b = (r, b)
move-IsSteady (wakes y) greeted d c q r b = (r, b)
move-IsSteady (wakes y) reading d c q r b = (r, b)
move-IsSteady (wakes y) waiting d c q r b = wake-IsSteady y d c r b
move-IsSteady (wakes y) (returned x) d c q r b = (r, b)

-- No `Stop`, no `Reconnect` and no late `close` of a read loop's goroutine comes at one of the two spots.
abbrev pub Undisturbed : List Move → Loop → Type 0
Undisturbed [] l = Unit {0}
Undisturbed (m ∷ ms) l =
    ((is_close m && is_gap l.phase) ≡ false) × Undisturbed ms (move m l.phase l)

run-IsSteady : (ms : List Move) (l : Loop) → Undisturbed ms l → IsSteady l → IsSteady (run ms l)
unfolding run
run-IsSteady [] l u s = s
run-IsSteady (m ∷ ms) l u s =
    run-IsSteady ms (move m l.phase l) u.1 (move-IsSteady m l.phase l.ctx_done l.client u.0 s.0 s.1)

-- In every history of a client in which nothing closes it between the re-arming of the once-flag and the
-- publishing of the connection, or between the answer to the hello and `PreventSleep`: outside the hello
-- and the read loop no connection is left open and the system may sleep; in the read loop sleep is
-- prevented exactly as long as the client has not closed the connection; and the backoff stays between
-- one second and a minute.
pub run-start :
    (ms : List Move) (cfg : Config) (config_path : Text)
    → Undisturbed ms (start cfg config_path)
    → IsSteady (run ms (start cfg config_path))
unfolding new_client
run-start ms cfg config_path u =
    run-IsSteady ms (start cfg config_path) u ((refl, refl), (omega arith, omega arith))
