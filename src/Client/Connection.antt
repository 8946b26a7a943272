-- ===== src/Client/Connection.antt =====
-- The connection loop of internal/client/client.go: `Run`, `connect`, `sleepBackoff`, `close`, `Stop` and
-- `Reconnect`. `Run` goes from phase to phase; between two moves of it the context may end and the
-- callers of `Stop` and `Reconnect` may act, so that a history is one list of moves. Durations are in
-- nanoseconds.
pub mod Backoff
pub mod Steady
pub mod Stopping
pub mod Restart
mod Tests
use selftunnel.Common.{
  ℕ, ◌+◌, ◌-◌, ◌*◌, ◌/◌, Bool, true, false, not, ◌&&◌, ◌||◌, List, [], ◌∷◌, Option, none, some,
  Text, codes, if◌then◌else◌, leb, ◌==◌, text_eq,
}
use selftunnel.Proto.{Frame, FrameType, frame, hello, hello_ack, hello_version}

abbrev pub initial_backoff : ℕ
initial_backoff = 1000000000

abbrev pub max_backoff : ℕ
max_backoff = 60 * 1000000000

pub record Config : Type 0 where
  pub server : Text
  pub target : Text
  pub custom_id : Text
  pub tunnel_id : Text
  pub secret : Text

pub data Status : Type 0 where
  disconnected connecting online backing_off : Status

-- `conn_open` tells whether the client has a connection that it has not closed; `inhibited` is what the
-- last of `PreventSleep` and `AllowSleep` asked for; `saved` is the file at the configured path.
pub record Client : Type 0 where
  pub cfg : Config
  pub config_path : Text
  pub saved : Option Config
  pub conn_open : Bool
  pub tun_id : Text
  pub status : Status
  pub stop : Bool
  pub recon : Bool
  pub closed : Bool
  pub backoff : ℕ
  pub inhibited : Bool

unfoldable pub new_client : Config → Text → Client
new_client cfg config_path = record {
  cfg = cfg;
  config_path = config_path;
  saved = none;
  conn_open = false;
  tun_id = [];
  status = disconnected;
  stop = false;
  recon = false;
  closed = false;
  backoff = initial_backoff;
  inhibited = false;
}

unfoldable pub close_client : Client → Client
close_client c =
    if c.closed then c else record c { closed = true; inhibited = false; conn_open = false }

unfoldable pub stop_client : Client → Client
unfolding close_client
stop_client c = close_client (record c { stop = true })

unfoldable pub reconnect : Client → Client
unfolding close_client
reconnect c = close_client (record c { recon = true })

unfoldable pub hello_frame : Config → Frame
hello_frame cfg = record (frame hello) {
  version = hello_version;
  desired_id = cfg.custom_id;
  secret = cfg.secret;
  client_type = codes "native-client";
  ext_version = codes "1.0.0";
}

-- `connect` after the dial: the once-flag is re-armed, and then the connection is published. A `close`
-- between the two finds the connection before it.
unfoldable pub rearm : Client → Client
rearm c = record c { closed = false }

unfoldable pub publish : Client → Client
publish c = record c { conn_open = true }

-- What comes of the hello: the write fails, the read fails or gives no frame, or a frame comes.
pub data Greeting : Type 0 where
  hello_unsent no_reply : Greeting
  replies : Frame → Greeting

abbrev pub is_ack : FrameType → Bool
is_ack hello_ack = true
is_ack _ = false

unfoldable pub accepted : Frame → Bool
accepted ack = is_ack ack.type && ack.ok

abbrev pub with_secret : Text → Config → Config
with_secret [] cfg = cfg
with_secret (s ∷ secret) cfg = record cfg { secret = s ∷ secret }

-- `SaveConfig` if a path is set; a failure is only logged.
abbrev pub save_if : Bool → Text → Config → Option Config → Option Config
save_if save_ok [] cfg saved = saved
save_if save_ok (p ∷ path) cfg saved = if save_ok then some cfg else saved

unfoldable pub adopt : Bool → Frame → Client → Client
adopt save_ok ack c =
    let cfg' : Config = with_secret ack.secret (record c.cfg { tunnel_id = ack.tunnel_id }) in
    record c {
      cfg = cfg';
      saved = save_if save_ok c.config_path cfg' c.saved;
      tun_id = ack.tunnel_id;
    }

-- `PreventSleep` at the end of `connect`.
unfoldable pub prevent_sleep : Client → Client
prevent_sleep c = record c { inhibited = true }

abbrev pub hang_up : Client → Bool × Client
hang_up c = (false, record c { conn_open = false })

-- The hello and its answer up to the end of the configuration's update, with whether `connect` goes on:
-- on a connection that was closed meanwhile nothing can be read.
unfoldable pub greet : Bool → Greeting → Client → Bool × Client
unfolding adopt accepted
greet save_ok hello_unsent c = hang_up c
greet save_ok no_reply c = hang_up c
greet save_ok (replies ack) c =
    if c.conn_open && accepted ack then (true, adopt save_ok ack c) else hang_up c

-- The delay of `sleepBackoff`, from the draw of `rand.Int63n(bound)`.
unfoldable pub doubled : ℕ → ℕ
doubled b = if leb (b * 2) max_backoff then b * 2 else max_backoff

unfoldable pub jitter_bound : ℕ → ℕ
jitter_bound b = b / 5 * 2 + 1

unfoldable pub delay : ℕ → ℕ → ℕ
delay b draw = b - b / 5 + draw

pub data RunResult : Type 0 where
  context_error no_error : RunResult

-- Where `Run` stands: at the head of its loop; in the dial; between the re-arming of the once-flag and
-- the publishing of the connection; in the hello; between its answer and `PreventSleep`; in the read
-- loop; in the wait; or back at its caller.
pub data Phase : Type 0 where
  top dialling rearmed greeting greeted reading waiting : Phase
  returned : RunResult → Phase

pub record Loop : Type 0 where
  pub phase : Phase
  pub ctx_done : Bool
  pub client : Client

-- `sleepBackoff` up to its select.
unfoldable pub begin_backoff : Bool → Client → Loop
unfolding doubled
begin_backoff ctx_done c =
    if c.recon
    then record { phase = top; ctx_done = ctx_done; client = record c { recon = false } }
    else record {
      phase = waiting;
      ctx_done = ctx_done;
      client = record c { backoff = doubled c.backoff };
    }

-- The second half of the loop's body.
unfoldable pub after_pass : Bool → Client → Loop
unfolding begin_backoff close_client
after_pass ctx_done c =
    if ctx_done || c.stop
    then record { phase = returned no_error; ctx_done = ctx_done; client = close_client c }
    else begin_backoff ctx_done (record c { status = backing_off })

abbrev pub after_greeting : Bool → Bool × Client → Loop
after_greeting ctx_done (true, c) = record { phase = greeted; ctx_done = ctx_done; client = c }
after_greeting ctx_done (false, c) = after_pass ctx_done c

-- `Run` once `connect` has succeeded.
abbrev pub connected : Bool → Client → Loop
connected ctx_done c = record {
  phase = reading;
  ctx_done = ctx_done;
  client = record c { backoff = initial_backoff; status = online };
}

-- The moves of the outside, and those of `Run` with what they meet. `closes` is the `close` of the
-- goroutine that a read loop leaves behind.
pub data Move : Type 0 where
  cancels stops reconnects closes : Move
  begins : Move
  dials : Bool → Move
  publishes : Move
  greets : Bool → Greeting → Move
  prevents : Move
  read_ends : Move
  wakes : Bool → Move

unfoldable pub begin : Bool → Client → Loop
unfolding close_client
begin true c = record { phase = returned context_error; ctx_done = true; client = close_client c }
begin false c = record {
  phase = dialling;
  ctx_done = false;
  client = record c { status = connecting };
}

abbrev pub dial : Bool → Bool → Client → Loop
dial true ctx_done c = record { phase = rearmed; ctx_done = ctx_done; client = rearm c }
dial false ctx_done c = after_pass ctx_done c

-- The select of `sleepBackoff`: `by_ctx` is the arm of the context, which waits for its end.
abbrev pub wake : Bool → Bool → Client → Loop
wake true true c = record { phase = returned context_error; ctx_done = true; client = c }
wake true false c = record { phase = waiting; ctx_done = false; client = c }
wake false ctx_done c = record { phase = top; ctx_done = ctx_done; client = c }

-- A move that does not belong to the phase changes nothing.
unfoldable pub move : Move → Phase → Loop → Loop
unfolding stop_client reconnect begin rearm publish greet prevent_sleep after_pass
move cancels p l = record l { ctx_done = true }
move stops p l = record l { client = stop_client l.client }
move reconnects p l = record l { client = reconnect l.client }
move closes p l = record l { client = close_client l.client }
move begins top l = begin l.ctx_done l.client
move (dials ok) dialling l = dial ok l.ctx_done l.client
move publishes rearmed l = record l { phase = greeting; client = publish l.client }
move (greets save_ok g) greeting l = after_greeting l.ctx_done (greet save_ok g l.client)
move prevents greeted l = connected l.ctx_done (prevent_sleep l.client)
move read_ends reading l = after_pass l.ctx_done (close_client l.client)
move (wakes by_ctx) waiting l = wake by_ctx l.ctx_done l.client
move _ p l = l

unfoldable pub run : List Move → Loop → Loop
unfolding move
run [] l = l
run (m ∷ ms) l = run ms (move m l.phase l)

abbrev pub start : Config → Text → Loop
start cfg config_path = record {
  phase = top;
  ctx_done = false;
  client = new_client cfg config_path;
}
