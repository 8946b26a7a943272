-- ===== src/Server/DebugLog.antt =====
-- The request log of internal/server/debuglog.go: `logRequests` and `recordingWriter`. A response writer
-- is a record of operations on a state of its own; one that cannot flush or be hijacked has `none`
-- there. A handler is the tree of the calls that it makes on its writer, each continued by the answer.
pub mod Laws
mod Tests
use selftunnel.Common.{
  ℕ, ◌+◌, ◌%◌, ◌^◌, Bool, true, false, List, [], ◌∷◌, Option, none, some, length, Text,
  if◌then◌else◌,
}

pub record ResponseWriter (W : Type 0) : Type 0 where
  pub write_header : ℕ → W → W
  pub write : List ℕ → W → (ℕ × Bool) × W
  pub flush : Option (W → W)
  pub hijack : Option (W → Bool × W)

-- `Flush` is called through a type test, whose failure the handler passes over; the failure of a
-- hijacking is `false`.
pub data Handler : Type 0 where
  finished : Handler
  header : ℕ → Handler → Handler
  body : List ℕ → (ℕ × Bool → Handler) → Handler
  flushing : Handler → Handler
  hijacking : (Bool → Handler) → Handler

abbrev pub flush_with : {W : Type 0} → Option (W → W) → W → W
flush_with none w = w
flush_with (some f) w = f w

abbrev pub hijack_with : {W : Type 0} → Option (W → Bool × W) → W → Bool × W
hijack_with none w = (false, w)
hijack_with (some f) w = f w

-- `ServeHTTP` of the handler.
unfoldable pub serve_http : {W : Type 0} → ResponseWriter W → Handler → W → W
serve_http ops finished w = w
serve_http ops (header status k) w = serve_http ops k (ops.write_header status w)
serve_http ops (body bs k) w = let (n, w') = ops.write bs w in serve_http ops (k n) w'
serve_http ops (flushing k) w = serve_http ops k (flush_with ops.flush w)
serve_http ops (hijacking k) w = let (ok, w') = hijack_with ops.hijack w in serve_http ops (k ok) w'

-- The count of bytes is the bit pattern of an `int64`.
pub record RecordingWriter (W : Type 0) : Type 0 where
  pub inner : W
  pub status : ℕ
  pub bytes : ℕ
  pub hijacked : Bool

abbrev pub status_ok : ℕ
status_ok = 200

abbrev pub switching_protocols : ℕ
switching_protocols = 101

abbrev pub int64_mod : ℕ
int64_mod = 2 ^ 64

abbrev pub recording : {W : Type 0} → W → RecordingWriter W
recording w = record { inner = w; status = status_ok; bytes = 0; hijacked = false }

unfoldable pub rec_write_header :
    {W : Type 0} → ResponseWriter W → ℕ → RecordingWriter W → RecordingWriter W
rec_write_header ops status r = record r {
  status = status;
  inner = ops.write_header status r.inner;
}

unfoldable pub rec_write :
    {W : Type 0} → ResponseWriter W → List ℕ → RecordingWriter W → (ℕ × Bool) × RecordingWriter W
rec_write ops bs r =
    let ((n, ok), w) = ops.write bs r.inner in
    ((n, ok), record r { inner = w; bytes = (r.bytes + n) % int64_mod })

unfoldable pub rec_flush : {W : Type 0} → ResponseWriter W → RecordingWriter W → RecordingWriter W
rec_flush ops r = record r { inner = flush_with ops.flush r.inner }

abbrev pub rec_hijack_with :
    {W : Type 0} → Option (W → Bool × W) → RecordingWriter W → Bool × RecordingWriter W
rec_hijack_with none r = (false, r)
rec_hijack_with (some f) r =
    let (ok, w) = f r.inner in (ok, record r { hijacked = true; inner = w })

unfoldable pub rec_hijack :
    {W : Type 0} → ResponseWriter W → RecordingWriter W → Bool × RecordingWriter W
rec_hijack ops r = rec_hijack_with ops.hijack r

-- The recorder is a writer that can flush and be hijacked, whatever the one below it can.
unfoldable pub recording_writer :
    {W : Type 0} → ResponseWriter W → ResponseWriter (RecordingWriter W)
unfolding rec_write_header rec_write rec_flush rec_hijack
recording_writer ops = record {
  write_header = rec_write_header ops;
  write = rec_write ops;
  flush = some (rec_flush ops);
  hijack = some (rec_hijack ops);
}

-- The line that is logged when the request is done.
pub record RequestDone : Type 0 where
  pub done_status : ℕ
  pub done_bytes : ℕ

abbrev pub request_done : {W : Type 0} → RecordingWriter W → RequestDone
request_done r = record {
  done_status = if r.hijacked then switching_protocols else r.status;
  done_bytes = r.bytes;
}

unfoldable pub log_requests : {W : Type 0} → ResponseWriter W → Handler → W → RequestDone × W
unfolding serve_http recording_writer
log_requests ops next w =
    let r = serve_http (recording_writer ops) next (recording w) in (request_done r, r.inner)
