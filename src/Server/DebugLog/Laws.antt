-- ===== src/Server/DebugLog/Laws.antt =====
-- What the request log of internal/server/debuglog.go changes, and what it reports.
use selftunnel.Common.{
  ℕ, ◌+◌, ◌%◌, Bool, true, false, ◌||◌, List, [], ◌∷◌, Option, none, some, if◌then◌else◌, ◌≡◌, refl,
  ap, ◌∙◌, arith,
}
use selftunnel.Server.DebugLog.{
  ResponseWriter, Handler, finished, header, body, flushing, hijacking, flush_with, hijack_with,
  serve_http, RecordingWriter, status_ok, switching_protocols, int64_mod, recording,
  rec_write_header, rec_write, rec_flush, rec_hijack_with, rec_hijack, recording_writer,
  log_requests,
}

-- The calls of a handler that its log line depends on.
pub data WriterCall : Type 0 where
  wrote_header wrote : ℕ → WriterCall
  tried_hijack : WriterCall

abbrev pub hijack_call : {W : Type 0} → Option (W → Bool × W) → List WriterCall → List WriterCall
hijack_call none cs = cs
hijack_call (some f) cs = tried_hijack ∷ cs

-- The calls that a handler makes on a plain writer, with the numbers of bytes written.
unfoldable pub calls : {W : Type 0} → ResponseWriter W → Handler → W → List WriterCall
calls ops finished w = []
calls ops (header status k) w = wrote_header status ∷ calls ops k (ops.write_header status w)
calls ops (body bs k) w = let (r, w') = ops.write bs w in wrote r.0 ∷ calls ops (k r) w'
calls ops (flushing k) w = calls ops k (flush_with ops.flush w)
calls ops (hijacking k) w =
    let (ok, w') = hijack_with ops.hijack w in hijack_call ops.hijack (calls ops (k ok) w')

-- The last status given, or else `status`.
abbrev pub last_status : ℕ → List WriterCall → ℕ
last_status status [] = status
last_status status (wrote_header s ∷ cs) = last_status s cs
last_status status (wrote n ∷ cs) = last_status status cs
last_status status (tried_hijack ∷ cs) = last_status status cs

abbrev pub total_bytes : List WriterCall → ℕ
total_bytes [] = 0
total_bytes (wrote_header s ∷ cs) = total_bytes cs
total_bytes (wrote n ∷ cs) = n + total_bytes cs
total_bytes (tried_hijack ∷ cs) = total_bytes cs

abbrev pub has_hijack : List WriterCall → Bool
has_hijack [] = false
has_hijack (wrote_header s ∷ cs) = has_hijack cs
has_hijack (wrote n ∷ cs) = has_hijack cs
has_hijack (tried_hijack ∷ cs) = true

module _ {W : Type 0} (ops : ResponseWriter W) where
  inner-hijack :
      (o : Option (W → Bool × W)) (r : RecordingWriter W)
      → ((rec_hijack_with o r).0 ≡ (hijack_with o r.inner).0)
        × ((rec_hijack_with o r).1.inner ≡ (hijack_with o r.inner).1)
  inner-hijack none r = (refl, refl)
  inner-hijack (some f) r = (refl, refl)

  inner-serve_http :
      (h : Handler) (r : RecordingWriter W)
      → (serve_http (recording_writer ops) h r).inner ≡ serve_http ops h r.inner
  unfolding serve_http recording_writer rec_write_header rec_write rec_flush rec_hijack
  inner-serve_http finished r = refl
  inner-serve_http (header status k) r = inner-serve_http k (rec_write_header ops status r)
  inner-serve_http (body bs k) r =
      inner-serve_http (k (ops.write bs r.inner).0) (rec_write ops bs r).1
  inner-serve_http (flushing k) r = inner-serve_http k (rec_flush ops r)
  inner-serve_http (hijacking k) r =
      let (answer, state) = inner-hijack ops.hijack r in
      inner-serve_http (k (rec_hijack ops r).0) (rec_hijack ops r).1 ∙ rw (answer, state) refl

  -- The log does not change what the handler does to its writer, whether or not that one can flush
  -- or be hijacked.
  pub log_requests-serve_http :
      (next : Handler) (w : W) → (log_requests ops next w).1 ≡ serve_http ops next w
  unfolding log_requests
  log_requests-serve_http next w = inner-serve_http next (recording w)

  status-serve_http :
      (h : Handler) (r : RecordingWriter W)
      → (serve_http (recording_writer ops) h r).status ≡ last_status r.status (calls ops h r.inner)
  unfolding serve_http recording_writer rec_write_header rec_write rec_flush rec_hijack calls
  status-serve_http finished r = refl
  status-serve_http (header status k) r = status-serve_http k (rec_write_header ops status r)
  status-serve_http (body bs k) r =
      status-serve_http (k (ops.write bs r.inner).0) (rec_write ops bs r).1
  status-serve_http (flushing k) r = status-serve_http k (rec_flush ops r)
  status-serve_http (hijacking k) r =
      status-serve_http (k (rec_hijack ops r).0) (rec_hijack ops r).1 ∙ after ops.hijack
    where
      after :
          (o : Option (W → Bool × W))
          → last_status
              (rec_hijack_with o r).1.status
              (calls ops (k (rec_hijack_with o r).0) (rec_hijack_with o r).1.inner)
            ≡ last_status r.status
                (hijack_call o (calls ops (k (hijack_with o r.inner).0) (hijack_with o r.inner).1))
      after none = refl
      after (some f) = refl

  hijacked-serve_http :
      (h : Handler) (r : RecordingWriter W)
      → (serve_http (recording_writer ops) h r).hijacked
        ≡ (r.hijacked || has_hijack (calls ops h r.inner))
  unfolding serve_http recording_writer rec_write_header rec_write rec_flush rec_hijack calls
  hijacked-serve_http finished r = ground arith
  hijacked-serve_http (header status k) r = hijacked-serve_http k (rec_write_header ops status r)
  hijacked-serve_http (body bs k) r =
      hijacked-serve_http (k (ops.write bs r.inner).0) (rec_write ops bs r).1
  hijacked-serve_http (flushing k) r = hijacked-serve_http k (rec_flush ops r)
  hijacked-serve_http (hijacking k) r =
      hijacked-serve_http (k (rec_hijack ops r).0) (rec_hijack ops r).1 ∙ after ops.hijack
    where
      after :
          (o : Option (W → Bool × W))
          → ((rec_hijack_with o r).1.hijacked
              || has_hijack (calls ops (k (rec_hijack_with o r).0) (rec_hijack_with o r).1.inner))
            ≡ (r.hijacked
                || has_hijack (
                    hijack_call o
                      (calls ops (k (hijack_with o r.inner).0) (hijack_with o r.inner).1)))
      after none = refl
      after (some f) = ground arith

  bytes-serve_http :
      (h : Handler) (r : RecordingWriter W)
      → r.bytes % int64_mod ≡ r.bytes
      → (serve_http (recording_writer ops) h r).bytes
        ≡ (r.bytes + total_bytes (calls ops h r.inner)) % int64_mod
  unfolding serve_http recording_writer rec_write_header rec_write rec_flush rec_hijack calls
  bytes-serve_http finished r low = omega arith
  bytes-serve_http (header status k) r low = bytes-serve_http k (rec_write_header ops status r) low
  bytes-serve_http (body bs k) r low =
      bytes-serve_http (k (ops.write bs r.inner).0) (rec_write ops bs r).1 (omega arith)
      ∙ omega arith
  bytes-serve_http (flushing k) r low = bytes-serve_http k (rec_flush ops r) low
  bytes-serve_http (hijacking k) r low =
      let same : (rec_hijack ops r).1.bytes ≡ r.bytes = kept ops.hijack in
      bytes-serve_http (k (rec_hijack ops r).0) (rec_hijack ops r).1 (rw same low)
      ∙ ap (λ (n : ℕ). n % int64_mod) (after ops.hijack)
    where
      kept : (o : Option (W → Bool × W)) → (rec_hijack_with o r).1.bytes ≡ r.bytes
      kept none = refl
      kept (some f) = refl

      after :
          (o : Option (W → Bool × W))
          → (rec_hijack_with o r).1.bytes
              + total_bytes (calls ops (k (rec_hijack_with o r).0) (rec_hijack_with o r).1.inner)
            ≡ r.bytes
              + total_bytes (
                  hijack_call o (calls ops (k (hijack_with o r.inner).0) (hijack_with o r.inner).1))
      after none = refl
      after (some f) = refl

  -- The line that is logged at the end has the status of the last `WriteHeader`, 200 without one and
  -- 101 once the handler has tried to hijack a writer that offers it, and the number of bytes that the
  -- writer took, modulo 2^64.
  pub log_requests-calls :
      (next : Handler) (w : W)
      → ((log_requests ops next w).0.done_status ≡ (
          if has_hijack (calls ops next w)
          then switching_protocols
          else last_status status_ok (calls ops next w)))
        × ((log_requests ops next w).0.done_bytes ≡ total_bytes (calls ops next w) % int64_mod)
  unfolding log_requests
  log_requests-calls next w = (
    rw (hijacked-serve_http next (recording w), status-serve_http next (recording w)) refl,
    bytes-serve_http next (recording w) refl ∙ ap (λ (n : ℕ). n % int64_mod) (omega arith),
  )
