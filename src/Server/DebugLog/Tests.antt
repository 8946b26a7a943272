-- ===== src/Server/DebugLog/Tests.antt =====
-- Runs of the request log.
use selftunnel.Common.{ℕ, true, false, List, [], ◌∷◌, ◌++◌, none, some, length, ◌≡◌}
use selftunnel.Server.DebugLog.{
  ResponseWriter, Handler, finished, header, body, flushing, hijacking, serve_http, log_requests,
  switching_protocols,
}
use selftunnel.Server.DebugLog.Laws.{log_requests-serve_http, log_requests-calls, calls}

-- A writer that keeps what it is given and refuses to be hijacked.
abbrev page : ResponseWriter (List ℕ)
page = record {
  write_header = λ status w. w ++ (status ∷ []);
  write = λ bs w. ((length bs, true), w ++ bs);
  flush = none;
  hijack = some (λ w. (false, w));
}

-- An upgrade that fails and is answered by an error.
abbrev upgrade : Handler
upgrade = flushing (hijacking (λ ok. header 500 (body (7 ∷ 8 ∷ []) (λ r. finished))))

log_requests-serve_http_example : (log_requests page upgrade []).1 ≡ serve_http page upgrade []
log_requests-serve_http_example = log_requests-serve_http page upgrade []

log_requests-calls_example :
    ((log_requests page upgrade []).0.done_status ≡ switching_protocols)
    × ((log_requests page upgrade []).0.done_bytes ≡ 2)
unfolding calls
log_requests-calls_example = log_requests-calls page upgrade []
