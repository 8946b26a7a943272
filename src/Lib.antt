-- ===== src/Lib.antt =====
-- selftunnel: a relay that makes an HTTP service behind a firewall reachable. A client keeps a WebSocket
-- to the server and is given a tunnel id; the server turns every HTTP request to `/t/{id}/…` into frames,
-- the client makes the call to its target and sends the answer back as frames.
--
-- The parts, and the files that model them:
--   Proto                     internal/proto/frame.go: `Frame`; the types are a data type
--   Text, Base64              the parts of Go's `strings`, `unicode` and `encoding/base64` that are called
--   Link                      the sending side of a connection as the streaming code sees it
--   TunnelId                  `idRe`, `validTunnelID`, `generateID`; `IsValidCustomID` of the client
--   Server/Mailbox, Session   internal/server/tunnel.go: `pendingResp`, `Session`, `NextReqID`,
--                             `RegisterPending`, `UnregisterPending`, `routeResponse`,
--                             `sendWithContext`, `close`
--   Server/Registry           internal/server/registry.go: `Register`, `Load`, `saveLocked`, `SetTarget`,
--                             `List`, `verifySecret`
--   Server/Intake             internal/server/server.go: `handleHello`, `checkOrigin`, and the read loop
--                             of internal/server/tunnel.go, on the state that the server shares
--   Server/Relay              internal/server/relay.go: `handleRelay` from the registered mailbox on,
--                             `streamBody`, the filters of headers, `splitTunnelPath`
--   Server/Admission          the beginning of `handleRelay`, up to the mailbox, and its deferred end
--   Server/Writer             `writeLoop` of internal/server/tunnel.go, beside the senders
--   Server/Lifecycle          `App` of internal/server/lifecycle.go; `New`, `handleTunnel`, `PollStats`
--                             and `handleHealthz` of internal/server/server.go
--   Server/DebugLog           `logRequests` and `recordingWriter` of internal/server/debuglog.go, over any
--                             response writer
--   Server/World              the operations of the server above as the steps of one relation
--   Client/Address            `NormalizeServer`, `IsValidTarget` of internal/client/client.go,
--                             `publicTunnelURL` of cmd/selftunnel-client/main.go
--   Client/Requests           `handleRequestStart`, `handleRequestChunk`, `handleRequestEnd`, `dispatch`,
--                             `handleCancel` of internal/client/client.go
--   Client/Forward            `forward`, `sendError` of internal/client/client.go
--   Client/Serving            the cases of `readLoop` of internal/client/client.go
--   Client/Connection         `Run`, `connect`, `sleepBackoff`, `close`, `Stop`, `Reconnect` of
--                             internal/client/client.go, as moves of a loop through its phases
--   Client/Slots              `sem`, `active` and `sendFrame` of internal/client/client.go: the calls that
--                             run beside each other, and the connections that their frames go over
--   Client/Settings           the setters, `LoadConfig`, `SaveConfig`, `ResolveStatePath`, `makeTLSConfig`
--                             of internal/client/client.go
--   Client/Power              internal/client/power.go and its variants for each system
--   Ngrok                     `Manager` of internal/ngrok/ngrok.go
--   Commands/RelayServer      cmd/selftunnel-server/main.go, from the parsed flags on
--   Commands/TunnelClient     cmd/selftunnel-client/main.go, from the parsed flags on, and its notice
--   Gui                       cmd/selftunnel-server-gui/main.go: the log ring, `portOf`, the settings, the
--                             session table (LogRing, Ports, Sessions) and the handlers of its window
--                             (RelayWindow); the window of cmd/selftunnel-client-gui/main.go (ClientWindow)
--   EndToEnd                  a request's way through the relay, the client and back, from these parts
-- Each part has its laws in child modules, and its examples in a module `Tests`.
--
-- State is passed explicitly. A Go map is an association list without repeated keys, a channel the list
-- of what it holds, a pointer a place in a store (mailboxes in a session, sessions in the server) or the
-- key of the map that owns the object (tunnels). A panic, which here means to close a closed channel, is
-- `none`. Where the runtime chooses (the arm of a select, the order of events) or the world answers
-- (clock, random source, disk, body reads, connection), the choice is an argument, and the theorems hold
-- for all of them. A mutex-guarded operation is one step.
--
-- Bounds: request ids are numbers modulo 2^32. The loop of `NextReqID` is given one round more than there
-- are requests in flight, which is enough while these are fewer than 2^32; the loop that draws a free id
-- runs over the list of draws that the random source will give. Loops over reads and events are
-- structural on the list of what they will see; a list that runs out is a loop that still waits. A Go
-- `int` that can overflow is the bit pattern of 64 bits, and `sem` has eight slots.
--
-- Parameters: SHA-256, of which at most the length of its result (32 bytes) is assumed, Go's HTTP
-- client and the response writer below the request log, of which nothing is. What ngrok's SDK, the
-- listener, the disk and the operating system answer is an input of each call, and what the code asks
-- of them is a list of effects or a part of the state.
--
-- Not modelled: JSON and WebSocket encoding, TLS beyond its settings, the route table, the parsing of
-- flags, deadlines and clocks but for their firing, what is logged but for the line at the end of a
-- request, the widgets of the windows, their layout and their icon. A text is the list of its code
-- points. `WriteHeader` panics at a status outside 100 to 999: that is not modelled. The streaming half
-- of `handleRelay` is not a step of Server/World: it is modelled over the events that it sees.
mod Common
pub mod Text
pub mod TunnelId
pub mod Proto
pub mod Link
pub mod Base64
pub mod Server
pub mod Client
pub mod Ngrok
pub mod Commands
pub mod Gui
pub mod EndToEnd
