-- ===== src/Lib.antt =====
-- A model of mqtt-forward, which tunnels TCP connections, shells and commands over MQTT topics: a
-- client opens sessions on a device, both sides cut the data into numbered frames, and each side
-- puts the frames in order again.
--
-- The parts, the files of the program, and the modules:
-- - Topic, Frame: internal/tunnel/protocol.go. Topics and filters, ParseTopic, and the data frame, a
--   32-bit number before the payload. Text is a list of byte codes.
-- - Transport: ControlMessage of protocol.go, and PubMessage and Publish of
--   internal/tunnel/transport.go. The payload of a message is a frame or a control message; the JSON
--   text between is not modelled, nor is the MQTT client, whose acceptance of a message is a
--   function of the state.
-- - Reorder: ReorderBuffer of internal/tunnel/session.go. The channel to the reader is the list of
--   what was sent on it.
-- - Flow, Writer: FlowControl and SequenceWriter of session.go. What other goroutines do during a
--   wait is a list of events.
-- - Session: internal/tunnel/session_tcp.go, session_exec.go and session_shell.go, with the run of a
--   command in Session/Exec. One record stands for the four session types, with its kind.
-- - Manager: SessionManager of session.go. Its mutex makes each method one step.
-- - Device: internal/device/device.go and device_shell.go. A handler returns the device and the
--   messages that it publishes; device_run takes a list of events: messages, the cleanup, the
--   shutdown, and sessions that end by themselves.
-- - Pump: the loops of the sessions that copy between a connection or a terminal and the tunnel.
--   What the operating system returns is an argument.
-- - Client: internal/client/client.go, client_shell.go and status.go, on the other side of the
--   device: its handlers, the opening of a session, its acknowledgements and keepalive, the loops of
--   the exec and shell clients as machines over the events of their select, pings, and the status
--   table.
-- - Socks: internal/socks5/socks5.go, the SOCKS5 handshake over the bytes that come, with what it
--   writes.
-- - Gateway: internal/gateway/gateway.go, the checks on routes and their grouping by device, and the
--   --route flags of internal/cmd/cmd.go.
-- - Forward: internal/forward/forward.go, the parser of local forwards.
-- - Transfer: a write on one side together with the buffer on the other.
-- - Tunnel: one direction of a session from end to end, as a step relation over the writer, the
--   broker, the buffer, the receiving loop and the acknowledgements; Tunnel/Pipe has its
--   specification, a pipe of bytes, and Tunnel/Handled says which messages were delivered.
-- - Shadow: internal/shadow/shadow.go and network.go, the report of the device to its shadow. JSON
--   text, HTTP and DNS answers are arguments.
-- - Client/Listeners: the listeners of the forwards and of the SOCKS5 proxy, and the accept loops.
--   Gateway/Runs: a client for each device of the gateway.
-- - Client/Connecting: the opening of sessions. Client/Events: what may happen to a client, in
--   steps. Device/Events: the dispatch of messages and what may happen to a device.
-- - Device/Life: the life of a device, from its subscriptions to its shutdown.
-- - Handshake: client and device together, from the request for a session to its answer.
-- - Config: internal/config/config.go, the options for the MQTT client. Health:
--   internal/health/health.go, what is answered to whom, with the choice of `http.ServeMux` among
--   the registrations. System: internal/system/resolver.go and sdnotify.go. Command: the event
--   callbacks, defaults and exit status of internal/cmd/cmd.go.
-- - Prelude: shared names, texts, association lists, results, and splitting.
--
-- Loops run on fuel where the recursion is not on the data. The reorder buffer takes one entry in
-- each round, so the number of entries is enough; the writer sends one byte at least in each round,
-- so the length of the data is enough. Bytes counted are uint64 and sequence numbers uint32, and
-- their sums are reduced modulo 2^64 and 2^32. Times are nanoseconds without overflow.
--
-- Not modelled: encoding/json, net, os/exec and system calls, pseudo terminals, logging, HTTP and
-- DNS, the notification socket of the service manager, the command line library, and the order in
-- which Go visits a map, for which the order of the association list stands.
pub mod Client
pub mod Command
pub mod Config
pub mod Device
pub mod Flow
pub mod Forward
pub mod Frame
pub mod Gateway
pub mod Handshake
pub mod Health
pub mod Manager
pub mod Prelude
pub mod Pump
pub mod Reorder
pub mod Session
pub mod Shadow
pub mod Socks
pub mod System
pub mod Topic
pub mod Transfer
pub mod Transport
pub mod Tunnel
pub mod Writer
