-- ===== src/Lib.antt =====
-- SARDP: the core of the remote desktop protocol, its library in `src` and its server.
--
-- A client and a server hold one QUIC connection with several streams. Every stream opens with a
-- prologue that names its kind, and carries envelopes, each a length, a type and a CBOR body. On
-- the control stream the connection is set up, suspended and resumed; permissions and file
-- transfers are agreed on there. Each monitor has a channel, whose instances are streams that are
-- reopened, a generation later, when the client cannot keep up.
--
-- The files, by the part of the program that each is about:
--   Base: what the others share. Numbers with Boolean tests, lists measured by them, results and
--     sequences of methods on one state, equality, maps, bits, integers.
--   Wire: src/varint.rs (Varint), src/stream_kind.rs (StreamKind), src/envelope.rs (Envelope),
--     src/prologue.rs (Prologue), src/stream_reader.rs (Reader). A stream is the list of its reads.
--   Session: src/reason_code.rs (ReasonCode), the messages of src/messages.rs that the others
--     exchange (Messages), src/connection_sm.rs (ConnectionSm), src/session_store.rs (Store),
--     src/reconnection.rs (Reconnect).
--   Video: src/backpressure.rs (Backpressure), src/channel_sm.rs (ChannelSm), src/video_sm.rs
--     (InstanceSm), src/video_session.rs (Session, with Messages), src/video_channel.rs
--     (VideoChannel), src/monitor_manager.rs (MonitorManager), src/queue_circuit_breaker.rs
--     (CircuitBreaker), src/h264.rs (H264).
--   Permission: src/permission_set.rs (PermissionSet), src/permission_sm.rs (PermissionSm and
--     AdminCommand).
--   Files: src/file_handle_store.rs (HandleStore), src/file_transfer_session.rs (Reassembly and
--     Transfer).
--   Input: src/input_state.rs (ImeMode, Pressed, Keys), src/input_session.rs (Session, Messages).
--   TimeSync: src/timesync.rs.
--   Auth: src/auth.rs, src/handshake.rs.
--   Server: src/conn_error.rs (ConnError), the messages of the loop (Messages), and of
--     sardp-cli/src/bin/sardp-server.rs the input (Injection), the loop of an active session
--     (Session) and the connection around it with `establish_connection` of src/reconnection.rs
--     (Connection).
--   Tests: runs at concrete inputs.
--
-- How the code is rendered. A struct is a record and an enum a data type, with the names of the
-- source; `record`, `data` and `open` are words of this language, so that `record` of a baseline
-- is record_sample, and the field `data` is contents. A method on `&mut self` returns the new
-- state with its result (Outcome), `?` ends a sequence (then_try). A store behind a mutex is an
-- association list, and a method one step on it. Clocks, random words and what the transport
-- answers are arguments. A panic is none. Words keep their width: counters and sums of a fixed
-- width are taken modulo a power of two, as where overflow is not checked, and the i64 of
-- src/timesync.rs wraps around in two's complement (Base.Int).
--
-- The server's `select!` is a list of rounds: each has the time, whether a shutdown was notified,
-- and the event of another arm. The shutdown and the idle deadline come first, as in the source;
-- which of the other arms is ready is the round's choice, so that any list of rounds is an
-- interleaving. What the loop hands to the transport, or to a task that it spawns, is written
-- down, the newest first, and the transport's answer to each entry is an argument; a frame has
-- its generation and number besides its bytes and times. `?` in an asynchronous function is the
-- action of Base.Action, which keeps the state that an error leaves.
--
-- Loops are recursion on the list that they go through: the reads of a stream, the waits of the
-- receiver, the draws of the random generator, where the end of the list means that the loop still
-- waits. The sender's loop over the chunks takes the number of bytes as fuel, which is enough
-- since each turn takes a byte at least. So does the loop over the NAL units, each round of which
-- goes three bytes on.
--
-- Parameters, for code that is not part of the repository: the constant-time comparison of
-- `subtle` (ConstantTimeEq), CBOR (the decoders, and FileCodec with the law that decoding undoes
-- encoding), SHA-256 and Ed25519 (Crypto), the TLS exporter (Exporter), the errors of quinn,
-- ciborium, tokio and the system (Foreign), `str::trim`. Network stands for what quinn, the
-- encoder and the timers answer.
--
-- Not modelled: the sessions for audio, clipboard and feedback within their streams, the codecs,
-- the timecode frame, measurement; of the server its arguments, the loop that accepts connections
-- and the tasks that it spawns; the client program, the development identities, and the crates for
-- macOS and Windows, which are input and output; tools, tests and fuzz targets.
pub mod Base
pub mod Wire
pub mod Session
pub mod Video
pub mod Permission
pub mod Files
pub mod Input
pub mod TimeSync
pub mod Auth
pub mod Server
pub mod Tests
