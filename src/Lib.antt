-- ===== src/Lib.antt =====
-- gooophira-mp is a multiplayer server for the game Phira. Clients hold a TCP connection on which
-- both sides send frames: a length, seven bits to a byte, and a command in the binary format of
-- internal/common/protocol. The server keeps users in rooms; a room is a state machine in
-- internal/core/server: its host chooses a chart and asks for a start, the members become ready, all
-- play, and with every result in or given up the match is settled and the host may change. The
-- handlers of the commands change the room and broadcast commands of the same protocol.
--
-- Prelude: names and lemmas for all. Tests on native numbers, lists measured by them (Lists), bit
-- operations (Bits), Go's signed integers (Int), and recursion on numbers (Order).
--
-- Protocol: internal/common/protocol.
--   Monad: a reader or a writer as a state, with Go's panics as values: ProtocolError, which the
--   package recovers, is `panic`; a runtime error or spent fuel is `stuck`.
--   Reader, Writer, Composite: binary.go. BinaryReader and BinaryWriter are records, their methods
--   functions of the same names (ReadU8 is read_u8). A float32 is its bits, a string its bytes.
--   Commands: commands.go, its types, with Encode and Decode; Valid says which values fit the wire.
--   Framing: framing.go. Half: half.go. Uuid: uuid.go. RoomId: roomid.go.
--   Wire: what an encoder and a decoder owe each other (a `Codec`), and what a decoder owes any
--   input; Bytes, Uleb, Primitives, Maps, Safe and SafePrimitives fill this for binary.go, and
--   Commands/RoundTrip and Commands/Safety for commands.go. Packets: both ends.
--   Tests: the theorems at concrete values.
--
-- Replay: internal/core/replay, which records what the players of a match do. Format: format.go, the
--   reading of a header in reader.go and the writing of a content in recorder.go, with RoundTrip.
--   Recorder: recorder.go, with Entries, Calls, Recording, Written and Recorded.
--
-- Server: internal/core/server. A user or chart id is a natural number below 2 ^ 31.
--   Model: model_room.go, User of model_user.go, RecordData and Chart of
--   internal/config/model/record_types.go. Validate: room_validate.go. Ids: sets of ids.
--   Turn: an operation takes a room and the effects so far (broadcasts, messages to one user,
--   hooks, timers, the end of the room) and gives both back; the senders of room_lifecycle.go and
--   room_events.go. Turn/Logs is about the log of a room.
--   Hosts: pickNextHost of hub_broadcast.go and rotateCycleHost; Hosts/Choice is about them.
--   Lifecycle: room_lifecycle.go, CheckAllReady and what it calls. Lifecycle/Steps says what they
--   leave alone, Lifecycle/Starting and Lifecycle/Settling when a match starts and ends.
--   Members: AddUser and OnUserLeave, with Members/Capacity and Members/Hosting.
--   Dispatch, Played: dispatch_room.go and handlePlayed of dispatch_play.go, as functions from the
--   user's room to an error or a turn. Timers: the ends of the countdowns of
--   timer_ready_countdown.go and timer_play_deadline.go, with Timers/Deadline. Contest:
--   room_contest.go and admin_room.go. Rooms: all these, and ProcessJoinRoom of hub_room_ops.go on its
--   room, as the steps of a room, with Rooms/Hosted, Rooms/Ends, Rooms/Moved and Rooms/Reached. Moves:
--   room_move.go. Tests: the theorems at small rooms.
--
-- Network: internal/server/network, which stands between the sockets and the rooms.
--   ConnLimit: connlimit.go, with ConnLimit/Window and ConnLimit/Cleaning. RateLimit: ratelimit.go
--   and onCommand of session_read.go, with RateLimit/Quota. Reading: the handshake and the read
--   loop of session_read.go, over the frames and packets of Protocol, with Reading/Chunks and
--   Reading/Sent.
--
-- Agent: internal/agent, the process that takes the events of the server on. Outbox:
--   outbox/store.go, the log file as its bytes; Outbox/Recovery reads it again. What the disk does is
--   an argument of an operation. Records, Queue, Errors and Durable (Acks, Runs, Reopened, Bounded)
--   are about it. Inbox: inbox/store.go, the log of what the agent has received, with Records,
--   Stored, Kept, Runs and Reads. Delivery: the handlers of ipc/server.go and the loop of
--   cmd/agent/main.go between the two, with requests and answers that are lost; Sent, Outgoing,
--   Acked, Incoming, Linked and Rounds say what each side keeps, Accepted, Delivered, Progress and
--   CaughtUp what comes of it. Plain: a format to run them with.
--
-- Common: internal/common beside the protocol. Cache: cache/cache.go, with Entries, Fresh, Found
--   and Calls.
--
-- Bounds and fuel: ReadUleb's loop takes as much fuel as the buffer has bytes, and one more; each
-- round reads a byte. Normalizing a half takes ten rounds, for ten bits of fraction. The count of
-- seven-bit groups takes five rounds, for 32 bits. A panic of int32FromInt is outside the bound on
-- ids. An operation on a room is one step: the source holds the room's mutex throughout it. The
-- recovery of the two logs, the reading of the inbox and the loop over frames take the length of the
-- bytes; a round of each takes at least one. A moment is a number of its unit, and an address or a
-- key of a cache is a number.
--
-- Parameters: the answers of the Phira service for charts and records, the lookup of users, the
-- clock, the localized texts, random numbers, JSON and CRC-32 (what the two logs rely on of these is
-- the record IsFormat), Deflate and Zstandard (IsCompression), and what the disk does.
--
-- Not modelled: sockets and goroutines, the HTTP API, the command line but for the limits and the next
-- host of a room, l10n, the console log, Redis, SQL and the other processes of the agent, which are
-- input and output; that the machine runs out of memory; joining, creating and disbanding over the
-- table of rooms, chat, the forwarding of touches and judges, the names and the cleaning of replay
-- files, the PROXY protocol, the file of the cache and the configuration, which are logic of their own.
pub mod Prelude
pub mod Protocol
pub mod Replay
pub mod Server
pub mod Agent
pub mod Network
pub mod Common
