-- ===== src/Network/Reading.antt =====
-- The read loop of internal/server/network/session_read.go behind the PROXY header: the handshake, and
-- the commands that are passed to onCommand. The chunks are what Read gives, until it gives an error;
-- deadlines, the log and the shrinking of the buffer are left out.
pub mod Chunks
pub mod Sent
use gooophira_mp.Prelude.{
  ℕ, suc, zero, ◌+◌, ◌*◌, Bool, Option, none, some, List, [], ◌∷◌, ◌++◌, ◌==◌, if◌then◌else◌,
  length,
}
use gooophira_mp.Prelude.Int.{ℤ, pos}
use gooophira_mp.Protocol.Monad.{Result, ok, panic, stuck}
use gooophira_mp.Protocol.Composite.{decode_packet}
use gooophira_mp.Protocol.Commands.{ClientCommand}
use gooophira_mp.Protocol.Commands.Decode.{decode_client_command}
use gooophira_mp.Protocol.Framing.{
  DecodeFrameResult, frame_need_more, frame_ok, frame_error, try_decode_frame,
}

abbrev pub max_frame_size : ℤ
max_frame_size = pos (4 * 1024 * 1024)

abbrev pub protocol_version : ℕ
protocol_version = 1

-- The commands so far, and the buffer, or `none` when the session is closed for an error.
pub record Reading : Type 0 where
  pub commands : List ClientCommand
  pub buf : Option (List ℕ)

unfoldable pub command_first : ClientCommand → Reading → Reading
command_first cmd r = record { commands = cmd ∷ r.commands; buf = r.buf }

-- What a decoded packet adds to the reading of what stands behind it.
unfoldable pub take_packet : Result ClientCommand → Reading → Reading
take_packet (Result.ok cmd) later = command_first cmd later
take_packet (panic e) later = record { commands = []; buf = none }
take_packet stuck later = record { commands = []; buf = none }

-- A round of the inner loop, with what follows it.
unfoldable pub take_frame : (List ℕ → Reading) → List ℕ → DecodeFrameResult → Reading
take_frame next buf frame_need_more = record { commands = []; buf = some buf }
take_frame next buf (frame_error e) = record { commands = []; buf = none }
take_frame next buf (frame_ok payload remaining) =
    take_packet (decode_packet payload decode_client_command) (next remaining)

-- The inner loop: every frame takes a byte at least, so the length of the buffer is fuel enough.
unfoldable pub drain : ℕ → List ℕ → Reading
drain zero buf = record { commands = []; buf = some buf }
drain (suc fuel) buf = take_frame (drain fuel) buf (try_decode_frame buf max_frame_size)

unfoldable pub commands_first : List ClientCommand → Reading → Reading
commands_first [] r = r
commands_first (cmd ∷ cmds) r = command_first cmd (commands_first cmds r)

-- The outer loop, until the chunks end or the session is closed.
unfoldable pub read_loop : List (List ℕ) → Reading → Reading
read_loop [] r = r
read_loop (chunk ∷ chunks) r = elim r.buf [
  | none ↦ r
  | some buf ↦
      let now = drain (length (buf ++ chunk)) (buf ++ chunk) in
      read_loop chunks (commands_first r.commands now)
]

-- `r.ReadByte()`.
unfoldable pub read_byte : List (List ℕ) → Option (ℕ × List (List ℕ))
read_byte [] = none
read_byte ([] ∷ chunks) = read_byte chunks
read_byte ((b ∷ bs) ∷ chunks) = some (b, bs ∷ chunks)

unfoldable pub after_version : ℕ → List (List ℕ) → Reading
after_version version chunks =
    if version == protocol_version
    then read_loop chunks (record { commands = []; buf = some [] })
    else record { commands = []; buf = none }

unfoldable pub read_session : List (List ℕ) → Reading
read_session chunks = elim (read_byte chunks) [
  | none ↦ record { commands = []; buf = none }
  | some (version, rest) ↦ after_version version rest
]
