-- ===== src/Protocol/Packets.antt =====
-- Whole packets: `EncodePacket` and `DecodePacket` of internal/common/protocol/binary.go over the
-- encoders and decoders of commands.go.
use gooophira_mp.Prelude.{ℕ, ◌≡◌, refl, List, [], All, append-nil}
use gooophira_mp.Protocol.Monad.{M, ok}
use gooophira_mp.Protocol.Reader.{BinaryReader, new_binary_reader}
use gooophira_mp.Protocol.Writer.{BinaryWriter, new_binary_writer, to_buffer}
use gooophira_mp.Protocol.Composite.{encode_packet, decode_packet}
use gooophira_mp.Protocol.Wire.{Codec, IsByte}
use gooophira_mp.Protocol.Commands.{ClientCommand, ServerCommand}
use gooophira_mp.Protocol.Commands.Encode.{encode_client_command, encode_server_command}
use gooophira_mp.Protocol.Commands.Decode.{decode_client_command, decode_server_command}
use gooophira_mp.Protocol.Commands.Valid.{IsClientCommand, IsServerCommand}
use gooophira_mp.Protocol.Commands.RoundTrip.{client_command_codec, server_command_codec}

-- The value is encoded to bytes, and these are decoded to the value.
abbrev pub SurvivesWire {ℓ} :
    {A : Type ℓ} → (A → M BinaryWriter (Unit {0})) → M BinaryReader A → A → Type ℓ
SurvivesWire encode decode a =
    (bs : List ℕ) × All IsByte bs
    × (encode_packet a encode ≡ ok bs)
    × (decode_packet bs decode ≡ ok a)

survives {ℓ} :
    {A : Type ℓ} (encode : A → M BinaryWriter (Unit {0})) (decode : M BinaryReader A) (a : A)
    → Codec (encode a) decode a
    → SurvivesWire encode decode a
unfolding encode_packet decode_packet new_binary_reader new_binary_writer to_buffer
survives encode decode a c = (
  c.bytes,
  c.are_bytes,
  rw (c.writes new_binary_writer, encode_packet) refl,
  rw (← append-nil c.bytes) (rw (c.reads [] [], decode_packet) refl),
)

-- Every client command that fits the wire is encoded to bytes, and these decode to that command.
pub client_command_round_trip :
    (c : ClientCommand)
    → IsClientCommand c
    → SurvivesWire encode_client_command decode_client_command c
client_command_round_trip c h = survives _ _ c (client_command_codec c h)

-- Every server command that fits the wire is encoded to bytes, and these decode to that command.
pub server_command_round_trip :
    (c : ServerCommand)
    → IsServerCommand c
    → SurvivesWire encode_server_command decode_server_command c
server_command_round_trip c h = survives _ _ c (server_command_codec c h)
