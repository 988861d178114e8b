-- ===== src/Protocol/Tests.antt =====
-- The wire protocol at concrete inputs.
use gooophira_mp.Prelude.{ℕ, ◌≡◌, refl, ◌↔◌, true, false, some, List, [], ◌∷◌, ◌++◌, arith, dec_le}
use gooophira_mp.Prelude.Int.{pos, negsuc}
use gooophira_mp.Prelude.Order.{lt_wf}
use gooophira_mp.Protocol.Monad.{ok}
use gooophira_mp.Protocol.Writer.{BinaryWriter, to_buffer, uleb_bytes, uleb_loop}
use gooophira_mp.Protocol.Half.{f16_bits_to_f32, f32_to_f16_bits}
use gooophira_mp.Protocol.Half.RoundTrip.{half_round_trip}
use gooophira_mp.Protocol.Uuid.{uuid_to_u64_pair, u64_pair_to_uuid}
use gooophira_mp.Protocol.Uuid.RoundTrip.{uuid_round_trip}
use gooophira_mp.Protocol.RoomId.{parse_room_id, valid, IsRoomId, parse_room_id_iff}
use gooophira_mp.Protocol.Composite.{StringResult, decode_packet}
use gooophira_mp.Protocol.Commands.{ClientCommand, ServerCommand, RoomState, UserInfo}
use gooophira_mp.Protocol.Commands.Encode.{encode_client_command, encode_server_command}
use gooophira_mp.Protocol.Commands.Decode.{decode_client_command, decode_server_command}
use gooophira_mp.Protocol.Commands.Safety.{Decodes, IsReceived, decode_packet-client_command}
use gooophira_mp.Protocol.Packets.{
  SurvivesWire, client_command_round_trip, server_command_round_trip,
}
use gooophira_mp.Protocol.Framing.{
  frame_with_length_prefix, to_frame_buffer, try_decode_frame, frame_need_more, frame_ok,
  frame_error, frame_payload_too_large, decode_frame_loop, finish_frame, effective_limit,
}
use gooophira_mp.Protocol.Framing.Prefix.{
  frame_with_length_prefix_lem, to_frame_buffer-frame_with_length_prefix,
}
use gooophira_mp.Protocol.Framing.Decoding.{try_decode_frame-frame_with_length_prefix}
use gooophira_mp.Protocol.Framing.Streams.{
  extended, IsSplit, try_decode_frame-append, try_decode_frame_partial, try_decode_frame_ok,
}

-- One frame with one point at (1, -2).
abbrev tap : ClientCommand
tap = ClientCommand.touches (
    record {
      time = 0x3f000000;
      points = record { id = negsuc 0; pos = record { x = 0x3f800000; y = 0xc0000000 } } ∷ [];
    }
    ∷ [])

client_command_round_trip_example : SurvivesWire encode_client_command decode_client_command tap
unfolding f16_bits_to_f32
client_command_round_trip_example = client_command_round_trip tap (
  (
    (
      omega arith,
      (
        ((omega arith, ((0x3c00, omega arith, refl, refl), (0xc000, omega arith, refl, refl))), tt),
        omega arith,
      ),
    ),
    tt,
  ),
  omega arith,
)

abbrev host : UserInfo
host = record { id = pos 7; name = b'a' ∷ b'b' ∷ []; monitor = false }

abbrev joined : ServerCommand
joined = ServerCommand.join_room (
    StringResult.ok (record {
      state = RoomState.select_chart (some (negsuc 4));
      users = host ∷ host ∷ [];
      live = true;
    }))

server_command_round_trip_example : SurvivesWire encode_server_command decode_server_command joined
server_command_round_trip_example = server_command_round_trip joined (omega arith)

-- A chat whose announced length is beyond the input.
decode_packet-client_command_example :
    Decodes IsReceived (decode_packet (2 ∷ 5 ∷ b'a' ∷ []) decode_client_command)
decode_packet-client_command_example =
    decode_packet-client_command (2 ∷ 5 ∷ b'a' ∷ []) (omega arith)

half_round_trip_example : f32_to_f16_bits (f16_bits_to_f32 0x8001) ≡ 0x8001
half_round_trip_example = half_round_trip 0x8001 (omega arith)

uuid_round_trip_example :
    uuid_to_u64_pair (u64_pair_to_uuid 0x0123456789abcdef 5) ≡ some (0x0123456789abcdef, 5)
uuid_round_trip_example = uuid_round_trip 0x0123456789abcdef 5 (omega arith) (omega arith)

abbrev lobby : List ℕ
lobby = b'L' ∷ b'-' ∷ b'1' ∷ []

parse_room_id_iff_example : (parse_room_id lobby ≡ valid lobby) ↔ IsRoomId lobby
parse_room_id_iff_example = parse_room_id_iff lobby

try_decode_frame-frame_with_length_prefix_example :
    try_decode_frame (frame_with_length_prefix (1 ∷ 2 ∷ []) ++ (9 ∷ [])) (pos 2)
    ≡ frame_ok (1 ∷ 2 ∷ []) (9 ∷ [])
unfolding effective_limit
try_decode_frame-frame_with_length_prefix_example =
    try_decode_frame-frame_with_length_prefix (1 ∷ 2 ∷ []) (9 ∷ []) (pos 2) (omega arith)
      (omega arith)

framed : frame_with_length_prefix (1 ∷ 2 ∷ []) ≡ (2 ∷ 1 ∷ []) ++ (2 ∷ [])
unfolding uleb_bytes uleb_loop lt_wf dec_le
framed = frame_with_length_prefix_lem (1 ∷ 2 ∷ []) (omega arith)

try_decode_frame_partial_example : try_decode_frame (2 ∷ 1 ∷ []) (negsuc 0) ≡ frame_need_more
unfolding effective_limit
try_decode_frame_partial_example =
    try_decode_frame_partial (1 ∷ 2 ∷ []) (2 ∷ 1 ∷ []) [] 2 (negsuc 0) (omega arith) (omega arith)
      framed

decoded : try_decode_frame (1 ∷ 8 ∷ []) (pos 4) ≡ frame_ok (8 ∷ []) []
unfolding try_decode_frame decode_frame_loop finish_frame effective_limit
decoded = refl

refused : try_decode_frame (5 ∷ []) (pos 4) ≡ frame_error frame_payload_too_large
unfolding try_decode_frame decode_frame_loop finish_frame effective_limit
refused = refl

try_decode_frame-append_example :
    try_decode_frame (5 ∷ 0 ∷ []) (pos 4) ≡ extended (try_decode_frame (5 ∷ []) (pos 4)) (0 ∷ [])
unfolding try_decode_frame decode_frame_loop finish_frame effective_limit
try_decode_frame-append_example = try_decode_frame-append (5 ∷ []) (0 ∷ []) (pos 4) (λ e. cc)

try_decode_frame_ok_example : IsSplit (1 ∷ 8 ∷ []) (8 ∷ []) [] 4 5
unfolding effective_limit
try_decode_frame_ok_example = try_decode_frame_ok (1 ∷ 8 ∷ []) (8 ∷ []) [] (pos 4) decoded

-- Five bytes kept free, and a body of one.
abbrev ready_writer : BinaryWriter
ready_writer = record { buf = 0 ∷ 0 ∷ 0 ∷ 0 ∷ 0 ∷ 9 ∷ []; reserve_head = 5 }

to_frame_buffer-frame_with_length_prefix_example :
    to_frame_buffer ready_writer ≡ ok (frame_with_length_prefix (to_buffer ready_writer))
to_frame_buffer-frame_with_length_prefix_example =
    to_frame_buffer-frame_with_length_prefix ready_writer (omega arith) (omega arith) (omega arith)
