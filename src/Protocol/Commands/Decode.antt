-- ===== src/Protocol/Commands/Decode.antt =====
-- The decoders of internal/common/protocol/commands.go.
use gooophira_mp.Prelude.{ℕ, ◌==◌, List, if◌then◌else◌}
use gooophira_mp.Protocol.Commands.{
  TouchPoint, TouchFrame, JudgeEvent, UserInfo, RoomState, ClientRoomState, JoinRoomResponse,
  AuthInfo, Message, ClientCommand, ServerCommand,
}
use gooophira_mp.Protocol.Monad.{
  M, ◌>>=◌, pure, fail, proto_roomstate_tag_invalid, proto_message_tag_invalid,
  proto_clientcommand_tag_invalid, proto_servercommand_tag_invalid,
}
use gooophira_mp.Protocol.Reader.{
  BinaryReader, read_u8, read_i8, read_bool, read_u32, read_i32, read_f32, read_string,
  read_varchar, read_option, read_array,
}
use gooophira_mp.Protocol.RoomId.{parse_room_id, Parsed, valid, invalid}
use gooophira_mp.Protocol.Composite.{StringResult, read_compact_pos, read_map, decode_string_result}

unfoldable pub decode_touch_point : M BinaryReader TouchPoint
decode_touch_point = do id ← read_i8; pos ← read_compact_pos; pure (record { id = id; pos = pos })

unfoldable pub decode_touch_frame : M BinaryReader TouchFrame
decode_touch_frame = do
  time ← read_f32
  points ← read_array decode_touch_point
  pure (record { time = time; points = points })

unfoldable pub decode_judge_event : M BinaryReader JudgeEvent
decode_judge_event = do
  time ← read_f32
  line_id ← read_u32
  note_id ← read_u32
  judgement ← read_u8
  pure (record { time = time; line_id = line_id; note_id = note_id; judgement = judgement })

unfoldable pub accept_room_id : Parsed (List ℕ) → M BinaryReader (List ℕ)
accept_room_id (valid id) = pure id
accept_room_id (invalid e) = fail e

unfoldable pub decode_room_id : M BinaryReader (List ℕ)
decode_room_id = do s ← read_string; accept_room_id (parse_room_id s)

unfoldable pub decode_user_info : M BinaryReader UserInfo
decode_user_info = do
  id ← read_i32
  name ← read_string
  monitor ← read_bool
  pure (record { id = id; name = name; monitor = monitor })

-- The `switch` on the tag.
unfoldable pub decode_room_state_tagged : ℕ → M BinaryReader RoomState
decode_room_state_tagged tag =
    if tag == 0
    then (read_option read_i32 >>= λ id. pure (RoomState.select_chart id))
    else if tag == 1
    then pure RoomState.waiting_for_ready
    else if tag == 2
    then pure RoomState.playing
    else fail proto_roomstate_tag_invalid

unfoldable pub decode_room_state : M BinaryReader RoomState
decode_room_state = do tag ← read_u8; decode_room_state_tagged tag

unfoldable pub decode_client_room_state : M BinaryReader ClientRoomState
decode_client_room_state = do
  id ← decode_room_id
  state ← decode_room_state
  live ← read_bool
  locked ← read_bool
  cycle ← read_bool
  is_host ← read_bool
  is_ready ← read_bool
  users ← read_map read_i32 decode_user_info
  pure (record {
    id = id;
    state = state;
    live = live;
    locked = locked;
    cycle = cycle;
    is_host = is_host;
    is_ready = is_ready;
    users = users;
  })

unfoldable pub decode_join_room_response : M BinaryReader JoinRoomResponse
decode_join_room_response = do
  state ← decode_room_state
  users ← read_array decode_user_info
  live ← read_bool
  pure (record { state = state; users = users; live = live })

-- The `switch` on the tag.
unfoldable pub decode_message_tagged : ℕ → M BinaryReader Message
decode_message_tagged tag =
    if tag == 0
    then (read_i32 >>= λ user. read_string >>= λ content. pure (Message.chat user content))
    else if tag == 1
    then (read_i32 >>= λ user. pure (Message.create_room user))
    else if tag == 2
    then (read_i32 >>= λ user. read_string >>= λ name. pure (Message.join_room user name))
    else if tag == 3
    then (read_i32 >>= λ user. read_string >>= λ name. pure (Message.leave_room user name))
    else if tag == 4
    then (read_i32 >>= λ user. pure (Message.new_host user))
    else if tag == 5
    then (read_i32 >>= λ user.
        read_string >>= λ name. read_i32 >>= λ id. pure (Message.select_chart user name id))
    else if tag == 6
    then (read_i32 >>= λ user. pure (Message.game_start user))
    else if tag == 7
    then (read_i32 >>= λ user. pure (Message.ready user))
    else if tag == 8
    then (read_i32 >>= λ user. pure (Message.cancel_ready user))
    else if tag == 9
    then (read_i32 >>= λ user. pure (Message.cancel_game user))
    else if tag == 10
    then (pure Message.start_playing)
    else if tag == 11
    then (read_i32 >>= λ user. read_i32 >>= λ score. read_f32 >>= λ accuracy.
        read_bool >>= λ full_combo. pure (Message.played user score accuracy full_combo))
    else if tag == 12
    then (pure Message.game_end)
    else if tag == 13
    then (read_i32 >>= λ user. pure (Message.abort user))
    else if tag == 14
    then (read_bool >>= λ lock. pure (Message.lock_room lock))
    else if tag == 15
    then (read_bool >>= λ cycle. pure (Message.cycle_room cycle))
    else fail proto_message_tag_invalid

unfoldable pub decode_message : M BinaryReader Message
decode_message = do tag ← read_u8; decode_message_tagged tag

-- The `switch` on the tag.
unfoldable pub decode_client_command_tagged : ℕ → M BinaryReader ClientCommand
decode_client_command_tagged tag =
    if tag == 0
    then (pure ClientCommand.ping)
    else if tag == 1
    then (read_varchar 32 >>= λ token. pure (ClientCommand.authenticate token))
    else if tag == 2
    then (read_varchar 200 >>= λ message. pure (ClientCommand.chat message))
    else if tag == 3
    then (read_array decode_touch_frame >>= λ frames. pure (ClientCommand.touches frames))
    else if tag == 4
    then (read_array decode_judge_event >>= λ judges. pure (ClientCommand.judges judges))
    else if tag == 5
    then (decode_room_id >>= λ id. pure (ClientCommand.create_room id))
    else if tag == 6
    then (decode_room_id >>= λ id.
        read_bool >>= λ monitor. pure (ClientCommand.join_room id monitor))
    else if tag == 7
    then (pure ClientCommand.leave_room)
    else if tag == 8
    then (read_bool >>= λ lock. pure (ClientCommand.lock_room lock))
    else if tag == 9
    then (read_bool >>= λ cycle. pure (ClientCommand.cycle_room cycle))
    else if tag == 10
    then (read_i32 >>= λ id. pure (ClientCommand.select_chart id))
    else if tag == 11
    then (pure ClientCommand.request_start)
    else if tag == 12
    then (pure ClientCommand.ready)
    else if tag == 13
    then (pure ClientCommand.cancel_ready)
    else if tag == 14
    then (read_i32 >>= λ id. pure (ClientCommand.played id))
    else if tag == 15
    then (pure ClientCommand.abort)
    else fail proto_clientcommand_tag_invalid

unfoldable pub decode_client_command : M BinaryReader ClientCommand
decode_client_command = do tag ← read_u8; decode_client_command_tagged tag

unfoldable pub decode_unit_result : M BinaryReader (StringResult (Unit {0}))
decode_unit_result = decode_string_result (pure tt)

unfoldable pub decode_auth_info : M BinaryReader AuthInfo
decode_auth_info = do
  me ← decode_user_info
  room ← read_option decode_client_room_state
  pure (record { me = me; room = room })

-- The `switch` on the tag.
unfoldable pub decode_server_command_tagged : ℕ → M BinaryReader ServerCommand
decode_server_command_tagged tag =
    if tag == 0
    then (pure ServerCommand.pong)
    else if tag == 1
    then (decode_string_result decode_auth_info >>= λ result.
        pure (ServerCommand.authenticate result))
    else if tag == 2
    then (decode_unit_result >>= λ result. pure (ServerCommand.chat result))
    else if tag == 3
    then (read_i32 >>= λ player.
        read_array decode_touch_frame >>= λ frames. pure (ServerCommand.touches player frames))
    else if tag == 4
    then (read_i32 >>= λ player.
        read_array decode_judge_event >>= λ judges. pure (ServerCommand.judges player judges))
    else if tag == 5
    then (decode_message >>= λ message. pure (ServerCommand.message message))
    else if tag == 6
    then (decode_room_state >>= λ state. pure (ServerCommand.change_state state))
    else if tag == 7
    then (read_bool >>= λ is_host. pure (ServerCommand.change_host is_host))
    else if tag == 8
    then (decode_unit_result >>= λ result. pure (ServerCommand.create_room result))
    else if tag == 9
    then (decode_string_result decode_join_room_response >>= λ result.
        pure (ServerCommand.join_room result))
    else if tag == 10
    then (decode_user_info >>= λ info. pure (ServerCommand.on_join_room info))
    else if tag == 11
    then (decode_unit_result >>= λ result. pure (ServerCommand.leave_room result))
    else if tag == 12
    then (decode_unit_result >>= λ result. pure (ServerCommand.lock_room result))
    else if tag == 13
    then (decode_unit_result >>= λ result. pure (ServerCommand.cycle_room result))
    else if tag == 14
    then (decode_unit_result >>= λ result. pure (ServerCommand.select_chart result))
    else if tag == 15
    then (decode_unit_result >>= λ result. pure (ServerCommand.request_start result))
    else if tag == 16
    then (decode_unit_result >>= λ result. pure (ServerCommand.ready result))
    else if tag == 17
    then (decode_unit_result >>= λ result. pure (ServerCommand.cancel_ready result))
    else if tag == 18
    then (decode_unit_result >>= λ result. pure (ServerCommand.played result))
    else if tag == 19
    then (decode_unit_result >>= λ result. pure (ServerCommand.abort result))
    else fail proto_servercommand_tag_invalid

unfoldable pub decode_server_command : M BinaryReader ServerCommand
decode_server_command = do tag ← read_u8; decode_server_command_tagged tag
