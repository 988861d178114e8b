-- ===== src/Protocol/Commands/Encode.antt =====
-- The encoders of internal/common/protocol/commands.go. (Their `default` branches, for a nil
-- interface, have no value to be reached by.)
use gooophira_mp.Prelude.{ℕ, List}
use gooophira_mp.Protocol.Commands.{
  TouchPoint, TouchFrame, JudgeEvent, UserInfo, RoomState, ClientRoomState, JoinRoomResponse,
  AuthInfo, Message, ClientCommand, ServerCommand,
}
use gooophira_mp.Protocol.Monad.{M, ◌>>◌, pure}
use gooophira_mp.Protocol.Writer.{
  BinaryWriter, write_u8, write_i8, write_bool, write_u32, write_i32, write_f32, write_string,
  write_varchar, write_option, write_array,
}
use gooophira_mp.Protocol.Composite.{
  StringResult, write_compact_pos, write_sorted_map, encode_string_result,
}

unfoldable pub encode_touch_point : TouchPoint → M BinaryWriter (Unit {0})
encode_touch_point p = do write_i8 p.id; write_compact_pos p.pos

unfoldable pub encode_touch_frame : TouchFrame → M BinaryWriter (Unit {0})
encode_touch_frame v = do write_f32 v.time; write_array encode_touch_point v.points

unfoldable pub encode_judge_event : JudgeEvent → M BinaryWriter (Unit {0})
encode_judge_event v = do
  write_f32 v.time
  write_u32 v.line_id
  write_u32 v.note_id
  write_u8 v.judgement

unfoldable pub encode_room_id : List ℕ → M BinaryWriter (Unit {0})
encode_room_id v = write_string v

unfoldable pub encode_user_info : UserInfo → M BinaryWriter (Unit {0})
encode_user_info v = do write_i32 v.id; write_string v.name; write_bool v.monitor

unfoldable pub encode_room_state : RoomState → M BinaryWriter (Unit {0})
encode_room_state (RoomState.select_chart id) = do write_u8 0; write_option write_i32 id
encode_room_state RoomState.waiting_for_ready = write_u8 1
encode_room_state RoomState.playing = write_u8 2

unfoldable pub encode_client_room_state : ClientRoomState → M BinaryWriter (Unit {0})
encode_client_room_state v = do
  encode_room_id v.id
  encode_room_state v.state
  write_bool v.live
  write_bool v.locked
  write_bool v.cycle
  write_bool v.is_host
  write_bool v.is_ready
  write_sorted_map write_i32 encode_user_info v.users

unfoldable pub encode_join_room_response : JoinRoomResponse → M BinaryWriter (Unit {0})
encode_join_room_response v = do
  encode_room_state v.state
  write_array encode_user_info v.users
  write_bool v.live

unfoldable pub encode_message : Message → M BinaryWriter (Unit {0})
encode_message (Message.chat user content) = do write_u8 0; write_i32 user; write_string content
encode_message (Message.create_room user) = do write_u8 1; write_i32 user
encode_message (Message.join_room user name) = do write_u8 2; write_i32 user; write_string name
encode_message (Message.leave_room user name) = do write_u8 3; write_i32 user; write_string name
encode_message (Message.new_host user) = do write_u8 4; write_i32 user
encode_message (Message.select_chart user name id) = do
  write_u8 5
  write_i32 user
  write_string name
  write_i32 id
encode_message (Message.game_start user) = do write_u8 6; write_i32 user
encode_message (Message.ready user) = do write_u8 7; write_i32 user
encode_message (Message.cancel_ready user) = do write_u8 8; write_i32 user
encode_message (Message.cancel_game user) = do write_u8 9; write_i32 user
encode_message Message.start_playing = write_u8 10
encode_message (Message.played user score accuracy full_combo) = do
  write_u8 11
  write_i32 user
  write_i32 score
  write_f32 accuracy
  write_bool full_combo
encode_message Message.game_end = write_u8 12
encode_message (Message.abort user) = do write_u8 13; write_i32 user
encode_message (Message.lock_room lock) = do write_u8 14; write_bool lock
encode_message (Message.cycle_room cycle) = do write_u8 15; write_bool cycle

unfoldable pub encode_client_command : ClientCommand → M BinaryWriter (Unit {0})
encode_client_command ClientCommand.ping = write_u8 0
encode_client_command (ClientCommand.authenticate token) = do write_u8 1; write_varchar 32 token
encode_client_command (ClientCommand.chat message) = do write_u8 2; write_varchar 200 message
encode_client_command (ClientCommand.touches frames) = do
  write_u8 3
  write_array encode_touch_frame frames
encode_client_command (ClientCommand.judges judges) = do
  write_u8 4
  write_array encode_judge_event judges
encode_client_command (ClientCommand.create_room id) = do write_u8 5; encode_room_id id
encode_client_command (ClientCommand.join_room id monitor) = do
  write_u8 6
  encode_room_id id
  write_bool monitor
encode_client_command ClientCommand.leave_room = write_u8 7
encode_client_command (ClientCommand.lock_room lock) = do write_u8 8; write_bool lock
encode_client_command (ClientCommand.cycle_room cycle) = do write_u8 9; write_bool cycle
encode_client_command (ClientCommand.select_chart id) = do write_u8 10; write_i32 id
encode_client_command ClientCommand.request_start = write_u8 11
encode_client_command ClientCommand.ready = write_u8 12
encode_client_command ClientCommand.cancel_ready = write_u8 13
encode_client_command (ClientCommand.played id) = do write_u8 14; write_i32 id
encode_client_command ClientCommand.abort = write_u8 15

unfoldable pub encode_unit_result : StringResult (Unit {0}) → M BinaryWriter (Unit {0})
encode_unit_result res = encode_string_result (λ _. pure tt) res

unfoldable pub encode_auth_info : AuthInfo → M BinaryWriter (Unit {0})
encode_auth_info info = do encode_user_info info.me; write_option encode_client_room_state info.room

unfoldable pub encode_server_command : ServerCommand → M BinaryWriter (Unit {0})
encode_server_command ServerCommand.pong = write_u8 0
encode_server_command (ServerCommand.authenticate result) = do
  write_u8 1
  encode_string_result encode_auth_info result
encode_server_command (ServerCommand.chat result) = do write_u8 2; encode_unit_result result
encode_server_command (ServerCommand.touches player frames) = do
  write_u8 3
  write_i32 player
  write_array encode_touch_frame frames
encode_server_command (ServerCommand.judges player judges) = do
  write_u8 4
  write_i32 player
  write_array encode_judge_event judges
encode_server_command (ServerCommand.message message) = do write_u8 5; encode_message message
encode_server_command (ServerCommand.change_state state) = do write_u8 6; encode_room_state state
encode_server_command (ServerCommand.change_host is_host) = do write_u8 7; write_bool is_host
encode_server_command (ServerCommand.create_room result) = do write_u8 8; encode_unit_result result
encode_server_command (ServerCommand.join_room result) = do
  write_u8 9
  encode_string_result encode_join_room_response result
encode_server_command (ServerCommand.on_join_room info) = do write_u8 10; encode_user_info info
encode_server_command (ServerCommand.leave_room result) = do write_u8 11; encode_unit_result result
encode_server_command (ServerCommand.lock_room result) = do write_u8 12; encode_unit_result result
encode_server_command (ServerCommand.cycle_room result) = do write_u8 13; encode_unit_result result
encode_server_command (ServerCommand.select_chart result) = do
  write_u8 14
  encode_unit_result result
encode_server_command (ServerCommand.request_start result) = do
  write_u8 15
  encode_unit_result result
encode_server_command (ServerCommand.ready result) = do write_u8 16; encode_unit_result result
encode_server_command (ServerCommand.cancel_ready result) = do
  write_u8 17
  encode_unit_result result
encode_server_command (ServerCommand.played result) = do write_u8 18; encode_unit_result result
encode_server_command (ServerCommand.abort result) = do write_u8 19; encode_unit_result result
