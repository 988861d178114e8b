-- ===== src/Protocol/Commands/RoundTrip.antt =====
-- Each encoder of commands.go with its decoder.
use gooophira_mp.Prelude.{
  ℕ, ◌<◌, ◌^◌, ◌≡◌, refl, true, false, Option, none, some, List, All-mono, arith,
}
use gooophira_mp.Protocol.Monad.{M}
use gooophira_mp.Protocol.Reader.{BinaryReader, read_u16, read_array, read_option}
use gooophira_mp.Protocol.Writer.{BinaryWriter, write_u16, write_array, write_option}
use gooophira_mp.Protocol.Half.{f16_bits_to_f32, f32_to_f16_bits}
use gooophira_mp.Protocol.Half.RoundTrip.{is_nan, half_round_trip}
use gooophira_mp.Protocol.RoomId.{IsRoomId, parse_room_id-of_IsRoomId, IsRoomId-IsByte}
use gooophira_mp.Protocol.Composite.{
  CompactPos, write_compact_pos, read_compact_pos, StringResult, errr, encode_string_result,
  decode_string_result,
}
use gooophira_mp.Protocol.Wire.{Codec, seq, last, done}
use gooophira_mp.Protocol.Wire.Primitives.{
  u8, i8, bool, u16, u32, i32, f32, string, varchar, option_some, option_none, array, checked,
}
use gooophira_mp.Protocol.Wire.Maps.{sorted_map}
use gooophira_mp.Protocol.Commands.{
  TouchPoint, TouchFrame, JudgeEvent, UserInfo, RoomState, ClientRoomState, JoinRoomResponse,
  AuthInfo, Message, ClientCommand, ServerCommand,
}
use gooophira_mp.Protocol.Commands.Encode.{
  encode_touch_point, encode_touch_frame, encode_judge_event, encode_room_id, encode_user_info,
  encode_room_state, encode_client_room_state, encode_join_room_response, encode_message,
  encode_client_command, encode_unit_result, encode_auth_info, encode_server_command,
}
use gooophira_mp.Protocol.Commands.Decode.{
  decode_touch_point, decode_touch_frame, decode_judge_event, accept_room_id, decode_room_id,
  decode_user_info, decode_room_state_tagged, decode_room_state, decode_client_room_state,
  decode_join_room_response, decode_message_tagged, decode_message, decode_client_command_tagged,
  decode_client_command, decode_unit_result, decode_auth_info, decode_server_command_tagged,
  decode_server_command,
}
use gooophira_mp.Protocol.Commands.Valid.{
  AreFew, IsSome, IsResult, IsCompactPos, IsTouchPoint, IsTouchFrame, IsJudgeEvent, IsUserInfo,
  IsRoomState, IsClientRoomState, IsJoinRoomResponse, IsAuthInfo, IsMessage, IsClientCommand,
  IsServerCommand,
}

half_codec :
    (h : ℕ)
    → h < 2 ^ 16
    → is_nan h ≡ false
    → Codec (write_u16 (f32_to_f16_bits (f16_bits_to_f32 h))) read_u16 h
half_codec h low number = rw (half_round_trip h low, number) (u16 h low)

compact_pos : (v : CompactPos) → IsCompactPos v → Codec (write_compact_pos v) read_compact_pos v
unfolding write_compact_pos read_compact_pos
compact_pos v ((hx, lx, nx, ex), (hy, ly, ny, ey)) =
    rw (← ex, ← ey)
      (seq _ (half_codec hx lx nx) (
        last (λ y. record { x = f16_bits_to_f32 hx; y = f16_bits_to_f32 y }) (half_codec hy ly ny)))

touch_point : (v : TouchPoint) → IsTouchPoint v → Codec (encode_touch_point v) decode_touch_point v
unfolding encode_touch_point decode_touch_point
touch_point v h =
    seq _ (i8 v.id h.0) (last (λ pos. record { id = v.id; pos = pos }) (compact_pos v.pos h.1))

pub few :
    {A : Type 0} (e : A → M BinaryWriter (Unit {0})) (d : M BinaryReader A) {P : A → Type 0}
    → ((a : A) → P a → Codec (e a) d a)
    → (xs : List A) → AreFew P xs
    → Codec (write_array e xs) (read_array d) xs
few e d c xs h = array e d xs (All-mono xs c h.0) h.1

touch_frame : (v : TouchFrame) → IsTouchFrame v → Codec (encode_touch_frame v) decode_touch_frame v
unfolding encode_touch_frame decode_touch_frame
touch_frame v h =
    seq _ (f32 v.time h.0) (
      last (λ points. record { time = v.time; points = points }) (few _ _ touch_point v.points h.1))

pub touch_frames :
    (xs : List TouchFrame)
    → AreFew IsTouchFrame xs
    → Codec (write_array encode_touch_frame xs) (read_array decode_touch_frame) xs
touch_frames = few _ _ touch_frame

judge_event : (v : JudgeEvent) → IsJudgeEvent v → Codec (encode_judge_event v) decode_judge_event v
unfolding encode_judge_event decode_judge_event
judge_event v h = seq _ (f32 v.time h.0) (
    seq _ (u32 v.line_id h.1) (
      seq _ (u32 v.note_id h.2) (
        last
          (λ judgement. record {
            time = v.time;
            line_id = v.line_id;
            note_id = v.note_id;
            judgement = judgement;
          })
          (u8 v.judgement h.3))))

judge_events :
    (xs : List JudgeEvent)
    → AreFew IsJudgeEvent xs
    → Codec (write_array encode_judge_event xs) (read_array decode_judge_event) xs
judge_events = few _ _ judge_event

room_id : (v : List ℕ) → IsRoomId v → Codec (encode_room_id v) decode_room_id v
unfolding encode_room_id decode_room_id accept_room_id
room_id v h =
    checked _ (string v (IsRoomId-IsByte v h.chars, omega (arith, h.short)))
      (rw (parse_room_id-of_IsRoomId v h) refl)

user_info : (v : UserInfo) → IsUserInfo v → Codec (encode_user_info v) decode_user_info v
unfolding encode_user_info decode_user_info
user_info v h = seq _ (i32 v.id h.0) (
    seq _ (string v.name h.1)
      (last (λ monitor. record { id = v.id; name = v.name; monitor = monitor }) (bool v.monitor)))

optional :
    {A : Type 0} (e : A → M BinaryWriter (Unit {0})) (d : M BinaryReader A) {P : A → Type 0}
    → ((a : A) → P a → Codec (e a) d a)
    → (o : Option A) → IsSome P o
    → Codec (write_option e o) (read_option d) o
optional e d c none h = option_none e d
optional e d c (some a) h = option_some e d a (c a h)

string_result :
    {A : Type 0} (e : A → M BinaryWriter (Unit {0})) (d : M BinaryReader A) {P : A → Type 0}
    → ((a : A) → P a → Codec (e a) d a)
    → (r : StringResult A) → IsResult P r
    → Codec (encode_string_result e r) (decode_string_result d) r
unfolding encode_string_result decode_string_result
string_result e d c (StringResult.ok v) h = seq _ (bool true) (last StringResult.ok (c v h))
string_result e d c (errr s) h = seq _ (bool false) (last errr (string s h))

unit_result :
    (r : StringResult (Unit {0}))
    → IsResult (λ _. Unit {0}) r
    → Codec (encode_unit_result r) decode_unit_result r
unfolding encode_unit_result decode_unit_result
unit_result = string_result _ _ (λ u _. done tt)

room_state : (v : RoomState) → IsRoomState v → Codec (encode_room_state v) decode_room_state v
unfolding encode_room_state decode_room_state decode_room_state_tagged
room_state (RoomState.select_chart id) h =
    seq _ (u8 0 (omega arith)) (last RoomState.select_chart (optional _ _ i32 id h))
room_state RoomState.waiting_for_ready h = checked _ (u8 1 (omega arith)) refl
room_state RoomState.playing h = checked _ (u8 2 (omega arith)) refl

client_room_state :
    (v : ClientRoomState)
    → IsClientRoomState v
    → Codec (encode_client_room_state v) decode_client_room_state v
unfolding encode_client_room_state decode_client_room_state
client_room_state v h = seq _ (room_id v.id h.0) (
    seq _ (room_state v.state h.1) (
      seq _ (bool v.live) (
        seq _ (bool v.locked) (
          seq _ (bool v.cycle) (
            seq _ (bool v.is_host) (
              seq _ (bool v.is_ready) (
                last (λ users. record v { users = users })
                  (sorted_map _ _ _ _ v.users h.2
                    (All-mono v.users (λ e p. (i32 e.0 p.0, user_info e.1 p.1)) h.3.0) h.3.1))))))))

join_room_response :
    (v : JoinRoomResponse)
    → IsJoinRoomResponse v
    → Codec (encode_join_room_response v) decode_join_room_response v
unfolding encode_join_room_response decode_join_room_response
join_room_response v h = seq _ (room_state v.state h.0) (
    seq _ (few _ _ user_info v.users h.1)
      (last (λ live. record { state = v.state; users = v.users; live = live }) (bool v.live)))

auth_info : (v : AuthInfo) → IsAuthInfo v → Codec (encode_auth_info v) decode_auth_info v
unfolding encode_auth_info decode_auth_info
auth_info v h =
    seq _ (user_info v.me h.0)
      (last (λ room. record { me = v.me; room = room }) (optional _ _ client_room_state v.room h.1))

pub message_codec : (v : Message) → IsMessage v → Codec (encode_message v) decode_message v
unfolding encode_message decode_message decode_message_tagged
message_codec (Message.chat user content) h =
    seq _ (u8 0 (omega arith))
      (seq _ (i32 user h.0) (last (Message.chat user) (string content h.1)))
message_codec (Message.create_room user) h =
    seq _ (u8 1 (omega arith)) (last (Message.create_room) (i32 user h))
message_codec (Message.join_room user name) h =
    seq _ (u8 2 (omega arith))
      (seq _ (i32 user h.0) (last (Message.join_room user) (string name h.1)))
message_codec (Message.leave_room user name) h =
    seq _ (u8 3 (omega arith))
      (seq _ (i32 user h.0) (last (Message.leave_room user) (string name h.1)))
message_codec (Message.new_host user) h =
    seq _ (u8 4 (omega arith)) (last (Message.new_host) (i32 user h))
message_codec (Message.select_chart user name id) h = seq _ (u8 5 (omega arith)) (
    seq _ (i32 user h.0)
      (seq _ (string name h.1) (last (Message.select_chart user name) (i32 id h.2))))
message_codec (Message.game_start user) h =
    seq _ (u8 6 (omega arith)) (last (Message.game_start) (i32 user h))
message_codec (Message.ready user) h =
    seq _ (u8 7 (omega arith)) (last (Message.ready) (i32 user h))
message_codec (Message.cancel_ready user) h =
    seq _ (u8 8 (omega arith)) (last (Message.cancel_ready) (i32 user h))
message_codec (Message.cancel_game user) h =
    seq _ (u8 9 (omega arith)) (last (Message.cancel_game) (i32 user h))
message_codec Message.start_playing h = checked _ (u8 10 (omega arith)) refl
message_codec (Message.played user score accuracy full_combo) h = seq _ (u8 11 (omega arith)) (
    seq _ (i32 user h.0) (
      seq _ (i32 score h.1)
        (seq _ (f32 accuracy h.2) (last (Message.played user score accuracy) (bool full_combo)))))
message_codec Message.game_end h = checked _ (u8 12 (omega arith)) refl
message_codec (Message.abort user) h =
    seq _ (u8 13 (omega arith)) (last (Message.abort) (i32 user h))
message_codec (Message.lock_room lock) h =
    seq _ (u8 14 (omega arith)) (last (Message.lock_room) (bool lock))
message_codec (Message.cycle_room cycle) h =
    seq _ (u8 15 (omega arith)) (last (Message.cycle_room) (bool cycle))

pub client_command_codec :
    (v : ClientCommand)
    → IsClientCommand v
    → Codec (encode_client_command v) decode_client_command v
unfolding encode_client_command decode_client_command decode_client_command_tagged
client_command_codec ClientCommand.ping h = checked _ (u8 0 (omega arith)) refl
client_command_codec (ClientCommand.authenticate token) h =
    seq _ (u8 1 (omega arith))
      (last (ClientCommand.authenticate) (varchar 32 token (omega arith) h.0 h.1))
client_command_codec (ClientCommand.chat message) h =
    seq _ (u8 2 (omega arith))
      (last (ClientCommand.chat) (varchar 200 message (omega arith) h.0 h.1))
client_command_codec (ClientCommand.touches frames) h =
    seq _ (u8 3 (omega arith)) (last (ClientCommand.touches) (touch_frames frames h))
client_command_codec (ClientCommand.judges judges) h =
    seq _ (u8 4 (omega arith)) (last (ClientCommand.judges) (judge_events judges h))
client_command_codec (ClientCommand.create_room id) h =
    seq _ (u8 5 (omega arith)) (last (ClientCommand.create_room) (room_id id h))
client_command_codec (ClientCommand.join_room id monitor) h =
    seq _ (u8 6 (omega arith))
      (seq _ (room_id id h) (last (ClientCommand.join_room id) (bool monitor)))
client_command_codec ClientCommand.leave_room h = checked _ (u8 7 (omega arith)) refl
client_command_codec (ClientCommand.lock_room lock) h =
    seq _ (u8 8 (omega arith)) (last (ClientCommand.lock_room) (bool lock))
client_command_codec (ClientCommand.cycle_room cycle) h =
    seq _ (u8 9 (omega arith)) (last (ClientCommand.cycle_room) (bool cycle))
client_command_codec (ClientCommand.select_chart id) h =
    seq _ (u8 10 (omega arith)) (last (ClientCommand.select_chart) (i32 id h))
client_command_codec ClientCommand.request_start h = checked _ (u8 11 (omega arith)) refl
client_command_codec ClientCommand.ready h = checked _ (u8 12 (omega arith)) refl
client_command_codec ClientCommand.cancel_ready h = checked _ (u8 13 (omega arith)) refl
client_command_codec (ClientCommand.played id) h =
    seq _ (u8 14 (omega arith)) (last (ClientCommand.played) (i32 id h))
client_command_codec ClientCommand.abort h = checked _ (u8 15 (omega arith)) refl

pub server_command_codec :
    (v : ServerCommand)
    → IsServerCommand v
    → Codec (encode_server_command v) decode_server_command v
unfolding encode_server_command decode_server_command decode_server_command_tagged
server_command_codec ServerCommand.pong h = checked _ (u8 0 (omega arith)) refl
server_command_codec (ServerCommand.authenticate result) h =
    seq _ (u8 1 (omega arith))
      (last (ServerCommand.authenticate) (string_result _ _ auth_info result h))
server_command_codec (ServerCommand.chat result) h =
    seq _ (u8 2 (omega arith)) (last (ServerCommand.chat) (unit_result result h))
server_command_codec (ServerCommand.touches player frames) h =
    seq _ (u8 3 (omega arith))
      (seq _ (i32 player h.0) (last (ServerCommand.touches player) (touch_frames frames h.1)))
server_command_codec (ServerCommand.judges player judges) h =
    seq _ (u8 4 (omega arith))
      (seq _ (i32 player h.0) (last (ServerCommand.judges player) (judge_events judges h.1)))
server_command_codec (ServerCommand.message message) h =
    seq _ (u8 5 (omega arith)) (last (ServerCommand.message) (message_codec message h))
server_command_codec (ServerCommand.change_state state) h =
    seq _ (u8 6 (omega arith)) (last (ServerCommand.change_state) (room_state state h))
server_command_codec (ServerCommand.change_host is_host) h =
    seq _ (u8 7 (omega arith)) (last (ServerCommand.change_host) (bool is_host))
server_command_codec (ServerCommand.create_room result) h =
    seq _ (u8 8 (omega arith)) (last (ServerCommand.create_room) (unit_result result h))
server_command_codec (ServerCommand.join_room result) h =
    seq _ (u8 9 (omega arith))
      (last (ServerCommand.join_room) (string_result _ _ join_room_response result h))
server_command_codec (ServerCommand.on_join_room info) h =
    seq _ (u8 10 (omega arith)) (last (ServerCommand.on_join_room) (user_info info h))
server_command_codec (ServerCommand.leave_room result) h =
    seq _ (u8 11 (omega arith)) (last (ServerCommand.leave_room) (unit_result result h))
server_command_codec (ServerCommand.lock_room result) h =
    seq _ (u8 12 (omega arith)) (last (ServerCommand.lock_room) (unit_result result h))
server_command_codec (ServerCommand.cycle_room result) h =
    seq _ (u8 13 (omega arith)) (last (ServerCommand.cycle_room) (unit_result result h))
server_command_codec (ServerCommand.select_chart result) h =
    seq _ (u8 14 (omega arith)) (last (ServerCommand.select_chart) (unit_result result h))
server_command_codec (ServerCommand.request_start result) h =
    seq _ (u8 15 (omega arith)) (last (ServerCommand.request_start) (unit_result result h))
server_command_codec (ServerCommand.ready result) h =
    seq _ (u8 16 (omega arith)) (last (ServerCommand.ready) (unit_result result h))
server_command_codec (ServerCommand.cancel_ready result) h =
    seq _ (u8 17 (omega arith)) (last (ServerCommand.cancel_ready) (unit_result result h))
server_command_codec (ServerCommand.played result) h =
    seq _ (u8 18 (omega arith)) (last (ServerCommand.played) (unit_result result h))
server_command_codec (ServerCommand.abort result) h =
    seq _ (u8 19 (omega arith)) (last (ServerCommand.abort) (unit_result result h))
