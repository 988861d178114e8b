-- ===== src/Protocol/Commands/Valid.antt =====
-- The values that the wire can carry: numbers within their Go types, texts and arrays whose
-- lengths `readLen` accepts, strings within the limits of the varchar fields, valid room ids,
-- coordinates that are halves, and maps by ascending keys.
use gooophira_mp.Prelude.{ℕ, ◌≤◌, ◌<◌, ◌^◌, ◌≡◌, false, Option, none, some, List, length, All}
use gooophira_mp.Prelude.Int.{ℤ, IsI8, IsI32}
use gooophira_mp.Protocol.Reader.{max_int32}
use gooophira_mp.Protocol.Half.{f16_bits_to_f32}
use gooophira_mp.Protocol.Half.RoundTrip.{is_nan}
use gooophira_mp.Protocol.RoomId.{IsRoomId}
use gooophira_mp.Protocol.Composite.{CompactPos, StringResult, errr}
use gooophira_mp.Protocol.Wire.{IsByte}
use gooophira_mp.Protocol.Wire.Primitives.{IsText}
use gooophira_mp.Protocol.Wire.Maps.{IsAscending}
use gooophira_mp.Protocol.Commands.{
  TouchPoint, TouchFrame, JudgeEvent, UserInfo, RoomState, ClientRoomState, JoinRoomResponse,
  AuthInfo, Message, ClientCommand, ServerCommand,
}

abbrev pub IsVarchar : ℕ → List ℕ → Type 0
IsVarchar max_len s = All IsByte s × (length s ≤ max_len)

abbrev pub AreFew {ℓ} : {A : Type ℓ} → (A → Type 0) → List A → Type 0
AreFew P xs = All P xs × (length xs ≤ max_int32)

abbrev pub IsSome : {A : Type 0} → (A → Type 0) → Option A → Type 0
IsSome P none = Unit {0}
IsSome P (some a) = P a

abbrev pub IsResult : {A : Type 0} → (A → Type 0) → StringResult A → Type 0
IsResult P (StringResult.ok a) = P a
IsResult P (errr e) = IsText e

-- The single that a half other than a NaN converts to.
abbrev pub IsHalf : ℕ → Type 0
IsHalf v = (h : ℕ) × (h < 2 ^ 16) × (is_nan h ≡ false) × (f16_bits_to_f32 h ≡ v)

abbrev pub IsCompactPos : CompactPos → Type 0
IsCompactPos p = IsHalf p.x × IsHalf p.y

abbrev pub IsTouchPoint : TouchPoint → Type 0
IsTouchPoint p = IsI8 p.id × IsCompactPos p.pos

abbrev pub IsTouchFrame : TouchFrame → Type 0
IsTouchFrame f = (f.time < 2 ^ 32) × AreFew IsTouchPoint f.points

abbrev pub IsJudgeEvent : JudgeEvent → Type 0
IsJudgeEvent e =
    (e.time < 2 ^ 32) × (e.line_id < 2 ^ 32) × (e.note_id < 2 ^ 32) × IsByte e.judgement

abbrev pub IsUserInfo : UserInfo → Type 0
IsUserInfo u = IsI32 u.id × IsText u.name

abbrev pub IsRoomState : RoomState → Type 0
IsRoomState (RoomState.select_chart id) = IsSome IsI32 id
IsRoomState RoomState.waiting_for_ready = Unit {0}
IsRoomState RoomState.playing = Unit {0}

abbrev pub IsUserEntry : ℤ × UserInfo → Type 0
IsUserEntry e = IsI32 e.0 × IsUserInfo e.1

abbrev pub IsClientRoomState : ClientRoomState → Type 0
IsClientRoomState s =
    IsRoomId s.id × IsRoomState s.state × IsAscending s.users × AreFew IsUserEntry s.users

abbrev pub IsJoinRoomResponse : JoinRoomResponse → Type 0
IsJoinRoomResponse r = IsRoomState r.state × AreFew IsUserInfo r.users

abbrev pub IsAuthInfo : AuthInfo → Type 0
IsAuthInfo a = IsUserInfo a.me × IsSome IsClientRoomState a.room

abbrev pub IsMessage : Message → Type 0
IsMessage (Message.chat user content) = IsI32 user × IsText content
IsMessage (Message.create_room user) = IsI32 user
IsMessage (Message.join_room user name) = IsI32 user × IsText name
IsMessage (Message.leave_room user name) = IsI32 user × IsText name
IsMessage (Message.new_host user) = IsI32 user
IsMessage (Message.select_chart user name id) = IsI32 user × IsText name × IsI32 id
IsMessage (Message.game_start user) = IsI32 user
IsMessage (Message.ready user) = IsI32 user
IsMessage (Message.cancel_ready user) = IsI32 user
IsMessage (Message.cancel_game user) = IsI32 user
IsMessage Message.start_playing = Unit {0}
IsMessage (Message.played user score accuracy full_combo) =
    IsI32 user × IsI32 score × (accuracy < 2 ^ 32)
IsMessage Message.game_end = Unit {0}
IsMessage (Message.abort user) = IsI32 user
IsMessage (Message.lock_room lock) = Unit {0}
IsMessage (Message.cycle_room cycle) = Unit {0}

abbrev pub IsClientCommand : ClientCommand → Type 0
IsClientCommand ClientCommand.ping = Unit {0}
IsClientCommand (ClientCommand.authenticate token) = IsVarchar 32 token
IsClientCommand (ClientCommand.chat message) = IsVarchar 200 message
IsClientCommand (ClientCommand.touches frames) = AreFew IsTouchFrame frames
IsClientCommand (ClientCommand.judges judges) = AreFew IsJudgeEvent judges
IsClientCommand (ClientCommand.create_room id) = IsRoomId id
IsClientCommand (ClientCommand.join_room id monitor) = IsRoomId id
IsClientCommand ClientCommand.leave_room = Unit {0}
IsClientCommand (ClientCommand.lock_room lock) = Unit {0}
IsClientCommand (ClientCommand.cycle_room cycle) = Unit {0}
IsClientCommand (ClientCommand.select_chart id) = IsI32 id
IsClientCommand ClientCommand.request_start = Unit {0}
IsClientCommand ClientCommand.ready = Unit {0}
IsClientCommand ClientCommand.cancel_ready = Unit {0}
IsClientCommand (ClientCommand.played id) = IsI32 id
IsClientCommand ClientCommand.abort = Unit {0}

abbrev pub IsServerCommand : ServerCommand → Type 0
IsServerCommand ServerCommand.pong = Unit {0}
IsServerCommand (ServerCommand.authenticate result) = IsResult IsAuthInfo result
IsServerCommand (ServerCommand.chat result) = IsResult (λ _. Unit {0}) result
IsServerCommand (ServerCommand.touches player frames) = IsI32 player × AreFew IsTouchFrame frames
IsServerCommand (ServerCommand.judges player judges) = IsI32 player × AreFew IsJudgeEvent judges
IsServerCommand (ServerCommand.message message) = IsMessage message
IsServerCommand (ServerCommand.change_state state) = IsRoomState state
IsServerCommand (ServerCommand.change_host is_host) = Unit {0}
IsServerCommand (ServerCommand.create_room result) = IsResult (λ _. Unit {0}) result
IsServerCommand (ServerCommand.join_room result) = IsResult IsJoinRoomResponse result
IsServerCommand (ServerCommand.on_join_room info) = IsUserInfo info
IsServerCommand (ServerCommand.leave_room result) = IsResult (λ _. Unit {0}) result
IsServerCommand (ServerCommand.lock_room result) = IsResult (λ _. Unit {0}) result
IsServerCommand (ServerCommand.cycle_room result) = IsResult (λ _. Unit {0}) result
IsServerCommand (ServerCommand.select_chart result) = IsResult (λ _. Unit {0}) result
IsServerCommand (ServerCommand.request_start result) = IsResult (λ _. Unit {0}) result
IsServerCommand (ServerCommand.ready result) = IsResult (λ _. Unit {0}) result
IsServerCommand (ServerCommand.cancel_ready result) = IsResult (λ _. Unit {0}) result
IsServerCommand (ServerCommand.played result) = IsResult (λ _. Unit {0}) result
IsServerCommand (ServerCommand.abort result) = IsResult (λ _. Unit {0}) result
