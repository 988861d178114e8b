-- ===== src/Protocol/Commands.antt =====
-- The types of internal/common/protocol/commands.go. A float32 is its bit pattern, a string its
-- bytes, a room id a string; a Go map is a list of its entries.
pub mod Encode
pub mod Decode
pub mod Valid
pub mod RoundTrip
pub mod Safety
use gooophira_mp.Prelude.{ℕ, Bool, Option, List}
use gooophira_mp.Prelude.Int.{ℤ}
use gooophira_mp.Protocol.Composite.{CompactPos, StringResult}

pub record TouchPoint : Type 0 where
  pub id : ℤ
  pub pos : CompactPos

pub record TouchFrame : Type 0 where
  pub time : ℕ
  pub points : List TouchPoint

-- A judgement is a uint8; the values 0 to 5 have names.
pub record JudgeEvent : Type 0 where
  pub time : ℕ
  pub line_id : ℕ
  pub note_id : ℕ
  pub judgement : ℕ

pub record UserInfo : Type 0 where
  pub id : ℤ
  pub name : List ℕ
  pub monitor : Bool

pub data RoomState : Type 0 where
  select_chart : Option ℤ → RoomState
  waiting_for_ready : RoomState
  playing : RoomState

pub record ClientRoomState : Type 0 where
  pub id : List ℕ
  pub state : RoomState
  pub live : Bool
  pub locked : Bool
  pub cycle : Bool
  pub is_host : Bool
  pub is_ready : Bool
  pub users : List (ℤ × UserInfo)

pub record JoinRoomResponse : Type 0 where
  pub state : RoomState
  pub users : List UserInfo
  pub live : Bool

pub record AuthInfo : Type 0 where
  pub me : UserInfo
  pub room : Option ClientRoomState

-- What the server broadcasts to a room.
pub data Message : Type 0 where
  chat : ℤ → List ℕ → Message
  create_room : ℤ → Message
  join_room : ℤ → List ℕ → Message
  leave_room : ℤ → List ℕ → Message
  new_host : ℤ → Message
  select_chart : ℤ → List ℕ → ℤ → Message
  game_start : ℤ → Message
  ready : ℤ → Message
  cancel_ready : ℤ → Message
  cancel_game : ℤ → Message
  start_playing : Message
  played : ℤ → ℤ → ℕ → Bool → Message
  game_end : Message
  abort : ℤ → Message
  lock_room : Bool → Message
  cycle_room : Bool → Message

-- Client to server.
pub data ClientCommand : Type 0 where
  ping : ClientCommand
  authenticate : List ℕ → ClientCommand
  chat : List ℕ → ClientCommand
  touches : List TouchFrame → ClientCommand
  judges : List JudgeEvent → ClientCommand
  create_room : List ℕ → ClientCommand
  join_room : List ℕ → Bool → ClientCommand
  leave_room : ClientCommand
  lock_room : Bool → ClientCommand
  cycle_room : Bool → ClientCommand
  select_chart : ℤ → ClientCommand
  request_start : ClientCommand
  ready : ClientCommand
  cancel_ready : ClientCommand
  played : ℤ → ClientCommand
  abort : ClientCommand

-- Server to client.
pub data ServerCommand : Type 0 where
  pong : ServerCommand
  authenticate : StringResult AuthInfo → ServerCommand
  chat : StringResult (Unit {0}) → ServerCommand
  touches : ℤ → List TouchFrame → ServerCommand
  judges : ℤ → List JudgeEvent → ServerCommand
  message : Message → ServerCommand
  change_state : RoomState → ServerCommand
  change_host : Bool → ServerCommand
  create_room : StringResult (Unit {0}) → ServerCommand
  join_room : StringResult JoinRoomResponse → ServerCommand
  on_join_room : UserInfo → ServerCommand
  leave_room : StringResult (Unit {0}) → ServerCommand
  lock_room : StringResult (Unit {0}) → ServerCommand
  cycle_room : StringResult (Unit {0}) → ServerCommand
  select_chart : StringResult (Unit {0}) → ServerCommand
  request_start : StringResult (Unit {0}) → ServerCommand
  ready : StringResult (Unit {0}) → ServerCommand
  cancel_ready : StringResult (Unit {0}) → ServerCommand
  played : StringResult (Unit {0}) → ServerCommand
  abort : StringResult (Unit {0}) → ServerCommand
