-- ===== src/Server/Contest.antt =====
-- Contests and the operations of an administrator: internal/core/server/room_contest.go and
-- admin_room.go.
use gooophira_mp.Prelude.{
  ℕ, Bool, true, false, not, ◌&&◌, none, some, List, [], ◌∷◌, ◌==◌, if◌then◌else◌,
}
use gooophira_mp.Prelude.Int.{pos}
use gooophira_mp.Protocol.Commands.{Message, ServerCommand}
use gooophira_mp.Server.Model.{
  Room, RoomError, InternalRoomState, insert_id, all_participant_ids, contains_user,
  clear_next_host,
}
use gooophira_mp.Server.Lifecycle.{start_playing, all_in}
use gooophira_mp.Server.Turn.{
  Turn, RoomLifecycle, start_turn, with_room, set_host, notify_user, log_and_broadcast,
}
use gooophira_mp.Server.Dispatch.{Reply}

unfoldable pub insert_all : List ℕ → List ℕ → List ℕ
insert_all set [] = set
insert_all set (id ∷ ids) = insert_all (insert_id set id) ids

-- The ids given, or those of the members when none is given.
unfoldable pub initial_whitelist : Room → List ℕ → List ℕ
initial_whitelist room [] = insert_all [] (all_participant_ids room)
initial_whitelist room (id ∷ ids) = insert_all [] (id ∷ ids)

unfoldable pub contest_whitelist : Room → List ℕ → List ℕ
contest_whitelist room user_ids =
    insert_all (initial_whitelist room user_ids) (all_participant_ids room)

unfoldable pub enable_contest : List ℕ → Room → Room
enable_contest user_ids room = record room {
  contest = some (record {
    whitelist = contest_whitelist room user_ids;
    manual_start = true;
    auto_disband = true;
  });
}

unfoldable pub disable_contest : Room → Room
disable_contest room = record room { contest = none }

-- The answer is whether there was a contest.
unfoldable pub set_contest_whitelist : List ℕ → Room → Bool × Room
set_contest_whitelist user_ids room = elim (room.contest) [
  | none ↦ (false, room)
  | some c ↦ (
    true,
    record room { contest = some (record c { whitelist = contest_whitelist room user_ids }) },
  )
]

unfoldable pub start_waiting_contest : RoomLifecycle → Bool → List ℕ → Room → Reply
start_waiting_contest lc force started room = elim (room.chart) [
  | none ↦ Reply.refused RoomError.no_chart_selected
  | some c ↦
      if not force && not (all_in (all_participant_ids room) started)
      then Reply.refused RoomError.not_all_ready
      else Reply.accepted (start_playing lc [] (start_turn room))
]

unfoldable pub start_contest : RoomLifecycle → Bool → Room → Reply
start_contest lc force room = elim (room.contest) [
  | none ↦ Reply.refused RoomError.contest_not_found
  | some rules ↦ elim (room.state) [
    | InternalRoomState.wait_for_ready started ↦ start_waiting_contest lc force started room
    | InternalRoomState.select_chart ↦ Reply.refused RoomError.room_not_waiting
    | InternalRoomState.playing st ↦ Reply.refused RoomError.room_not_waiting
  ]
]

unfoldable pub set_room_locked : RoomLifecycle → Bool → Room → Turn
set_room_locked lc lock room =
    log_and_broadcast lc (Message.lock_room lock) (start_turn (record room { locked = lock }))

unfoldable pub set_room_cycle : RoomLifecycle → Bool → Room → Turn
set_room_cycle lc cycle room =
    log_and_broadcast lc (Message.cycle_room cycle) (start_turn (record room { cycle = cycle }))

unfoldable pub transfer_host : RoomLifecycle → ℕ → Room → Reply
transfer_host lc user_id room =
    if not (contains_user room user_id)
    then Reply.refused RoomError.user_not_in_room
    else if room.host_id == user_id
    then Reply.refused RoomError.already_host
    else Reply.accepted (
        notify_user lc user_id (ServerCommand.change_host true) (
          notify_user lc room.host_id (ServerCommand.change_host false) (
            log_and_broadcast lc (Message.new_host (pos user_id))
              (with_room clear_next_host (set_host user_id (start_turn room))))))
