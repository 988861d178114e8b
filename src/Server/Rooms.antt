-- ===== src/Server/Rooms.antt =====
-- The life of a room: the commands of its members, joins, the ends of the countdowns and the calls
-- of an administrator, as steps, users who are moved included. It ends with the step that drops it.
pub mod Hosted
pub mod Ends
pub mod Moved
pub mod Reached
use gooophira_mp.Prelude.{
  ℕ, ◌≡◌, Bool, true, false, not, ◌||◌, Option, none, some, List, [], ◌∷◌, ltb, if◌then◌else◌,
}
use gooophira_mp.Server.Model.{
  User, Chart, Room, RoomError, RecordData, new_room, refresh_live, contains_user, set_next_host,
  InternalRoomState, contains, keys,
}
use gooophira_mp.Server.Validate.{validate_join, handle_join}
use gooophira_mp.Server.Members.{add_user, on_user_leave}
use gooophira_mp.Prelude.Int.{pos}
use gooophira_mp.Protocol.Commands.{Message}
use gooophira_mp.Server.Turn.{Effect, Turn, RoomLifecycle, start_turn, emit, set_state, send}
use gooophira_mp.Server.Dispatch.{
  Reply, unless, handle_lock_room, handle_cycle_room, handle_select_chart, handle_request_start,
  handle_ready, handle_cancel_ready, handle_abort, abort_player, check_and_disband,
}
use gooophira_mp.Server.Moves.{Move, move_user}
use gooophira_mp.Server.Played.{handle_played}
use gooophira_mp.Server.Timers.{ready_countdown_end, play_deadline_end}
use gooophira_mp.Server.Contest.{
  enable_contest, disable_contest, set_contest_whitelist, start_contest, set_room_locked,
  set_room_cycle, transfer_host,
}

-- What `ProcessJoinRoom` does to the room that was found: `user` is not in a room, and asks to be a monitor
-- or not.
unfoldable pub join_room : RoomLifecycle → User → Bool → Room → Reply
join_room lc user monitor room = unless (validate_join room user monitor) (
    let (placed, added) = add_user user monitor room in
    if not placed
    then Reply.refused RoomError.join_room_full
    else Reply.accepted (
        start_turn
          (refresh_live lc.replay_enabled (handle_join (record user { monitor = monitor }) added))))

-- `cmdNextHost` and `cmdMaxUsers` of internal/server/control/cli/cli_rooms.go on the room that was found;
-- what they refuse is printed, and leaves the room.
unfoldable pub cmd_next_host : ℕ → Room → Room
cmd_next_host user_id room =
    if not room.cycle
    then room
    else if not (contains_user room user_id)
    then room
    else set_next_host user_id room

unfoldable pub cmd_max_users : ℕ → Room → Room
cmd_max_users n room = if ltb n 1 || ltb 32767 n then room else record room { max_users = n }

-- `abortPlayingAndCheck` of internal/server/control/cli/cli_users.go: a player who is kicked, and keeps the
-- place in the room, gives the match up.
unfoldable pub abort_playing_and_check : RoomLifecycle → ℕ → Room → Turn
abort_playing_and_check lc user_id room = elim (room.state) [
  | InternalRoomState.select_chart ↦ start_turn room
  | InternalRoomState.wait_for_ready started ↦ start_turn room
  | InternalRoomState.playing st ↦
      if contains (keys st.results) user_id
      then start_turn room
      else if contains st.aborted user_id
      then start_turn room
      else check_and_disband lc (
          emit Effect.notify_web_socket (
            send lc (Message.abort (pos user_id))
              (set_state (abort_player st user_id) (start_turn room))))
]

-- `message` is what `BroadcastRoomMessage` and `SendAs` send for chat and announcements, `configure` what
-- a change of the configuration does to each room.
pub data Request : Type 0 where
  lock_room : User → Bool → Request
  cycle_room : User → Bool → Request
  select_chart : User → Option Chart → Request
  request_start : User → Bool → Request
  ready : User → Request
  cancel_ready : User → Request
  abort : User → Request
  played : User → Option RecordData → Request
  join : User → Bool → Request
  countdown_ends : Request
  deadline_ends : Request
  enable : List ℕ → Request
  disable : Request
  set_whitelist : List ℕ → Request
  start : Bool → Request
  set_locked : Bool → Request
  set_cycle : Bool → Request
  transfer : ℕ → Request
  next_host : ℕ → Request
  max_users : ℕ → Request
  abort_playing : ℕ → Request
  message : Message → Request
  configure : Bool → Request

unfoldable pub respond : RoomLifecycle → Request → Room → Reply
respond lc (lock_room user lock) r = handle_lock_room lc user (some r) lock
respond lc (cycle_room user cycle) r = handle_cycle_room lc user (some r) cycle
respond lc (select_chart user fetched) r = handle_select_chart lc user (some r) fetched
respond lc (request_start user has_hint) r = handle_request_start lc user (some r) has_hint
respond lc (ready user) r = handle_ready lc user (some r)
respond lc (cancel_ready user) r = handle_cancel_ready lc user (some r)
respond lc (abort user) r = handle_abort lc user (some r)
respond lc (played user fetched) r = handle_played lc user (some r) fetched
respond lc (join user monitor) r = join_room lc user monitor r
respond lc countdown_ends r = Reply.accepted (ready_countdown_end lc (start_turn r))
respond lc deadline_ends r = Reply.accepted (play_deadline_end lc (start_turn r))
respond lc (enable ids) r = Reply.accepted (start_turn (enable_contest ids r))
respond lc disable r = Reply.accepted (start_turn (disable_contest r))
respond lc (set_whitelist ids) r = Reply.accepted (start_turn (set_contest_whitelist ids r).1)
respond lc (start force) r = start_contest lc force r
respond lc (set_locked lock) r = Reply.accepted (set_room_locked lc lock r)
respond lc (set_cycle cycle) r = Reply.accepted (set_room_cycle lc cycle r)
respond lc (transfer id) r = transfer_host lc id r
respond lc (next_host id) r = Reply.accepted (start_turn (cmd_next_host id r))
respond lc (max_users n) r = Reply.accepted (start_turn (cmd_max_users n r))
respond lc (abort_playing id) r = Reply.accepted (abort_playing_and_check lc id r)
respond lc (message msg) r = Reply.accepted (send lc msg (start_turn r))
respond lc (configure replay) r = Reply.accepted (start_turn (refresh_live replay r))

-- The clock, the users and the texts are others at each step. A user leaves by a command, or is removed
-- when the connection was away for too long. An administrator who moves a user changes
-- two rooms, or one twice.
pub data Step : Room → Room → Type 0 where
  answered :
      (lc : RoomLifecycle) (q : Request) (r : Room) (t : Turn)
      → respond lc q r ≡ Reply.accepted t
      → Step r t.room
  left :
      (lc : RoomLifecycle) (user : User) (r : Room)
      → (on_user_leave lc user (start_turn r)).0 ≡ false
      → Step r (refresh_live lc.replay_enabled (on_user_leave lc user (start_turn r)).2.room)
  removed :
      (lc : RoomLifecycle) (user : User) (r : Room)
      → (on_user_leave lc user (start_turn r)).0 ≡ false
      → Step r (on_user_leave lc user (start_turn r)).2.room
  moved_from :
      (lc : RoomLifecycle) (user : User) (r to after : Room) (t : Turn) (monitor : Bool)
      → move_user lc user (some r) to false monitor ≡ Move.moved t false after
      → Step r t.room
  moved_to :
      (lc : RoomLifecycle) (user : User) (from? : Option Room) (r after : Room) (t : Turn)
      (dropped monitor : Bool)
      → move_user lc user from? r false monitor ≡ Move.moved t dropped after
      → Step r after
  moved_within :
      (lc : RoomLifecycle) (user : User) (r after : Room) (t : Turn) (monitor : Bool)
      → move_user lc user (some r) r true monitor ≡ Move.moved t false after
      → Step r after

-- The rooms that a new room becomes.
pub data Reach (id : List ℕ) (host_id max_users : ℕ) (replay : Bool) : Room → Type 0 where
  created : Reach id host_id max_users replay (new_room id host_id max_users replay)
  stepped :
      (r s : Room)
      → Reach id host_id max_users replay r
      → Step r s
      → Reach id host_id max_users replay s
