-- ===== src/Server/Tests.antt =====
-- The theorems on rooms at a room of three players in a match.
use gooophira_mp.Prelude.{Bool, ℕ, ◌≡◌, refl, true, false, none, some, [], ◌∷◌, arith}
use gooophira_mp.Prelude.Int.{pos}
use gooophira_mp.Protocol.Commands.{Message}
use gooophira_mp.Server.Model.{User, RecordData, Room, InternalRoomState, StatePlaying}
use gooophira_mp.Server.Turn.{Turn, RoomLifecycle, send}
use gooophira_mp.Server.Turn.Logs.{IsBoundedLog, send-IsBoundedLog}
use gooophira_mp.Server.Hosts.{pick_next_host}
use gooophira_mp.Server.Hosts.Choice.{IsNextHost, pick_next_host_lem}
use gooophira_mp.Server.Lifecycle.{check_all_ready, start_playing}
use gooophira_mp.Server.Lifecycle.Settling.{IsSettledOrOn, check_all_ready-playing}
use gooophira_mp.Server.Lifecycle.Starting.{
  IsStartedOrWaiting, EndsWithBroadcast, check_all_ready-wait_for_ready, start_playing-broadcast,
}
use gooophira_mp.Server.Members.{add_user, on_user_leave}
use gooophira_mp.Server.Members.Capacity.{IsAdded, add_user-IsWithin}
use gooophira_mp.Server.Members.Hosting.{HasHost, IsLeft, on_user_leave-HasHost}
use gooophira_mp.Server.Timers.{play_deadline_end}
use gooophira_mp.Server.Timers.Deadline.{play_deadline_end-state}
use gooophira_mp.Server.Model.{new_room, insert_id, refresh_live, is_empty}
use gooophira_mp.Server.Validate.{validate_join, is_whitelisted, handle_join, join_late}
use gooophira_mp.Server.Members.{add_user, remove_int, remove_member, finish_leave, hand_over}
use gooophira_mp.Server.Lifecycle.{check_all_ready}
use gooophira_mp.Server.Dispatch.{unless}
use gooophira_mp.Server.Turn.{start_turn, emit, with_room, set_host, log_message, notify_user}
use gooophira_mp.Server.Hosts.{first_above, or_first, sort_ints, insert_sorted}
use gooophira_mp.Server.Rooms.{
  Request, respond, Step, answered, left, Reach, created, stepped, join_room,
}
use gooophira_mp.Server.Rooms.Reached.{Reach-HasHost}
use gooophira_mp.Server.Model.{is_select_chart, contains}
use gooophira_mp.Server.Moves.{
  Move, move_user, try_move, leave_for, move_user-same, move_user-other,
}

abbrev player : ℕ → User
player id = record {
  id = id;
  name = 80 ∷ [];
  monitor = false;
  monitor_allowed = false;
  connected = false;
  dangle_deadline = some 9000;
}

abbrev lifecycle : RoomLifecycle
lifecycle = record {
  users_by_id = λ id. some (player id);
  log_text = λ m. 76 ∷ [];
  now = 1000;
  system_chat_user_id = pos 0;
  waiting_reconnect_text = λ name seconds. name;
  ranking_text = λ rank. 82 ∷ [];
  record_text = λ u r. 83 ∷ [];
  deadline_text = some (68 ∷ []);
  replay_enabled = false;
  has_recorder = false;
}

abbrev result : RecordData
result = record {
  id = 55;
  player = 7;
  chart = none;
  score = 990000;
  perfect = 800;
  good = 10;
  bad = 0;
  miss = 0;
  max_combo = 810;
  accuracy = 0;
  mods = 0;
  full_combo = true;
  std = none;
  std_score = none;
}

-- Player 7 has a result, player 9 has aborted, player 4 is not done.
abbrev match : StatePlaying
match = record {
  results = (7, result) ∷ [];
  aborted = 9 ∷ [];
  reconnect_notified = none;
  started_at = 500;
}

abbrev room : InternalRoomState → Room
room s = record {
  id = 114 ∷ [];
  max_users = 4;
  replay_eligible = false;
  host_id = 7;
  state = s;
  live = false;
  locked = false;
  cycle = true;
  contest = none;
  users = 7 ∷ 9 ∷ 4 ∷ [];
  monitors = [];
  chart = none;
  next_host_id = none;
  recent_logs = [];
}

abbrev in_match : Turn
in_match = record { room = room (InternalRoomState.playing match); effects = [] }

abbrev waiting : Turn
waiting = record { room = room (InternalRoomState.wait_for_ready (7 ∷ 4 ∷ 9 ∷ [])); effects = [] }

pick_next_host_lem_example : IsNextHost (7 ∷ 9 ∷ 4 ∷ []) 7 (pick_next_host (7 ∷ 9 ∷ 4 ∷ []) 7)
pick_next_host_lem_example = pick_next_host_lem (7 ∷ 9 ∷ 4 ∷ []) 7

send-IsBoundedLog_example :
    IsBoundedLog (send lifecycle (Message.chat (pos 7) (72 ∷ [])) in_match).room.recent_logs
send-IsBoundedLog_example =
    send-IsBoundedLog lifecycle (Message.chat (pos 7) (72 ∷ [])) in_match (omega arith, tt)

check_all_ready-playing_example : IsSettledOrOn lifecycle in_match match
check_all_ready-playing_example = check_all_ready-playing lifecycle in_match match refl

check_all_ready-wait_for_ready_example : IsStartedOrWaiting lifecycle waiting (7 ∷ 4 ∷ 9 ∷ [])
check_all_ready-wait_for_ready_example =
    check_all_ready-wait_for_ready lifecycle waiting (7 ∷ 4 ∷ 9 ∷ []) refl

start_playing-broadcast_example :
    EndsWithBroadcast (start_playing lifecycle (9 ∷ []) waiting).effects
start_playing-broadcast_example = start_playing-broadcast lifecycle (9 ∷ []) waiting

play_deadline_end-state_example :
    (play_deadline_end lifecycle in_match).room.state ≡ InternalRoomState.select_chart
play_deadline_end-state_example = play_deadline_end-state lifecycle in_match match refl

add_user-IsWithin_example :
    IsAdded (player 11) false in_match.room (add_user (player 11) false in_match.room)
add_user-IsWithin_example = add_user-IsWithin (player 11) false in_match.room (omega arith)

hosted : HasHost in_match.room
unfolding HasHost
hosted = refl

on_user_leave-HasHost_example : IsLeft (on_user_leave lifecycle (player 7) in_match)
on_user_leave-HasHost_example = on_user_leave-HasHost lifecycle (player 7) in_match hosted

-- Player 7 makes a room, player 9 joins, and player 7 leaves.
abbrev new : Room
new = new_room (114 ∷ []) 7 4 false

abbrev joined : Turn
joined = start_turn (
    refresh_live false
      (handle_join (record (player 9) { monitor = false }) (add_user (player 9) false new).1))

join-Step : Step new joined.room
unfolding new_room respond join_room unless validate_join is_whitelisted add_user
join-Step = answered lifecycle (Request.join (player 9) false) new joined refl

abbrev remaining : Room
remaining = refresh_live false (on_user_leave lifecycle (player 7) (start_turn joined.room)).2.room

leave-Step : Step joined.room remaining
unfolding new_room handle_join join_late add_user insert_id refresh_live on_user_leave remove_member
    remove_int finish_leave hand_over check_all_ready is_empty pick_next_host first_above or_first
    start_turn emit with_room set_host log_message send notify_user sort_ints insert_sorted
leave-Step = left lifecycle (player 7) joined.room refl

remaining-Reach : Reach (114 ∷ []) 7 4 false remaining
remaining-Reach =
    stepped joined.room remaining (stepped new joined.room created join-Step) leave-Step

Reach-HasHost_example : HasHost remaining
Reach-HasHost_example = Reach-HasHost (114 ∷ []) 7 4 false remaining remaining-Reach

abbrev idle : Room
idle = room InternalRoomState.select_chart

abbrev moved : Turn × Bool × Room
moved = let out = on_user_leave lifecycle (player 9) (start_turn idle) in (out.2, out.0, out.2.room)

moved_home :
    move_user lifecycle (player 9) (some idle) idle true false ≡ Move.moved moved.0 moved.1 moved.2
unfolding move_user try_move leave_for is_select_chart validate_join is_whitelisted add_user
    insert_id
moved_home = refl

move_user-same_example : contains moved.2.users 9 ≡ false
move_user-same_example =
    move_user-same lifecycle (player 9) idle moved.0 moved.1 moved.2 refl refl (omega arith)
      moved_home

abbrev elsewhere : Turn × Bool × Room
elsewhere =
    let out = on_user_leave lifecycle (player 9) (start_turn idle) in
    (out.2, out.0, (add_user (player 9) false new).1)

moved_away :
    move_user lifecycle (player 9) (some idle) new false false
    ≡ Move.moved elsewhere.0 elsewhere.1 elsewhere.2
unfolding move_user try_move leave_for is_select_chart validate_join is_whitelisted add_user
    insert_id new_room
moved_away = refl

move_user-other_example : contains elsewhere.2.users 9 ≡ true
move_user-other_example =
    move_user-other lifecycle (player 9) idle new elsewhere.2 elsewhere.0 elsewhere.1 moved_away
