-- ===== src/Server/Lifecycle.antt =====
-- The state machine of a room: internal/core/server/room_lifecycle.go. Console lines, pointer
-- caches and the texts are left out.
pub mod Steps
pub mod Settling
pub mod Starting
use gooophira_mp.Prelude.{
  ℕ, ◌+◌, ◌-◌, ◌/◌, Bool, true, false, not, ◌&&◌, ◌||◌, Option, none, some, List, [], ◌∷◌, ltb, leb,
  ◌==◌, if◌then◌else◌, length,
}
use gooophira_mp.Protocol.Commands.{Message, ServerCommand}
use gooophira_mp.Server.Model.{
  User, RecordData, InternalRoomState, StatePlaying, ContestRules, contains, insert_id, keys,
  all_participant_ids, client_room_state,
}
use gooophira_mp.Server.Hosts.{rotate_cycle_host}
use gooophira_mp.Server.Turn.{
  Effect, Turn, RoomLifecycle, emit, with_room, set_state, log_message, send, notify_state,
}

-- Rank a before b: the higher score, and the lower id on a tie.
unfoldable pub ranks_before : ℕ × RecordData → ℕ × RecordData → Bool
ranks_before (a, ra) (b, rb) = if ra.score == rb.score then leb a b else ltb rb.score ra.score

unfoldable pub insert_ranked : ℕ × RecordData → List (ℕ × RecordData) → List (ℕ × RecordData)
insert_ranked x [] = x ∷ []
insert_ranked x (y ∷ ys) =
    let rest = insert_ranked x ys in if ranks_before x y then x ∷ y ∷ ys else y ∷ rest

unfoldable pub rank_results : List (ℕ × RecordData) → List (ℕ × RecordData)
rank_results [] = []
rank_results (x ∷ xs) = insert_ranked x (rank_results xs)

unfoldable pub broadcast_game_ranking : RoomLifecycle → StatePlaying → Turn → Turn
broadcast_game_ranking lc st t =
    if leb (length st.results) 1
    then t
    else send lc (Message.chat lc.system_chat_user_id (lc.ranking_text (rank_results st.results))) t

unfoldable pub broadcast_excluding : List ℕ → ServerCommand → Turn → Turn
broadcast_excluding [] cmd t = emit (Effect.broadcast cmd) t
broadcast_excluding (id ∷ ids) cmd t = emit (Effect.broadcast_except cmd (id ∷ ids)) t

unfoldable pub new_playing : ℕ → InternalRoomState
new_playing now =
    InternalRoomState.playing
      (record { results = []; aborted = []; reconnect_notified = none; started_at = now })

-- The start of a match, up to the change of state.
unfoldable pub enter_playing : RoomLifecycle → Turn → Turn
enter_playing lc t =
    let quiet = emit Effect.cancel_play_deadline (emit Effect.cancel_ready_countdown t) in
    let logged =
      with_room (log_message lc Message.start_playing) (emit Effect.on_enter_playing quiet) in
    set_state (new_playing lc.now) (emit (Effect.reset_game_time t.room.users) logged)

unfoldable pub start_playing : RoomLifecycle → List ℕ → Turn → Turn
start_playing lc unready_ids t =
    let entered = enter_playing lc t in
    notify_state (
      broadcast_excluding unready_ids (ServerCommand.change_state (client_room_state entered.room))
        (broadcast_excluding unready_ids (ServerCommand.message Message.start_playing) entered))

-- Whether every id of the first list is in the second.
unfoldable pub all_in : List ℕ → List ℕ → Bool
all_in [] started = true
all_in (id ∷ ids) started = let rest = all_in ids started in contains started id && rest

unfoldable pub is_manual_start : Option ContestRules → Bool
is_manual_start none = false
is_manual_start (some c) = c.manual_start

unfoldable pub is_auto_disband : Option ContestRules → Bool
is_auto_disband none = false
is_auto_disband (some c) = c.auto_disband

unfoldable pub check_wait_for_ready : RoomLifecycle → List ℕ → Turn → Turn
check_wait_for_ready lc started t =
    if all_in (all_participant_ids t.room) started && not (is_manual_start t.room.contest)
    then start_playing lc [] t
    else t

-- A result or an abort.
unfoldable pub is_done : StatePlaying → ℕ → Bool
is_done st id = contains (keys st.results) id || contains st.aborted id

unfoldable pub unfinished_ids : StatePlaying → List ℕ → List ℕ
unfinished_ids st [] = []
unfinished_ids st (id ∷ ids) =
    let rest = unfinished_ids st ids in if is_done st id then rest else id ∷ rest

-- `UsersByID(id)` is nil, or the user has no session.
unfoldable pub is_dangling : RoomLifecycle → ℕ → Bool
is_dangling lc id = elim (lc.users_by_id id) [ none ↦ true | some u ↦ not u.connected ]

unfoldable pub dangling_ids : RoomLifecycle → List ℕ → List ℕ
dangling_ids lc [] = []
dangling_ids lc (id ∷ ids) =
    let rest = dangling_ids lc ids in if is_dangling lc id then id ∷ rest else rest

unfoldable pub dangle_deadline_ms : User → ℕ → ℕ
dangle_deadline_ms u now = elim (u.dangle_deadline) [ none ↦ 0 | some deadline ↦ deadline - now ]

-- `max(1, ceil(remainMs / 1000))`.
unfoldable pub remaining_seconds : ℕ → ℕ
remaining_seconds ms = if leb ms 1000 then 1 else (ms + 999) / 1000

unfoldable pub remind : RoomLifecycle → User → Turn → Turn
remind lc u = send lc (
    Message.chat lc.system_chat_user_id
      (lc.waiting_reconnect_text u.name (remaining_seconds (dangle_deadline_ms u lc.now))))

-- The ids notified so far, and the turn.
unfoldable pub remind_each : RoomLifecycle → List ℕ → List ℕ × Turn → List ℕ × Turn
remind_each lc [] acc = acc
remind_each lc (id ∷ ids) (notified, t) = elim (lc.users_by_id id) [
  | none ↦ remind_each lc ids (notified, t)
  | some u ↦
      if contains notified id
      then remind_each lc ids (notified, t)
      else remind_each lc ids (insert_id notified id, remind lc u t)
]

unfoldable pub set_notified : StatePlaying → List ℕ → Turn → Turn
set_notified st notified t =
    set_state (InternalRoomState.playing (record st { reconnect_notified = some notified })) t

-- Go's method changes a copy of the state: a map made for nil stays in the copy, one that was there
-- is shared with the room.
unfoldable pub store_notified : StatePlaying → List ℕ × Turn → Turn
store_notified st (notified, t) = elim (st.reconnect_notified) [
  | none ↦ t
  | some old ↦ set_notified st notified t
]

unfoldable pub notified_ids : StatePlaying → List ℕ
notified_ids st = elim (st.reconnect_notified) [ none ↦ [] | some ids ↦ ids ]

unfoldable pub notify_dangling_reconnect : RoomLifecycle → StatePlaying → Turn → Turn
notify_dangling_reconnect lc st t =
    let unfinished = unfinished_ids st t.room.users in
    let dangling = dangling_ids lc unfinished in
    if (length unfinished == 0) || not (length dangling == length unfinished)
    then t
    else store_notified st (remind_each lc dangling (notified_ids st, t))

-- The end of a match, before the question whether the room is disbanded.
unfoldable pub end_game : RoomLifecycle → StatePlaying → Turn → Turn
end_game lc st t =
    let ended = send lc Message.game_end (broadcast_game_ranking lc st t) in
    set_state InternalRoomState.select_chart
      (emit Effect.cancel_play_deadline (emit Effect.on_game_end ended))

-- The answer is whether the room is to be disbanded.
unfoldable pub settle : RoomLifecycle → StatePlaying → Turn → Bool × Turn
settle lc st t =
    let ended = end_game lc st t in
    if is_auto_disband ended.room.contest
    then (true, ended)
    else if ended.room.cycle && ltb 1 (length ended.room.users)
    then (false, notify_state (rotate_cycle_host lc ended))
    else (false, notify_state ended)

unfoldable pub check_playing : RoomLifecycle → StatePlaying → Turn → Bool × Turn
check_playing lc st t =
    if length (unfinished_ids st t.room.users) == 0
    then settle lc st t
    else (false, notify_dangling_reconnect lc st t)

unfoldable pub check_all_ready : RoomLifecycle → Turn → Bool × Turn
check_all_ready lc t = elim (t.room.state) [
  | InternalRoomState.select_chart ↦ (false, t)
  | InternalRoomState.wait_for_ready started ↦ (false, check_wait_for_ready lc started t)
  | InternalRoomState.playing st ↦ check_playing lc st t
]
