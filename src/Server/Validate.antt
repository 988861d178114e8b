-- ===== src/Server/Validate.antt =====
-- What a room checks before a join, a start and a choice of chart:
-- internal/core/server/room_validate.go.
use gooophira_mp.Prelude.{Bool, true, not, ◌&&◌, ℕ, Option, none, some, if◌then◌else◌}
use gooophira_mp.Server.Model.{
  User, Room, RoomError, InternalRoomState, ContestRules, contains, insert_id, check_host,
  is_select_chart,
}

unfoldable pub is_whitelisted : Option ContestRules → ℕ → Bool
is_whitelisted none id = true
is_whitelisted (some c) id = contains c.whitelist id

unfoldable pub validate_join : Room → User → Bool → Option RoomError
validate_join r user monitor =
    if not (is_whitelisted r.contest user.id)
    then some RoomError.not_whitelisted
    else if r.locked
    then some RoomError.join_room_locked
    else if monitor && not user.monitor_allowed
    then some RoomError.join_cant_monitor
    else none

unfoldable pub join_late : InternalRoomState → User → InternalRoomState
join_late (InternalRoomState.playing st) user =
    if user.monitor
    then InternalRoomState.playing st
    else InternalRoomState.playing (record st { aborted = insert_id st.aborted user.id })
join_late InternalRoomState.select_chart user = InternalRoomState.select_chart
join_late (InternalRoomState.wait_for_ready started) user = InternalRoomState.wait_for_ready started

unfoldable pub handle_join : User → Room → Room
handle_join user r = record r { state = join_late r.state user }

unfoldable pub validate_start : Room → User → Option RoomError
validate_start r user = elim (check_host r user) [
  | some e ↦ some e
  | none ↦ elim (r.chart) [
    | none ↦ some RoomError.start_no_chart_selected
    | some c ↦ if is_select_chart r then none else some RoomError.room_invalid_state
  ]
]

unfoldable pub validate_select_chart : Room → User → Option RoomError
validate_select_chart r user = elim (check_host r user) [
  | some e ↦ some e
  | none ↦ if is_select_chart r then none else some RoomError.room_invalid_state
]
