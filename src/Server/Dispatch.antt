-- ===== src/Server/Dispatch.antt =====
-- The handlers of client commands: internal/core/server/dispatch_room.go and handlePlayed of
-- dispatch_play.go. The room of the user is an argument, as are the answers of the service that
-- charts and records are fetched from.
use gooophira_mp.Prelude.{
  ℕ, Bool, true, false, ◌&&◌, Option, none, some, List, [], ◌∷◌, ltb, ◌==◌, if◌then◌else◌, length,
}
use gooophira_mp.Prelude.Int.{pos}
use gooophira_mp.Protocol.Commands.{Message}
use gooophira_mp.Server.Model.{
  User, Chart, Room, RoomError, InternalRoomState, StatePlaying, contains, insert_id, delete_id,
  keys, check_host, refresh_live,
}
use gooophira_mp.Server.Validate.{validate_start, validate_select_chart}
use gooophira_mp.Server.Members.{on_user_leave}
use gooophira_mp.Server.Lifecycle.{check_all_ready}
use gooophira_mp.Server.Turn.{
  Effect, Turn, RoomLifecycle, start_turn, emit, with_room, set_state, send, notify_state,
  log_and_broadcast, log_broadcast_and_notify,
}

-- The error of a handler, which changes nothing, or the turn it takes.
pub data Reply : Type 0 where
  refused : RoomError → Reply
  accepted : Turn → Reply

-- `RequireRoom`, and the rest of the handler.
unfoldable pub require_room : Option Room → (Room → Reply) → Reply
require_room none k = Reply.refused RoomError.no_room
require_room (some room) k = k room

-- `if err != nil { return err }`.
unfoldable pub unless : Option RoomError → Reply → Reply
unless none k = k
unless (some e) k = Reply.refused e

-- `if room.CheckAllReady(lc) { h.DisbandRoom(room) }`.
unfoldable pub check_and_disband : RoomLifecycle → Turn → Turn
check_and_disband lc t =
    let checked = check_all_ready lc t in
    if checked.0 then emit Effect.disband_room checked.1 else checked.1

unfoldable pub handle_lock_room : RoomLifecycle → User → Option Room → Bool → Reply
handle_lock_room lc user room? lock = require_room room? (λ room. unless (check_host room user) (
    Reply.accepted
      (log_and_broadcast lc (Message.lock_room lock) (start_turn (record room { locked = lock })))))

unfoldable pub handle_cycle_room : RoomLifecycle → User → Option Room → Bool → Reply
handle_cycle_room lc user room? cycle = require_room room? (λ room. unless (check_host room user) (
    Reply.accepted (
      log_and_broadcast lc (Message.cycle_room cycle)
        (start_turn (record room { cycle = cycle })))))

-- The chart that was fetched, or `none` for the error of the service.
unfoldable pub handle_select_chart : RoomLifecycle → User → Option Room → Option Chart → Reply
handle_select_chart lc user room? fetched = require_room room? (λ room.
    unless (validate_select_chart room user) (elim fetched [
      | none ↦ Reply.refused RoomError.fetch_failed
      | some chart ↦ Reply.accepted (
          notify_state (
            send lc (Message.select_chart (pos user.id) chart.name (pos chart.id))
              (start_turn (record room { chart = some chart }))))
    ]))

unfoldable pub start_hint : User → Bool → Turn → Turn
start_hint user has_hint t =
    if has_hint && ltb 1 (length t.room.users)
    then emit (Effect.schedule_start_hint user.id) t
    else t

unfoldable pub is_waiting : InternalRoomState → Bool
is_waiting InternalRoomState.select_chart = false
is_waiting (InternalRoomState.wait_for_ready started) = true
is_waiting (InternalRoomState.playing st) = false

unfoldable pub begin_waiting : RoomLifecycle → Turn → Turn
begin_waiting lc t =
    let checked = check_all_ready lc t in
    if checked.0
    then emit Effect.disband_room checked.1
    else if is_waiting checked.1.room.state
    then emit Effect.start_ready_countdown checked.1
    else checked.1

unfoldable pub handle_request_start : RoomLifecycle → User → Option Room → Bool → Reply
handle_request_start lc user room? has_hint = require_room room? (λ room.
    unless (validate_start room user) (
      let asked =
        send lc (Message.game_start (pos user.id))
          (emit (Effect.reset_game_time room.users) (start_turn room)) in
      let waiting =
        set_state (InternalRoomState.wait_for_ready (user.id ∷ []))
          (start_hint user has_hint asked) in
      Reply.accepted (begin_waiting lc (notify_state waiting))))

unfoldable pub handle_ready : RoomLifecycle → User → Option Room → Reply
handle_ready lc user room? = require_room room? (λ room. elim (room.state) [
  | InternalRoomState.playing st ↦ Reply.refused RoomError.room_invalid_state
  | InternalRoomState.select_chart ↦ Reply.accepted (start_turn room)
  | InternalRoomState.wait_for_ready started ↦
      if contains started user.id
      then Reply.refused RoomError.already_ready
      else Reply.accepted (
          check_and_disband lc (
            log_broadcast_and_notify lc (Message.ready (pos user.id)) (
              set_state (InternalRoomState.wait_for_ready (insert_id started user.id))
                (start_turn room))))
])

unfoldable pub cancel_ready_of : RoomLifecycle → User → List ℕ → Room → Turn
cancel_ready_of lc user started room =
    let cancelled =
      set_state (InternalRoomState.wait_for_ready (delete_id started user.id)) (start_turn room) in
    if room.host_id == user.id
    then notify_state (
        set_state InternalRoomState.select_chart (
          emit Effect.cancel_ready_countdown
            (send lc (Message.cancel_game (pos user.id)) cancelled)))
    else log_broadcast_and_notify lc (Message.cancel_ready (pos user.id)) cancelled

unfoldable pub handle_cancel_ready : RoomLifecycle → User → Option Room → Reply
handle_cancel_ready lc user room? = require_room room? (λ room. elim (room.state) [
  | InternalRoomState.playing st ↦ Reply.refused RoomError.room_invalid_state
  | InternalRoomState.select_chart ↦ Reply.accepted (start_turn room)
  | InternalRoomState.wait_for_ready started ↦
      if contains started user.id
      then Reply.accepted (cancel_ready_of lc user started room)
      else Reply.refused RoomError.not_ready
])

unfoldable pub abort_player : StatePlaying → ℕ → InternalRoomState
abort_player st id = InternalRoomState.playing (record st { aborted = insert_id st.aborted id })

unfoldable pub handle_abort : RoomLifecycle → User → Option Room → Reply
handle_abort lc user room? = require_room room? (λ room. elim (room.state) [
  | InternalRoomState.select_chart ↦ Reply.accepted (start_turn room)
  | InternalRoomState.wait_for_ready started ↦ Reply.accepted (start_turn room)
  | InternalRoomState.playing st ↦
      if contains (keys st.results) user.id
      then Reply.refused RoomError.record_uploaded
      else if contains st.aborted user.id
      then Reply.refused RoomError.game_aborted
      else Reply.accepted (
          check_and_disband lc (
            log_broadcast_and_notify lc (Message.abort (pos user.id))
              (set_state (abort_player st user.id) (start_turn room))))
])

-- `shouldDrop` deletes the room from the table, otherwise `RefreshLive` is due; then `disband`.
unfoldable pub handle_leave_room : RoomLifecycle → User → Option Room → Reply
handle_leave_room lc user room? = require_room room? (λ room.
    let left = on_user_leave lc user (start_turn room) in
    let kept =
      if left.0
      then emit Effect.delete_room left.2
      else with_room (refresh_live lc.replay_enabled) left.2 in
    Reply.accepted (if left.1 then emit Effect.disband_room kept else kept))
