-- ===== src/Server/Played.antt =====
-- A result comes in: handlePlayed and playingStateFor of internal/core/server/dispatch_play.go.
-- Messages and frames of the game itself are left out.
use gooophira_mp.Prelude.{
  ℕ, Bool, true, false, not, ◌&&◌, ◌||◌, Option, none, some, ◌==◌, if◌then◌else◌, length,
}
use gooophira_mp.Protocol.Commands.{Message}
use gooophira_mp.Server.Model.{
  User, RecordData, Chart, Room, RoomError, InternalRoomState, StatePlaying, ContestRules, contains,
  keys, insert_entry,
}
use gooophira_mp.Server.Lifecycle.{check_all_ready}
use gooophira_mp.Server.Turn.{Effect, Turn, RoomLifecycle, start_turn, emit, set_state, send}
use gooophira_mp.Server.Dispatch.{Reply, require_room}

-- Whether the player may still hand in.
unfoldable pub playing_state_for : Room → ℕ → Option StatePlaying
playing_state_for room id = elim (room.state) [
  | InternalRoomState.select_chart ↦ none
  | InternalRoomState.wait_for_ready started ↦ none
  | InternalRoomState.playing st ↦
      if contains st.aborted id
      then none
      else if contains (keys st.results) id
      then none
      else some st
]

-- The player has handed in, or has aborted.
unfoldable pub has_finished : InternalRoomState → ℕ → Bool
has_finished InternalRoomState.select_chart id = false
has_finished (InternalRoomState.wait_for_ready started) id = false
has_finished (InternalRoomState.playing st) id =
    contains (keys st.results) id || contains st.aborted id

-- A chart or a record without an id for it is not compared.
unfoldable pub is_other_chart : Option Chart → Option ℕ → Bool
is_other_chart none id = false
is_other_chart (some c) none = false
is_other_chart (some c) (some id) = not (id == c.id)

unfoldable pub should_record : RoomLifecycle → Room → Bool
should_record lc room = lc.replay_enabled && room.replay_eligible && lc.has_recorder

unfoldable pub is_playing : InternalRoomState → Bool
is_playing InternalRoomState.select_chart = false
is_playing (InternalRoomState.wait_for_ready started) = false
is_playing (InternalRoomState.playing st) = true

unfoldable pub is_normal : Option ContestRules → Bool
is_normal none = true
is_normal (some c) = false

unfoldable pub after_result : RoomLifecycle → Bool → Turn → Turn
after_result lc first_result t =
    let checked = check_all_ready lc t in
    if checked.0
    then emit Effect.disband_room checked.1
    else if first_result && is_normal checked.1.room.contest && is_playing checked.1.room.state
    then emit Effect.start_play_deadline checked.1
    else checked.1

-- `SetRecordID` when the match is recorded.
unfoldable pub note_record : RoomLifecycle → User → RecordData → Turn → Turn
note_record lc user rec t =
    if should_record lc t.room then emit (Effect.set_record_id user.id rec.id) t else t

unfoldable pub store_result : RoomLifecycle → User → RecordData → StatePlaying → Turn → Turn
store_result lc user rec st t =
    let results = insert_entry st.results user.id rec in
    let stored = set_state (InternalRoomState.playing (record st { results = results })) t in
    after_result lc (length results == 1) (
      emit Effect.notify_web_socket
        (note_record lc user rec (emit (Effect.score_submitted results t.room.chart) stored)))

unfoldable pub accept_record : RoomLifecycle → User → Room → RecordData → Turn
accept_record lc user room rec =
    let told =
      send lc (Message.chat lc.system_chat_user_id (lc.record_text user rec)) (start_turn room) in
    elim (room.state) [
      | InternalRoomState.select_chart ↦ told
      | InternalRoomState.wait_for_ready started ↦ told
      | InternalRoomState.playing st ↦ store_result lc user rec st told
    ]

-- The record that was fetched, or `none` for the error of the service.
unfoldable pub handle_played : RoomLifecycle → User → Option Room → Option RecordData → Reply
handle_played lc user room? fetched = require_room room? (λ room.
    if has_finished room.state user.id then Reply.accepted (start_turn room) else elim fetched [
      | none ↦ Reply.refused RoomError.fetch_failed
      | some rec ↦
          if not (rec.player == user.id)
          then Reply.refused RoomError.record_invalid
          else if is_other_chart room.chart rec.chart
          then Reply.refused RoomError.record_chart_mismatch
          else Reply.accepted (accept_record lc user room rec)
    ])
