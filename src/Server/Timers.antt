-- ===== src/Server/Timers.antt =====
-- The callbacks of the two countdowns at their end: internal/core/server/timer_ready_countdown.go
-- and timer_play_deadline.go, with the room still in the table and the countdown not
-- cancelled. The callbacks look users up in the table of the server, the model as the room does.
pub mod Deadline
use gooophira_mp.Prelude.{ℕ, true, false, Option, none, some, List, [], ◌∷◌, if◌then◌else◌}
use gooophira_mp.Prelude.Int.{pos}
use gooophira_mp.Protocol.Commands.{Message, ServerCommand, RoomState}
use gooophira_mp.Server.Model.{Chart, InternalRoomState, StatePlaying, contains, insert_id}
use gooophira_mp.Server.Lifecycle.{start_playing, is_done}
use gooophira_mp.Server.Turn.{
  Effect, Turn, RoomLifecycle, emit, set_state, send, notify_user, log_and_broadcast,
}
use gooophira_mp.Server.Dispatch.{check_and_disband}

-- The players who are not ready.
unfoldable pub unready_ids : List ℕ → List ℕ → List ℕ
unready_ids started [] = []
unready_ids started (id ∷ ids) =
    let rest = unready_ids started ids in if contains started id then rest else id ∷ rest

unfoldable pub insert_ids : List ℕ → List ℕ → List ℕ
insert_ids xs [] = xs
insert_ids xs (id ∷ ids) = insert_ids (insert_id xs id) ids

unfoldable pub abort_all : List ℕ → InternalRoomState → InternalRoomState
abort_all ids InternalRoomState.select_chart = InternalRoomState.select_chart
abort_all ids (InternalRoomState.wait_for_ready started) = InternalRoomState.wait_for_ready started
abort_all ids (InternalRoomState.playing st) =
    InternalRoomState.playing (record st { aborted = insert_ids st.aborted ids })

-- The unready see the choice of a chart again, of chart 0 when none is chosen.
unfoldable pub select_command : Option Chart → ServerCommand
select_command none = ServerCommand.change_state (RoomState.select_chart (some (pos 0)))
select_command (some c) = ServerCommand.change_state (RoomState.select_chart (some (pos c.id)))

unfoldable pub send_back : RoomLifecycle → ServerCommand → List ℕ → Turn → Turn
send_back lc cmd [] t = t
send_back lc cmd (id ∷ ids) t = send_back lc cmd ids (notify_user lc id cmd t)

unfoldable pub exclude_unready : RoomLifecycle → List ℕ → Turn → Turn
exclude_unready lc [] t = t
exclude_unready lc (id ∷ ids) t =
    let aborted = set_state (abort_all (id ∷ ids) t.room.state) t in
    emit Effect.notify_web_socket (send_back lc (select_command t.room.chart) (id ∷ ids) aborted)

unfoldable pub ready_countdown_end : RoomLifecycle → Turn → Turn
ready_countdown_end lc t = elim (t.room.state) [
  | InternalRoomState.select_chart ↦ t
  | InternalRoomState.playing st ↦ t
  | InternalRoomState.wait_for_ready started ↦
      let unready = unready_ids started t.room.users in
      exclude_unready lc unready (start_playing lc unready t)
]

unfoldable pub with_aborted : StatePlaying → ℕ → StatePlaying
with_aborted st id = record st { aborted = insert_id st.aborted id }

-- Every unfinished player is aborted, one after the other.
unfoldable pub abort_unfinished : RoomLifecycle → StatePlaying → List ℕ → Turn → Turn
abort_unfinished lc st [] t = t
abort_unfinished lc st (id ∷ ids) t = elim (is_done st id) [
  | true ↦ abort_unfinished lc st ids t
  | false ↦ abort_unfinished lc (with_aborted st id) ids (
      log_and_broadcast lc (Message.abort (pos id))
        (set_state (InternalRoomState.playing (with_aborted st id)) t))
]

unfoldable pub deadline_chat : RoomLifecycle → Turn → Turn
deadline_chat lc t = elim (lc.deadline_text) [
  | none ↦ t
  | some text ↦ send lc (Message.chat lc.system_chat_user_id text) t
]

unfoldable pub play_deadline_end : RoomLifecycle → Turn → Turn
play_deadline_end lc t = elim (t.room.state) [
  | InternalRoomState.select_chart ↦ t
  | InternalRoomState.wait_for_ready started ↦ t
  | InternalRoomState.playing st ↦
      check_and_disband lc
        (emit Effect.notify_web_socket (deadline_chat lc (abort_unfinished lc st t.room.users t)))
]
