-- ===== src/Server/Turn.antt =====
-- What an operation on a room does to the outside, in order, and the environment it runs in:
-- RoomLifecycle and the senders of internal/core/server/room_lifecycle.go and room_events.go. The
-- localized texts are functions of the environment. The lines for the console and the events for
-- other processes, but for the score, are left out.
pub mod Logs
use gooophira_mp.Prelude.{
  ℕ, Bool, Option, none, some, List, [], ◌∷◌, ◌++◌, if◌then◌else◌, length, ◌==◌,
}
use gooophira_mp.Prelude.Int.{ℤ, pos}
use gooophira_mp.Protocol.Commands.{Message, ServerCommand}
use gooophira_mp.Server.Model.{
  User, RecordData, Chart, Room, RoomLog, InternalRoomState, append_log, truncate_message,
  client_room_state,
}

pub data Effect : Type 0 where
  broadcast : ServerCommand → Effect
  broadcast_except : ServerCommand → List ℕ → Effect
  try_send : ℕ → ServerCommand → Effect
  notify_web_socket : Effect
  on_enter_playing : Effect
  on_game_end : Effect
  reset_game_time : List ℕ → Effect
  clear_user_room : ℕ → Effect
  cancel_ready_countdown : Effect
  cancel_play_deadline : Effect
  start_ready_countdown : Effect
  start_play_deadline : Effect
  schedule_start_hint : ℕ → Effect
  score_submitted : List (ℕ × RecordData) → Option Chart → Effect
  set_record_id : ℕ → ℕ → Effect
  delete_room : Effect
  disband_room : Effect

pub record Turn : Type 0 where
  pub room : Room
  pub effects : List Effect

unfoldable pub start_turn : Room → Turn
start_turn room = record { room = room; effects = [] }

unfoldable pub emit : Effect → Turn → Turn
emit e t = record t { effects = t.effects ++ e ∷ [] }

-- `log_text` is `formatMessageForLog` in the language of the server, empty for no line; `now` is the
-- wall clock in milliseconds. `users_by_id` is what `room.usersMap` finds.
pub record RoomLifecycle : Type 0 where
  pub users_by_id : ℕ → Option User
  pub log_text : Message → List ℕ
  pub now : ℕ
  pub system_chat_user_id : ℤ
  pub waiting_reconnect_text : List ℕ → ℕ → List ℕ
  pub ranking_text : List (ℕ × RecordData) → List ℕ
  pub record_text : User → RecordData → List ℕ
  pub deadline_text : Option (List ℕ)
  pub replay_enabled : Bool
  pub has_recorder : Bool

-- The line that `Send` logs: the content of a chat, and for other messages their text, if any.
unfoldable pub logged_line : RoomLifecycle → Message → Option (List ℕ)
logged_line lc (Message.chat user content) = some content
logged_line lc m = if length (lc.log_text m) == 0 then none else some (lc.log_text m)

unfoldable pub log_line : Option (List ℕ) → ℕ → List RoomLog → List RoomLog
log_line none now logs = logs
log_line (some text) now logs =
    append_log logs (record { message = truncate_message text; timestamp = now })

unfoldable pub with_room : (Room → Room) → Turn → Turn
with_room f t = record t { room = f t.room }

unfoldable pub set_state : InternalRoomState → Turn → Turn
set_state s = with_room (λ r. record r { state = s })

unfoldable pub set_host : ℕ → Turn → Turn
set_host id = with_room (λ r. record r { host_id = id })

unfoldable pub log_message : RoomLifecycle → Message → Room → Room
log_message lc msg r = record r { recent_logs = log_line (logged_line lc msg) lc.now r.recent_logs }

unfoldable pub send : RoomLifecycle → Message → Turn → Turn
send lc msg t =
    emit (Effect.broadcast (ServerCommand.message msg)) (with_room (log_message lc msg) t)

unfoldable pub send_as : RoomLifecycle → User → List ℕ → Turn → Turn
send_as lc user content = send lc (Message.chat (pos user.id) content)

unfoldable pub on_state_change : Turn → Turn
on_state_change t =
    emit (Effect.broadcast (ServerCommand.change_state (client_room_state t.room))) t

unfoldable pub notify_state : Turn → Turn
notify_state t = emit Effect.notify_web_socket (on_state_change t)

-- `LogAndBroadcast` and `MarkAndBroadcast`, less the console.
unfoldable pub log_and_broadcast : RoomLifecycle → Message → Turn → Turn
log_and_broadcast lc msg t = send lc msg t

-- `LogBroadcastAndNotify` and `MarkBroadcastAndNotify`, less the console.
unfoldable pub log_broadcast_and_notify : RoomLifecycle → Message → Turn → Turn
log_broadcast_and_notify lc msg t = emit Effect.notify_web_socket (log_and_broadcast lc msg t)

-- `u.TrySend(cmd)` for the user with that id, when there is one.
unfoldable pub notify_user : RoomLifecycle → ℕ → ServerCommand → Turn → Turn
notify_user lc id cmd t = elim (lc.users_by_id id) [
  | none ↦ t
  | some u ↦ emit (Effect.try_send u.id cmd) t
]
