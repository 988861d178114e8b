-- ===== src/Server/Model.antt =====
-- Room, its state and its plain operations: internal/core/server/model_room.go, with RecordData and Chart of internal/config/model/record_types.go and User of model_user.go.
-- A user or chart id is a natural number below 2 ^ 31, on which `int32FromInt` does not panic. A set of ids
-- is a list of them, a map from ids a list of entries. A nil pointer or map is `none`. The mutexes
-- and the caches of user pointers have no part in the model: an operation is one step.
use gooophira_mp.Prelude.{
  ℕ, ◌-◌, Bool, true, false, ◌&&◌, ◌||◌, Option, none, some, List, [], ◌∷◌, ◌++◌, ltb, ◌==◌,
  if◌then◌else◌, length, take, drop,
}
use gooophira_mp.Prelude.Int.{pos}
use gooophira_mp.Protocol.Commands.{RoomState}

-- `monitor_allowed` is whether the configuration lists the user as a monitor, `connected` whether
-- there is a session.
pub record User : Type 0 where
  pub id : ℕ
  pub name : List ℕ
  pub monitor : Bool
  pub monitor_allowed : Bool
  pub connected : Bool
  pub dangle_deadline : Option ℕ

-- Floats are bit patterns.
pub record RecordData : Type 0 where
  pub id : ℕ
  pub player : ℕ
  pub chart : Option ℕ
  pub score : ℕ
  pub perfect : ℕ
  pub good : ℕ
  pub bad : ℕ
  pub miss : ℕ
  pub max_combo : ℕ
  pub accuracy : ℕ
  pub mods : ℕ
  pub full_combo : Bool
  pub std : Option ℕ
  pub std_score : Option ℕ

pub record Chart : Type 0 where
  pub id : ℕ
  pub name : List ℕ
  pub level : List ℕ
  pub charter : List ℕ

pub record StatePlaying : Type 0 where
  pub results : List (ℕ × RecordData)
  pub aborted : List ℕ
  pub reconnect_notified : Option (List ℕ)
  pub started_at : ℕ

pub data InternalRoomState : Type 0 where
  select_chart : InternalRoomState
  wait_for_ready : List ℕ → InternalRoomState
  playing : StatePlaying → InternalRoomState

pub record ContestRules : Type 0 where
  pub whitelist : List ℕ
  pub manual_start : Bool
  pub auto_disband : Bool

pub record RoomLog : Type 0 where
  pub message : List ℕ
  pub timestamp : ℕ

pub record Room : Type 0 where
  pub id : List ℕ
  pub max_users : ℕ
  pub replay_eligible : Bool
  pub host_id : ℕ
  pub state : InternalRoomState
  pub live : Bool
  pub locked : Bool
  pub cycle : Bool
  pub contest : Option ContestRules
  pub users : List ℕ
  pub monitors : List ℕ
  pub chart : Option Chart
  pub next_host_id : Option ℕ
  pub recent_logs : List RoomLog

-- The errors of the handlers.
pub data RoomError : Type 0 where
  no_room : RoomError
  only_host : RoomError
  not_whitelisted : RoomError
  join_room_locked : RoomError
  join_room_full : RoomError
  join_cant_monitor : RoomError
  start_no_chart_selected : RoomError
  room_invalid_state : RoomError
  already_ready : RoomError
  not_ready : RoomError
  record_uploaded : RoomError
  game_aborted : RoomError
  record_invalid : RoomError
  record_chart_mismatch : RoomError
  fetch_failed : RoomError
  contest_not_found : RoomError
  room_not_waiting : RoomError
  no_chart_selected : RoomError
  not_all_ready : RoomError
  user_not_in_room : RoomError
  already_host : RoomError
  user_must_disconnect : RoomError
  cannot_move_playing : RoomError
  target_room_not_idle : RoomError

-- `slices.Contains`, and the test of a set for a key.
abbrev pub contains : List ℕ → ℕ → Bool
contains [] v = false
contains (x ∷ xs) v = (x == v) || contains xs v

-- `m[k] = struct{}{}` and `delete(m, k)` on a set.
unfoldable pub insert_id : List ℕ → ℕ → List ℕ
insert_id xs v = if contains xs v then xs else xs ++ v ∷ []

unfoldable pub delete_id : List ℕ → ℕ → List ℕ
delete_id [] v = []
delete_id (x ∷ xs) v = let rest = delete_id xs v in if x == v then rest else x ∷ rest

-- The ids that a map has entries for.
abbrev pub keys {ℓ} : {A : Type ℓ} → List (ℕ × A) → List ℕ
keys [] = []
keys ((k, a) ∷ m) = k ∷ keys m

-- `m[k] = a` on a map.
unfoldable pub insert_entry {ℓ} : {A : Type ℓ} → List (ℕ × A) → ℕ → A → List (ℕ × A)
insert_entry [] v a = (v, a) ∷ []
insert_entry ((k, b) ∷ m) v a =
    let rest = insert_entry m v a in if k == v then (v, a) ∷ m else (k, b) ∷ rest

unfoldable pub new_room : List ℕ → ℕ → ℕ → Bool → Room
new_room id host_id max_users replay_eligible = record {
  id = id;
  max_users = max_users;
  replay_eligible = replay_eligible;
  host_id = host_id;
  state = InternalRoomState.select_chart;
  live = false;
  locked = false;
  cycle = false;
  contest = none;
  users = host_id ∷ [];
  monitors = [];
  chart = none;
  next_host_id = none;
  recent_logs = [];
}

abbrev pub max_recent_logs : ℕ
max_recent_logs = 50

abbrev pub max_log_message_len : ℕ
max_log_message_len = 1000

-- "..."
abbrev pub room_log_trail_ellip : List ℕ
room_log_trail_ellip = 46 ∷ 46 ∷ 46 ∷ []

unfoldable pub truncate_message : List ℕ → List ℕ
truncate_message message =
    if ltb max_log_message_len (length message)
    then take max_log_message_len message ++ room_log_trail_ellip
    else message

unfoldable pub append_log : List RoomLog → RoomLog → List RoomLog
append_log logs entry =
    let all = logs ++ entry ∷ [] in
    if ltb max_recent_logs (length all) then drop (length all - max_recent_logs) all else all

unfoldable pub add_log : List ℕ → ℕ → Room → Room
add_log message timestamp r = record r {
  recent_logs =
      append_log r.recent_logs
        (record { message = truncate_message message; timestamp = timestamp });
}

unfoldable pub refresh_live : Bool → Room → Room
refresh_live replay_enabled r = record r {
  live = ltb 0 (length r.monitors) || (replay_enabled && r.replay_eligible);
}

-- An error, or `none` for a nil error.
unfoldable pub check_host : Room → User → Option RoomError
check_host r user = if r.host_id == user.id then none else some RoomError.only_host

unfoldable pub all_participant_ids : Room → List ℕ
all_participant_ids r = r.users ++ r.monitors

unfoldable pub is_empty : Room → Bool
is_empty r = (length r.users == 0) && (length r.monitors == 0)

unfoldable pub contains_user : Room → ℕ → Bool
contains_user r id = contains r.users id

unfoldable pub set_next_host : ℕ → Room → Room
set_next_host id r = record r { next_host_id = some id }

unfoldable pub clear_next_host : Room → Room
clear_next_host r = record r { next_host_id = none }

unfoldable pub chart_state : Option Chart → RoomState
chart_state none = RoomState.select_chart none
chart_state (some c) = RoomState.select_chart (some (pos c.id))

unfoldable pub client_room_state : Room → RoomState
client_room_state r = elim (r.state) [
  | InternalRoomState.wait_for_ready started ↦ RoomState.waiting_for_ready
  | InternalRoomState.playing st ↦ RoomState.playing
  | InternalRoomState.select_chart ↦ chart_state r.chart
]

unfoldable pub is_select_chart : Room → Bool
is_select_chart r = elim (r.state) [
  | InternalRoomState.select_chart ↦ true
  | InternalRoomState.wait_for_ready started ↦ false
  | InternalRoomState.playing st ↦ false
]
