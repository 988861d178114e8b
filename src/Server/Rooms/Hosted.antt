-- ===== src/Server/Rooms/Hosted.antt =====
-- The steps of a room leave it with a host among its players.
use gooophira_mp.Prelude.{
  ℕ, ◌≤◌, Bool, Option, none, some, List, ◌==◌, if-cases, match-cases, arith,
}
use gooophira_mp.Server.Model.{
  User, Chart, Room, RoomError, InternalRoomState, StatePlaying, contains, keys,
}
use gooophira_mp.Server.Turn.{
  Turn, RoomLifecycle, start_turn, emit, with_room, set_state, log_message, send, notify_state,
  on_state_change, log_and_broadcast, log_broadcast_and_notify,
}
use gooophira_mp.Server.Lifecycle.{check_all_ready}
use gooophira_mp.Server.Members.Hosting.{HasHost, check_all_ready-HasHost}
use gooophira_mp.Server.Dispatch.{
  Reply, unless, require_room, check_and_disband, handle_select_chart, start_hint, is_waiting,
  begin_waiting, handle_request_start, handle_ready, cancel_ready_of, handle_cancel_ready,
  handle_abort,
}

abbrev pub IsHosted : Reply → Type 0
IsHosted (Reply.refused e) = 0 ≤ 0
IsHosted (Reply.accepted t) = HasHost t.room

pub unless-IsHosted : (o : Option RoomError) (r : Reply) → IsHosted r → IsHosted (unless o r)
unfolding unless
unless-IsHosted none r h = h
unless-IsHosted (some e) r h = omega arith

pub state-cases {ℓ κ} :
    {B : Type ℓ} (P : B → Type κ) (s : InternalRoomState) {a : B} {f : List ℕ → B}
    {g : StatePlaying → B}
    → P a
    → ((ids : List ℕ) → P (f ids))
    → ((st : StatePlaying) → P (g st))
    → P (elim s [
      | InternalRoomState.select_chart ↦ a
      | InternalRoomState.wait_for_ready ids ↦ f ids
      | InternalRoomState.playing st ↦ g st
    ])
state-cases P InternalRoomState.select_chart x y z = x
state-cases P (InternalRoomState.wait_for_ready ids) x y z = y ids
state-cases P (InternalRoomState.playing st) x y z = z st

pub check_and_disband-HasHost :
    (lc : RoomLifecycle) (t : Turn) → HasHost t.room → HasHost (check_and_disband lc t).room
unfolding check_and_disband emit
check_and_disband-HasHost lc t h =
    if-cases (λ (u : Turn). HasHost u.room) (check_all_ready lc t).0
      (λ a. check_all_ready-HasHost lc t h) (λ a. check_all_ready-HasHost lc t h)

pub handle_select_chart-IsHosted :
    (lc : RoomLifecycle) (user : User) (r : Room) (fetched : Option Chart)
    → HasHost r
    → IsHosted (handle_select_chart lc user (some r) fetched)
unfolding handle_select_chart require_room HasHost notify_state on_state_change send with_room
    log_message emit start_turn
handle_select_chart-IsHosted lc user r fetched h =
    unless-IsHosted _ _ (match-cases IsHosted fetched (λ e. omega arith) (λ c e. h))

begin_waiting-HasHost :
    (lc : RoomLifecycle) (t : Turn) → HasHost t.room → HasHost (begin_waiting lc t).room
unfolding begin_waiting emit
begin_waiting-HasHost lc t h =
    let k = check_all_ready-HasHost lc t h in
    if-cases (λ (u : Turn). HasHost u.room) (check_all_ready lc t).0 (λ a. k)
      (λ a.
        if-cases (λ (u : Turn). HasHost u.room) (is_waiting (check_all_ready lc t).1.room.state)
          (λ b. k) (λ b. k))

start_hint-HasHost :
    (user : User) (has_hint : Bool) (t : Turn)
    → HasHost t.room
    → HasHost (start_hint user has_hint t).room
unfolding start_hint emit
start_hint-HasHost user has_hint t h = if-cases (λ (u : Turn). HasHost u.room) _ (λ a. h) (λ a. h)

pub handle_request_start-IsHosted :
    (lc : RoomLifecycle) (user : User) (r : Room) (has_hint : Bool)
    → HasHost r
    → IsHosted (handle_request_start lc user (some r) has_hint)
unfolding handle_request_start require_room HasHost notify_state on_state_change send with_room
    log_message emit start_turn set_state
handle_request_start-IsHosted lc user r has_hint h =
    unless-IsHosted _ _ (begin_waiting-HasHost lc _ (start_hint-HasHost user has_hint _ h))

pub handle_ready-IsHosted :
    (lc : RoomLifecycle) (user : User) (r : Room)
    → HasHost r
    → IsHosted (handle_ready lc user (some r))
unfolding handle_ready require_room HasHost log_broadcast_and_notify log_and_broadcast send
    with_room log_message emit start_turn set_state
handle_ready-IsHosted lc user r h =
    state-cases IsHosted r.state h
      (λ ids.
        if-cases IsHosted (contains ids user.id) (λ a. omega arith)
          (λ a. check_and_disband-HasHost lc _ h))
      (λ st. omega arith)

pub handle_cancel_ready-IsHosted :
    (lc : RoomLifecycle) (user : User) (r : Room)
    → HasHost r
    → IsHosted (handle_cancel_ready lc user (some r))
unfolding handle_cancel_ready cancel_ready_of require_room HasHost log_broadcast_and_notify
    log_and_broadcast send with_room log_message emit start_turn set_state notify_state
    on_state_change
handle_cancel_ready-IsHosted lc user r h =
    state-cases IsHosted r.state h
      (λ ids.
        if-cases IsHosted (contains ids user.id)
          (λ a. if-cases (λ (u : Turn). HasHost u.room) (r.host_id == user.id) (λ b. h) (λ b. h))
          (λ a. omega arith))
      (λ st. omega arith)

pub handle_abort-IsHosted :
    (lc : RoomLifecycle) (user : User) (r : Room)
    → HasHost r
    → IsHosted (handle_abort lc user (some r))
unfolding handle_abort require_room HasHost log_broadcast_and_notify log_and_broadcast send
    with_room log_message emit start_turn set_state
handle_abort-IsHosted lc user r h =
    state-cases IsHosted r.state h (λ ids. h)
      (λ st.
        if-cases IsHosted (contains (keys st.results) user.id) (λ a. omega arith)
          (λ a.
            if-cases IsHosted (contains st.aborted user.id) (λ b. omega arith)
              (λ b. check_and_disband-HasHost lc _ h)))
