-- ===== src/Server/Rooms/Ends.antt =====
-- Results, joins, the ends of the countdowns and the calls of an administrator leave a room with a host
-- among its players.
use gooophira_mp.Prelude.{
  ℕ, ◌≡◌, refl, ap, ◌∙◌, inl, inr, Bool, true, ◌&&◌, not, Option, some, List, [], ◌∷◌, length, ◌==◌,
  if-cases, match-cases, Bool-cases, arith, leb,
}
use gooophira_mp.Server.Model.{
  User, Room, StatePlaying, contains, insert_id, refresh_live, RecordData, contains_user,
  clear_next_host, all_participant_ids,
}
use gooophira_mp.Server.Turn.{
  Turn, RoomLifecycle, start_turn, emit, with_room, set_state, set_host, log_message, send,
  log_and_broadcast,
}
use gooophira_mp.Protocol.Commands.{ServerCommand}
use gooophira_mp.Server.Lifecycle.{check_all_ready, all_in, is_done}
use gooophira_mp.Server.Ids.{contains-insert_id}
use gooophira_mp.Server.Lifecycle.Steps.{notify_user-room}
use gooophira_mp.Server.Validate.{handle_join}
use gooophira_mp.Server.Played.{
  note_record, should_record, after_result, store_result, accept_record, has_finished,
  is_other_chart, handle_played,
}
use gooophira_mp.Server.Timers.{
  send_back, exclude_unready, ready_countdown_end, abort_unfinished, with_aborted, deadline_chat,
  play_deadline_end,
}
use gooophira_mp.Server.Contest.{start_contest, start_waiting_contest, transfer_host}
use gooophira_mp.Server.Members.{add_user}
use gooophira_mp.Server.Members.Hosting.{HasHost, check_all_ready-HasHost, start_playing-HasHost}
use gooophira_mp.Server.Dispatch.{require_room}
use gooophira_mp.Server.Rooms.{join_room}
use gooophira_mp.Server.Rooms.Hosted.{
  IsHosted, unless-IsHosted, state-cases, check_and_disband-HasHost,
}

note_record-HasHost :
    (lc : RoomLifecycle) (user : User) (rec : RecordData) (t : Turn)
    → HasHost t.room
    → HasHost (note_record lc user rec t).room
unfolding note_record emit
note_record-HasHost lc user rec t h =
    if-cases (λ (u : Turn). HasHost u.room) (should_record lc t.room) (λ a. h) (λ a. h)

after_result-HasHost :
    (lc : RoomLifecycle) (first : Bool) (t : Turn)
    → HasHost t.room
    → HasHost (after_result lc first t).room
unfolding after_result emit
after_result-HasHost lc first t h =
    let k = check_all_ready-HasHost lc t h in
    if-cases (λ (u : Turn). HasHost u.room) (check_all_ready lc t).0 (λ a. k)
      (λ a. if-cases (λ (u : Turn). HasHost u.room) _ (λ b. k) (λ b. k))

store_result-HasHost :
    (lc : RoomLifecycle) (user : User) (rec : RecordData) (st : StatePlaying) (t : Turn)
    → HasHost t.room
    → HasHost (store_result lc user rec st t).room
unfolding store_result HasHost set_state with_room emit
store_result-HasHost lc user rec st t h =
    after_result-HasHost lc _ _ (note_record-HasHost lc user rec _ h)

accept_record-HasHost :
    (lc : RoomLifecycle) (user : User) (r : Room) (rec : RecordData)
    → HasHost r
    → HasHost (accept_record lc user r rec).room
unfolding accept_record HasHost send with_room log_message emit start_turn
accept_record-HasHost lc user r rec h =
    state-cases (λ (u : Turn). HasHost u.room) r.state h (λ ids. h)
      (λ st. store_result-HasHost lc user rec st _ h)

pub handle_played-IsHosted :
    (lc : RoomLifecycle) (user : User) (r : Room) (fetched : Option RecordData)
    → HasHost r
    → IsHosted (handle_played lc user (some r) fetched)
unfolding handle_played require_room start_turn
handle_played-IsHosted lc user r fetched h =
    if-cases IsHosted (has_finished r.state user.id) (λ a. h)
      (λ a.
        match-cases IsHosted fetched (λ e. omega arith)
          (λ rec e.
            if-cases IsHosted (not (rec.player == user.id)) (λ b. omega arith)
              (λ b.
                if-cases IsHosted (is_other_chart r.chart rec.chart) (λ c. omega arith)
                  (λ c. accept_record-HasHost lc user r rec h))))

insert_id-keeps :
    (xs : List ℕ) (v w : ℕ) → contains xs w ≡ true → contains (insert_id xs v) w ≡ true
insert_id-keeps xs v w h = rw (contains-insert_id xs v w, h) refl

pub add_user-HasHost :
    (user : User) (monitor : Bool) (r : Room) → HasHost r → HasHost (add_user user monitor r).1
unfolding add_user HasHost
add_user-HasHost user monitor r h =
    if-cases (λ (p : Bool × Room). contains p.1.users p.1.host_id ≡ true) monitor (λ a. h)
      (λ a.
        if-cases (λ (p : Bool × Room). contains p.1.users p.1.host_id ≡ true)
          (leb r.max_users (length r.users) && not (contains r.users user.id)) (λ b. h)
          (λ b. insert_id-keeps r.users user.id r.host_id h))

pub join_room-IsHosted :
    (lc : RoomLifecycle) (user : User) (monitor : Bool) (r : Room)
    → HasHost r
    → IsHosted (join_room lc user monitor r)
unfolding join_room handle_join refresh_live start_turn HasHost
join_room-IsHosted lc user monitor r h =
    let k = add_user-HasHost user monitor r h in
    unless-IsHosted _ _
      (if-cases IsHosted (not (add_user user monitor r).0) (λ a. omega arith) (λ a. k))

send_back-room :
    (lc : RoomLifecycle) (cmd : ServerCommand) (ids : List ℕ) (t : Turn)
    → (send_back lc cmd ids t).room ≡ t.room
unfolding send_back
send_back-room lc cmd [] t = refl
send_back-room lc cmd (id ∷ ids) t = send_back-room lc cmd ids _ ∙ notify_user-room lc id cmd t

exclude_unready-HasHost :
    (lc : RoomLifecycle) (ids : List ℕ) (t : Turn)
    → HasHost t.room
    → HasHost (exclude_unready lc ids t).room
unfolding exclude_unready emit set_state with_room HasHost
exclude_unready-HasHost lc [] t h = h
exclude_unready-HasHost lc (id ∷ ids) t h =
    ap (λ r. contains r.users r.host_id) (send_back-room lc _ (id ∷ ids) _) ∙ h

pub ready_countdown_end-HasHost :
    (lc : RoomLifecycle) (t : Turn) → HasHost t.room → HasHost (ready_countdown_end lc t).room
unfolding ready_countdown_end
ready_countdown_end-HasHost lc t h =
    state-cases (λ (u : Turn). HasHost u.room) t.room.state h
      (λ ids. exclude_unready-HasHost lc _ _ (start_playing-HasHost lc _ t h)) (λ st. h)

abort_unfinished-HasHost :
    (lc : RoomLifecycle) (st : StatePlaying) (ids : List ℕ) (t : Turn)
    → HasHost t.room
    → HasHost (abort_unfinished lc st ids t).room
unfolding abort_unfinished HasHost log_and_broadcast send with_room log_message emit set_state
abort_unfinished-HasHost lc st [] t h = h
abort_unfinished-HasHost lc st (id ∷ ids) t h = elim (Bool-cases (is_done st id)) [
  | inl e ↦ rw (e, abort_unfinished) (abort_unfinished-HasHost lc st ids t h)
  | inr e ↦ rw (e, abort_unfinished) (abort_unfinished-HasHost lc (with_aborted st id) ids _ h)
]

deadline_chat-HasHost :
    (lc : RoomLifecycle) (t : Turn) → HasHost t.room → HasHost (deadline_chat lc t).room
unfolding deadline_chat HasHost send with_room log_message emit
deadline_chat-HasHost lc t h =
    match-cases (λ (u : Turn). contains u.room.users u.room.host_id ≡ true) lc.deadline_text
      (λ e. h) (λ text e. h)

pub play_deadline_end-HasHost :
    (lc : RoomLifecycle) (t : Turn) → HasHost t.room → HasHost (play_deadline_end lc t).room
unfolding play_deadline_end emit
play_deadline_end-HasHost lc t h =
    state-cases (λ (u : Turn). HasHost u.room) t.room.state h (λ ids. h)
      (λ st.
        check_and_disband-HasHost lc _
          (deadline_chat-HasHost lc _ (abort_unfinished-HasHost lc st t.room.users t h)))

pub transfer_host-IsHosted :
    (lc : RoomLifecycle) (id : ℕ) (r : Room) → HasHost r → IsHosted (transfer_host lc id r)
unfolding transfer_host HasHost contains_user log_and_broadcast send with_room log_message emit
    start_turn set_host clear_next_host
transfer_host-IsHosted lc id r h =
    if-cases IsHosted (not (contains r.users id)) (λ a. omega arith)
      (λ a.
        if-cases IsHosted (r.host_id == id) (λ b. omega arith)
          (λ b.
            ap (λ s. contains s.users s.host_id)
              (notify_user-room lc id _ _ ∙ notify_user-room lc r.host_id _ _)
            ∙ ground (arith, a)))

pub start_contest-IsHosted :
    (lc : RoomLifecycle) (force : Bool) (r : Room) → HasHost r → IsHosted (start_contest lc force r)
unfolding start_contest start_waiting_contest start_turn
start_contest-IsHosted lc force r h =
    match-cases IsHosted r.contest (λ e. omega arith)
      (λ rules e.
        state-cases IsHosted r.state (omega arith)
          (λ ids.
            match-cases IsHosted r.chart (λ f. omega arith)
              (λ c f.
                if-cases IsHosted (not force && not (all_in (all_participant_ids r) ids))
                  (λ a. omega arith) (λ a. start_playing-HasHost lc [] (start_turn r) h)))
          (λ st. omega arith))
