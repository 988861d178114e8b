-- ===== src/Server/Timers/Deadline.antt =====
-- What the end of a countdown brings about: internal/core/server/timer_play_deadline.go.
use gooophira_mp.Prelude.{All-mono}
use gooophira_mp.Prelude.{
  ℕ, ◌≡◌, refl, ap, ◌∙◌, inl, inr, true, ◌||◌, List, [], ◌∷◌, ◌==◌, All, if-cases, Bool-cases,
  Option-cases, arith,
}
use gooophira_mp.Prelude.Int.{pos}
use gooophira_mp.Protocol.Commands.{Message}
use gooophira_mp.Server.Ids.{contains-insert_id}
use gooophira_mp.Server.Model.{InternalRoomState, StatePlaying}
use gooophira_mp.Server.Turn.{
  Effect, Turn, RoomLifecycle, emit, with_room, set_state, log_message, send,
}
use gooophira_mp.Server.Lifecycle.{is_done, check_all_ready}
use gooophira_mp.Server.Lifecycle.Settling.{is_done_iff, AllDone, check_all_ready-playing}
use gooophira_mp.Server.Dispatch.{check_and_disband}
use gooophira_mp.Server.Turn.{log_and_broadcast}
use gooophira_mp.Server.Timers.{with_aborted, abort_unfinished, deadline_chat, play_deadline_end}

is_done-with_aborted :
    (st : StatePlaying) (id v : ℕ) → is_done (with_aborted st id) v ≡ (is_done st v || (id == v))
unfolding is_done with_aborted
is_done-with_aborted st id v = ground (arith, contains-insert_id st.aborted id v)

-- A match after some of its players were aborted.
record Continued (st : StatePlaying) (ids : List ℕ) (t u : Turn) : Type 0 where
  state : StatePlaying
  plays : u.room.state ≡ InternalRoomState.playing state
  users : u.room.users ≡ t.room.users
  done : All (λ id. is_done state id ≡ true) ids
  keeps : (id : ℕ) → is_done st id ≡ true → is_done state id ≡ true

abort_unfinished-Continued :
    (lc : RoomLifecycle) (st : StatePlaying) (ids : List ℕ) (t : Turn)
    → t.room.state ≡ InternalRoomState.playing st
    → Continued st ids t (abort_unfinished lc st ids t)
unfolding abort_unfinished log_and_broadcast send set_state with_room log_message emit
abort_unfinished-Continued lc st [] t h = record {
  state = st;
  plays = h;
  users = refl;
  done = tt;
  keeps = λ id k. k;
}
abort_unfinished-Continued lc st (id ∷ ids) t h = elim (Bool-cases (is_done st id)) [
  | inl e ↦
      let rest = abort_unfinished-Continued lc st ids t h in
      rw (e, abort_unfinished)
        (record {
          state = rest.state;
          plays = rest.plays;
          users = rest.users;
          done = (rest.keeps id e, rest.done);
          keeps = rest.keeps;
        })
  | inr e ↦
      let rest =
        abort_unfinished-Continued lc (with_aborted st id) ids
          (log_and_broadcast lc (Message.abort (pos id))
            (set_state (InternalRoomState.playing (with_aborted st id)) t))
          refl in
      rw (e, abort_unfinished)
        (record {
          state = rest.state;
          plays = rest.plays;
          users = rest.users;
          done = (rest.keeps id (ground (arith, is_done-with_aborted st id id)), rest.done);
          keeps = λ v k. rest.keeps v (ground (arith, is_done-with_aborted st id v));
        })
]

deadline_chat-core :
    (lc : RoomLifecycle) (t : Turn)
    → ((deadline_chat lc t).room.state ≡ t.room.state)
      × ((deadline_chat lc t).room.users ≡ t.room.users)
unfolding deadline_chat send with_room log_message emit
deadline_chat-core lc t = elim (Option-cases lc.deadline_text) [
  | inl e ↦ rw (e, deadline_chat) (refl, refl)
  | inr (text, e) ↦ rw (e, deadline_chat) (refl, refl)
]

check_and_disband-room :
    (lc : RoomLifecycle) (t : Turn) → (check_and_disband lc t).room ≡ (check_all_ready lc t).1.room
unfolding check_and_disband emit
check_and_disband-room lc t =
    if-cases (λ (u : Turn). u.room ≡ (check_all_ready lc t).1.room) (check_all_ready lc t).0
      (λ e. refl) (λ e. refl)

finish_match :
    (lc : RoomLifecycle) (st : StatePlaying) (t : Turn)
    → t.room.state ≡ InternalRoomState.playing st
    → AllDone st t.room
    → (check_and_disband lc t).room.state ≡ InternalRoomState.select_chart
finish_match lc st t h all =
    ap (λ r. r.state) (check_and_disband-room lc t) ∙ elim (check_all_ready-playing lc t st h) [
      | inl (done, e) ↦ e
      | inr (not_done, d, rest) ↦ absurd (not_done all)
    ]

play_deadline_end_plays :
    (lc : RoomLifecycle) (t : Turn) (st : StatePlaying)
    → t.room.state ≡ InternalRoomState.playing st
    → play_deadline_end lc t
      ≡ check_and_disband lc
          (emit Effect.notify_web_socket (deadline_chat lc (abort_unfinished lc st t.room.users t)))
unfolding play_deadline_end
play_deadline_end_plays lc t st h =
    ap
      (λ s. elim s as (λ x. Turn) [
        | InternalRoomState.select_chart ↦ t
        | InternalRoomState.wait_for_ready started ↦ t
        | InternalRoomState.playing st ↦ check_and_disband lc (
            emit Effect.notify_web_socket
              (deadline_chat lc (abort_unfinished lc st t.room.users t)))
      ])
      h

-- At the end of the play deadline every match that is on is over: whoever is in the room, and
-- whatever results are missing, the room is back at the choice of a chart.
pub play_deadline_end-state :
    (lc : RoomLifecycle) (t : Turn) (st : StatePlaying)
    → t.room.state ≡ InternalRoomState.playing st
    → (play_deadline_end lc t).room.state ≡ InternalRoomState.select_chart
unfolding emit
play_deadline_end-state lc t st h =
    let aborted = abort_unfinished-Continued lc st t.room.users t h in
    let core = deadline_chat-core lc (abort_unfinished lc st t.room.users t) in
    ap (λ u. u.room.state) (play_deadline_end_plays lc t st h)
    ∙ finish_match lc aborted.state
        (emit Effect.notify_web_socket (deadline_chat lc (abort_unfinished lc st t.room.users t)))
        (core.0 ∙ aborted.plays)
        (rw (core.1 ∙ aborted.users)
          (All-mono t.room.users (λ id. (is_done_iff aborted.state id).0) aborted.done))
