-- ===== src/Server/Rooms/Reached.antt =====
-- Every room has a host among its players, from its creation to the step that drops it.
use gooophira_mp.Prelude.{
  ℕ, ◌≡◌, sym, subst, ◌∙◌, inl, inr, Bool, true, not, ◌||◌, ltb, List, if-cases, match-cases, arith,
}
use gooophira_mp.Server.Model.{
  Room, contains, contains_user, set_next_host, new_room, refresh_live, keys,
}
use gooophira_mp.Server.Turn.{
  Turn, RoomLifecycle, set_state, start_turn, emit, with_room, log_message, send, log_and_broadcast,
}
use gooophira_mp.Server.Contest.{
  enable_contest, disable_contest, set_contest_whitelist, set_room_locked, set_room_cycle,
}
use gooophira_mp.Server.Members.Hosting.{HasHost, on_user_leave-HasHost}
use gooophira_mp.Server.Dispatch.{require_room, handle_lock_room, handle_cycle_room}
use gooophira_mp.Server.Rooms.{
  Request, respond, Step, answered, left, removed, moved_from, moved_to, moved_within, Reach,
  created, stepped, cmd_next_host, cmd_max_users, abort_playing_and_check,
}
use gooophira_mp.Server.Rooms.Hosted.{
  IsHosted, state-cases, check_and_disband-HasHost, unless-IsHosted, handle_select_chart-IsHosted,
  handle_request_start-IsHosted, handle_ready-IsHosted, handle_cancel_ready-IsHosted,
  handle_abort-IsHosted,
}
use gooophira_mp.Server.Rooms.Moved.{left-HasHost, joined-HasHost, moved_within-HasHost}
use gooophira_mp.Server.Rooms.Ends.{
  handle_played-IsHosted, join_room-IsHosted, ready_countdown_end-HasHost,
  play_deadline_end-HasHost, transfer_host-IsHosted, start_contest-IsHosted,
}

abort_playing-HasHost :
    (lc : RoomLifecycle) (id : ℕ) (r : Room)
    → HasHost r
    → HasHost (abort_playing_and_check lc id r).room
unfolding abort_playing_and_check HasHost send with_room log_message emit start_turn set_state
abort_playing-HasHost lc id r h =
    let P : Turn → Type 0 = λ u. HasHost u.room in
    state-cases P r.state h (λ ids. h)
      (λ st.
        if-cases P (contains (keys st.results) id) (λ a. h)
          (λ a.
            if-cases P (contains st.aborted id) (λ b. h) (λ b. check_and_disband-HasHost lc _ h)))

respond-IsHosted :
    (lc : RoomLifecycle) (q : Request) (r : Room) → HasHost r → IsHosted (respond lc q r)
unfolding respond HasHost handle_lock_room handle_cycle_room require_room log_and_broadcast send
    with_room log_message emit start_turn enable_contest disable_contest set_contest_whitelist
    set_room_locked set_room_cycle cmd_next_host cmd_max_users set_next_host refresh_live
respond-IsHosted lc (Request.lock_room user lock) r h = unless-IsHosted _ _ h
respond-IsHosted lc (Request.cycle_room user cycle) r h = unless-IsHosted _ _ h
respond-IsHosted lc (Request.select_chart user fetched) r h =
    handle_select_chart-IsHosted lc user r fetched h
respond-IsHosted lc (Request.request_start user has_hint) r h =
    handle_request_start-IsHosted lc user r has_hint h
respond-IsHosted lc (Request.ready user) r h = handle_ready-IsHosted lc user r h
respond-IsHosted lc (Request.cancel_ready user) r h = handle_cancel_ready-IsHosted lc user r h
respond-IsHosted lc (Request.abort user) r h = handle_abort-IsHosted lc user r h
respond-IsHosted lc (Request.played user fetched) r h = handle_played-IsHosted lc user r fetched h
respond-IsHosted lc (Request.join user monitor) r h = join_room-IsHosted lc user monitor r h
respond-IsHosted lc Request.countdown_ends r h = ready_countdown_end-HasHost lc _ h
respond-IsHosted lc Request.deadline_ends r h = play_deadline_end-HasHost lc _ h
respond-IsHosted lc (Request.enable ids) r h = h
respond-IsHosted lc Request.disable r h = h
respond-IsHosted lc (Request.set_whitelist ids) r h =
    match-cases (λ (p : Bool × Room). contains p.1.users p.1.host_id ≡ true) r.contest (λ e. h)
      (λ c e. h)
respond-IsHosted lc (Request.start force) r h = start_contest-IsHosted lc force r h
respond-IsHosted lc (Request.set_locked lock) r h = h
respond-IsHosted lc (Request.set_cycle cycle) r h = h
respond-IsHosted lc (Request.transfer id) r h = transfer_host-IsHosted lc id r h
respond-IsHosted lc (Request.next_host id) r h =
    if-cases HasHost (not r.cycle) (λ a. h)
      (λ a. if-cases HasHost (not (contains_user r id)) (λ b. h) (λ b. h))
respond-IsHosted lc (Request.max_users n) r h =
    if-cases HasHost (ltb n 1 || ltb 32767 n) (λ a. h) (λ a. h)
respond-IsHosted lc (Request.abort_playing id) r h = abort_playing-HasHost lc id r h
respond-IsHosted lc (Request.message msg) r h = h
respond-IsHosted lc (Request.configure replay) r h = h

Step-HasHost : (r s : Room) → Step r s → HasHost r → HasHost s
unfolding HasHost refresh_live start_turn
Step-HasHost _ _ (answered lc q r t e) h = subst IsHosted e (respond-IsHosted lc q r h)
Step-HasHost _ _ (left lc user r stays) h = elim (on_user_leave-HasHost lc user (start_turn r) h) [
  | inl dropped ↦ absurd (cc (sym dropped ∙ stays))
  | inr k ↦ k
]
Step-HasHost _ _ (removed lc user r stays) h =
    elim (on_user_leave-HasHost lc user (start_turn r) h) [
      | inl dropped ↦ absurd (cc (sym dropped ∙ stays))
      | inr k ↦ k
    ]
Step-HasHost _ _ (moved_from lc user r to after t monitor e) h =
    left-HasHost lc user r h to after t monitor e
Step-HasHost _ _ (moved_to lc user from? r after t dropped monitor e) h =
    joined-HasHost lc user r h from? after t dropped monitor e
Step-HasHost _ _ (moved_within lc user r after t monitor e) h =
    moved_within-HasHost lc user r h after t monitor e

-- Every room that a new room becomes has a host among its players. It changes, in any order, by the
-- commands of its members and their leaves, by joins, by the ends of the countdowns, by changes of the
-- configuration and by an administrator, who starts contests, announces, locks, hands the host over,
-- names the next host, sets the bound on the players, makes a player give up, and moves users to the
-- room, from it or within it. A leave or a move that drops the room ends it.
pub Reach-HasHost :
    (id : List ℕ) (host_id max_users : ℕ) (replay : Bool) (r : Room)
    → Reach id host_id max_users replay r
    → HasHost r
unfolding HasHost new_room
Reach-HasHost id host_id max_users replay _ created = ground arith
Reach-HasHost id host_id max_users replay _ (stepped r s before step) =
    Step-HasHost r s step (Reach-HasHost id host_id max_users replay r before)
