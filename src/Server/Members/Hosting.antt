-- ===== src/Server/Members/Hosting.antt =====
-- A room has a host among its players, whoever leaves: OnUserLeave of
-- internal/core/server/room_lifecycle.go.
use gooophira_mp.Prelude.{
  ℕ, ◌≡◌, refl, ap, ◌∙◌, ◌⊎◌, inl, inr, Bool, true, false, ◌&&◌, Option, none, some, List, [], ◌∷◌,
  length, ◌==◌, if-cases, Option-cases, arith, ltb,
}
use gooophira_mp.Prelude.Int.{pos}
use gooophira_mp.Protocol.Commands.{Message}
use gooophira_mp.Server.Model.{
  User, Room, InternalRoomState, StatePlaying, contains, clear_next_host,
}
use gooophira_mp.Server.Hosts.{
  designated_host, pick_next_host, rotate_cycle_host, rotated_host, announce_host,
}
use gooophira_mp.Server.Hosts.Choice.{IsNextHost, pick_next_host_lem}
use gooophira_mp.Server.Turn.{
  Effect, Turn, RoomLifecycle, emit, with_room, set_state, set_host, log_message, send,
  notify_state, on_state_change,
}
use gooophira_mp.Server.Model.{contains_user}
use gooophira_mp.Server.Lifecycle.Steps.{
  Relogged, Relogged-send, notify_user-room, broadcast_game_ranking-Relogged, remind_each-Relogged,
}
use gooophira_mp.Server.Lifecycle.Starting.{start_playing-Relogged}
use gooophira_mp.Server.Lifecycle.{
  unfinished_ids, dangling_ids, notified_ids, remind_each, store_notified, set_notified,
  notify_dangling_reconnect, end_game, settle, check_playing, check_wait_for_ready, check_all_ready,
  is_auto_disband, start_playing,
}
use gooophira_mp.Server.Members.{remove_int, remove_member, finish_leave, hand_over, on_user_leave}

-- The host is one of the players.
unfoldable pub HasHost : Room → Type 0
HasHost r = contains r.users r.host_id ≡ true

pub HasHost-Relogged : {r s : Room} → Relogged r s → HasHost s → HasHost r
unfolding HasHost
HasHost-Relogged h k = ap (λ x. contains x.users x.host_id) h.same ∙ k

contains-next :
    (ids : List ℕ) (old : ℕ) (h : ℕ) → pick_next_host ids old ≡ some h → contains ids h ≡ true
contains-next ids old h e = pick (pick_next_host ids old) (pick_next_host_lem ids old) e
  where
    pick : (o : Option ℕ) → IsNextHost ids old o → o ≡ some h → contains ids h ≡ true
    pick none k e = absurd (ground (arith, e))
    pick (some x) (inl k) e = ground (arith, e, k.0)
    pick (some x) (inr k) e = ground (arith, e, k.0)

rotated_host-contains : (r : Room) (h : ℕ) → rotated_host r ≡ some h → contains r.users h ≡ true
unfolding rotated_host designated_host contains_user
rotated_host-contains r h e = ground (arith, e, contains-next r.users r.host_id h)

rotate_cycle_host-HasHost :
    (lc : RoomLifecycle) (t : Turn) → HasHost t.room → HasHost (rotate_cycle_host lc t).room
unfolding HasHost rotate_cycle_host with_room clear_next_host announce_host send set_host
    log_message emit
rotate_cycle_host-HasHost lc t k = elim (Option-cases (rotated_host t.room)) [
  | inl e ↦ rw (e, rotate_cycle_host) k
  | inr (new, e) ↦
      rw (e, rotate_cycle_host)
        (ap (λ r. contains r.users r.host_id)
            (notify_user-room lc new _ _ ∙ notify_user-room lc t.room.host_id _ _)
          ∙ rotated_host-contains t.room new e)
]

settle-HasHost :
    (lc : RoomLifecycle) (st : StatePlaying) (t : Turn)
    → HasHost t.room
    → HasHost (settle lc st t).1.room
unfolding HasHost settle notify_state on_state_change emit end_game set_state with_room send
    log_message
settle-HasHost lc st t k =
    let ended : HasHost (end_game lc st t).room =
      HasHost-Relogged (broadcast_game_ranking-Relogged lc st t) k in
    if-cases (λ (out : Bool × Turn). HasHost out.1.room)
      (is_auto_disband (end_game lc st t).room.contest) (λ e. ended)
      (λ e.
        if-cases (λ (out : Bool × Turn). HasHost out.1.room)
          ((end_game lc st t).room.cycle && ltb 1 (length (end_game lc st t).room.users))
          (λ c. rotate_cycle_host-HasHost lc (end_game lc st t) ended) (λ c. ended))

store_notified-HasHost :
    (st : StatePlaying) (acc : List ℕ × Turn)
    → HasHost acc.1.room
    → HasHost (store_notified st acc).room
unfolding HasHost store_notified set_notified set_state with_room
store_notified-HasHost st (notified, u) k = elim (Option-cases st.reconnect_notified) [
  | inl e ↦ rw (e, store_notified) k
  | inr (old, e) ↦ rw (e, store_notified) k
]

notify_dangling_reconnect-HasHost :
    (lc : RoomLifecycle) (st : StatePlaying) (t : Turn)
    → HasHost t.room
    → HasHost (notify_dangling_reconnect lc st t).room
unfolding notify_dangling_reconnect
notify_dangling_reconnect-HasHost lc st t k =
    if-cases (λ (u : Turn). HasHost u.room) _ (λ e. k)
      (λ e.
        store_notified-HasHost st (remind_each lc dangling (notified_ids st, t))
          (HasHost-Relogged (remind_each-Relogged lc dangling (notified_ids st) t) k))
  where
    dangling : List ℕ
    dangling = dangling_ids lc (unfinished_ids st t.room.users)

pub start_playing-HasHost :
    (lc : RoomLifecycle) (unready : List ℕ) (t : Turn)
    → HasHost t.room
    → HasHost (start_playing lc unready t).room
unfolding HasHost
start_playing-HasHost lc unready t k = HasHost-Relogged (start_playing-Relogged lc unready t) k

pub check_all_ready-HasHost :
    (lc : RoomLifecycle) (t : Turn) → HasHost t.room → HasHost (check_all_ready lc t).1.room
unfolding check_all_ready check_wait_for_ready check_playing
check_all_ready-HasHost lc t k =
    elim t.room.state
      as (λ s.
        HasHost
          (elim s as (λ x. Bool × Turn) [
            | InternalRoomState.select_chart ↦ (false, t)
            | InternalRoomState.wait_for_ready ids ↦ (false, check_wait_for_ready lc ids t)
            | InternalRoomState.playing st ↦ check_playing lc st t
          ]).1.room) [
            | InternalRoomState.select_chart ↦ k
            | InternalRoomState.wait_for_ready ids ↦
                if-cases (λ (u : Turn). HasHost u.room) _ (λ e. start_playing-HasHost lc [] t k)
                  (λ e. k)
            | InternalRoomState.playing st ↦
                if-cases (λ (out : Bool × Turn). HasHost out.1.room) _
                  (λ e. settle-HasHost lc st t k) (λ e. notify_dangling_reconnect-HasHost lc st t k)
          ]

contains-remove_int :
    (xs : List ℕ) (v w : ℕ) → (v == w) ≡ false → contains (remove_int xs v) w ≡ contains xs w
unfolding remove_int
contains-remove_int [] v w e = refl
contains-remove_int (x ∷ xs) v w e = ground (arith, contains-remove_int xs v w e)

remove_member-HasHost :
    (user : User) (r : Room)
    → HasHost r
    → ((remove_member user r).host_id == user.id) ≡ false
    → HasHost (remove_member user r)
unfolding HasHost remove_member
remove_member-HasHost user r k =
    if-cases (λ (s : Room). (s.host_id == user.id) ≡ false → contains s.users s.host_id ≡ true)
      user.monitor (λ e n. k)
      (λ e n. contains-remove_int r.users user.id r.host_id (ground (arith, n)) ∙ k)

hand_over-HasHost :
    (lc : RoomLifecycle) (new : ℕ) (t : Turn)
    → contains t.room.users new ≡ true
    → HasHost (hand_over lc new t).room
unfolding HasHost hand_over send set_host with_room log_message emit
hand_over-HasHost lc new t k =
    ap (λ r. contains r.users r.host_id) (notify_user-room lc new _ _) ∙ k

finish_leave-HasHost :
    (lc : RoomLifecycle) (t : Turn) → HasHost t.room → HasHost (finish_leave lc t).2.room
unfolding finish_leave emit
finish_leave-HasHost lc t k = check_all_ready-HasHost lc (emit Effect.notify_web_socket t) k

-- The room is to be dropped, or it has a host among its players.
abbrev pub IsLeft : Bool × Bool × Turn → Type 0
IsLeft out = (out.0 ≡ true) ⊎ HasHost out.2.room

-- Whoever leaves, a room that had a host among its players has one among those who stay, unless
-- the answer is that the room is to be dropped.
pub on_user_leave-HasHost :
    (lc : RoomLifecycle) (user : User) (t : Turn)
    → HasHost t.room
    → IsLeft (on_user_leave lc user t)
unfolding on_user_leave with_room emit send log_message
on_user_leave-HasHost lc user t k =
    let announced = send lc (Message.leave_room (pos user.id) user.name) t in
    let gone = with_room (remove_member user) (emit (Effect.clear_user_room user.id) announced) in
    if-cases IsLeft (gone.room.host_id == user.id)
      (λ e.
        picked gone (pick_next_host gone.room.users user.id)
          (contains-next gone.room.users user.id))
      (λ e. inr (
        finish_leave-HasHost lc gone (
          remove_member-HasHost user announced.room (HasHost-Relogged (Relogged-send lc _ t) k) e)))
  where
    picked :
        (u : Turn) (o : Option ℕ)
        → ((h : ℕ) → o ≡ some h → contains u.room.users h ≡ true)
        → IsLeft (elim o as (λ x. Bool × Bool × Turn) [
          | none ↦ (true, false, u)
          | some new ↦ finish_leave lc (hand_over lc new u)
        ])
    picked u none f = inl refl
    picked u (some new) f =
        inr (finish_leave-HasHost lc _ (hand_over-HasHost lc new u (f new refl)))
