-- ===== src/Server/Members.antt =====
-- Members come and go: `removeInt`, `AddUser` and `OnUserLeave` of
-- internal/core/server/room_lifecycle.go.
pub mod Hosting
pub mod Capacity
use gooophira_mp.Prelude.{
  ℕ, Bool, true, false, not, ◌&&◌, none, some, List, [], ◌∷◌, leb, ◌==◌, if◌then◌else◌, length,
}
use gooophira_mp.Prelude.Int.{pos}
use gooophira_mp.Protocol.Commands.{Message, ServerCommand}
use gooophira_mp.Server.Model.{User, Room, contains, insert_id, is_empty}
use gooophira_mp.Server.Hosts.{pick_next_host}
use gooophira_mp.Server.Lifecycle.{check_all_ready}
use gooophira_mp.Server.Turn.{
  Effect, Turn, RoomLifecycle, emit, with_room, set_host, send, notify_user,
}

unfoldable pub remove_int : List ℕ → ℕ → List ℕ
remove_int [] v = []
remove_int (x ∷ xs) v = let rest = remove_int xs v in if x == v then xs else x ∷ rest

-- The answer is whether there was a place.
unfoldable pub add_user : User → Bool → Room → Bool × Room
add_user user monitor r =
    if monitor
    then (true, record r { monitors = insert_id r.monitors user.id })
    else if leb r.max_users (length r.users) && not (contains r.users user.id)
    then (false, r)
    else (true, record r { users = insert_id r.users user.id })

unfoldable pub remove_member : User → Room → Room
remove_member user r =
    if user.monitor
    then record r { monitors = remove_int r.monitors user.id }
    else record r { users = remove_int r.users user.id }

-- `shouldDrop`, `disband` and the turn.
unfoldable pub finish_leave : RoomLifecycle → Turn → Bool × Bool × Turn
finish_leave lc t =
    let checked = check_all_ready lc (emit Effect.notify_web_socket t) in
    (is_empty checked.1.room, checked.0, checked.1)

unfoldable pub hand_over : RoomLifecycle → ℕ → Turn → Turn
hand_over lc new t =
    notify_user lc new (ServerCommand.change_host true)
      (send lc (Message.new_host (pos new)) (set_host new t))

-- With no players left there is no next host: the two early returns.
unfoldable pub on_user_leave : RoomLifecycle → User → Turn → Bool × Bool × Turn
on_user_leave lc user t =
    let announced = send lc (Message.leave_room (pos user.id) user.name) t in
    let gone = with_room (remove_member user) (emit (Effect.clear_user_room user.id) announced) in
    if gone.room.host_id == user.id
    then elim (pick_next_host gone.room.users user.id) [
      | none ↦ (true, false, gone)
      | some new ↦ finish_leave lc (hand_over lc new gone)
    ]
    else finish_leave lc gone
