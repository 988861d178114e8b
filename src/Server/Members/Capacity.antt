-- ===== src/Server/Members/Capacity.antt =====
-- The number of players in a room: AddUser of internal/core/server/room_lifecycle.go.
use gooophira_mp.Prelude.{
  ℕ, ◌≤◌, ◌≡◌, refl, ◌⊎◌, inl, inr, Bool, true, false, not, ◌&&◌, List, length, leb, if-cases,
  arith, Bool-cases,
}
use gooophira_mp.Server.Model.{User, Room, contains, insert_id}
use gooophira_mp.Server.Members.{add_user}
use gooophira_mp.Server.Ids.{contains-insert_id, length-insert_id, length-insert_id_present}

abbrev pub IsWithin : Room → Type 0
IsWithin r = length r.users ≤ r.max_users

abbrev pub members_asked_for : Bool → Room → List ℕ
members_asked_for true r = r.monitors
members_asked_for false r = r.users

-- The bound holds; and the user has a place, or nothing changed, for a player who is not in a room
-- that is full.
abbrev pub IsAdded : User → Bool → Room → Bool × Room → Type 0
IsAdded user monitor r out =
    IsWithin out.1
    × (((out.0 ≡ true) × (contains (members_asked_for monitor out.1) user.id ≡ true))
        ⊎ ((out ≡ (false, r))
            × (monitor ≡ false)
            × (length r.users ≡ r.max_users)
            × (contains r.users user.id ≡ false)))

-- A room within its bound of players stays within it when a user is added. The user has a place
-- among the monitors or players, as asked for; or is a player who is not in the room, the room is
-- full, and it does not change.
pub add_user-IsWithin :
    (user : User) (monitor : Bool) (r : Room)
    → IsWithin r
    → IsAdded user monitor r (add_user user monitor r)
unfolding add_user
add_user-IsWithin user true r h =
    (h, inl (refl, ground (arith, contains-insert_id r.monitors user.id user.id)))
add_user-IsWithin user false r h =
    if-cases (IsAdded user false r)
      (leb r.max_users (length r.users) && not (contains r.users user.id))
      (λ e. (h, inr (refl, refl, ground (arith, e), ground (arith, e))))
      (λ e. (room e, inl (refl, ground (arith, contains-insert_id r.users user.id user.id))))
  where
    room :
        (leb r.max_users (length r.users) && not (contains r.users user.id)) ≡ false
        → length (insert_id r.users user.id) ≤ r.max_users
    room e = elim (Bool-cases (contains r.users user.id)) [
      | inl k ↦ ground (arith, length-insert_id_present r.users user.id k)
      | inr k ↦ ground (arith, length-insert_id r.users user.id k, e, k)
    ]
