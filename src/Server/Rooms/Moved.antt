-- ===== src/Server/Rooms/Moved.antt =====
-- The rooms of a user whom an administrator moves keep their hosts.
use gooophira_mp.Prelude.{
  ◌≤◌, ◌≡◌, subst, ◌⊎◌, inl, inr, Bool, true, false, not, Option, some, if-cases, match-cases,
  arith,
}
use gooophira_mp.Server.Model.{User, Room, RoomError, is_select_chart}
use gooophira_mp.Server.Validate.{validate_join}
use gooophira_mp.Server.Members.{add_user}
use gooophira_mp.Server.Members.Hosting.{HasHost, on_user_leave-HasHost}
use gooophira_mp.Server.Moves.{Move, leave_for, try_move, move_user}
use gooophira_mp.Server.Rooms.Ends.{add_user-HasHost}
use gooophira_mp.Server.Turn.{Turn, RoomLifecycle, start_turn}

-- A move is refused, or the user is added to a room and leaves one.
move_user-cases :
    (P : Move → Type 0) (lc : RoomLifecycle) (user : User) (from? : Option Room) (to : Room)
    (same monitor : Bool)
    → ((e : RoomError) → P (Move.refused e))
    → ((from : Room)
        → from? ≡ some from
        → P (leave_for lc user from (add_user user monitor to).1 same))
    → P (move_user lc user from? to same monitor)
unfolding move_user try_move
move_user-cases P lc user from? to same monitor refused left =
    if-cases P user.connected (λ a. refused _)
      (λ a.
        match-cases P from? (λ n. refused _)
          (λ from f.
            if-cases P (not (is_select_chart from)) (λ b. refused _)
              (λ b.
                if-cases P (not (is_select_chart to)) (λ c. refused _)
                  (λ c.
                    match-cases P (validate_join to user monitor)
                      (λ d.
                        if-cases P (add_user user monitor to).0 (λ e. left from f) (λ e. refused _))
                      (λ x d. refused x)))))

-- The room that was left, unless it is dropped.
abbrev LeftHosted : Move → Type 0
LeftHosted (Move.refused e) = 0 ≤ 0
LeftHosted (Move.moved t dropped after) = (dropped ≡ true) ⊎ HasHost t.room

-- The room that the user is in, another one than was left.
abbrev JoinedHosted : Move → Type 0
JoinedHosted (Move.refused e) = 0 ≤ 0
JoinedHosted (Move.moved t dropped after) = HasHost after

-- The one room.
abbrev SameHosted : Move → Type 0
SameHosted (Move.refused e) = 0 ≤ 0
SameHosted (Move.moved t dropped after) = (dropped ≡ true) ⊎ HasHost after

stays : (room : Room) → (false ≡ true) ⊎ HasHost room → HasHost room
stays room (inl e) = absurd (cc e)
stays room (inr h) = h

module _ (lc : RoomLifecycle) (user : User) (r : Room) (h : HasHost r) where
  pub left-HasHost :
      (to after : Room) (t : Turn) (monitor : Bool)
      → move_user lc user (some r) to false monitor ≡ Move.moved t false after
      → HasHost t.room
  unfolding leave_for start_turn
  left-HasHost to after t monitor e = stays t.room (
      subst LeftHosted e (
        move_user-cases LeftHosted lc user (some r) to false monitor (λ x. omega arith)
          (λ from f.
            on_user_leave-HasHost lc user (start_turn from) (subst HasHost (same from f) h))))
    where
      same : (from : Room) → some r ≡ some from → r ≡ from
      same from f = cc f

  pub joined-HasHost :
      (from? : Option Room) (after : Room) (t : Turn) (dropped monitor : Bool)
      → move_user lc user from? r false monitor ≡ Move.moved t dropped after
      → HasHost after
  unfolding leave_for
  joined-HasHost from? after t dropped monitor e = subst JoinedHosted e (
      move_user-cases JoinedHosted lc user from? r false monitor (λ x. omega arith)
        (λ from f. add_user-HasHost user monitor r h))

  pub moved_within-HasHost :
      (after : Room) (t : Turn) (monitor : Bool)
      → move_user lc user (some r) r true monitor ≡ Move.moved t false after
      → HasHost after
  unfolding leave_for start_turn
  moved_within-HasHost after t monitor e = stays after (
      subst SameHosted e (
        move_user-cases SameHosted lc user (some r) r true monitor (λ x. omega arith)
          (λ from f.
            on_user_leave-HasHost lc user (start_turn (add_user user monitor r).1)
              (add_user-HasHost user monitor r h))))
