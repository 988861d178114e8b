-- ===== src/Server/Moves.antt =====
-- An administrator moves a user: `MoveUser` of internal/core/server/room_move.go. The two rooms may be
-- one and the same, which `same` says: what is done to one is then done to the other.
use gooophira_mp.Prelude.{
  ℕ, ◌+◌, ◌≤◌, ◌≡◌, refl, ap, sym, subst, ◌∙◌, Bool, true, false, not, Option, none, some, List, [],
  ◌∷◌, if◌then◌else◌, leb, length, ◌&&◌, ◌==◌, ==_refl, arith, if-cases, match-cases,
}
use gooophira_mp.Prelude.Int.{pos}
use gooophira_mp.Protocol.Commands.{Message}
use gooophira_mp.Server.Model.{
  User, Room, RoomError, InternalRoomState, contains, insert_id, is_select_chart,
}
use gooophira_mp.Server.Ids.{contains-insert_id}
use gooophira_mp.Server.Validate.{validate_join}
use gooophira_mp.Server.Hosts.{pick_next_host}
use gooophira_mp.Server.Members.{
  remove_int, add_user, remove_member, finish_leave, hand_over, on_user_leave,
}
use gooophira_mp.Server.Lifecycle.{check_all_ready}
use gooophira_mp.Server.Lifecycle.Steps.{notify_user-room}
use gooophira_mp.Server.Turn.{
  Effect, Turn, RoomLifecycle, start_turn, emit, with_room, set_host, send, log_message,
}

-- The room that was left with the effects on it, whether it is deleted from the table, and the room
-- that the user is in.
pub data Move : Type 0 where
  refused : RoomError → Move
  moved : Turn → Bool → Room → Move

unfoldable pub leave_for : RoomLifecycle → User → Room → Room → Bool → Move
leave_for lc user from added same =
    let left = on_user_leave lc user (start_turn (if same then added else from)) in
    Move.moved left.2 left.0 (if same then left.2.room else added)

unfoldable pub try_move : RoomLifecycle → User → Room → Room → Bool → Bool → Move
try_move lc user from to same monitor = elim (validate_join to user monitor) [
  | some e ↦ Move.refused e
  | none ↦
      let (placed, added) = add_user user monitor to in
      if placed then leave_for lc user from added same else Move.refused RoomError.join_room_full
]

unfoldable pub move_user : RoomLifecycle → User → Option Room → Room → Bool → Bool → Move
move_user lc user from? to same monitor =
    if user.connected then Move.refused RoomError.user_must_disconnect else elim from? [
      | none ↦ Move.refused RoomError.user_not_in_room
      | some from ↦
          if not (is_select_chart from)
          then Move.refused RoomError.cannot_move_playing
          else if not (is_select_chart to)
          then Move.refused RoomError.target_room_not_idle
          else try_move lc user from to same monitor
    ]

-- How often an id stands in a list.
abbrev pub occurrences : ℕ → List ℕ → ℕ
occurrences id [] = 0
occurrences id (x ∷ xs) = (if x == id then 1 else 0) + occurrences id xs

never : (id : ℕ) (xs : List ℕ) → occurrences id xs ≡ 0 → contains xs id ≡ false
never id [] h = refl
never id (x ∷ xs) h = ground (arith, h, never id xs)

gone_once : (id : ℕ) (xs : List ℕ) → occurrences id xs ≤ 1 → contains (remove_int xs id) id ≡ false
unfolding remove_int
gone_once id [] h = refl
gone_once id (x ∷ xs) h = ground (arith, h, gone_once id xs, never id xs)

finish_leave-users :
    (lc : RoomLifecycle) (t : Turn)
    → t.room.state ≡ InternalRoomState.select_chart
    → (finish_leave lc t).2.room.users ≡ t.room.users
unfolding finish_leave check_all_ready emit
finish_leave-users lc t h = rw h refl

remove_member-player :
    (user : User) (r : Room)
    → user.monitor ≡ false
    → ((remove_member user r).users ≡ remove_int r.users user.id)
      × ((remove_member user r).state ≡ r.state)
unfolding remove_member
remove_member-player user r player =
    if-cases (λ (q : Room). (q.users ≡ remove_int r.users user.id) × (q.state ≡ r.state))
      user.monitor (λ a. absurd (cc (sym a ∙ player))) (λ a. (refl, refl))

-- Whoever the host is handed to, an idle room has the same players as before.
finish_leave-lost :
    (lc : RoomLifecycle) (id : ℕ) (t : Turn)
    → t.room.state ≡ InternalRoomState.select_chart
    → contains t.room.users id ≡ false
    → contains (finish_leave lc t).2.room.users id ≡ false
finish_leave-lost lc id t idle lost =
    ap (λ xs. contains xs id) (finish_leave-users lc t idle) ∙ lost

hand_over-lost :
    (lc : RoomLifecycle) (new id : ℕ) (t : Turn)
    → t.room.state ≡ InternalRoomState.select_chart
    → contains t.room.users id ≡ false
    → contains (finish_leave lc (hand_over lc new t)).2.room.users id ≡ false
unfolding hand_over send set_host with_room log_message emit
hand_over-lost lc new id t idle lost =
    finish_leave-lost lc id (hand_over lc new t)
      (ap (λ r. r.state) (notify_user-room lc new _ _) ∙ idle)
      (ap (λ r. contains r.users id) (notify_user-room lc new _ _) ∙ lost)

on_user_leave-lost :
    (lc : RoomLifecycle) (user : User) (t : Turn)
    → t.room.state ≡ InternalRoomState.select_chart
    → user.monitor ≡ false
    → contains (remove_int t.room.users user.id) user.id ≡ false
    → contains (on_user_leave lc user t).2.room.users user.id ≡ false
unfolding on_user_leave with_room emit send log_message
on_user_leave-lost lc user t idle player lost =
    let announced = send lc (Message.leave_room (pos user.id) user.name) t in
    let gone = with_room (remove_member user) (emit (Effect.clear_user_room user.id) announced) in
    let (users, state) = remove_member-player user announced.room player in
    let without : contains gone.room.users user.id ≡ false =
      ap (λ xs. contains xs user.id) users ∙ lost in
    let P : Bool × Bool × Turn → Type 0 = λ out. contains out.2.room.users user.id ≡ false in
    if-cases P (gone.room.host_id == user.id)
      (λ e.
        match-cases P (pick_next_host gone.room.users user.id) (λ n. without)
          (λ new f. hand_over-lost lc new user.id gone (state ∙ idle) without))
      (λ e. finish_leave-lost lc user.id gone (state ∙ idle) without)

-- No room that the user is said to be in has the user among its players.
abbrev IsLost : ℕ → Move → Type 0
IsLost id (Move.refused e) = 0 ≤ 0
IsLost id (Move.moved t dropped to) = contains to.users id ≡ false

idle_room : (r : Room) → not (is_select_chart r) ≡ false → r.state ≡ InternalRoomState.select_chart
unfolding is_select_chart
idle_room r h = go r.state refl h
  where
    go :
        (s : InternalRoomState)
        → r.state ≡ s
        → not (is_select_chart (record r { state = s })) ≡ false
        → r.state ≡ InternalRoomState.select_chart
    go InternalRoomState.select_chart e h = e
    go (InternalRoomState.wait_for_ready ids) e h = absurd (cc h)
    go (InternalRoomState.playing st) e h = absurd (cc h)

already_in :
    (user : User) (r : Room) → contains r.users user.id ≡ true → add_user user false r ≡ (true, r)
unfolding add_user insert_id
already_in user r h =
    if-cases (λ (p : Bool × Room). p ≡ (true, r))
      (leb r.max_users (length r.users) && not (contains r.users user.id))
      (λ full. absurd (ground (arith, full, h)))
      (λ room. ap (λ (xs : List ℕ). (true, record r { users = xs })) (same r.users h))
  where
    same : (xs : List ℕ) → contains xs user.id ≡ true → insert_id xs user.id ≡ xs
    same xs k = rw k refl

-- An administrator who moves a player to the room that the player is in already loses the player: unless
-- the move is refused, the room that the user is said to be in does not have the user among its players.
pub move_user-same :
    (lc : RoomLifecycle) (user : User) (r : Room) (t : Turn) (dropped : Bool) (to : Room)
    → user.monitor ≡ false
    → contains r.users user.id ≡ true
    → occurrences user.id r.users ≤ 1
    → move_user lc user (some r) r true false ≡ Move.moved t dropped to
    → contains to.users user.id ≡ false
unfolding move_user try_move leave_for start_turn
move_user-same lc user r t dropped to player member once e = subst (IsLost user.id) e (
    if-cases (IsLost user.id) user.connected (λ a. omega arith)
      (λ a.
        if-cases (IsLost user.id) (not (is_select_chart r)) (λ b. omega arith)
          (λ b.
            if-cases (IsLost user.id) (not (is_select_chart r)) (λ c. omega arith)
              (λ c.
                match-cases (IsLost user.id) (validate_join r user false)
                  (λ d. rw (already_in user r member) (
                    on_user_leave-lost lc user (start_turn r) (idle_room r b) player
                      (gone_once user.id r.users once)))
                  (λ x d. omega arith)))))

abbrev IsPlaced : ℕ → Move → Type 0
IsPlaced id (Move.refused e) = 0 ≤ 0
IsPlaced id (Move.moved t dropped to) = contains to.users id ≡ true

placed_in : (xs : List ℕ) (id : ℕ) → contains (insert_id xs id) id ≡ true
placed_in xs id = rw (contains-insert_id xs id id, ==_refl id) (ground arith)

-- A player who is moved to another room is among the players of that room.
pub move_user-other :
    (lc : RoomLifecycle) (user : User) (from to after : Room) (t : Turn) (dropped : Bool)
    → move_user lc user (some from) to false false ≡ Move.moved t dropped after
    → contains after.users user.id ≡ true
unfolding move_user try_move leave_for add_user
move_user-other lc user from to after t dropped e = subst (IsPlaced user.id) e (
    if-cases (IsPlaced user.id) user.connected (λ a. omega arith)
      (λ a.
        if-cases (IsPlaced user.id) (not (is_select_chart from)) (λ b. omega arith)
          (λ b.
            if-cases (IsPlaced user.id) (not (is_select_chart to)) (λ c. omega arith)
              (λ c.
                match-cases (IsPlaced user.id) (validate_join to user false)
                  (λ d.
                    if-cases
                      (λ (p : Bool × Room). IsPlaced user.id (
                        if p.0
                        then leave_for lc user from p.1 false
                        else Move.refused RoomError.join_room_full))
                      (leb to.max_users (length to.users) && not (contains to.users user.id))
                      (λ f. omega arith) (λ f. placed_in to.users user.id))
                  (λ x d. omega arith)))))
