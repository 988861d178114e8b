-- ===== src/Server/Lifecycle/Settling.antt =====
-- When a match ends: CheckAllReady of internal/core/server/room_lifecycle.go on a match.
use gooophira_mp.Server.Model.{contains, keys}
use gooophira_mp.Prelude.{
  ℕ, ◌≡◌, refl, ap, ◌∙◌, ◌↔◌, ◌⊎◌, inl, inr, Bool, true, false, ◌&&◌, Option, none, some, List, [],
  ◌∷◌, length, ◌==◌, All, if-cases, Bool-cases, Option-cases, arith, ltb,
}
use Prim.{¬◌}
use gooophira_mp.Server.Model.{Room, InternalRoomState, StatePlaying, clear_next_host}
use gooophira_mp.Server.Hosts.{rotate_cycle_host, rotated_host, announce_host}
use gooophira_mp.Server.Turn.{
  Turn, RoomLifecycle, emit, with_room, set_state, set_host, log_message, send, notify_state,
  on_state_change,
}
use gooophira_mp.Server.Lifecycle.{
  is_done, unfinished_ids, dangling_ids, notified_ids, remind_each, store_notified, set_notified,
  notify_dangling_reconnect, end_game, settle, check_playing, check_all_ready, is_auto_disband,
}
use gooophira_mp.Server.Lifecycle.Steps.{Relogged, notify_user-room, remind_each-Relogged}

-- A result or an abort is there.
abbrev pub HasFinished : StatePlaying → ℕ → Type 0
HasFinished st id = (contains (keys st.results) id ≡ true) ⊎ (contains st.aborted id ≡ true)

pub is_done_iff : (st : StatePlaying) (id : ℕ) → (is_done st id ≡ true) ↔ HasFinished st id
unfolding is_done
is_done_iff st id = ground (arith)

unfinished_ids-nil :
    (st : StatePlaying) (ids : List ℕ)
    → All (HasFinished st) ids ↔ (length (unfinished_ids st ids) ≡ 0)
unfolding unfinished_ids
unfinished_ids-nil st [] = ((λ h. refl), λ h. tt)
unfinished_ids-nil st (id ∷ ids) =
    let rest = unfinished_ids-nil st ids in
    let done = is_done_iff st id in
    elim (Bool-cases (is_done st id)) [
      | inl e ↦ rw e ((λ h. rest.0 h.1), λ h. (done.0 e, rest.1 h))
      | inr e ↦ rw e ((λ h. absurd (ground (arith, done.1 h.0, e))), λ h. absurd (omega arith))
    ]

announce_host-state :
    (lc : RoomLifecycle) (old new : ℕ) (t : Turn)
    → (announce_host lc old new t).room.state ≡ t.room.state
unfolding announce_host send set_host with_room log_message emit
announce_host-state lc old new t =
    ap (λ r. r.state) (notify_user-room lc new _ _ ∙ notify_user-room lc old _ _)

rotate_cycle_host-state :
    (lc : RoomLifecycle) (t : Turn) → (rotate_cycle_host lc t).room.state ≡ t.room.state
unfolding rotate_cycle_host with_room clear_next_host
rotate_cycle_host-state lc t = elim (Option-cases (rotated_host t.room)) [
  | inl e ↦ rw (e, rotate_cycle_host) refl
  | inr (new, e) ↦ rw (e, rotate_cycle_host) (announce_host-state lc _ new _)
]

settle-state :
    (lc : RoomLifecycle) (st : StatePlaying) (t : Turn)
    → (settle lc st t).1.room.state ≡ InternalRoomState.select_chart
unfolding settle end_game notify_state on_state_change emit set_state with_room
settle-state lc st t =
    if-cases (λ (out : Bool × Turn). out.1.room.state ≡ InternalRoomState.select_chart)
      (is_auto_disband (end_game lc st t).room.contest) (λ e. refl)
      (λ e.
        if-cases (λ (out : Bool × Turn). out.1.room.state ≡ InternalRoomState.select_chart)
          ((end_game lc st t).room.cycle && ltb 1 (length (end_game lc st t).room.users))
          (λ k. rotate_cycle_host-state lc (end_game lc st t)) (λ k. refl))

-- The match goes on: only the ids that were notified may differ, and a nil map of them stays nil.
abbrev pub IsStillOn : StatePlaying → InternalRoomState → Type 0
IsStillOn st s =
    (notified : Option (List ℕ)) × (s
      ≡ InternalRoomState.playing (record st { reconnect_notified = notified }))
    × (st.reconnect_notified ≡ none → notified ≡ none)

notify_dangling_reconnect-state :
    (lc : RoomLifecycle) (st : StatePlaying) (t : Turn)
    → t.room.state ≡ InternalRoomState.playing st
    → IsStillOn st (notify_dangling_reconnect lc st t).room.state
unfolding notify_dangling_reconnect store_notified set_notified set_state with_room
notify_dangling_reconnect-state lc st t h =
    if-cases (λ (u : Turn). IsStillOn st u.room.state) _ (λ e. (st.reconnect_notified, h, λ k. k))
      (λ e.
        stored (remind_each lc dangling (notified_ids st, t))
          (remind_each-Relogged lc dangling (notified_ids st) t))
  where
    dangling : List ℕ
    dangling = dangling_ids lc (unfinished_ids st t.room.users)

    stored :
        (acc : List ℕ × Turn)
        → Relogged acc.1.room t.room
        → IsStillOn st (store_notified st acc).room.state
    stored (notified, u) same = elim (Option-cases st.reconnect_notified) [
      | inl e ↦
          rw (e, store_notified) (st.reconnect_notified, ap (λ r. r.state) same.same ∙ h, λ k. e)
      | inr (old, e) ↦
          rw (e, store_notified) (some notified, refl, λ k. absurd (ground (arith, e, k)))
    ]

-- Every player has a result or has aborted.
abbrev pub AllDone : StatePlaying → Room → Type 0
AllDone st r = All (HasFinished st) r.users

-- The match ended, with all players done; or it goes on without disbanding, with one who is not.
abbrev pub IsSettledOrOn : RoomLifecycle → Turn → StatePlaying → Type 0
IsSettledOrOn lc t st =
    (AllDone st t.room × ((check_all_ready lc t).1.room.state ≡ InternalRoomState.select_chart))
    ⊎ ((¬ AllDone st t.room)
        × ((check_all_ready lc t).0 ≡ false)
        × IsStillOn st (check_all_ready lc t).1.room.state)

-- A check of a room in a match: with all players done, the match ends and the room is back at the
-- choice of a chart; with a player who is not done, it goes on without disbanding, its results and
-- aborts stay, and a nil map of notified ids stays nil.
pub check_all_ready-playing :
    (lc : RoomLifecycle) (t : Turn) (st : StatePlaying)
    → t.room.state ≡ InternalRoomState.playing st
    → IsSettledOrOn lc t st
unfolding check_all_ready check_playing
check_all_ready-playing lc t st h =
    let nil = unfinished_ids-nil st t.room.users in
    rw (h, check_all_ready)
      (elim (Bool-cases (length (unfinished_ids st t.room.users) == 0)) [
        | inl e ↦ rw (e, check_playing) (inl (nil.1 (ground arith), settle-state lc st t))
        | inr e ↦
            rw (e, check_playing)
              (inr (
                (λ all. absurd (ground (arith, nil.0 all))),
                refl,
                notify_dangling_reconnect-state lc st t h,
              ))
      ])
