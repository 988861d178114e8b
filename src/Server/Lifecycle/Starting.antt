-- ===== src/Server/Lifecycle/Starting.antt =====
-- When a match starts: CheckAllReady and startPlaying of
-- internal/core/server/room_lifecycle.go.
use gooophira_mp.Prelude.{
  ℕ, ◌↔◌, ◌≡◌, refl, ap, ◌∙◌, ◌⊎◌, inl, inr, Bool, true, false, not, ◌&&◌, List, [], ◌∷◌, ◌++◌, All,
  Bool-cases, arith,
}
use gooophira_mp.Protocol.Commands.{ServerCommand, RoomState}
use gooophira_mp.Server.Model.{
  Room, InternalRoomState, contains, all_participant_ids, client_room_state,
}
use gooophira_mp.Server.Turn.{
  Effect, Turn, RoomLifecycle, emit, with_room, set_state, log_message, notify_state,
  on_state_change,
}
use Prim.{¬◌}
use gooophira_mp.Server.Lifecycle.Steps.{Relogged}
use gooophira_mp.Server.Lifecycle.{
  check_playing, all_in, is_manual_start, new_playing, enter_playing, start_playing,
  broadcast_excluding, check_wait_for_ready, check_all_ready,
}

all_in-All :
    (ids started : List ℕ)
    → All (λ id. contains started id ≡ true) ids ↔ (all_in ids started ≡ true)
unfolding all_in
all_in-All [] started = ((λ h. refl), λ h. tt)
all_in-All (id ∷ ids) started =
    let rest = all_in-All ids started in
    ((λ h. ground (arith, h.0, rest.0 h.1)), λ h. (ground arith, rest.1 (ground arith)))

broadcast_excluding-room :
    (ids : List ℕ) (cmd : ServerCommand) (t : Turn) → (broadcast_excluding ids cmd t).room ≡ t.room
unfolding broadcast_excluding emit
broadcast_excluding-room [] cmd t = refl
broadcast_excluding-room (id ∷ ids) cmd t = refl

-- The room as the start of a match leaves it: playing, with nobody done and nothing else changed
-- but the log.
pub start_playing-Relogged :
    (lc : RoomLifecycle) (unready : List ℕ) (t : Turn)
    → Relogged (start_playing lc unready t).room (record t.room { state = new_playing lc.now })
unfolding start_playing enter_playing notify_state on_state_change emit set_state with_room
    log_message
start_playing-Relogged lc unready t = record {
  logs = _;
  same = broadcast_excluding-room unready _ _ ∙ broadcast_excluding-room unready _ _;
}

-- Every member, the monitors too, is ready.
abbrev pub AllReady : List ℕ → Room → Type 0
AllReady started r = All (λ id. contains started id ≡ true) (all_participant_ids r)

check_all_ready_waits :
    (lc : RoomLifecycle) (t : Turn) (started : List ℕ)
    → t.room.state ≡ InternalRoomState.wait_for_ready started
    → check_all_ready lc t ≡ (false, check_wait_for_ready lc started t)
unfolding check_all_ready
check_all_ready_waits lc t started h =
    ap
      (λ s. elim s as (λ x. Bool × Turn) [
        | InternalRoomState.select_chart ↦ (false, t)
        | InternalRoomState.wait_for_ready ids ↦ (false, check_wait_for_ready lc ids t)
        | InternalRoomState.playing st ↦ check_playing lc st t
      ])
      h

-- The match started, with all members ready and no start by hand; or nothing changed, without them.
abbrev pub IsStartedOrWaiting : RoomLifecycle → Turn → List ℕ → Type 0
IsStartedOrWaiting lc t started =
    (AllReady started t.room
      × (is_manual_start t.room.contest ≡ false)
      × ((check_all_ready lc t).1.room.state ≡ new_playing lc.now))
    ⊎ ((¬ (AllReady started t.room × (is_manual_start t.room.contest ≡ false)))
        × (check_all_ready lc t ≡ (false, t)))

-- A waiting room whose members are all ready starts to play, with nobody done, unless the contest
-- is started by hand; in every other case the check changes nothing.
pub check_all_ready-wait_for_ready :
    (lc : RoomLifecycle) (t : Turn) (started : List ℕ)
    → t.room.state ≡ InternalRoomState.wait_for_ready started
    → IsStartedOrWaiting lc t started
unfolding check_wait_for_ready
check_all_ready-wait_for_ready lc t started h =
    let ready = all_in-All (all_participant_ids t.room) started in
    rw (check_all_ready_waits lc t started h)
      (elim (Bool-cases
        (all_in (all_participant_ids t.room) started && not (is_manual_start t.room.contest))) [
          | inl e ↦
              rw (e, check_wait_for_ready)
                (inl (
                  ready.1 (ground arith),
                  ground arith,
                  ap (λ r. r.state) (start_playing-Relogged lc [] t).same,
                ))
          | inr e ↦
              rw (e, check_wait_for_ready)
                (inr ((λ both. ground (arith, ready.0 both.0, both.1)), refl))
        ])

notify_state-effects :
    (t : Turn) (s : RoomState)
    → client_room_state t.room ≡ s
    → (notify_state t).effects
      ≡ (t.effects ++ Effect.broadcast (ServerCommand.change_state s) ∷ [])
        ++ Effect.notify_web_socket ∷ []
unfolding notify_state on_state_change emit
notify_state-effects t s h = rw h refl

-- The last effects are that of a change of state to playing, for the whole room, and the notice.
abbrev pub EndsWithBroadcast : List Effect → Type 0
EndsWithBroadcast effects =
    (es : List Effect) × (effects
      ≡ (es ++ Effect.broadcast (ServerCommand.change_state RoomState.playing) ∷ [])
        ++ Effect.notify_web_socket ∷ [])

-- Whoever is not ready, the last effects of a start are a change of state to playing for the whole
-- room and the notice to the web sockets.
pub start_playing-broadcast :
    (lc : RoomLifecycle) (unready : List ℕ) (t : Turn)
    → EndsWithBroadcast (start_playing lc unready t).effects
unfolding start_playing enter_playing set_state with_room client_room_state new_playing
start_playing-broadcast lc unready t = (
  _,
  notify_state-effects _ RoomState.playing (
      ap client_room_state
        (broadcast_excluding-room unready _ _ ∙ broadcast_excluding-room unready _ _)),
)
