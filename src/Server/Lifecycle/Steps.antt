-- ===== src/Server/Lifecycle/Steps.antt =====
-- What the steps of internal/core/server/room_lifecycle.go leave of a room as it is.
use gooophira_mp.Prelude.{
  ℕ, ◌≡◌, refl, ap, ◌∙◌, inl, inr, List, [], ◌∷◌, length, if-cases, Option-cases, leb,
}
use gooophira_mp.Protocol.Commands.{Message, ServerCommand}
use gooophira_mp.Server.Model.{Room, RoomLog, insert_id, StatePlaying, contains}
use gooophira_mp.Server.Turn.{Turn, RoomLifecycle, emit, with_room, log_message, send, notify_user}
use gooophira_mp.Server.Lifecycle.{broadcast_game_ranking, remind_each, remind}

-- Sending to a user leaves the room alone.
pub notify_user-room :
    (lc : RoomLifecycle) (id : ℕ) (cmd : ServerCommand) (t : Turn)
    → (notify_user lc id cmd t).room ≡ t.room
unfolding notify_user emit
notify_user-room lc id cmd t = elim (Option-cases (lc.users_by_id id)) [
  | inl e ↦ rw (e, notify_user) refl
  | inr (u, e) ↦ rw (e, notify_user) refl
]

-- The first room is the second one, with another log.
pub record Relogged (r s : Room) : Type 0 where
  pub logs : List RoomLog
  pub same : r ≡ record s { recent_logs = logs }

Relogged-refl : (r : Room) → Relogged r r
Relogged-refl r = record { logs = r.recent_logs; same = refl }

pub Relogged-send :
    (lc : RoomLifecycle) (msg : Message) (t : Turn) → Relogged (send lc msg t).room t.room
unfolding send with_room log_message emit
Relogged-send lc msg t = record { logs = _; same = refl }

Relogged-trans : {r s t : Room} → Relogged r s → Relogged s t → Relogged r t
Relogged-trans h k = record {
  logs = h.logs;
  same = h.same ∙ ap {A = Room} (λ x. record x { recent_logs = h.logs }) k.same;
}

pub broadcast_game_ranking-Relogged :
    (lc : RoomLifecycle) (st : StatePlaying) (t : Turn)
    → Relogged (broadcast_game_ranking lc st t).room t.room
unfolding broadcast_game_ranking
broadcast_game_ranking-Relogged lc st t =
    if-cases (λ (u : Turn). Relogged u.room t.room) (leb (length st.results) 1)
      (λ e. Relogged-refl t.room) (λ e. Relogged-send lc _ t)

pub remind_each-Relogged :
    (lc : RoomLifecycle) (ids notified : List ℕ) (t : Turn)
    → Relogged (remind_each lc ids (notified, t)).1.room t.room
unfolding remind_each remind
remind_each-Relogged lc [] notified t = Relogged-refl t.room
remind_each-Relogged lc (id ∷ ids) notified t = elim (Option-cases (lc.users_by_id id)) [
  | inl e ↦ rw (e, remind_each) (remind_each-Relogged lc ids notified t)
  | inr (u, e) ↦
      rw (e, remind_each)
        (if-cases (λ (acc : List ℕ × Turn). Relogged acc.1.room t.room) (contains notified id)
          (λ k. remind_each-Relogged lc ids notified t)
          (λ k.
            Relogged-trans (remind_each-Relogged lc ids (insert_id notified id) (remind lc u t))
              (Relogged-send lc _ t)))
]
