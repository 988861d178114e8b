-- ===== src/Server/Hosts.antt =====
-- The choice of the host: pickNextHost of internal/core/server/hub_broadcast.go and rotateCycleHost
-- of room_lifecycle.go.
pub mod Choice
use gooophira_mp.Prelude.{
  ℕ, true, false, not, ◌&&◌, Option, none, some, List, [], ◌∷◌, ltb, leb, ◌==◌, if◌then◌else◌,
}
use gooophira_mp.Prelude.Int.{pos}
use gooophira_mp.Protocol.Commands.{Message, ServerCommand}
use gooophira_mp.Server.Model.{Room, contains_user, clear_next_host}
use gooophira_mp.Server.Turn.{Turn, RoomLifecycle, with_room, set_host, send, notify_user}

-- `sort.Ints`.
unfoldable pub insert_sorted : ℕ → List ℕ → List ℕ
insert_sorted x [] = x ∷ []
insert_sorted x (y ∷ ys) = let rest = insert_sorted x ys in if leb x y then x ∷ y ∷ ys else y ∷ rest

unfoldable pub sort_ints : List ℕ → List ℕ
sort_ints [] = []
sort_ints (x ∷ xs) = insert_sorted x (sort_ints xs)

unfoldable pub first_above : ℕ → List ℕ → Option ℕ
first_above old [] = none
first_above old (id ∷ ids) = let rest = first_above old ids in if ltb old id then some id else rest

unfoldable pub or_first : Option ℕ → List ℕ → Option ℕ
or_first (some id) ids = some id
or_first none [] = none
or_first none (id ∷ ids) = some id

-- `none` for the answer false.
unfoldable pub pick_next_host : List ℕ → ℕ → Option ℕ
pick_next_host ids old = let sorted = sort_ints ids in or_first (first_above old sorted) sorted

-- The designated host when it is a candidate, else the next one.
unfoldable pub designated_host : Room → Option ℕ
designated_host r = elim (r.next_host_id) [
  | none ↦ none
  | some cand ↦ if not (cand == r.host_id) && contains_user r cand then some cand else none
]

unfoldable pub rotated_host : Room → Option ℕ
rotated_host r = elim (designated_host r) [
  | none ↦ pick_next_host r.users r.host_id
  | some cand ↦ some cand
]

unfoldable pub announce_host : RoomLifecycle → ℕ → ℕ → Turn → Turn
announce_host lc old new t = notify_user lc new (ServerCommand.change_host true) (
    notify_user lc old (ServerCommand.change_host false)
      (send lc (Message.new_host (pos new)) (set_host new t)))

unfoldable pub rotate_cycle_host : RoomLifecycle → Turn → Turn
rotate_cycle_host lc t = elim (rotated_host t.room) [
  | none ↦ with_room clear_next_host t
  | some new ↦ announce_host lc t.room.host_id new (with_room clear_next_host t)
]
