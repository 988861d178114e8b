-- ===== src/Replay/Recorder.antt =====
-- recorder.go of internal/core/replay. A room is a number, and the text `roomKey:userID` of a key the
-- pair of both. The maps are lists; where the source goes through one, the order is that of the
-- list. Moments are arguments, and so is whether a file can be written at a path.
use gooophira_mp.Prelude.{
  ℕ, ◌-◌, Bool, true, false, ◌&&◌, not, Option, none, some, List, [], ◌∷◌, ◌++◌, ◌==◌,
  if◌then◌else◌, length, take, map,
}
use gooophira_mp.Prelude.Int.{ℤ, pos, negsuc, leb_ℤ}
use gooophira_mp.Protocol.Commands.{TouchFrame, JudgeEvent, UserInfo}
use gooophira_mp.Replay.Format.{Compression, ReplayHeader, record_file}

abbrev pub max_frames_per_inflight : ℕ
max_frames_per_inflight = 15000

-- `FilePath`: <base>/<userID>/<chartID>/<timestamp>.phirarec.
pub record FilePath : Type 0 where
  pub base_dir : List ℕ
  pub path_user : ℕ
  pub path_chart : ℤ
  pub path_time : ℤ

pub record FileInfo : Type 0 where
  pub info_user : ℕ
  pub info_chart : ℤ
  pub info_time : ℤ
  pub info_path : FilePath

pub record InFlight : Type 0 where
  pub room_key : ℕ
  pub user_id : ℕ
  pub user_name : List ℕ
  pub chart_id : ℤ
  pub chart_name : List ℕ
  pub timestamp : ℤ
  pub record_id : ℤ
  pub path : FilePath
  pub touches : List TouchFrame
  pub judges : List JudgeEvent
  pub overflow : Bool

unfoldable pub info : InFlight → FileInfo
info it = record {
  info_user = it.user_id;
  info_chart = it.chart_id;
  info_time = it.timestamp;
  info_path = it.path;
}

pub record Recorder : Type 0 where
  pub root_dir : List ℕ
  pub inflight : List InFlight
  pub keys_by_room : List (ℕ × List ℕ)
  pub completed : List (ℕ × List FileInfo)

unfoldable pub has_key : ℕ → ℕ → InFlight → Bool
has_key room user it = (it.room_key == room) && (it.user_id == user)

unfoldable pub get : ℕ → ℕ → List InFlight → Option InFlight
get room user [] = none
get room user (it ∷ rest) =
    let later = get room user rest in if has_key room user it then some it else later

-- `delete(r.inflight, k)`, and the writing of an entry.
unfoldable pub delete_key : ℕ → ℕ → List InFlight → List InFlight
delete_key room user [] = []
delete_key room user (it ∷ rest) =
    let later = delete_key room user rest in if has_key room user it then later else it ∷ later

unfoldable pub put : InFlight → List InFlight → List InFlight
put it entries = it ∷ delete_key it.room_key it.user_id entries

-- A change of the entry that the pointer from `get` leads to.
unfoldable pub modify : ℕ → ℕ → (InFlight → InFlight) → List InFlight → List InFlight
modify room user f [] = []
modify room user f (it ∷ rest) =
    let later = modify room user f rest in if has_key room user it then f it ∷ later else it ∷ later

-- The value at a number, the empty list for none.
module _ {ℓ} {A : Type ℓ} where
  unfoldable pub value_at : ℕ → List (ℕ × List A) → List A
  value_at room [] = []
  value_at room ((n, xs) ∷ rest) = let later = value_at room rest in if n == room then xs else later

  unfoldable pub delete_at : ℕ → List (ℕ × List A) → List (ℕ × List A)
  delete_at room [] = []
  delete_at room ((n, xs) ∷ rest) =
      let later = delete_at room rest in if n == room then later else (n, xs) ∷ later

  -- An empty list is not stored.
  unfoldable pub set_at : ℕ → List A → List (ℕ × List A) → List (ℕ × List A)
  set_at room [] m = m
  set_at room (x ∷ xs) m = (room, x ∷ xs) ∷ delete_at room m

pub record Participant : Type 0 where
  pub id : ℤ
  pub name : List ℕ

pub record Song : Type 0 where
  pub song_chart : ℤ
  pub song_name : List ℕ

unfoldable pub new_inflight : List ℕ → ℕ → Song → ℤ → ℕ → List ℕ → InFlight
new_inflight base room song now user name = record {
  room_key = room;
  user_id = user;
  user_name = name;
  chart_id = song.song_chart;
  chart_name = song.song_name;
  timestamp = now;
  record_id = pos 0;
  path = record {
    base_dir = base;
    path_user = user;
    path_chart = song.song_chart;
    path_time = now;
  };
  touches = [];
  judges = [];
  overflow = false;
}

unfoldable pub start_user : List ℕ → ℕ → Song → ℤ → ℤ → List ℕ → List InFlight → List InFlight
start_user base room song now (negsuc n) name entries = entries
start_user base room song now (pos user) name entries =
    put (new_inflight base room song now user name) entries

unfoldable pub start_users :
    List ℕ → ℕ → Song → ℤ → List Participant → List InFlight → List InFlight
start_users base room song now [] entries = entries
start_users base room song now (p ∷ ps) entries =
    start_users base room song now ps (start_user base room song now p.id p.name entries)

unfoldable pub has_number : ℕ → List ℕ → Bool
has_number n [] = false
has_number n (k ∷ ks) = if k == n then true else has_number n ks

unfoldable pub add_key : ℤ → List ℕ → List ℕ
add_key (negsuc n) ks = ks
add_key (pos n) ks = if has_number n ks then ks else n ∷ ks

unfoldable pub keys_of : List Participant → List ℕ
keys_of [] = []
keys_of (p ∷ ps) = add_key p.id (keys_of ps)

unfoldable pub no_entries {ℓ} : {A : Type ℓ} → List A → Bool
no_entries [] = true
no_entries (x ∷ xs) = false

unfoldable pub start_room : ℕ → Song → List Participant → ℤ → Recorder → Recorder
start_room room song users now r =
    if not (no_entries (value_at room r.keys_by_room)) then r else record r {
      inflight = start_users r.root_dir room song now users r.inflight;
      keys_by_room = set_at room (keys_of users) r.keys_by_room;
      completed = delete_at room r.completed;
    }

-- At the bound the entry is marked, and nothing is kept.
unfoldable pub add_touches : List TouchFrame → InFlight → InFlight
add_touches frames it =
    let remaining = max_frames_per_inflight - length it.touches in
    if remaining == 0
    then record it { overflow = true }
    else record it { touches = it.touches ++ take remaining frames }

unfoldable pub add_judges : List JudgeEvent → InFlight → InFlight
add_judges events it =
    let remaining = max_frames_per_inflight - length it.judges in
    if remaining == 0
    then record it { overflow = true }
    else record it { judges = it.judges ++ take remaining events }

unfoldable pub append_touches : ℕ → ℕ → List TouchFrame → Recorder → Recorder
append_touches room user frames r = record r {
  inflight = modify room user (add_touches frames) r.inflight;
}

unfoldable pub append_judges : ℕ → ℕ → List JudgeEvent → Recorder → Recorder
append_judges room user events r = record r {
  inflight = modify room user (add_judges events) r.inflight;
}

unfoldable pub with_record_id : ℤ → InFlight → InFlight
with_record_id n it = record it { record_id = n }

unfoldable pub set_record_id : ℕ → ℕ → ℤ → Recorder → Recorder
set_record_id room user n r = record r { inflight = modify room user (with_record_id n) r.inflight }

unfoldable pub cons_some {ℓ} : {A : Type ℓ} → Option A → List A → List A
cons_some none xs = xs
cons_some (some a) xs = a ∷ xs

unfoldable pub snapshots : ℕ → List ℕ → List InFlight → List InFlight
snapshots room [] entries = []
snapshots room (k ∷ ks) entries = cons_some (get room k entries) (snapshots room ks entries)

unfoldable pub delete_keys : ℕ → List ℕ → List InFlight → List InFlight
delete_keys room [] entries = entries
delete_keys room (k ∷ ks) entries = delete_keys room ks (delete_key room k entries)

unfoldable pub header_of : InFlight → ReplayHeader
header_of it = record {
  record_id = it.record_id;
  timestamp = it.timestamp;
  chart_id = it.chart_id;
  chart_name = it.chart_name;
  user_id = pos it.user_id;
  user_name = it.user_name;
}

-- Whether the disk makes the directory of a player and a chart under a root, and writes a file.
pub record Disk : Type 0 where
  pub makes_dir : List ℕ → ℕ → ℤ → Bool
  pub writes : FilePath → Bool

-- `writeRecordFile`: what is written, `none` for an error. The directory is made under the present root,
-- the path was fixed at the start.
unfoldable pub write_record_file : Compression → Disk → List ℕ → InFlight → Option (List ℕ)
write_record_file c disk root it =
    if not (disk.makes_dir root it.user_id it.chart_id)
    then none
    else elim (record_file c (header_of it) it.touches it.judges) [
      | none ↦ none
      | some out ↦ if not (disk.writes it.path) then none else some out
    ]

unfoldable pub add_written :
    InFlight → Option (List ℕ) → List (FileInfo × List ℕ) → List (FileInfo × List ℕ)
add_written it none files = files
add_written it (some file) files = (info it, file) ∷ files

unfoldable pub write_all : Compression → Disk → List ℕ → List InFlight → List (FileInfo × List ℕ)
write_all c disk root [] = []
write_all c disk root (it ∷ rest) =
    add_written it (write_record_file c disk root it) (write_all c disk root rest)

unfoldable pub info_only : FileInfo × List ℕ → FileInfo
info_only (i, file) = i

-- The recorder, and the files that are written.
unfoldable pub end_room : Compression → Disk → ℕ → Recorder → Recorder × List (FileInfo × List ℕ)
end_room c disk room r =
    let keys = value_at room r.keys_by_room in
    let files = write_all c disk r.root_dir (snapshots room keys r.inflight) in
    (
      record r {
        inflight = delete_keys room keys r.inflight;
        keys_by_room = delete_at room r.keys_by_room;
        completed = set_at room (map info_only files) r.completed;
      },
      files,
    )

unfoldable pub list_room_files : ℕ → Recorder → List FileInfo
list_room_files room r =
    let keys = value_at room r.keys_by_room in
    if no_entries keys then value_at room r.completed else map info (snapshots room keys r.inflight)

unfoldable pub clear_room_files : ℕ → Recorder → Recorder
clear_room_files room r = record r { completed = delete_at room r.completed }

unfoldable pub set_base_dir : List ℕ → Recorder → Recorder
set_base_dir dir r = record r { root_dir = dir }

unfoldable pub rooms_of : List (ℕ × List ℕ) → List ℕ
rooms_of [] = []
rooms_of ((room, ks) ∷ rest) = room ∷ rooms_of rest

unfoldable pub end_rooms :
    Compression → Disk → List ℕ → Recorder → Recorder × List (FileInfo × List ℕ)
end_rooms c disk [] r = (r, [])
end_rooms c disk (room ∷ rooms) r =
    let (r2, files) = end_room c disk room r in
    let (r3, more) = end_rooms c disk rooms r2 in (r3, files ++ more)

unfoldable pub close_all : Compression → Disk → Recorder → Recorder × List (FileInfo × List ℕ)
close_all c disk r = end_rooms c disk (rooms_of r.keys_by_room) r

-- What the recorder knows of the identity of its monitor: `system_user_name` once it was fetched.
pub record Identity : Type 0 where
  pub system_user_id : ℤ
  pub fake_monitor_id : ℤ
  pub system_user_name : Option (List ℕ)

unfoldable pub name_or : Option (List ℕ) → List ℕ → List ℕ
name_or none fallback = fallback
name_or (some name) fallback = name

unfoldable pub fake_monitor_info : Identity → List ℕ → UserInfo
fake_monitor_info i fallback_name =
    if not (leb_ℤ i.system_user_id (pos 0))
    then record {
      id = i.system_user_id;
      name = name_or i.system_user_name fallback_name;
      monitor = true;
    }
    else record { id = i.fake_monitor_id; name = fallback_name; monitor = true }
