-- ===== src/Replay/Recording.antt =====
-- What a room that is being recorded keeps of a player, from its start over any calls.
use gooophira_mp.Prelude.{
  ℕ, ◌≡◌, refl, ◌∙◌, true, false, not, inl, inr, some, List, [], ◌∷◌, ◌++◌, append_assoc,
  append-nil, arith, Bool-cases, All, if-cases,
}
use gooophira_mp.Prelude.Int.{ℤ, pos}
use gooophira_mp.Protocol.Commands.{TouchFrame, JudgeEvent}
use gooophira_mp.Replay.Format.{Compression, ReplayHeader}
use gooophira_mp.Replay.Recorder.{
  FilePath, Recorder, Song, Participant, value_at, set_at, new_inflight, keys_of, no_entries,
  has_number, start_room, append_touches, append_judges, set_record_id, end_room, clear_room_files,
  set_base_dir, header_of, add_touches, add_judges, with_record_id,
}
use gooophira_mp.Replay.Entries.{
  same_key, name_of, get-start_users, name_of-has_number, value_at-set_at,
}
use gooophira_mp.Replay.Calls.{
  Call, start, touches, judges, record_number, finish, clear_files, base_dir, call, run, GoesOn,
  touches_of, judges_of, number_of, IsEntry, IsRecording, modify-own, modify-other, start-other,
  finish-other, add_touches-IsEntry, add_judges-IsEntry, with_record_id-IsEntry,
  add_touches-has_key, add_judges-has_key, with_record_id-has_key,
}

module _ (c : Compression) (room user : ℕ) (ks : List ℕ) (some_keys : no_entries ks ≡ false)
    (h : ReplayHeader) (path : FilePath) where
  pub run-IsRecording :
      (calls : List Call) (n : ℤ) (ts : List TouchFrame) (js : List JudgeEvent) (r : Recorder)
      → All (GoesOn room) calls
      → IsRecording room user ks h path n ts js r
      → IsRecording room user ks h path
          (number_of n room user calls)
          (ts ++ touches_of room user calls)
          (js ++ judges_of room user calls)
          (run c calls r)
  unfolding run call number_of touches_of judges_of append_touches append_judges set_record_id
      clear_room_files set_base_dir
  run-IsRecording [] n ts js r on s = rw (append-nil ts, append-nil js) s
  run-IsRecording (start q song users now ∷ calls) n ts js r (_, on) s =
      run-IsRecording calls n ts js (start_room q song users now r) on
        (start-other room user ks h path n ts js r s q song users now some_keys)
  run-IsRecording (touches q u frames ∷ calls) n ts js r (_, on) s =
      elim (Bool-cases (same_key room user q u)) [
        | inl own ↦
            rw (own, ← append_assoc ts frames (touches_of room user calls))
              (run-IsRecording calls n (ts ++ frames) js (append_touches q u frames r) on (
                modify-own room user ks h path n ts js r s (add_touches frames) n (ts ++ frames) js
                  q u (add_touches-has_key frames) own
                  (add_touches-IsEntry h path n ts js s.it frames s.entry)))
        | inr other ↦ rw other (
            run-IsRecording calls n ts js (append_touches q u frames r) on (
              modify-other room user ks h path n ts js r s (add_touches frames) q u
                (add_touches-has_key frames) other))
      ]
  run-IsRecording (judges q u events ∷ calls) n ts js r (_, on) s =
      elim (Bool-cases (same_key room user q u)) [
        | inl own ↦
            rw (own, ← append_assoc js events (judges_of room user calls))
              (run-IsRecording calls n ts (js ++ events) (append_judges q u events r) on (
                modify-own room user ks h path n ts js r s (add_judges events) n ts (js ++ events) q
                  u (add_judges-has_key events) own
                  (add_judges-IsEntry h path n ts js s.it events s.entry)))
        | inr other ↦ rw other (
            run-IsRecording calls n ts js (append_judges q u events r) on (
              modify-other room user ks h path n ts js r s (add_judges events) q u
                (add_judges-has_key events) other))
      ]
  run-IsRecording (record_number q u m ∷ calls) n ts js r (_, on) s =
      elim (Bool-cases (same_key room user q u)) [
        | inl own ↦ rw own (
            run-IsRecording calls m ts js (set_record_id q u m r) on (
              modify-own room user ks h path n ts js r s (with_record_id m) m ts js q u
                (with_record_id-has_key m) own
                (with_record_id-IsEntry h path n m ts js s.it s.entry)))
        | inr other ↦ rw other (
            run-IsRecording calls n ts js (set_record_id q u m r) on (
              modify-other room user ks h path n ts js r s (with_record_id m) q u
                (with_record_id-has_key m) other))
      ]
  run-IsRecording (finish q disk ∷ calls) n ts js r (other, on) s =
      run-IsRecording calls n ts js ((end_room c disk q r).0) on
        (finish-other room user ks h path n ts js r s c disk q other)
  run-IsRecording (clear_files q ∷ calls) n ts js r (_, on) s =
      run-IsRecording calls n ts js (clear_room_files q r) on
        (record { it = s.it; there = s.there; keys = s.keys; entry = s.entry })
  run-IsRecording (base_dir dir ∷ calls) n ts js r (_, on) s =
      run-IsRecording calls n ts js (set_base_dir dir r) on
        (record { it = s.it; there = s.there; keys = s.keys; entry = s.entry })

-- The header and the path of the file of a player, from what the room started with.
unfoldable pub header_at : Song → ℤ → ℕ → List ℕ → ReplayHeader
header_at song now user name = record {
  record_id = pos 0;
  timestamp = now;
  chart_id = song.song_chart;
  chart_name = song.song_name;
  user_id = pos user;
  user_name = name;
}

unfoldable pub path_at : List ℕ → Song → ℤ → ℕ → FilePath
path_at base song now user = record {
  base_dir = base;
  path_user = user;
  path_chart = song.song_chart;
  path_time = now;
}

new_inflight-IsEntry :
    (base : List ℕ) (room : ℕ) (song : Song) (now : ℤ) (user : ℕ) (name : List ℕ)
    → IsEntry
        (header_at song now user name)
        (path_at base song now user)
        (pos 0)
        []
        []
        (new_inflight base room song now user name)
unfolding new_inflight header_at path_at header_of
new_inflight-IsEntry base room song now user name = record {
  header = refl;
  place = refl;
  touched = refl;
  judged = refl;
}

pub not_empty : (user : ℕ) (ks : List ℕ) → has_number user ks ≡ true → no_entries ks ≡ false
unfolding has_number no_entries
not_empty user [] h = absurd (cc h)
not_empty user (k ∷ ks) h = refl

set-keys :
    (room : ℕ) (ks : List ℕ) (m : List (ℕ × List ℕ))
    → no_entries ks ≡ false
    → value_at room (set_at room ks m) ≡ ks
unfolding no_entries
set-keys room [] m h = absurd (cc h)
set-keys room (k ∷ ks) m h = value_at-set_at room k ks m

pub start_room-IsRecording :
    (room user : ℕ) (song : Song) (users : List Participant) (now : ℤ) (name : List ℕ)
    (r : Recorder)
    → no_entries (value_at room r.keys_by_room) ≡ true
    → name_of user users ≡ some name
    → IsRecording room user
        (keys_of users)
        (header_at song now user name)
        (path_at r.root_dir song now user)
        (pos 0)
        []
        []
        (start_room room song users now r)
unfolding start_room
start_room-IsRecording room user song users now name r free named =
    let some_keys = not_empty user (keys_of users) (name_of-has_number user users name named) in
    if-cases
      (IsRecording room user (keys_of users) (header_at song now user name)
        (path_at r.root_dir song now user) (pos 0) [] [])
      (not (no_entries (value_at room r.keys_by_room)))
      (λ busy. absurd (ground (arith, busy, free)))
      (λ h. record {
        it = new_inflight r.root_dir room song now user name;
        there = get-start_users r.root_dir room song now users user r.inflight ∙ rw named refl;
        keys = set-keys room (keys_of users) r.keys_by_room some_keys;
        entry = new_inflight-IsEntry r.root_dir room song now user name;
      })
