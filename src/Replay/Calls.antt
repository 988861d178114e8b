-- ===== src/Replay/Calls.antt =====
-- Calls of the recorder while a room is recorded.
use gooophira_mp.Prelude.{
  ℕ, zero, suc, ◌-◌, ◌≤◌, ◌≡◌, refl, sym, ap, ◌∙◌, true, false, not, inl, inr, some, List, [], ◌∷◌,
  ◌++◌, ◌==◌, if◌then◌else◌, length, take, if-cases, append-nil, arith, Bool-cases,
}
use gooophira_mp.Prelude.Int.{ℤ}
use gooophira_mp.Protocol.Commands.{TouchFrame, JudgeEvent}
use gooophira_mp.Replay.Format.{Compression, ReplayHeader}
use gooophira_mp.Replay.Recorder.{
  FilePath, InFlight, Recorder, Song, Participant, has_key, get, modify, value_at, keys_of,
  no_entries, add_touches, add_judges, with_record_id, start_room, append_touches, append_judges,
  Disk, set_record_id, end_room, clear_room_files, set_base_dir, header_of,
}
use gooophira_mp.Replay.Entries.{
  same_key, get-modify, get-delete_keys_other, value_at-delete_at_other, value_at-set_at_other,
  get-start_users_other,
}

pub data Call : Type 0 where
  start : ℕ → Song → List Participant → ℤ → Call
  touches : ℕ → ℕ → List TouchFrame → Call
  judges : ℕ → ℕ → List JudgeEvent → Call
  record_number : ℕ → ℕ → ℤ → Call
  finish : ℕ → Disk → Call
  clear_files : ℕ → Call
  base_dir : List ℕ → Call

unfoldable pub call : Compression → Call → Recorder → Recorder
call c (start room song users now) r = start_room room song users now r
call c (touches room user frames) r = append_touches room user frames r
call c (judges room user events) r = append_judges room user events r
call c (record_number room user n) r = set_record_id room user n r
call c (finish room disk) r = (end_room c disk room r).0
call c (clear_files room) r = clear_room_files room r
call c (base_dir dir) r = set_base_dir dir r

unfoldable pub run : Compression → List Call → Recorder → Recorder
run c [] r = r
run c (a ∷ calls) r = run c calls (call c a r)

-- The recording of a room is not ended.
abbrev pub GoesOn : ℕ → Call → Type 0
GoesOn room (finish r disk) = (r == room) ≡ false
GoesOn room (start r song users now) = 0 ≤ 0
GoesOn room (touches r u frames) = 0 ≤ 0
GoesOn room (judges r u events) = 0 ≤ 0
GoesOn room (record_number r u n) = 0 ≤ 0
GoesOn room (clear_files r) = 0 ≤ 0
GoesOn room (base_dir dir) = 0 ≤ 0

-- All that the calls append for a player, and the last number that they set.
unfoldable pub touches_of : ℕ → ℕ → List Call → List TouchFrame
touches_of room user [] = []
touches_of room user (touches r u frames ∷ calls) =
    let rest = touches_of room user calls in if same_key room user r u then frames ++ rest else rest
touches_of room user (start r song users now ∷ calls) = touches_of room user calls
touches_of room user (judges r u events ∷ calls) = touches_of room user calls
touches_of room user (record_number r u n ∷ calls) = touches_of room user calls
touches_of room user (finish r disk ∷ calls) = touches_of room user calls
touches_of room user (clear_files r ∷ calls) = touches_of room user calls
touches_of room user (base_dir dir ∷ calls) = touches_of room user calls

unfoldable pub judges_of : ℕ → ℕ → List Call → List JudgeEvent
judges_of room user [] = []
judges_of room user (judges r u events ∷ calls) =
    let rest = judges_of room user calls in if same_key room user r u then events ++ rest else rest
judges_of room user (start r song users now ∷ calls) = judges_of room user calls
judges_of room user (touches r u frames ∷ calls) = judges_of room user calls
judges_of room user (record_number r u n ∷ calls) = judges_of room user calls
judges_of room user (finish r disk ∷ calls) = judges_of room user calls
judges_of room user (clear_files r ∷ calls) = judges_of room user calls
judges_of room user (base_dir dir ∷ calls) = judges_of room user calls

unfoldable pub number_of : ℤ → ℕ → ℕ → List Call → ℤ
number_of old room user [] = old
number_of old room user (record_number r u n ∷ calls) =
    number_of (if same_key room user r u then n else old) room user calls
number_of old room user (start r song users now ∷ calls) = number_of old room user calls
number_of old room user (touches r u frames ∷ calls) = number_of old room user calls
number_of old room user (judges r u events ∷ calls) = number_of old room user calls
number_of old room user (finish r disk ∷ calls) = number_of old room user calls
number_of old room user (clear_files r ∷ calls) = number_of old room user calls
number_of old room user (base_dir dir ∷ calls) = number_of old room user calls

abbrev pub with_number : ℤ → ReplayHeader → ReplayHeader
with_number n h = record h { record_id = n }

-- The entry of a player: what was appended so far, up to the bound.
pub record IsEntry (h : ReplayHeader) (path : FilePath) (n : ℤ) (ts : List TouchFrame)
    (js : List JudgeEvent) (it : InFlight) : Type 0 where
  pub header : header_of it ≡ with_number n h
  pub place : it.path ≡ path
  pub touched : it.touches ≡ take 15000 ts
  pub judged : it.judges ≡ take 15000 js

-- The list with more behind it, cut at the bound.
take-append_cut {ℓ} :
    {A : Type ℓ} (n : ℕ) (xs ys : List A)
    → take n xs ++ take (n - length (take n xs)) ys ≡ take n (xs ++ ys)
take-append_cut zero xs ys = refl
take-append_cut (suc n) [] ys =
    let whole : suc n - 0 ≡ suc n = omega arith in ap (λ (k : ℕ). take k ys) whole
take-append_cut (suc n) (x ∷ xs) ys =
    let less : suc n - suc (length (take n xs)) ≡ n - length (take n xs) = omega arith in
    ap (λ (k : ℕ). x ∷ take n xs ++ take k ys) less ∙ ap (◌∷◌ x) (take-append_cut n xs ys)

full_take {ℓ} :
    {A : Type ℓ} (n : ℕ) (xs ys : List A)
    → n - length (take n xs) ≡ 0
    → take n xs ≡ take n (xs ++ ys)
full_take n xs ys full =
    sym (ap (λ (k : ℕ). take n xs ++ take k ys) full ∙ append-nil (take n xs))
    ∙ take-append_cut n xs ys

pub add_touches-IsEntry :
    (h : ReplayHeader) (path : FilePath) (n : ℤ) (ts : List TouchFrame) (js : List JudgeEvent)
    (it : InFlight) (frames : List TouchFrame)
    → IsEntry h path n ts js it
    → IsEntry h path n (ts ++ frames) js (add_touches frames it)
unfolding add_touches header_of
add_touches-IsEntry h path n ts js it frames e =
    if-cases (IsEntry h path n (ts ++ frames) js) (15000 - length it.touches == 0)
      (λ full. record {
        header = e.header;
        place = e.place;
        touched = e.touched ∙ full_take 15000 ts frames (ground (arith, full, ap length e.touched));
        judged = e.judged;
      })
      (λ room. record {
        header = e.header;
        place = e.place;
        touched =
            ap (λ (l : List TouchFrame). l ++ take (15000 - length l) frames) e.touched
            ∙ take-append_cut 15000 ts frames;
        judged = e.judged;
      })

pub add_judges-IsEntry :
    (h : ReplayHeader) (path : FilePath) (n : ℤ) (ts : List TouchFrame) (js : List JudgeEvent)
    (it : InFlight) (events : List JudgeEvent)
    → IsEntry h path n ts js it
    → IsEntry h path n ts (js ++ events) (add_judges events it)
unfolding add_judges header_of
add_judges-IsEntry h path n ts js it events e =
    if-cases (IsEntry h path n ts (js ++ events)) (15000 - length it.judges == 0)
      (λ full. record {
        header = e.header;
        place = e.place;
        touched = e.touched;
        judged = e.judged ∙ full_take 15000 js events (ground (arith, full, ap length e.judged));
      })
      (λ room. record {
        header = e.header;
        place = e.place;
        touched = e.touched;
        judged =
            ap (λ (l : List JudgeEvent). l ++ take (15000 - length l) events) e.judged
            ∙ take-append_cut 15000 js events;
      })

pub with_record_id-IsEntry :
    (h : ReplayHeader) (path : FilePath) (n m : ℤ) (ts : List TouchFrame) (js : List JudgeEvent)
    (it : InFlight)
    → IsEntry h path n ts js it
    → IsEntry h path m ts js (with_record_id m it)
unfolding with_record_id header_of
with_record_id-IsEntry h path n m ts js it e = record {
  header = ap (with_number m) e.header;
  place = e.place;
  touched = e.touched;
  judged = e.judged;
}

-- A room that is recorded, with the keys that it started with, and the entry of a player.
pub record IsRecording (room user : ℕ) (ks : List ℕ) (h : ReplayHeader) (path : FilePath) (n : ℤ)
    (ts : List TouchFrame) (js : List JudgeEvent) (r : Recorder) : Type 0 where
  pub it : InFlight
  pub there : get room user r.inflight ≡ some it
  pub keys : value_at room r.keys_by_room ≡ ks
  pub entry : IsEntry h path n ts js it

pub add_touches-has_key :
    (frames : List TouchFrame) (room user : ℕ) (it : InFlight)
    → has_key room user (add_touches frames it) ≡ has_key room user it
unfolding has_key add_touches
add_touches-has_key frames room user it = ground arith

pub add_judges-has_key :
    (events : List JudgeEvent) (room user : ℕ) (it : InFlight)
    → has_key room user (add_judges events it) ≡ has_key room user it
unfolding has_key add_judges
add_judges-has_key events room user it = ground arith

pub with_record_id-has_key :
    (n : ℤ) (room user : ℕ) (it : InFlight)
    → has_key room user (with_record_id n it) ≡ has_key room user it
unfolding has_key with_record_id
with_record_id-has_key n room user it = refl

module _ (room user : ℕ) (ks : List ℕ) (h : ReplayHeader) (path : FilePath) (n : ℤ)
    (ts : List TouchFrame) (js : List JudgeEvent) (r : Recorder)
    (s : IsRecording room user ks h path n ts js r) where
  -- A change of the player's own entry, or of another one.
  pub modify-own :
      (f : InFlight → InFlight) (m : ℤ) (ts2 : List TouchFrame) (js2 : List JudgeEvent) (q u : ℕ)
      → ((room user : ℕ) (it : InFlight) → has_key room user (f it) ≡ has_key room user it)
      → same_key room user q u ≡ true
      → IsEntry h path m ts2 js2 (f s.it)
      → IsRecording room user ks h path m ts2 js2 (record r { inflight = modify q u f r.inflight })
  modify-own f m ts2 js2 q u same own e = record {
    it = f s.it;
    there = get-modify room user q u f r.inflight same ∙ rw (own, s.there) refl;
    keys = s.keys;
    entry = e;
  }

  pub modify-other :
      (f : InFlight → InFlight) (q u : ℕ)
      → ((room user : ℕ) (it : InFlight) → has_key room user (f it) ≡ has_key room user it)
      → same_key room user q u ≡ false
      → IsRecording room user ks h path n ts js (record r { inflight = modify q u f r.inflight })
  modify-other f q u same other = record {
    it = s.it;
    there = get-modify room user q u f r.inflight same ∙ rw other s.there;
    keys = s.keys;
    entry = s.entry;
  }

  pub start-other :
      (q : ℕ) (song : Song) (users : List Participant) (now : ℤ)
      → no_entries ks ≡ false
      → IsRecording room user ks h path n ts js (start_room q song users now r)
  unfolding start_room
  start-other q song users now some_keys =
      if-cases (IsRecording room user ks h path n ts js)
        (not (no_entries (value_at q r.keys_by_room))) (λ busy. s)
        (λ free.
          let other = other_room q some_keys free in
          record {
            it = s.it;
            there =
                get-start_users_other r.root_dir q song now users room user r.inflight other
                ∙ s.there;
            keys = value_at-set_at_other room q (keys_of users) r.keys_by_room other ∙ s.keys;
            entry = s.entry;
          })
    where
      other_room :
          (q : ℕ)
          → no_entries ks ≡ false
          → not (no_entries (value_at q r.keys_by_room)) ≡ false
          → (q == room) ≡ false
      other_room q some_keys free = elim (Bool-cases (q == room)) [
        | inl same ↦
            let e : q ≡ room = ground (arith, same) in
            let at : value_at q r.keys_by_room ≡ ks = rw e s.keys in
            absurd (ground (arith, free, some_keys, ap no_entries at))
        | inr h ↦ h
      ]

  pub finish-other :
      (c : Compression) (disk : Disk) (q : ℕ)
      → (q == room) ≡ false
      → IsRecording room user ks h path n ts js ((end_room c disk q r).0)
  unfolding end_room
  finish-other c disk q other = record {
    it = s.it;
    there =
        get-delete_keys_other room user q (value_at q r.keys_by_room) r.inflight other ∙ s.there;
    keys = value_at-delete_at_other room q r.keys_by_room other ∙ s.keys;
    entry = s.entry;
  }
