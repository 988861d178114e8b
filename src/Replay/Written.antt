-- ===== src/Replay/Written.antt =====
-- The files that EndRoom of recorder.go writes hold one for each entry with a key.
use gooophira_mp.Prelude.{
  ℕ, suc, ◌≡◌, true, inl, inr, Option, none, some, List, [], ◌∷◌, ◌==◌, get_elem?, arith,
  Bool-cases,
}
use gooophira_mp.Replay.Format.{Compression}
use gooophira_mp.Replay.Recorder.{
  Disk, FileInfo, InFlight, get, has_number, snapshots, cons_some, write_record_file, write_all,
  add_written, info,
}

-- A file of a list of files.
abbrev pub IsAmong : FileInfo → List ℕ → List (FileInfo × List ℕ) → Type 0
IsAmong i file files = (k : ℕ) × (get_elem? files k ≡ some (i, file))

more-IsAmong :
    (i : FileInfo) (file : List ℕ) (it : InFlight) (o : Option (List ℕ))
    (files : List (FileInfo × List ℕ))
    → IsAmong i file files
    → IsAmong i file (add_written it o files)
unfolding add_written
more-IsAmong i file it none files (k, at) = (k, at)
more-IsAmong i file it (some other) files (k, at) = (suc k, at)

written-first :
    (it : InFlight) (file : List ℕ) (o : Option (List ℕ)) (files : List (FileInfo × List ℕ))
    → o ≡ some file
    → IsAmong (info it) file (add_written it o files)
unfolding add_written
written-first it file none files h = absurd (cc h)
written-first it file (some other) files h = (0, cc h)

cons-IsAmong :
    (c : Compression) (disk : Disk) (root : List ℕ) (i : FileInfo) (file : List ℕ)
    (o : Option InFlight) (entries : List InFlight)
    → IsAmong i file (write_all c disk root entries)
    → IsAmong i file (write_all c disk root (cons_some o entries))
unfolding write_all cons_some
cons-IsAmong c disk root i file none entries h = h
cons-IsAmong c disk root i file (some it) entries h =
    more-IsAmong i file it (write_record_file c disk root it) (write_all c disk root entries) h

here-IsAmong :
    (c : Compression) (disk : Disk) (root : List ℕ) (it : InFlight) (file : List ℕ)
    (o : Option InFlight) (entries : List InFlight)
    → o ≡ some it
    → write_record_file c disk root it ≡ some file
    → IsAmong (info it) file (write_all c disk root (cons_some o entries))
unfolding write_all cons_some
here-IsAmong c disk root it file none entries h w = absurd (cc h)
here-IsAmong c disk root it file (some x) entries h w =
    let same : x ≡ it = cc h in
    rw same
      (written-first it file (write_record_file c disk root it) (write_all c disk root entries) w)

-- Each entry with a key is written.
pub write_all-IsAmong :
    (c : Compression) (disk : Disk) (root : List ℕ) (room user : ℕ) (ks : List ℕ)
    (entries : List InFlight) (it : InFlight) (file : List ℕ)
    → has_number user ks ≡ true
    → get room user entries ≡ some it
    → write_record_file c disk root it ≡ some file
    → IsAmong (info it) file (write_all c disk root (snapshots room ks entries))
unfolding snapshots has_number
write_all-IsAmong c disk root room user [] entries it file h got w = absurd (cc h)
write_all-IsAmong c disk root room user (k ∷ ks) entries it file h got w =
    elim (Bool-cases (k == user)) [
      | inl same ↦
          let e : k ≡ user = ground (arith, same) in
          let at : get room k entries ≡ some it = rw e got in
          here-IsAmong c disk root it file (get room k entries) (snapshots room ks entries) at w
      | inr other ↦
          cons-IsAmong c disk root (info it) file (get room k entries) (snapshots room ks entries) (
            write_all-IsAmong c disk root room user ks entries it file (ground (arith, h, other))
              got w)
    ]
