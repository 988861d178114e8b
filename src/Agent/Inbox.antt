-- ===== src/Agent/Inbox.antt =====
-- The log of received events of internal/agent/inbox/store.go. The log and the baseline are files: the
-- log is its bytes, the baseline its number, 0 for none. Envelopes, JSON and CRC-32 are those of
-- the outbox. What the disk does is an argument of each operation that writes. A log that cannot be
-- read or cut at all makes `Open` fail before there is a store.
pub mod Records
pub mod Stored
pub mod Kept
pub mod Runs
pub mod Reads
mod Tests
use gooophira_mp.Prelude.{
  ℕ, suc, zero, ◌+◌, ◌-◌, ◌%◌, ◌^◌, Bool, true, false, ◌||◌, ◌&&◌, not, Option, none, some, List,
  [], ◌∷◌, ◌++◌, ltb, leb, ◌==◌, if◌then◌else◌, length, take, drop,
}
use gooophira_mp.Protocol.Uuid.{big_endian_from, be_bytes}
use gooophira_mp.Agent.Outbox.{
  Envelope, Format, Write, max_record_size, header_size, u64, encode_record,
}
use gooophira_mp.Agent.Outbox.Recovery.{split_data}

pub data InboxError : Type 0 where
  inbox_not_empty : InboxError
  cursor_outside : InboxError
  limit_not_positive : InboxError
  invalid_record : InboxError
  identity_changed : InboxError
  sequence_gap : InboxError
  record_too_large : InboxError
  inbox_full : InboxError
  disk_error : InboxError

-- `file` and `baseline_file` are on the disk, the other fields in memory. `is_open` is `s.file != nil`.
pub record Store : Type 0 where
  pub max_bytes : ℕ
  pub file : List ℕ
  pub baseline_file : ℕ
  pub bytes : ℕ
  pub baseline : ℕ
  pub last : ℕ
  pub ids : List (ℕ × List ℕ)
  pub failed : Bool
  pub is_open : Bool

unfoldable pub same_text : List ℕ → List ℕ → Bool
same_text [] [] = true
same_text [] (b ∷ bs) = false
same_text (a ∷ rest) [] = false
same_text (a ∷ rest) (b ∷ bs) = (a == b) && same_text rest bs

-- `s.ids[sequence]`, the empty text for a number that is not there.
unfoldable pub id_at : ℕ → List (ℕ × List ℕ) → List ℕ
id_at sequence [] = []
id_at sequence ((n, id) ∷ ids) = let rest = id_at sequence ids in if n == sequence then id else rest

abbrev pub encode : Format → Envelope → Option (List ℕ)
encode f e = encode_record f e

-- What stands at the start of some bytes: nothing, no whole record, or an event and what follows.
pub data Found : Type 0 where
  at_end : Found
  damaged : Found
  found : Envelope → List ℕ → Found

unfoldable pub decode : Format → ℕ → List ℕ × List ℕ → Found
decode f sum (bs, rest) =
    if not (f.checksum bs == sum)
    then damaged
    else elim (f.unmarshal bs) [ none ↦ damaged | some e ↦ found e rest ]

unfoldable pub read_data : Format → ℕ → ℕ → List ℕ → Found
read_data f len sum rest =
    if (len == 0) || ltb max_record_size len
    then damaged
    else elim (split_data len rest) [ none ↦ damaged | some p ↦ decode f sum p ]

unfoldable pub read_event : Format → List ℕ → Found
read_event f bytes =
    if ltb (length bytes) header_size
    then if length bytes == 0 then at_end else damaged
    else read_data f (big_endian_from 0 (take 4 bytes)) (big_endian_from 0 (take 4 (drop 4 bytes)))
        (drop header_size bytes)

-- One round of `recover`: `none` where the loop ends, be it with `truncate` or without.
unfoldable pub is_expected : ℕ → Envelope → Bool
is_expected last e = (e.sequence == u64 (last + 1)) && not (length e.id == 0)

unfoldable pub step_of : ℕ → Found → Option (Envelope × List ℕ)
step_of last at_end = none
step_of last damaged = none
step_of last (found e rest) = if is_expected last e then some (e, rest) else none

unfoldable pub next_event : Format → ℕ → List ℕ → Option (Envelope × List ℕ)
next_event f last bytes = step_of last (read_event f bytes)

pub record Scan : Type 0 where
  pub offset : ℕ
  pub last : ℕ
  pub ids : List (ℕ × List ℕ)

unfoldable pub take_event : Envelope → ℕ → Scan → Scan
take_event e size s = record {
  offset = s.offset + size;
  last = e.sequence;
  ids = (e.sequence, e.id) ∷ s.ids;
}

-- A round reads eight bytes at least, so the length of the log is fuel enough.
unfoldable pub recover_loop : Format → ℕ → List ℕ → Scan → Scan
recover_loop f zero bytes s = s
recover_loop f (suc fuel) bytes s = elim (next_event f s.last bytes) [
  | none ↦ s
  | some (e, rest) ↦ recover_loop f fuel rest (take_event e (length bytes - length rest) s)
]

unfoldable pub recover : Format → List ℕ → ℕ → Scan
recover f file baseline =
    recover_loop f (length file) file (record { offset = 0; last = baseline; ids = [] })

-- `Open` where these files stand; `none` for a bound that is too small. What `recover` did not read
-- is cut off.
unfoldable pub open_inbox : Format → ℕ → List ℕ → ℕ → Option Store
open_inbox f max_bytes file baseline =
    let scan = recover f file baseline in
    if ltb max_bytes max_record_size
    then none
    else some (record {
      max_bytes = max_bytes;
      file = take scan.offset file;
      baseline_file = baseline;
      bytes = scan.offset;
      baseline = baseline;
      last = scan.last;
      ids = scan.ids;
      failed = false;
      is_open = true;
    })

-- What the replacing of the baseline does: all succeeds; the old one stays; it is replaced, and what
-- comes after that fails.
pub data Replace : Type 0 where
  replaced : Replace
  not_replaced : Replace
  replaced_only : Replace

unfoldable pub write_baseline : Replace → ℕ → Store → Store × Option InboxError
write_baseline replaced sequence s =
    (record s { baseline_file = sequence; last = sequence; baseline = sequence }, none)
write_baseline not_replaced sequence s = (s, some disk_error)
write_baseline replaced_only sequence s = (record s { baseline_file = sequence }, some disk_error)

unfoldable pub set_baseline : Replace → ℕ → Store → Store × Option InboxError
set_baseline d sequence s =
    if leb sequence s.last
    then (s, none)
    else if not (length s.ids == 0) || not (s.bytes == 0)
    then (s, some inbox_not_empty)
    else write_baseline d sequence s

-- A file that was closed takes no byte.
unfoldable pub on_file : Bool → Write → Write
on_file true w = w
on_file false w = Write.cut_short 0

unfoldable pub write_event : Write → Envelope → List ℕ → Store → Store × Option InboxError
write_event Write.written e r s = (
  record s {
    file = s.file ++ r;
    bytes = s.bytes + length r;
    last = e.sequence;
    ids = (e.sequence, e.id) ∷ s.ids;
  },
  none,
)
write_event (Write.cut_short n) e r s =
    (record s { file = s.file ++ take n r; failed = true }, some disk_error)
write_event Write.not_flushed e r s =
    (record s { file = s.file ++ r; failed = true }, some disk_error)

-- A number that is there already: the same event again, or another.
unfoldable pub accept_again : Envelope → Store → Store × Option InboxError
accept_again e s =
    if not (same_text (id_at e.sequence s.ids) e.id) then (s, some identity_changed) else (s, none)

unfoldable pub accept_next : Format → Write → Envelope → Store → Store × Option InboxError
accept_next f w e s = elim (encode f e) [
  | none ↦ (s, some record_too_large)
  | some r ↦
      if ltb s.max_bytes (s.bytes + length r)
      then (s, some inbox_full)
      else write_event (on_file s.is_open w) e r s
]

unfoldable pub accept_event : Format → Write → Envelope → Store → Store × Option InboxError
accept_event f w e s =
    if leb e.sequence s.last
    then accept_again e s
    else if not (e.sequence == u64 (s.last + 1))
    then (s, some sequence_gap)
    else accept_next f w e s

-- `d` is what the disk does for the record of each number.
unfoldable pub accept_events :
    Format → (ℕ → Write) → List Envelope → Store → Store × Option InboxError
accept_events f d [] s = (s, none)
accept_events f d (e ∷ es) s =
    let (t, result) = accept_event f (d e.sequence) e s in
    elim result [ none ↦ accept_events f d es t | some error ↦ (t, some error) ]

-- `Accept` answers with `last` of the store it leaves, and the error.
unfoldable pub accept : Format → (ℕ → Write) → List Envelope → Store → Store × Option InboxError
accept f d events s = if s.failed then (s, some disk_error) else accept_events f d events s

unfoldable pub close : Store → Store
close s = record s { is_open = false }

pub data Batch : Type 0 where
  batch : List Envelope → Batch
  refused : InboxError → Batch

-- The loop of `ReadAfter` over what is left of the file; a round reads eight bytes at least.
unfoldable pub read_loop : Format → ℕ → ℕ → ℕ → List ℕ → List Envelope → Batch
read_loop f sequence limit zero bytes out = batch out
read_loop f sequence limit (suc fuel) bytes out =
    if not (ltb (length out) limit) then batch out else elim (read_event f bytes) [
      | at_end ↦ batch out
      | damaged ↦ refused invalid_record
      | found e rest ↦
          read_loop f sequence limit fuel rest
            (if ltb sequence e.sequence then out ++ e ∷ [] else out)
    ]

unfoldable pub read_after : Format → ℕ → ℕ → Store → Batch
read_after f sequence limit s =
    if ltb sequence s.baseline || ltb s.last sequence
    then refused cursor_outside
    else if ltb limit 1
    then refused limit_not_positive
    else read_loop f sequence limit (length s.file) s.file []
