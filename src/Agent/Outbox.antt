-- ===== src/Agent/Outbox.antt =====
-- The event log of internal/agent/outbox/store.go, with Envelope of
-- internal/common/agentproto/protocol.go. The log file is its bytes. JSON and CRC-32 are parameters.
-- What the disk does is an argument of each operation that writes: it obeys, or it fails at a point
-- that the source distinguishes. The checkpoint is replaced by a rename: the old number or the new.
pub mod Records
pub mod Recovery
pub mod Queue
pub mod Durable
pub mod Errors
mod Tests
use gooophira_mp.Prelude.{
  ℕ, suc, zero, ◌+◌, ◌-◌, ◌/◌, ◌%◌, ◌^◌, Bool, true, false, ◌||◌, not, Option, none, some, List, [],
  ◌∷◌, ◌++◌, ltb, leb, ◌==◌, if◌then◌else◌, length, take, drop,
}
use gooophira_mp.Protocol.Uuid.{big_endian_from, be_bytes}

-- Texts and the payload are their bytes.
pub record Envelope : Type 0 where
  pub version : ℕ
  pub id : List ℕ
  pub sequence : ℕ
  pub event_type : List ℕ
  pub created_at : ℕ
  pub payload : List ℕ

-- `json.Marshal` and `json.Unmarshal` of an envelope, `json.Marshal` of an EventsResponse, from its
-- acknowledged and its latest number and its events, and `crc32.ChecksumIEEE`.
pub record Format : Type 0 where
  pub marshal : Envelope → List ℕ
  pub marshal_response : ℕ → ℕ → List Envelope → List ℕ
  pub unmarshal : List ℕ → Option Envelope
  pub checksum : List ℕ → ℕ

abbrev pub max_record_size : ℕ
max_record_size = 2 ^ 20

abbrev pub header_size : ℕ
header_size = 8

pub data OutboxError : Type 0 where
  outbox_full : OutboxError
  ack_out_of_range : OutboxError
  outbox_closed : OutboxError
  disk_error : OutboxError
  record_too_large : OutboxError
  ack_mismatch : OutboxError
  limit_not_positive : OutboxError

pub data Priority : Type 0 where
  normal : Priority
  critical : Priority

-- `file` and `checkpoint` are on the disk, the other fields in memory.
pub record Store : Type 0 where
  pub max : ℕ
  pub file : List ℕ
  pub checkpoint : ℕ
  pub events : List Envelope
  pub acked : ℕ
  pub latest : ℕ
  pub bytes : ℕ
  pub dropped : ℕ
  pub closed : Bool
  pub failed : Bool

abbrev pub u64 : ℕ → ℕ
u64 n = n % 2 ^ 64

unfoldable pub encode_data : Format → List ℕ → List ℕ
encode_data f bs = be_bytes 4 (length bs) ++ (be_bytes 4 (f.checksum bs) ++ bs)

unfoldable pub encode_record : Format → Envelope → Option (List ℕ)
encode_record f e =
    let bs = f.marshal e in
    if ltb max_record_size (length bs) then none else some (encode_data f bs)

-- What the writing of a record does: all of it and the flush succeed; it fails after some bytes;
-- all bytes are there, and the flush fails.
pub data Write : Type 0 where
  written : Write
  cut_short : ℕ → Write
  not_flushed : Write

unfoldable pub limit_for : Priority → ℕ → ℕ
limit_for Priority.normal max = max - max / 4
limit_for Priority.critical max = max

unfoldable pub count_dropped : Priority → ℕ → ℕ
count_dropped Priority.normal dropped = u64 (dropped + 1)
count_dropped Priority.critical dropped = dropped

unfoldable pub write_record : Write → Envelope → List ℕ → Store → Store × Option OutboxError
write_record Write.written e record_bytes s = (
  record s {
    file = s.file ++ record_bytes;
    events = s.events ++ e ∷ [];
    latest = e.sequence;
    bytes = s.bytes + length record_bytes;
  },
  none,
)
write_record (Write.cut_short n) e record_bytes s =
    (record s { file = s.file ++ take n record_bytes; failed = true }, some OutboxError.disk_error)
write_record Write.not_flushed e record_bytes s =
    (record s { file = s.file ++ record_bytes; failed = true }, some OutboxError.disk_error)

unfoldable pub append_record :
    Priority → Write → Envelope → List ℕ → Store → Store × Option OutboxError
append_record priority w e record_bytes s =
    if ltb (limit_for priority s.max) (s.bytes + length record_bytes)
    then (record s { dropped = count_dropped priority s.dropped }, some OutboxError.outbox_full)
    else write_record w e record_bytes s

-- `Append`: the id, the clock and the JSON of the payload are given.
unfoldable pub new_envelope : ℕ → List ℕ → List ℕ → ℕ → List ℕ → Envelope
new_envelope latest id event_type now payload = record {
  version = 1;
  id = id;
  sequence = u64 (latest + 1);
  event_type = event_type;
  created_at = now;
  payload = payload;
}

unfoldable pub append_envelope :
    Format → Priority → Write → Envelope → Store → Store × Option OutboxError
append_envelope f priority w e s =
    if s.closed
    then (s, some OutboxError.outbox_closed)
    else if s.failed
    then (s, some OutboxError.disk_error)
    else elim (encode_record f e) [
      | none ↦ (s, some OutboxError.record_too_large)
      | some record_bytes ↦ append_record priority w e record_bytes s
    ]

unfoldable pub append :
    Format → List ℕ → List ℕ → ℕ → List ℕ → Priority → Write → Store → Store × Option OutboxError
append f id event_type now payload priority w s =
    append_envelope f priority w (new_envelope s.latest id event_type now payload) s

-- `Events`: the answer is at most `limit` pending events.
pub data Batch : Type 0 where
  batch : List Envelope → Batch
  refused : OutboxError → Batch

unfoldable pub events_after : ℕ → ℕ → Store → Batch
events_after after limit s =
    if not (after == s.acked)
    then refused OutboxError.ack_mismatch
    else if ltb limit 1
    then refused OutboxError.limit_not_positive
    else batch (take limit s.events)

-- `s.events[index+1:]` for the first event with that number, `none` for index < 0.
unfoldable pub events_behind : ℕ → List Envelope → Option (List Envelope)
events_behind sequence [] = none
events_behind sequence (e ∷ es) =
    let rest = events_behind sequence es in if e.sequence == sequence then some es else rest

unfoldable pub encode_all : Format → List Envelope → Option (List ℕ)
encode_all f [] = some []
encode_all f (e ∷ es) = elim (encode_record f e) [
  | none ↦ none
  | some r ↦ elim (encode_all f es) [ none ↦ none | some rs ↦ some (r ++ rs) ]
]

-- What the disk does with an acknowledgement: all succeeds; the checkpoint is not replaced; it is, and
-- what comes after that fails; the new log does not replace the old one; it does, and what comes after
-- that fails; all is done, and the new log cannot be opened for appending.
pub data Sync : Type 0 where
  synced : Sync
  no_checkpoint : Sync
  checkpoint_only : Sync
  not_replaced : Sync
  replaced_only : Sync
  not_reopened : Sync

unfoldable pub compact : Format → Sync → Store → Store × Option OutboxError
compact f d s = elim (encode_all f s.events) [
  | none ↦ (s, some OutboxError.record_too_large)
  | some log ↦ elim d [
    | Sync.synced ↦ (record s { file = log; bytes = length log }, none)
    | Sync.no_checkpoint ↦ (s, some OutboxError.disk_error)
    | Sync.checkpoint_only ↦ (s, some OutboxError.disk_error)
    | Sync.not_replaced ↦ (s, some OutboxError.disk_error)
    | Sync.replaced_only ↦ (record s { file = log }, some OutboxError.disk_error)
    | Sync.not_reopened ↦ (record s { file = log; bytes = length log }, some OutboxError.disk_error)
  ]
]

-- `writeCheckpoint`: what stands on the disk, and whether there is no error.
unfoldable pub write_checkpoint : Sync → ℕ → Store → Store × Bool
write_checkpoint Sync.no_checkpoint sequence s = (s, false)
write_checkpoint Sync.checkpoint_only sequence s = (record s { checkpoint = sequence }, false)
write_checkpoint Sync.synced sequence s = (record s { checkpoint = sequence }, true)
write_checkpoint Sync.not_replaced sequence s = (record s { checkpoint = sequence }, true)
write_checkpoint Sync.replaced_only sequence s = (record s { checkpoint = sequence }, true)
write_checkpoint Sync.not_reopened sequence s = (record s { checkpoint = sequence }, true)

-- The rest of `Ack`, when `rest` stands behind the event that was found.
unfoldable pub ack_found : Format → Sync → ℕ → List Envelope → Store → Store × Option OutboxError
ack_found f d sequence rest s =
    let (t, ok) = write_checkpoint d sequence s in
    if ok
    then compact f d (record t { acked = sequence; events = rest })
    else (t, some OutboxError.disk_error)

unfoldable pub ack : Format → Sync → ℕ → Store → Store × Option OutboxError
ack f d sequence s =
    if leb sequence s.acked
    then (s, none)
    else if ltb s.latest sequence
    then (s, some OutboxError.ack_out_of_range)
    else elim (events_behind sequence s.events) [
      | none ↦ (s, some OutboxError.ack_out_of_range)
      | some rest ↦ ack_found f d sequence rest s
    ]

unfoldable pub record_dropped_normal : Store → Store
record_dropped_normal s = record s { dropped = u64 (s.dropped + 1) }

unfoldable pub close : Store → Store
close s = record s { closed = true }
