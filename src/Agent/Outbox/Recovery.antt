-- ===== src/Agent/Outbox/Recovery.antt =====
-- `recoverLog` and `Open` of internal/agent/outbox/store.go: the log is read from its start until
-- its end or a record that is damaged, and cut there.
use gooophira_mp.Prelude.{
  ℕ, suc, zero, ◌+◌, ◌-◌, Bool, true, false, ◌||◌, ◌&&◌, not, Option, none, some, List, [], ◌∷◌,
  ◌++◌, ltb, ◌==◌, if◌then◌else◌, length, take, drop,
}
use gooophira_mp.Protocol.Uuid.{big_endian_from}
use gooophira_mp.Agent.Outbox.{Envelope, Format, Store, max_record_size, header_size, u64}

unfoldable pub is_identified : Envelope → Bool
is_identified e = not (e.sequence == 0) && not (length e.id == 0)

-- The record's data, and what follows; `none` when the log ends before them.
unfoldable pub split_data : ℕ → List ℕ → Option (List ℕ × List ℕ)
split_data len rest = if ltb (length rest) len then none else some (take len rest, drop len rest)

unfoldable pub parse_data : Format → ℕ → List ℕ × List ℕ → Option (Envelope × List ℕ)
parse_data f sum (bs, rest) = if not (f.checksum bs == sum) then none else elim (f.unmarshal bs) [
  | none ↦ none
  | some e ↦ if is_identified e then some (e, rest) else none
]

-- What stands behind a header with that length and checksum.
unfoldable pub read_body : Format → ℕ → ℕ → List ℕ → Option (Envelope × List ℕ)
read_body f len sum rest =
    if (len == 0) || ltb max_record_size len
    then none
    else elim (split_data len rest) [ none ↦ none | some p ↦ parse_data f sum p ]

-- One round of the loop up to the order of the sequence numbers: `none` at the end of the log and
-- at a record that is cut short or damaged.
unfoldable pub read_record : Format → List ℕ → Option (Envelope × List ℕ)
read_record f bytes =
    if ltb (length bytes) header_size
    then none
    else read_body f (big_endian_from 0 (take 4 bytes)) (big_endian_from 0 (take 4 (drop 4 bytes)))
        (drop header_size bytes)

-- The variables of the loop; `previous` is `none` while `first` holds.
pub record Scan : Type 0 where
  pub offset : ℕ
  pub previous : Option ℕ
  pub latest : ℕ
  pub events : List Envelope

-- The first number may be any up to the one after the checkpoint, every other is the next.
unfoldable pub is_next : ℕ → Option ℕ → ℕ → Bool
is_next acked none sequence = not (ltb (u64 (acked + 1)) sequence)
is_next acked (some previous) sequence = sequence == u64 (previous + 1)

unfoldable pub take_event : ℕ → Envelope → ℕ → Scan → Scan
take_event acked e size s = record {
  offset = s.offset + size;
  previous = some e.sequence;
  latest = if ltb s.latest e.sequence then e.sequence else s.latest;
  events = if ltb acked e.sequence then s.events ++ e ∷ [] else s.events;
}

-- A round reads eight bytes at least, so the length of the log is fuel enough.
unfoldable pub recover_loop : Format → ℕ → ℕ → List ℕ → Scan → Scan
recover_loop f acked zero bytes s = s
recover_loop f acked (suc fuel) bytes s = elim (read_record f bytes) [
  | none ↦ s
  | some (e, rest) ↦ elim (is_next acked s.previous e.sequence) [
    | true ↦ recover_loop f acked fuel rest (take_event acked e (length bytes - length rest) s)
    | false ↦ s
  ]
]

unfoldable pub recover_log : Format → ℕ → List ℕ → Scan
recover_log f acked file =
    recover_loop f acked (length file) file
      (record { offset = 0; previous = none; latest = acked; events = [] })

-- `Open` on a directory with that log and checkpoint, `none` for a bound that is too small.
unfoldable pub open_store : Format → ℕ → List ℕ → ℕ → Option Store
open_store f max file checkpoint =
    let scan = recover_log f checkpoint file in
    if ltb max max_record_size
    then none
    else some (record {
      max = max;
      file = take scan.offset file;
      checkpoint = checkpoint;
      events = scan.events;
      acked = checkpoint;
      latest = scan.latest;
      bytes = scan.offset;
      dropped = 0;
      closed = false;
      failed = false;
    })
