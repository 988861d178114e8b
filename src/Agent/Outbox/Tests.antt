-- ===== src/Agent/Outbox/Tests.antt =====
-- The outbox on concrete inputs.
use Prim.Native.Nat.{max}
use gooophira_mp.Prelude.{◌+◌, ◌≤◌, ◌≡◌, refl, false, some, List, [], ◌∷◌, ◌++◌, length, arith, All}
use gooophira_mp.Protocol.Uuid.{be_bytes}
use gooophira_mp.Agent.Outbox.{
  Envelope, Store, Sync, OutboxError, Priority, Write, append_envelope, append_record, limit_for,
  encode_record, encode_data,
}
use gooophira_mp.Agent.Outbox.Recovery.{
  Scan, read_record, recover_log, recover_loop, open_store, is_identified,
}
use gooophira_mp.Agent.Outbox.Records.{Fits}
use gooophira_mp.Agent.Outbox.Queue.{IsTorn, log_of, pending, recover_log-log}
use gooophira_mp.Agent.Outbox.Durable.Runs.{Call, append_event, ack_events, restart, HasId, run}
use gooophira_mp.Agent.Outbox.Durable.Reopened.{IsReread, run-recovered}
use gooophira_mp.Agent.Outbox.Durable.Bounded.{run-length}
use gooophira_mp.Agent.Plain.{plain, marshal_plain, plain-IsFormat}
use gooophira_mp.Agent.Outbox.Errors.{append_envelope-refused, Refuses}

abbrev first_store : Store
first_store = record {
  max = 1048576;
  file = [];
  checkpoint = 0;
  events = [];
  acked = 0;
  latest = 0;
  bytes = 0;
  dropped = 0;
  closed = false;
  failed = false;
}

-- Two events, of which one is acknowledged while the disk fails late, and the other while only its checkpoint is written; a third is cut short; after the
-- restart a fourth is written and its flush fails.
abbrev history : List Call
history =
    append_event (1 ∷ []) (65 ∷ []) 100 (5 ∷ 6 ∷ []) Priority.critical Write.written
    ∷ append_event (2 ∷ []) (66 ∷ []) 101 [] Priority.normal Write.written
    ∷ ack_events 1 Sync.replaced_only
    ∷ ack_events 2 Sync.checkpoint_only
    ∷ append_event (3 ∷ []) (66 ∷ []) 102 [] Priority.normal (Write.cut_short 11)
    ∷ restart
    ∷ append_event (4 ∷ []) (66 ∷ []) 103 [] Priority.normal Write.not_flushed
    ∷ []

history-HasId : All HasId history
history-HasId = (
  omega arith,
  (omega arith, (omega arith, (omega arith, (omega arith, (omega arith, (omega arith, tt)))))),
)

opened : open_store plain 1048576 [] 0 ≡ some first_store
unfolding open_store recover_log recover_loop
opened = refl

run-recovered_example : IsReread (run plain history first_store) (
    recover_log plain
      (run plain history first_store).checkpoint
      (run plain history first_store).file)
run-recovered_example =
    run-recovered plain 1048576 history first_store plain-IsFormat history-HasId (omega arith)
      opened

run-length_example : length ((run plain history first_store).file) ≤ 1048576
run-length_example =
    run-length plain 1048576 history first_store plain-IsFormat history-HasId (omega arith) opened

abbrev big : Envelope
big = record {
  version = 1;
  id = 1 ∷ [];
  sequence = 1;
  event_type = [];
  created_at = 0;
  payload = [];
}

abbrev crowded : Store
crowded = record first_store { bytes = 1048570 }

too_full :
    (append_envelope plain Priority.normal Write.written big crowded).1
    ≡ some OutboxError.outbox_full
unfolding append_envelope append_record encode_record encode_data be_bytes marshal_plain limit_for
too_full = refl

append_envelope-refused_example :
    Refuses Priority.normal OutboxError.outbox_full crowded
      ((append_envelope plain Priority.normal Write.written big crowded).0)
append_envelope-refused_example =
    append_envelope-refused plain Priority.normal Write.written big crowded OutboxError.outbox_full
      too_full

abbrev two_logged : List Envelope
two_logged =
    big
    ∷ record {
      version = 1;
      id = 2 ∷ [];
      sequence = 2;
      event_type = [];
      created_at = 0;
      payload = 9 ∷ [];
    }
    ∷ []

two_logged-Fits : All (Fits plain) two_logged
unfolding marshal_plain is_identified
two_logged-Fits = ((omega arith, refl), ((omega arith, refl), tt))

short-IsTorn : IsTorn plain (0 ∷ 0 ∷ 0 ∷ [])
unfolding read_record
short-IsTorn = refl

recover_log-log_example :
    (scan : Scan) × (recover_log plain 1 (log_of plain two_logged ++ 0 ∷ 0 ∷ 0 ∷ []) ≡ scan)
    × (scan.offset ≡ length (log_of plain two_logged))
    × (scan.latest ≡ max 1 (0 + length two_logged))
    × (scan.events ≡ pending 1 two_logged)
recover_log-log_example =
    recover_log-log plain 1 0 two_logged (0 ∷ 0 ∷ 0 ∷ []) plain-IsFormat short-IsTorn
      (refl, (refl, omega arith)) two_logged-Fits (omega arith) (omega arith)
