-- ===== src/Agent/Outbox/Durable/Runs.antt =====
-- Histories of a store: calls and restarts in any order, each with what the disk does.
use gooophira_mp.Prelude.{
  ℕ, suc, zero, ◌+◌, ◌-◌, ◌≤◌, ◌<◌, ◌^◌, ◌≡◌, refl, ◌∙◌, Option, none, some, List, [], ◌∷◌, ◌++◌,
  ltb, leb, length, drop, append-nil, arith, All, length-append, if-cases, match-cases, take-append,
}
use gooophira_mp.Agent.Outbox.{
  Envelope, Format, Store, Sync, OutboxError, Priority, Write, append, append_envelope,
  append_record, write_record, new_envelope, max_record_size, ack, ack_found, compact,
  events_behind, write_checkpoint, record_dropped_normal, close,
}
use gooophira_mp.Agent.Outbox.Recovery.{Scan, recover_log, open_store, is_identified}
use gooophira_mp.Agent.Outbox.Records.{IsFormat}
use gooophira_mp.Agent.Outbox.Queue.{Follow, Follow-lt, log_of, pending, recover_log-log}
use gooophira_mp.Agent.Outbox.Durable.{IsDurable, IsTorn-nil, append_envelope-IsDurable}
use gooophira_mp.Agent.Outbox.Durable.Acks.{ack-IsDurable}

-- A restart loses what is in memory, and opens the directory again.
pub data Call : Type 0 where
  append_event : List ℕ → List ℕ → ℕ → List ℕ → Priority → Write → Call
  ack_events : ℕ → Sync → Call
  drop_normal : Call
  close_store : Call
  restart : Call

unfoldable pub reopened : Store → Option Store → Store
reopened s none = s
reopened s (some t) = t

unfoldable pub call : Format → Call → Store → Store
call f (append_event id event_type now payload priority w) s =
    (append f id event_type now payload priority w s).0
call f (ack_events sequence d) s = (ack f d sequence s).0
call f drop_normal s = record_dropped_normal s
call f close_store s = close s
call f restart s = reopened s (open_store f s.max s.file s.checkpoint)

unfoldable pub run : Format → List Call → Store → Store
run f [] s = s
run f (c ∷ cs) s = run f cs (call f c s)

-- The ids that are given are not empty.
abbrev pub HasId : Call → Type 0
HasId (append_event id event_type now payload priority w) = 0 < length id
HasId (ack_events sequence d) = 0 ≤ sequence
HasId drop_normal = 0 ≤ 0
HasId close_store = 0 ≤ 0
HasId restart = 0 ≤ 0

pending-all :
    (acked base : ℕ) (es : List Envelope) → Follow base es → acked ≤ base → pending acked es ≡ es
unfolding pending
pending-all acked base [] h le = refl
pending-all acked base (e ∷ es) (seq, h) le =
    ground (arith, seq, pending-all acked (suc base) es h (omega arith))

pub pending-drop :
    (base behind : ℕ) (es : List Envelope)
    → Follow base es
    → behind ≤ length es
    → pending (base + behind) es ≡ drop behind es
unfolding pending
pending-drop base zero es h le = pending-all (base + 0) base es h (omega arith)
pending-drop base (suc behind) [] h le = absurd (omega arith)
pending-drop base (suc behind) (e ∷ es) (seq, h) le =
    let same : base + suc behind ≡ suc base + behind = omega arith in
    ground (arith, seq, same, pending-drop (suc base) behind es h (omega arith))

-- What recovery makes of the disk under a store.
pub record IsRecovered (f : Format) (s : Store) (d : IsDurable f s) (scan : Scan) : Type 0 where
  pub offset : scan.offset ≡ length (log_of f (d.kept ++ d.extra))
  pub latest : scan.latest ≡ d.base + length (d.kept ++ d.extra)
  pub events : scan.events ≡ drop (d.behind + d.ahead) (d.kept ++ d.extra)

pub recover_log-IsDurable :
    (f : Format) (s : Store) (d : IsDurable f s)
    → IsFormat f
    → IsRecovered f s d (recover_log f s.checkpoint s.file)
recover_log-IsDurable f s d ok =
    let all_in = d.kept ++ d.extra in
    let within : d.behind + d.ahead ≤ length all_in =
      omega (arith, d.known, length-append d.kept d.extra) in
    let behind : s.acked + d.ahead ≡ d.base + (d.behind + d.ahead) = omega (arith, d.place) in
    let bound = Follow-lt d.base all_in d.follow in
    let scanned =
      recover_log-log f (s.acked + d.ahead) d.base all_in d.torn ok d.is_torn d.follow d.fits
        (omega (arith, d.place)) (omega (arith, d.place, within, bound)) in
    rw (d.same, d.file, scanned.1)
      (record {
        offset = scanned.2;
        latest = scanned.3 ∙ omega (arith, d.place, within);
        events =
            scanned.4 ∙ rw behind (pending-drop d.base (d.behind + d.ahead) all_in d.follow within);
      })

pub restart-IsDurable :
    (f : Format) (s : Store) → IsFormat f → IsDurable f s → IsDurable f (call f restart s)
unfolding call open_store reopened
restart-IsDurable f s ok d =
    let all_in = d.kept ++ d.extra in
    let r = recover_log-IsDurable f s d ok in
    if-cases (λ (o : Option Store). IsDurable f (reopened s o)) (ltb s.max max_record_size)
      (λ small. d)
      (λ room. record {
        base = d.base;
        kept = all_in;
        extra = [];
        torn = [];
        behind = d.behind + d.ahead;
        file =
            rw (append-nil all_in, append-nil (log_of f all_in), r.offset, d.file)
              (take-append (log_of f all_in) d.torn);
        is_torn = IsTorn-nil f;
        follow = rw (append-nil all_in) d.follow;
        fits = rw (append-nil all_in) d.fits;
        ahead = 0;
        same = omega arith;
        known = omega (arith, d.known, length-append d.kept d.extra);
        place = omega (arith, d.same, d.place);
        within = omega (arith, d.known, length-append d.kept d.extra);
        events = r.events;
        last = r.latest;
        few = omega arith;
        sound = λ h. (refl, refl);
      })

pub append-IsDurable :
    (f : Format) (id event_type : List ℕ) (now : ℕ) (payload : List ℕ) (priority : Priority)
    (w : Write) (s : Store)
    → IsFormat f
    → IsDurable f s
    → 0 < length id
    → suc s.latest < 2 ^ 64 - 1
    → IsDurable f ((append f id event_type now payload priority w s).0)
unfolding append new_envelope is_identified
append-IsDurable f id event_type now payload priority w s ok d named lt =
    append_envelope-IsDurable f priority w (new_envelope s.latest id event_type now payload) s ok d
      (omega (arith, lt)) lt (ground (arith, lt, named))

pub call-IsDurable :
    (f : Format) (c : Call) (s : Store)
    → IsFormat f
    → HasId c
    → suc s.latest < 2 ^ 64 - 1
    → IsDurable f s
    → IsDurable f (call f c s)
unfolding call record_dropped_normal close
call-IsDurable f (append_event id event_type now payload priority w) s ok named lt d =
    append-IsDurable f id event_type now payload priority w s ok d named lt
call-IsDurable f (ack_events sequence b) s ok named lt d = ack-IsDurable f b sequence s d
call-IsDurable f drop_normal s ok named lt d = d
call-IsDurable f close_store s ok named lt d = d
call-IsDurable f restart s ok named lt d = restart-IsDurable f s ok d

-- Each call raises the last number by one at most.
append-latest :
    (f : Format) (priority : Priority) (w : Write) (e : Envelope) (s : Store)
    → e.sequence ≤ suc s.latest
    → ((append_envelope f priority w e s).0).latest ≤ suc s.latest
unfolding append_envelope append_record write_record
append-latest f priority Write.written e s h = ground arith
append-latest f priority (Write.cut_short n) e s h = ground arith
append-latest f priority Write.not_flushed e s h = ground arith

compact-latest : (f : Format) (b : Sync) (s : Store) → ((compact f b s).0).latest ≡ s.latest
unfolding compact
compact-latest f Sync.synced s = ground arith
compact-latest f Sync.no_checkpoint s = ground arith
compact-latest f Sync.checkpoint_only s = ground arith
compact-latest f Sync.not_replaced s = ground arith
compact-latest f Sync.replaced_only s = ground arith
compact-latest f Sync.not_reopened s = ground arith

ack_found-latest :
    (f : Format) (b : Sync) (sequence : ℕ) (rest : List Envelope) (s : Store)
    → ((ack_found f b sequence rest s).0).latest ≡ s.latest
unfolding ack_found write_checkpoint
ack_found-latest f Sync.synced sequence rest s = compact-latest f Sync.synced _
ack_found-latest f Sync.no_checkpoint sequence rest s = refl
ack_found-latest f Sync.checkpoint_only sequence rest s = refl
ack_found-latest f Sync.not_replaced sequence rest s = compact-latest f Sync.not_replaced _
ack_found-latest f Sync.replaced_only sequence rest s = compact-latest f Sync.replaced_only _
ack_found-latest f Sync.not_reopened sequence rest s = compact-latest f Sync.not_reopened _

ack-latest :
    (f : Format) (b : Sync) (sequence : ℕ) (s : Store) → ((ack f b sequence s).0).latest ≡ s.latest
unfolding ack
ack-latest f b sequence s =
    let P : Store × Option OutboxError → Type 0 = λ r. (r.0).latest ≡ s.latest in
    if-cases P (leb sequence s.acked) (λ old. refl)
      (λ new.
        if-cases P (ltb s.latest sequence) (λ far. refl)
          (λ near.
            match-cases P (events_behind sequence s.events) (λ gone. refl)
              (λ rest found. ack_found-latest f b sequence rest s)))

pub call-latest :
    (f : Format) (c : Call) (s : Store)
    → IsFormat f
    → suc s.latest < 2 ^ 64 - 1
    → IsDurable f s
    → (call f c s).latest ≤ suc s.latest
unfolding call record_dropped_normal close append new_envelope open_store reopened
call-latest f (append_event id event_type now payload priority w) s ok lt d =
    append-latest f priority w (new_envelope s.latest id event_type now payload) s
      (omega (arith, lt))
call-latest f (ack_events sequence b) s ok lt d = omega (arith, ack-latest f b sequence s)
call-latest f drop_normal s ok lt d = omega arith
call-latest f close_store s ok lt d = omega arith
call-latest f restart s ok lt d =
    let r = recover_log-IsDurable f s d ok in
    if-cases (λ (o : Option Store). (reopened s o).latest ≤ suc s.latest)
      (ltb s.max max_record_size) (λ small. omega arith)
      (λ room. omega (arith, r.latest, d.last, d.few, length-append d.kept d.extra))

pub run-IsDurable :
    (f : Format) (cs : List Call) (s : Store)
    → IsFormat f
    → All HasId cs
    → s.latest + length cs < 2 ^ 64 - 1
    → IsDurable f s
    → IsDurable f (run f cs s)
unfolding run
run-IsDurable f [] s ok named lt d = d
run-IsDurable f (c ∷ cs) s ok (n, named) lt d =
    run-IsDurable f cs (call f c s) ok named
      (omega (arith, lt, call-latest f c s ok (omega (arith, lt)) d))
      (call-IsDurable f c s ok n (omega (arith, lt)) d)
