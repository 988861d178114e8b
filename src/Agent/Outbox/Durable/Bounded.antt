-- ===== src/Agent/Outbox/Durable/Bounded.antt =====
-- The log on the disk stays within the bound of the store.
use gooophira_mp.Prelude.{
  ℕ, ◌+◌, ◌-◌, ◌≤◌, ◌<◌, ◌^◌, ◌≡◌, refl, subst, false, Option, none, some, List, [], ◌∷◌, ltb, leb,
  length, take, arith, All, length-append, length-take, if-cases, match-cases,
}
use gooophira_mp.Agent.Outbox.{
  Envelope, Format, Store, Sync, OutboxError, Priority, Write, append, append_envelope,
  append_record, write_record, new_envelope, limit_for, max_record_size, encode_record, ack,
  ack_found, compact, encode_all, write_checkpoint, record_dropped_normal, close,
}
use gooophira_mp.Agent.Outbox.Recovery.{recover_log, recover_loop, open_store}
use gooophira_mp.Agent.Outbox.Records.{IsFormat}
use gooophira_mp.Agent.Outbox.Durable.{IsDurable}
use gooophira_mp.Agent.Outbox.Durable.Acks.{events_behind-IsDurable, new_log_short}
use gooophira_mp.Agent.Outbox.Durable.Runs.{
  Call, append_event, ack_events, drop_normal, close_store, restart, call, run, HasId, reopened,
  call-IsDurable, call-latest,
}
use gooophira_mp.Agent.Outbox.Durable.Reopened.{IsFresh, open_store-IsFresh}

-- While writing goes on, `bytes` counts the file at least.
abbrev IsBounded : ℕ → Store → Type 0
IsBounded limit s =
    (s.max ≡ limit) × (length s.file ≤ limit) × (s.failed ≡ false → length s.file ≤ s.bytes)

module _ (limit : ℕ) where
  write_record-IsBounded :
      (w : Write) (e : Envelope) (r : List ℕ) (s : Store)
      → s.bytes + length r ≤ s.max
      → length s.file ≤ s.bytes
      → s.max ≡ limit
      → IsBounded limit ((write_record w e r s).0)
  unfolding write_record
  write_record-IsBounded Write.written e r s room le same =
      (same, omega (arith, length-append s.file r), λ h. omega (arith, length-append s.file r))
  write_record-IsBounded (Write.cut_short n) e r s room le same = (
    same,
    omega (arith, length-append s.file (take n r), length-take n r),
    λ h. absurd (ground (arith, h)),
  )
  write_record-IsBounded Write.not_flushed e r s room le same =
      (same, omega (arith, length-append s.file r), λ h. absurd (ground (arith, h)))

  limit_for-le : (priority : Priority) (max : ℕ) → limit_for priority max ≤ max
  unfolding limit_for
  limit_for-le Priority.normal max = omega arith
  limit_for-le Priority.critical max = omega arith

  append_envelope-IsBounded :
      (f : Format) (priority : Priority) (w : Write) (e : Envelope) (s : Store)
      → IsBounded limit s
      → IsBounded limit ((append_envelope f priority w e s).0)
  unfolding append_envelope append_record
  append_envelope-IsBounded f priority w e s b =
      let P : Store × Option OutboxError → Type 0 = λ r. IsBounded limit (r.0) in
      if-cases P s.closed (λ h. b)
        (λ h.
          if-cases P s.failed (λ broken. b)
            (λ sane.
              match-cases P (encode_record f e) (λ large. b)
                (λ r made.
                  if-cases P (ltb (limit_for priority s.max) (s.bytes + length r)) (λ full. b)
                    (λ room.
                      write_record-IsBounded w e r s
                        (ground (arith, room, limit_for-le priority s.max)) (b.2 sane) (b.0)))))

  compact-IsBounded :
      (f : Format) (d : Sync) (s : Store)
      → IsBounded limit s
      → ((log : List ℕ) → encode_all f s.events ≡ some log → length log ≤ length s.file)
      → IsBounded limit ((compact f d s).0)
  unfolding compact
  compact-IsBounded f Sync.synced s b short =
      match-cases (λ (r : Store × Option OutboxError). IsBounded limit (r.0))
        (encode_all f s.events) (λ large. b)
        (λ log made. (b.0, omega (arith, b.1, short log made), λ h. omega arith))
  compact-IsBounded f Sync.no_checkpoint s b short =
      match-cases (λ (r : Store × Option OutboxError). IsBounded limit (r.0))
        (encode_all f s.events) (λ large. b) (λ log made. b)
  compact-IsBounded f Sync.checkpoint_only s b short =
      match-cases (λ (r : Store × Option OutboxError). IsBounded limit (r.0))
        (encode_all f s.events) (λ large. b) (λ log made. b)
  compact-IsBounded f Sync.not_replaced s b short =
      match-cases (λ (r : Store × Option OutboxError). IsBounded limit (r.0))
        (encode_all f s.events) (λ large. b) (λ log made. b)
  compact-IsBounded f Sync.replaced_only s b short =
      match-cases (λ (r : Store × Option OutboxError). IsBounded limit (r.0))
        (encode_all f s.events) (λ large. b)
        (λ log made.
          (b.0, omega (arith, b.1, short log made), λ h. omega (arith, b.2 h, short log made)))
  compact-IsBounded f Sync.not_reopened s b short =
      match-cases (λ (r : Store × Option OutboxError). IsBounded limit (r.0))
        (encode_all f s.events) (λ large. b)
        (λ log made. (b.0, omega (arith, b.1, short log made), λ h. omega arith))

  ack_found-IsBounded :
      (f : Format) (d : Sync) (sequence : ℕ) (rest : List Envelope) (s : Store)
      → IsBounded limit s
      → ((log : List ℕ) → encode_all f rest ≡ some log → length log ≤ length s.file)
      → IsBounded limit ((ack_found f d sequence rest s).0)
  unfolding ack_found write_checkpoint
  ack_found-IsBounded f Sync.synced sequence rest s b short =
      compact-IsBounded f Sync.synced _ b short
  ack_found-IsBounded f Sync.no_checkpoint sequence rest s b short = b
  ack_found-IsBounded f Sync.checkpoint_only sequence rest s b short = b
  ack_found-IsBounded f Sync.not_replaced sequence rest s b short =
      compact-IsBounded f Sync.not_replaced _ b short
  ack_found-IsBounded f Sync.replaced_only sequence rest s b short =
      compact-IsBounded f Sync.replaced_only _ b short
  ack_found-IsBounded f Sync.not_reopened sequence rest s b short =
      compact-IsBounded f Sync.not_reopened _ b short

  ack-IsBounded :
      (f : Format) (b : Sync) (sequence : ℕ) (s : Store)
      → IsDurable f s
      → IsBounded limit s
      → IsBounded limit ((ack f b sequence s).0)
  unfolding ack
  ack-IsBounded f b sequence s d within =
      let P : Store × Option OutboxError → Type 0 = λ r. IsBounded limit (r.0) in
      if-cases P (leb sequence s.acked) (λ old. within)
        (λ new.
          if-cases P (ltb s.latest sequence) (λ far. within)
            (λ near.
              rw
                (events_behind-IsDurable f s d sequence (ground (arith, new))
                  (ground (arith, near)))
                (ack_found-IsBounded f b sequence _ s within
                  (λ log made. new_log_short f s d (sequence - d.base) log made))))

  restart-IsBounded :
      (f : Format) (s : Store) → IsBounded limit s → IsBounded limit (call f restart s)
  unfolding call open_store reopened
  restart-IsBounded f s b =
      let offset = (recover_log f s.checkpoint s.file).offset in
      if-cases (λ (o : Option Store). IsBounded limit (reopened s o)) (ltb s.max max_record_size)
        (λ small. b)
        (λ room. (
          b.0,
          omega (arith, b.1, length-take offset s.file),
          λ h. omega (arith, length-take offset s.file),
        ))

  call-IsBounded :
      (f : Format) (c : Call) (s : Store)
      → IsDurable f s
      → IsBounded limit s
      → IsBounded limit (call f c s)
  unfolding call append record_dropped_normal close
  call-IsBounded f (append_event id event_type now payload priority w) s d b =
      append_envelope-IsBounded f priority w (new_envelope s.latest id event_type now payload) s b
  call-IsBounded f (ack_events sequence x) s d b = ack-IsBounded f x sequence s d b
  call-IsBounded f drop_normal s d b = b
  call-IsBounded f close_store s d b = b
  call-IsBounded f restart s d b = restart-IsBounded f s b

  run-IsBounded :
      (f : Format) (cs : List Call) (s : Store)
      → IsFormat f
      → All HasId cs
      → s.latest + length cs < 2 ^ 64 - 1
      → IsDurable f s
      → IsBounded limit s
      → IsBounded limit (run f cs s)
  unfolding run
  run-IsBounded f [] s ok named lt d b = b
  run-IsBounded f (c ∷ cs) s ok (n, named) lt d b =
      run-IsBounded f cs (call f c s) ok named
        (omega (arith, lt, call-latest f c s ok (omega (arith, lt)) d))
        (call-IsDurable f c s ok n (omega (arith, lt)) d) (call-IsBounded f c s d b)

abbrev IsEmpty : ℕ → Option Store → Type 0
IsEmpty limit none = 0 ≤ 0
IsEmpty limit (some s) = IsBounded limit s

open_store-IsEmpty : (f : Format) (limit : ℕ) → IsEmpty limit (open_store f limit [] 0)
unfolding open_store recover_log recover_loop
open_store-IsEmpty f limit =
    if-cases (IsEmpty limit) (ltb limit max_record_size) (λ small. omega arith)
      (λ room. (refl, omega arith, λ h. omega arith))

-- The log of a store that was opened on an empty directory never exceeds the bound on its size,
-- after any calls and restarts, with any failures of the disk, at most 2^64 - 2 calls.
pub run-length :
    (f : Format) (limit : ℕ) (cs : List Call) (s : Store)
    → IsFormat f
    → All HasId cs
    → length cs < 2 ^ 64 - 1
    → open_store f limit [] 0 ≡ some s
    → length ((run f cs s).file) ≤ limit
run-length f limit cs s ok named few opened =
    let start = subst (IsFresh f) opened (open_store-IsFresh f limit) in
    (run-IsBounded limit f cs s ok named (omega (arith, start.1, few)) (start.0)
      (subst (IsEmpty limit) opened (open_store-IsEmpty f limit))).1
