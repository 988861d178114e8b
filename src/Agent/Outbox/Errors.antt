-- ===== src/Agent/Outbox/Errors.antt =====
-- What a refused call leaves as it was, and what it changes.
use gooophira_mp.Prelude.{
  ℕ, ◌+◌, ◌%◌, ◌^◌, ◌++◌, ◌≡◌, refl, subst, Bool, true, Option, some, List, ltb, length, take,
  arith, if-cases, match-cases, take_all, take-append,
}
use gooophira_mp.Agent.Outbox.{
  Envelope, Format, Store, OutboxError, Priority, Write, append_envelope, append_record,
  write_record, limit_for, encode_record, count_dropped,
}

-- The pending events, the numbers and the count of bytes are the same, and the file begins with the
-- old one.
abbrev pub Keeps : Store → Store → Type 0
Keeps s t =
    (t.events ≡ s.events)
    × (t.latest ≡ s.latest)
    × (t.acked ≡ s.acked)
    × (t.checkpoint ≡ s.checkpoint)
    × (t.bytes ≡ s.bytes)
    × (take (length s.file) t.file ≡ s.file)

-- An event of normal priority that finds no room is counted.
abbrev dropped_after : OutboxError → Priority → ℕ → ℕ
dropped_after OutboxError.outbox_full Priority.normal n = (n + 1) % 2 ^ 64
dropped_after error priority n = n

-- A failure of the disk, and nothing else, makes the store refuse all that follows.
abbrev failed_after : OutboxError → Bool → Bool
failed_after OutboxError.disk_error failed = true
failed_after error failed = failed

abbrev pub Refuses : Priority → OutboxError → Store → Store → Type 0
Refuses priority error s t =
    Keeps s t
    × (t.max ≡ s.max)
    × (t.closed ≡ s.closed)
    × (t.dropped ≡ dropped_after error priority s.dropped)
    × (t.failed ≡ failed_after error s.failed)

abbrev Answer : Priority → Store → OutboxError → Store × Option OutboxError → Type 0
Answer priority s err r = r.1 ≡ some err → Refuses priority err s (r.0)

-- What stays of the memory when the write of a record fails.
torn :
    (s : Store) (written : List ℕ) → Keeps s (record s { file = s.file ++ written; failed = true })
torn s written = (refl, refl, refl, refl, refl, take-append s.file written)

unchanged : (s : Store) → Keeps s s
unchanged s = (refl, refl, refl, refl, refl, take_all s.file refl)

-- The answer `x` is the one in question.
refused_with :
    (priority : Priority) (s t : Store) (x err : OutboxError)
    → Refuses priority x s t
    → some x ≡ some err
    → Refuses priority err s t
refused_with priority s t x err p h = subst (λ e. Refuses priority e s t) (cc h) p

write_record-refused :
    (priority : Priority) (w : Write) (e : Envelope) (r : List ℕ) (s : Store) (err : OutboxError)
    → Answer priority s err (write_record w e r s)
unfolding write_record
write_record-refused priority Write.written e r s err h = absurd (ground (arith, h))
write_record-refused priority (Write.cut_short n) e r s err h =
    refused_with priority s _ OutboxError.disk_error err (torn s (take n r), refl, refl, refl, refl)
      h
write_record-refused priority Write.not_flushed e r s err h =
    refused_with priority s _ OutboxError.disk_error err (torn s r, refl, refl, refl, refl) h

full-refused :
    (priority : Priority) (s : Store)
    → Refuses priority OutboxError.outbox_full s
        (record s { dropped = count_dropped priority s.dropped })
unfolding count_dropped
full-refused Priority.normal s = (unchanged s, refl, refl, refl, refl)
full-refused Priority.critical s = (unchanged s, refl, refl, refl, refl)

-- An answer that changes nothing, where nothing is to be changed.
as_before :
    (priority : Priority) (s : Store) (err x : OutboxError)
    → s.failed ≡ failed_after x s.failed
    → s.dropped ≡ dropped_after x priority s.dropped
    → Answer priority s err (s, some x)
as_before priority s err x same kept h =
    refused_with priority s s x err (unchanged s, refl, refl, kept, same) h

-- An append that is refused with any error leaves the pending events, the numbers, the checkpoint, the
-- limit, the count of bytes and whether the store is closed as they were, and what it writes to the file stands behind the old end.
-- It counts an event of normal priority that finds no room, modulo 2^64, and no other. After an error of
-- the disk the store is failed, and after any other error it is so only if it was before.
pub append_envelope-refused :
    (f : Format) (priority : Priority) (w : Write) (e : Envelope) (s : Store) (err : OutboxError)
    → (append_envelope f priority w e s).1 ≡ some err
    → Refuses priority err s ((append_envelope f priority w e s).0)
unfolding append_envelope append_record
append_envelope-refused f priority w e s err h =
    if-cases (Answer priority s err) s.closed
      (λ c. as_before priority s err OutboxError.outbox_closed refl refl)
      (λ c.
        if-cases (Answer priority s err) s.failed
          (λ c. as_before priority s err OutboxError.disk_error c refl)
          (λ c.
            match-cases (Answer priority s err) (encode_record f e)
              (λ c. as_before priority s err OutboxError.record_too_large refl refl)
              (λ r c.
                if-cases (Answer priority s err)
                  (ltb (limit_for priority s.max) (s.bytes + length r))
                  (λ c.
                    refused_with priority s _ OutboxError.outbox_full err (full-refused priority s))
                  (λ c. write_record-refused priority w e r s err))))
      h
