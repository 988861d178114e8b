-- ===== src/Agent/Outbox/Durable/Acks.antt =====
-- An acknowledgement keeps the disk and the store together, wherever the disk fails.
use gooophira_mp.Prelude.{
  ℕ, suc, zero, ◌+◌, ◌-◌, ◌≤◌, ◌<◌, ◌≡◌, refl, sym, ap, ◌∙◌, Option, some, List, [], ◌∷◌, ◌++◌, ltb,
  leb, length, drop, drop_all, append-nil, arith, All, length-append, length-drop, if-cases,
}
use gooophira_mp.Agent.Outbox.{
  Envelope, Format, Store, Sync, OutboxError, encode_record, encode_all, events_behind, compact,
  ack, ack_found, write_checkpoint,
}
use gooophira_mp.Agent.Outbox.Records.{Fits, record_of}
use gooophira_mp.Agent.Outbox.Queue.{Follow, log_of}
use gooophira_mp.Agent.Outbox.Durable.{
  IsDurable, IsTorn-nil, Follow-drop, Follow-front, All-drop, All-front,
}

pub encode_all-log_of :
    (f : Format) (es : List Envelope) → All (Fits f) es → encode_all f es ≡ some (log_of f es)
unfolding encode_all encode_record
encode_all-log_of f [] h = refl
encode_all-log_of f (e ∷ es) (fit, h) = ground (arith, encode_all-log_of f es h, fit)

-- The event with the number `base + k + 1` stands at place `k`.
pub events_behind-drop :
    (base k sequence : ℕ) (es : List Envelope)
    → Follow base es
    → sequence ≡ suc (base + k)
    → k < length es
    → events_behind sequence es ≡ some (drop (suc k) es)
unfolding events_behind
events_behind-drop base k sequence [] h e lt = absurd (omega arith)
events_behind-drop base zero sequence (x ∷ es) h e lt = ground (arith, h.0)
events_behind-drop base (suc k) sequence (x ∷ es) h e lt =
    ground (arith, h.0, events_behind-drop (suc base) k sequence es h.1 (omega arith) (omega arith))

module _ (f : Format) (s : Store) (d : IsDurable f s) (sequence k : ℕ)
    (behind : sequence ≡ d.base + k) (within : k ≤ length d.kept) where
  kept-Follow : Follow d.base d.kept
  kept-Follow = Follow-front d.base d.kept d.extra d.follow

  kept-Fits : All (Fits f) d.kept
  kept-Fits = All-front (Fits f) d.kept d.extra d.fits

  -- The old log stays, with a later checkpoint.
  move_checkpoint :
      IsDurable f (record s { checkpoint = sequence; acked = sequence; events = drop k d.kept })
  move_checkpoint = record {
    base = d.base;
    kept = d.kept;
    extra = d.extra;
    torn = d.torn;
    behind = k;
    file = d.file;
    is_torn = d.is_torn;
    follow = d.follow;
    fits = d.fits;
    ahead = 0;
    same = omega arith;
    known = omega (arith, within);
    place = behind;
    within = within;
    events = refl;
    last = d.last;
    few = d.few;
    sound = d.sound;
  }

  -- The new log has the pending events only.
  replace_log :
      (bytes : ℕ)
      → IsDurable f (record s {
        checkpoint = sequence;
        acked = sequence;
        events = drop k d.kept;
        file = log_of f (drop k d.kept);
        bytes = bytes;
      })
  replace_log bytes = record {
    base = sequence;
    kept = drop k d.kept;
    extra = [];
    torn = [];
    behind = 0;
    file = rw (append-nil (log_of f (drop k d.kept ++ [])), append-nil (drop k d.kept)) refl;
    is_torn = IsTorn-nil f;
    follow =
        rw (append-nil (drop k d.kept), behind) (Follow-drop d.base k d.kept kept-Follow within);
    fits = rw (append-nil (drop k d.kept)) (All-drop (Fits f) k d.kept kept-Fits);
    ahead = 0;
    same = omega arith;
    known = omega arith;
    place = omega arith;
    within = omega arith;
    events = refl;
    last = omega (arith, d.last, length-drop k d.kept);
    few = omega arith;
    sound = λ h. (refl, refl);
  }

  encoded : encode_all f (drop k d.kept) ≡ some (log_of f (drop k d.kept))
  encoded = encode_all-log_of f (drop k d.kept) (All-drop (Fits f) k d.kept kept-Fits)

  compact-IsDurable :
      (b : Sync)
      → IsDurable f (
          (compact f b
            (record s { checkpoint = sequence; acked = sequence; events = drop k d.kept })).0)
  unfolding compact
  compact-IsDurable Sync.synced =
      rw (compact, encoded) (replace_log (length (log_of f (drop k d.kept))))
  compact-IsDurable Sync.no_checkpoint = rw (compact, encoded) move_checkpoint
  compact-IsDurable Sync.checkpoint_only = rw (compact, encoded) move_checkpoint
  compact-IsDurable Sync.not_replaced = rw (compact, encoded) move_checkpoint
  compact-IsDurable Sync.replaced_only = rw (compact, encoded) (replace_log s.bytes)
  compact-IsDurable Sync.not_reopened =
      rw (compact, encoded) (replace_log (length (log_of f (drop k d.kept))))

  -- The checkpoint alone is replaced, and is ahead of what the store knows.
  only_checkpoint : s.acked ≤ sequence → IsDurable f (record s { checkpoint = sequence })
  only_checkpoint above = record {
    base = d.base;
    kept = d.kept;
    extra = d.extra;
    torn = d.torn;
    behind = d.behind;
    file = d.file;
    is_torn = d.is_torn;
    follow = d.follow;
    fits = d.fits;
    ahead = sequence - s.acked;
    same = omega (arith, above);
    known = omega (arith, d.place, behind, within);
    place = d.place;
    within = d.within;
    events = d.events;
    last = d.last;
    few = d.few;
    sound = d.sound;
  }

  ack_found-IsDurable :
      s.acked ≤ sequence → (b : Sync) → IsDurable f ((ack_found f b sequence (drop k d.kept) s).0)
  unfolding ack_found write_checkpoint
  ack_found-IsDurable above Sync.synced = compact-IsDurable Sync.synced
  ack_found-IsDurable above Sync.no_checkpoint = d
  ack_found-IsDurable above Sync.checkpoint_only = only_checkpoint above
  ack_found-IsDurable above Sync.not_replaced = compact-IsDurable Sync.not_replaced
  ack_found-IsDurable above Sync.replaced_only = compact-IsDurable Sync.replaced_only
  ack_found-IsDurable above Sync.not_reopened = compact-IsDurable Sync.not_reopened

pub drop-drop {ℓ} : {A : Type ℓ} (m n : ℕ) (xs : List A) → drop m (drop n xs) ≡ drop (n + m) xs
drop-drop m zero xs = ap (λ (k : ℕ). drop k xs) (omega arith)
drop-drop m (suc n) [] = drop_all m [] (omega arith) ∙ sym (drop_all (suc n + m) [] (omega arith))
drop-drop m (suc n) (x ∷ xs) =
    let one : suc n + m ≡ suc (n + m) = omega arith in rw one (drop-drop m n xs)

-- What is left of the pending events of a store behind an acknowledged number.
pub events_behind-IsDurable :
    (f : Format) (s : Store) (d : IsDurable f s) (sequence : ℕ)
    → s.acked < sequence
    → sequence ≤ s.latest
    → events_behind sequence s.events ≡ some (drop (sequence - d.base) d.kept)
events_behind-IsDurable f s d sequence above within =
    let k = sequence - suc s.acked in
    let follow =
      Follow-drop d.base d.behind d.kept (Follow-front d.base d.kept d.extra d.follow) d.within in
    let count : d.behind + suc k ≡ sequence - d.base = omega (arith, above, d.place) in
    rw d.events (
      events_behind-drop (d.base + d.behind) k sequence (drop d.behind d.kept) follow
        (omega (arith, above, d.place))
        (omega (arith, length-drop d.behind d.kept, d.last, d.place, d.within, above, within))
      ∙ ap some (drop-drop (suc k) d.behind d.kept ∙ ap (λ (n : ℕ). drop n d.kept) count))

length-log_of-drop :
    (f : Format) (k : ℕ) (es : List Envelope) → length (log_of f (drop k es)) ≤ length (log_of f es)
length-log_of-drop f zero es = omega arith
length-log_of-drop f (suc k) [] = omega arith
length-log_of-drop f (suc k) (e ∷ es) =
    omega (arith, length-log_of-drop f k es, length-append (record_of f e) (log_of f es))

length-log_of-front :
    (f : Format) (front back : List Envelope)
    → length (log_of f front) ≤ length (log_of f (front ++ back))
length-log_of-front f [] back = omega arith
length-log_of-front f (e ∷ front) back = omega (
  arith,
  length-log_of-front f front back,
  length-append (record_of f e) (log_of f front),
  length-append (record_of f e) (log_of f (front ++ back)),
)

-- A new log of pending events is no longer than the old one.
pub new_log_short :
    (f : Format) (s : Store) (d : IsDurable f s) (k : ℕ) (log : List ℕ)
    → encode_all f (drop k d.kept) ≡ some log
    → length log ≤ length s.file
new_log_short f s d k log made =
    let fits = All-drop (Fits f) k d.kept (All-front (Fits f) d.kept d.extra d.fits) in
    let same : log ≡ log_of f (drop k d.kept) =
      cc (made, encode_all-log_of f (drop k d.kept) fits) in
    omega (
      arith,
      ap length same,
      ap length d.file,
      length-append (log_of f (d.kept ++ d.extra)) d.torn,
      length-log_of-drop f k d.kept,
      length-log_of-front f d.kept d.extra,
    )

-- An acknowledgement keeps the disk and the store together, wherever the disk fails.
pub ack-IsDurable :
    (f : Format) (b : Sync) (sequence : ℕ) (s : Store)
    → IsDurable f s
    → IsDurable f ((ack f b sequence s).0)
unfolding ack
ack-IsDurable f b sequence s d =
    let P : Store × Option OutboxError → Type 0 = λ r. IsDurable f (r.0) in
    if-cases P (leb sequence s.acked) (λ old. d)
      (λ new.
        if-cases P (ltb s.latest sequence) (λ far. d)
          (λ near.
            let above : s.acked < sequence = ground (arith, new) in
            let within : sequence ≤ s.latest = ground (arith, near) in
            rw (events_behind-IsDurable f s d sequence above within) (
              ack_found-IsDurable f s d sequence (sequence - d.base) (omega (arith, above, d.place))
                (omega (arith, within, d.last)) (omega (arith, above)) b)))
