-- ===== src/Agent/Outbox/Durable.antt =====
-- Whatever the disk does, what is on it stands for what the store holds.
pub mod Acks
pub mod Runs
pub mod Reopened
pub mod Bounded
use gooophira_mp.Prelude.{
  ℕ, suc, zero, ◌+◌, ◌-◌, ◌≤◌, ◌<◌, ◌^◌, ◌%◌, ◌≡◌, refl, sym, ap, ◌∙◌, Bool, true, false, ◌||◌,
  ◌&&◌, not, inl, inr, ◌⊎◌, Option, none, some, List, [], ◌∷◌, ◌++◌, ltb, leb, ◌==◌, if◌then◌else◌,
  length, take, map, drop, length-append, take-append, drop-append, append_assoc, append-nil, arith,
  Bool-cases, ==_refl, ltb→lt, lt→ltb, ltb→le, All, All-append, take_all_of_le, drop_all,
  length-drop, drop-append_of_le, if-cases, match-cases,
}
use gooophira_mp.Agent.Outbox.{
  Envelope, Format, Store, limit_for, Priority, Write, Sync, OutboxError, max_record_size,
  encode_record, encode_data, encode_all, u64, write_record, append_record, append_envelope,
  new_envelope, append, events_behind, compact, ack, write_checkpoint,
}
use gooophira_mp.Agent.Outbox.Recovery.{is_identified, read_record}
use gooophira_mp.Agent.Outbox.Records.{
  IsFormat, Fits, record_of, encode_record-some, length-encode_data, read_record-torn,
}
use gooophira_mp.Agent.Outbox.Queue.{Follow, Follow-lt, log_of, IsTorn}

pub Follow-drop :
    (base k : ℕ) (es : List Envelope)
    → Follow base es
    → k ≤ length es
    → Follow (base + k) (drop k es)
Follow-drop base zero es h le = let same : base + 0 ≡ base = omega arith in rw same h
Follow-drop base (suc k) [] h le = absurd (omega arith)
Follow-drop base (suc k) (e ∷ es) h le =
    let same : base + suc k ≡ suc base + k = omega arith in
    rw same (Follow-drop (suc base) k es h.1 (omega arith))

pub Follow-append :
    (base : ℕ) (es : List Envelope) (e : Envelope)
    → Follow base es
    → e.sequence ≡ suc (base + length es)
    → suc (base + length es) < 2 ^ 64 - 1
    → Follow base (es ++ e ∷ [])
Follow-append base [] e h seq lt = (omega (arith, seq), omega (arith, lt))
Follow-append base (x ∷ es) e (s, h) seq lt =
    (s, Follow-append (suc base) es e h (omega (arith, seq)) (omega (arith, lt)))

pub All-drop {ℓ κ} :
    {A : Type ℓ} (P : A → Type κ) (k : ℕ) (xs : List A) → All P xs → All P (drop k xs)
All-drop P zero xs h = h
All-drop P (suc k) [] h = h
All-drop P (suc k) (x ∷ xs) h = All-drop P k xs h.1

pub log_of-append :
    (f : Format) (es : List Envelope) (e : Envelope)
    → log_of f (es ++ e ∷ []) ≡ log_of f es ++ record_of f e
log_of-append f [] e = append-nil (record_of f e)
log_of-append f (x ∷ es) e =
    ap (◌++◌ (record_of f x)) (log_of-append f es e)
    ∙ sym (append_assoc (record_of f x) (log_of f es) (record_of f e))

pub Follow-front :
    (base : ℕ) (front back : List Envelope) → Follow base (front ++ back) → Follow base front
Follow-front base [] back h = omega (arith, Follow-lt base back h)
Follow-front base (e ∷ front) back (seq, h) = (seq, Follow-front (suc base) front back h)

pub All-front {ℓ κ} :
    {A : Type ℓ} (P : A → Type κ) (front back : List A) → All P (front ++ back) → All P front
All-front P [] back h = tt
All-front P (a ∷ front) back (now, later) = (now, All-front P front back later)

-- The disk under a store: records of the envelopes `kept`, which the store knows of, then of
-- `extra`, whose writing was reported as failed, then a torn record.
pub record IsOnDisk (f : Format) (disk : List ℕ) (checkpoint : ℕ) (pending : List Envelope)
    (acked latest : ℕ) (failed : Bool) : Type 0 where
  pub base : ℕ
  pub kept : List Envelope
  pub extra : List Envelope
  pub torn : List ℕ
  pub behind : ℕ
  pub file : disk ≡ log_of f (kept ++ extra) ++ torn
  pub is_torn : IsTorn f torn
  pub follow : Follow base (kept ++ extra)
  pub fits : All (Fits f) (kept ++ extra)
  pub ahead : ℕ
  pub same : checkpoint ≡ acked + ahead
  pub known : behind + ahead ≤ length kept
  pub place : acked ≡ base + behind
  pub within : behind ≤ length kept
  pub events : pending ≡ drop behind kept
  pub last : latest ≡ base + length kept
  pub few : length extra ≤ 1
  pub sound : failed ≡ false → (extra ≡ []) × (torn ≡ [])

abbrev pub IsDurable : Format → Store → Type 0
IsDurable f s = IsOnDisk f s.file s.checkpoint s.events s.acked s.latest s.failed

-- With no failure so far, the file is the records of the envelopes.
record IsSound (f : Format) (s : Store) : Type 0 where
  base : ℕ
  kept : List Envelope
  behind : ℕ
  file : s.file ≡ log_of f kept
  follow : Follow base kept
  fits : All (Fits f) kept
  ahead : ℕ
  same : s.checkpoint ≡ s.acked + ahead
  known : behind + ahead ≤ length kept
  place : s.acked ≡ base + behind
  within : behind ≤ length kept
  events : s.events ≡ drop behind kept
  last : s.latest ≡ base + length kept

IsDurable-IsSound : (f : Format) (s : Store) → IsDurable f s → s.failed ≡ false → IsSound f s
IsDurable-IsSound f s d h =
    let none_extra = (d.sound h).0 in
    let all_kept : d.kept ++ d.extra ≡ d.kept = ap (◌++◌ d.kept) none_extra ∙ append-nil d.kept in
    record {
      base = d.base;
      kept = d.kept;
      behind = d.behind;
      file =
          d.file
          ∙ ap (λ (t : List ℕ). log_of f (d.kept ++ d.extra) ++ t) (d.sound h).1
          ∙ append-nil (log_of f (d.kept ++ d.extra))
          ∙ ap (log_of f) all_kept;
      follow = rw (← all_kept) d.follow;
      fits = rw (← all_kept) d.fits;
      ahead = d.ahead;
      same = d.same;
      known = d.known;
      place = d.place;
      within = d.within;
      events = d.events;
      last = d.last;
    }

pub IsTorn-nil : (f : Format) → IsTorn f []
unfolding read_record
IsTorn-nil f = refl

module _ (f : Format) (ok : IsFormat f) (e : Envelope) (s : Store) (d : IsSound f s)
    (fit : Fits f e) (seq : e.sequence ≡ suc s.latest) (lt : suc s.latest < 2 ^ 64 - 1) where
  logged : s.file ++ record_of f e ≡ log_of f (d.kept ++ e ∷ [])
  logged = ap (λ (l : List ℕ). l ++ record_of f e) d.file ∙ sym (log_of-append f d.kept e)

  followed : Follow d.base (d.kept ++ e ∷ [])
  followed =
      Follow-append d.base d.kept e d.follow (seq ∙ ap suc d.last) (omega (arith, d.last, lt))

  front-Fits : All (Fits f) (d.kept ++ e ∷ [])
  front-Fits = All-append (Fits f) d.kept (e ∷ []) d.fits (fit, _)

  -- The next envelope is written behind a sound log: as one that is kept, as an extra one, or in part.
  write_kept :
      (failed : Bool)
      → IsOnDisk f
          (s.file ++ record_of f e)
          s.checkpoint
          (s.events ++ e ∷ [])
          s.acked
          e.sequence
          failed
  write_kept failed = record {
    base = d.base;
    kept = d.kept ++ e ∷ [];
    extra = [];
    torn = [];
    behind = d.behind;
    file =
        rw (append-nil (log_of f ((d.kept ++ e ∷ []) ++ [])), append-nil (d.kept ++ e ∷ [])) logged;
    is_torn = IsTorn-nil f;
    follow = rw (append-nil (d.kept ++ e ∷ [])) followed;
    fits = rw (append-nil (d.kept ++ e ∷ [])) front-Fits;
    ahead = d.ahead;
    same = d.same;
    known = omega (arith, d.known, length-append d.kept (e ∷ []));
    place = d.place;
    within = omega (arith, d.within, length-append d.kept (e ∷ []));
    events =
        ap (λ (l : List Envelope). l ++ e ∷ []) d.events
        ∙ sym (drop-append_of_le d.behind d.kept (e ∷ []) d.within);
    last = omega (arith, d.last, seq, length-append d.kept (e ∷ []));
    few = omega arith;
    sound = λ h. (refl, refl);
  }

  write_extra : IsOnDisk f (s.file ++ record_of f e) s.checkpoint s.events s.acked s.latest true
  write_extra = record {
    base = d.base;
    kept = d.kept;
    extra = e ∷ [];
    torn = [];
    behind = d.behind;
    file = rw (append-nil (log_of f (d.kept ++ e ∷ []))) logged;
    is_torn = IsTorn-nil f;
    follow = followed;
    fits = front-Fits;
    ahead = d.ahead;
    same = d.same;
    known = d.known;
    place = d.place;
    within = d.within;
    events = d.events;
    last = d.last;
    few = omega arith;
    sound = λ h. absurd (ground (arith, h));
  }

  write_torn :
      (n : ℕ)
      → n < length (record_of f e)
      → IsOnDisk f (s.file ++ take n (record_of f e)) s.checkpoint s.events s.acked s.latest true
  write_torn n short = record {
    base = d.base;
    kept = d.kept;
    extra = [];
    torn = take n (record_of f e);
    behind = d.behind;
    file = rw (append-nil d.kept, d.file) refl;
    is_torn = read_record-torn f e n ok fit.0 short;
    follow = rw (append-nil d.kept) d.follow;
    fits = rw (append-nil d.kept) d.fits;
    ahead = d.ahead;
    same = d.same;
    known = d.known;
    place = d.place;
    within = d.within;
    events = d.events;
    last = d.last;
    few = omega arith;
    sound = λ h. absurd (ground (arith, h));
  }

  write_record-IsDurable :
      (w : Write) → s.failed ≡ false → IsDurable f ((write_record w e (record_of f e) s).0)
  unfolding write_record
  write_record-IsDurable Write.written h = write_kept s.failed
  write_record-IsDurable Write.not_flushed h = write_extra
  write_record-IsDurable (Write.cut_short n) h =
      elim (Bool-cases (ltb n (length (record_of f e)))) [
        | inl short ↦ write_torn n (ltb→lt n _ short)
        | inr long ↦ rw (take_all_of_le n (record_of f e) (ltb→le n _ long)) write_extra
      ]

-- An append keeps the disk and the store together, whatever the disk does.
pub append_envelope-IsDurable :
    (f : Format) (priority : Priority) (w : Write) (e : Envelope) (s : Store)
    → IsFormat f
    → IsDurable f s
    → e.sequence ≡ suc s.latest
    → suc s.latest < 2 ^ 64 - 1
    → is_identified e ≡ true
    → IsDurable f ((append_envelope f priority w e s).0)
unfolding append_envelope append_record
append_envelope-IsDurable f priority w e s ok d seq lt id =
    let P : Store × Option OutboxError → Type 0 = λ r. IsDurable f (r.0) in
    if-cases P s.closed (λ h. d)
      (λ h.
        if-cases P s.failed (λ broken. d)
          (λ sane.
            match-cases P (encode_record f e) (λ large. d)
              (λ r made.
                let fit = encode_record-some f e r made in
                if-cases P (ltb (limit_for priority s.max) (s.bytes + length r)) (λ full. d)
                  (λ room. rw (fit.1) (
                    write_record-IsDurable f ok e s (IsDurable-IsSound f s d sane) (fit.0, id) seq
                      lt w sane)))))
