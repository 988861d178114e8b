-- ===== src/Agent/Outbox/Durable/Reopened.antt =====
-- The directory of a store that was in use is opened again.
use gooophira_mp.Prelude.{
  ℕ, ◌+◌, ◌-◌, ◌≤◌, ◌<◌, ◌^◌, ◌≡◌, refl, sym, ap, subst, ◌∙◌, Bool, true, false, Option, none, some,
  List, [], ◌++◌, ltb, if◌then◌else◌, length, drop, arith, All, length-append, if-cases,
  drop-append_of_le,
}
use gooophira_mp.Agent.Outbox.{Envelope, Format, Store, max_record_size}
use gooophira_mp.Agent.Outbox.Recovery.{Scan, recover_log, recover_loop, open_store}
use gooophira_mp.Agent.Outbox.Records.{IsFormat}
use gooophira_mp.Agent.Outbox.Durable.{IsDurable, IsTorn-nil}
use gooophira_mp.Agent.Outbox.Durable.Acks.{drop-drop}
use gooophira_mp.Agent.Outbox.Durable.Runs.{Call, run, HasId, recover_log-IsDurable, run-IsDurable}

-- A new store in an empty directory, when the bound is large enough.
abbrev pub IsFresh : Format → Option Store → Type 0
IsFresh f none = 0 ≤ 0
IsFresh f (some s) = IsDurable f s × (s.latest ≡ 0)

pub open_store-IsFresh : (f : Format) (limit : ℕ) → IsFresh f (open_store f limit [] 0)
unfolding open_store recover_log recover_loop
open_store-IsFresh f limit =
    if-cases (IsFresh f) (ltb limit max_record_size) (λ small. omega arith)
      (λ room. (
        record {
          base = 0;
          kept = [];
          extra = [];
          torn = [];
          behind = 0;
          ahead = 0;
          file = refl;
          is_torn = IsTorn-nil f;
          follow = omega arith;
          fits = tt;
          same = omega arith;
          known = omega arith;
          place = omega arith;
          within = omega arith;
          events = refl;
          last = refl;
          few = omega arith;
          sound = λ h. (refl, refl);
        },
        refl,
      ))

failed-most :
    {A : Type 0} (b : Bool) (xs : List A)
    → length xs ≤ 1
    → (b ≡ false → xs ≡ [])
    → length xs ≤ (if b then 1 else 0)
failed-most true xs few none_extra = few
failed-most false xs few none_extra = omega (arith, ap length (none_extra refl))

-- What opening the directory of a store gives, next to what is in memory.
pub record IsReread (t : Store) (scan : Scan) : Type 0 where
  pub above : t.acked ≤ t.checkpoint
  pub within : t.checkpoint ≤ t.latest
  pub extra : List Envelope
  pub events : scan.events ≡ drop (t.checkpoint - t.acked) t.events ++ extra
  pub few : length extra ≤ (if t.failed then 1 else 0)
  pub latest : scan.latest ≡ t.latest + length extra

pub reread :
    (f : Format) (t : Store)
    → IsFormat f
    → IsDurable f t
    → IsReread t (recover_log f t.checkpoint t.file)
reread f t ok d =
    let r = recover_log-IsDurable f t d ok in
    let by : t.checkpoint - t.acked ≡ d.ahead = omega (arith, d.same) in
    record {
      above = omega (arith, d.same);
      within = omega (arith, d.same, d.known, d.place, d.last);
      extra = d.extra;
      events =
          r.events
          ∙ drop-append_of_le (d.behind + d.ahead) d.kept d.extra d.known
          ∙ ap (λ (l : List Envelope). l ++ d.extra)
              (sym (drop-drop d.ahead d.behind d.kept) ∙ rw (by, d.events) refl);
      few = failed-most (t.failed) d.extra d.few (λ h. (d.sound h).0);
      latest = omega (arith, r.latest, d.last, length-append d.kept d.extra);
    }

-- After any calls and restarts on an empty directory, with any failures of the disk, at most 2^64 - 2
-- calls, reading the directory gives the events that are pending in memory behind the checkpoint on the
-- disk, exactly these while no write has failed, and else at most one more, whose writing was reported
-- as failed. The checkpoint lies between the acknowledged and the last number, and the last number
-- that is read is the one in memory, or the one of that event.
pub run-recovered :
    (f : Format) (limit : ℕ) (cs : List Call) (s : Store)
    → IsFormat f
    → All HasId cs
    → length cs < 2 ^ 64 - 1
    → open_store f limit [] 0 ≡ some s
    → IsReread (run f cs s) (recover_log f (run f cs s).checkpoint (run f cs s).file)
run-recovered f limit cs s ok named few opened =
    let start = subst (IsFresh f) opened (open_store-IsFresh f limit) in
    reread f (run f cs s) ok (run-IsDurable f cs s ok named (omega (arith, start.1, few)) (start.0))
