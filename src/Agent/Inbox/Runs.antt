-- ===== src/Agent/Inbox/Runs.antt =====
-- Histories of an inbox: what the agent of src/cmd/agent/main.go does with it, from one start to
-- the next.
use gooophira_mp.Prelude.{
  ℕ, suc, ◌+◌, ◌-◌, ◌≤◌, ◌<◌, ◌^◌, ◌≡◌, refl, sym, ap, ◌∙◌, Bool, true, false, inl, inr, Option,
  none, some, List, [], ◌∷◌, ◌++◌, ltb, leb, ◌==◌, not, ◌||◌, if◌then◌else◌, length, length-append,
  take-append, append-nil, arith, Bool-cases, All, All-append, if-cases, ltb→lt, ltb→le,
}
use gooophira_mp.Agent.Outbox.{Envelope, Format, Write, max_record_size}
use gooophira_mp.Agent.Outbox.Records.{IsFormat, Fits, record_of, length-encode_data}
use gooophira_mp.Agent.Outbox.Queue.{Follow, Follow-lt, log_of}
use gooophira_mp.Agent.Outbox.Durable.{Follow-append, IsTorn-nil, log_of-append}
use gooophira_mp.Agent.Inbox.{
  Store, InboxError, Scan, Replace, replaced, not_replaced, replaced_only, next_event, recover,
  recover_loop, open_inbox, accept, write_baseline, set_baseline, close,
}
use gooophira_mp.Agent.Inbox.Records.{next_event-torn, next_event-other}
use gooophira_mp.Agent.Inbox.Stored.{ids_of, IsLeft, IsStored, recover-log}
use gooophira_mp.Agent.Inbox.Kept.{IsKnown, IsStored-bound, accept-IsStored, moved-IsStored}

-- A handshake with the number that the server has acknowledged, a batch of events, the end of the
-- process, and its next start.
pub data Call : Type 0 where
  handshake : ℕ → Replace → Call
  receive : List Envelope → (ℕ → Write) → Call
  close_inbox : Call
  restart : Call

unfoldable pub reopened : Store → Option Store → Store
reopened s none = s
reopened s (some t) = t

unfoldable pub restarted : Format → Store → Store
restarted f s = reopened s (open_inbox f s.max_bytes s.file s.baseline_file)

-- What the agent does at a handshake, and whether it goes on: an error ends the process.
unfoldable pub after_baseline : Format → Store × Option InboxError → Store × Bool
after_baseline f (s, none) = (s, true)
after_baseline f (s, some error) = (restarted f s, false)

unfoldable pub on_handshake : Format → Replace → ℕ → Store → Store × Bool
on_handshake f d acked s =
    if ltb s.last acked then after_baseline f (set_baseline d acked s) else (s, true)

unfoldable pub call : Format → Call → Store → Store
call f (handshake acked d) s = (on_handshake f d acked s).0
call f (receive es w) s = (accept f w es s).0
call f close_inbox s = close s
call f restart s = restarted f s

unfoldable pub run : Format → List Call → Store → Store
run f [] s = s
run f (c ∷ cs) s = run f cs (call f c s)

abbrev pub IsSent : (Envelope → Type 0) → Call → Type 0
IsSent Q (handshake acked d) = acked < 2 ^ 64 - 1
IsSent Q (receive es w) = All (IsKnown Q) es
IsSent Q close_inbox = 0 ≤ 0
IsSent Q restart = 0 ≤ 0

-- What the next start makes of the files under an inbox: the events that were kept, and one more when
-- its writing failed after the record was whole.
pub record IsReopened (f : Format) (Q : Envelope → Type 0) (s : Store) (d : IsStored f Q s)
    (scan : Scan) : Type 0 where
  pub extra : List Envelope
  pub rest : List ℕ
  pub file : s.file ≡ log_of f (d.kept ++ extra) ++ rest
  pub follow : Follow s.baseline (d.kept ++ extra)
  pub fits : All (Fits f) (d.kept ++ extra)
  pub come : All Q (d.kept ++ extra)
  pub few : length extra ≤ 1
  pub sound : s.failed ≡ false → extra ≡ []
  pub offset : scan.offset ≡ length (log_of f (d.kept ++ extra))
  pub last : scan.last ≡ s.last + length extra
  pub ids : scan.ids ≡ ids_of [] (d.kept ++ extra)

module _ (f : Format) (Q : Envelope → Type 0) (ok : IsFormat f) (s : Store)
    (d : IsStored f Q s) where
  reopen_kept :
      next_event f s.last d.tail ≡ none → IsReopened f Q s d (recover f s.file s.baseline_file)
  reopen_kept stop =
      let scanned =
        recover-log f s.baseline d.kept d.tail ok (rw (← d.last_one) stop) d.follow d.fits in
      let all_kept = append-nil d.kept in
      rw (d.file, d.same)
        (record {
          extra = [];
          rest = d.tail;
          file = rw all_kept d.file;
          follow = rw all_kept d.follow;
          fits = rw all_kept d.fits;
          come = rw all_kept d.come;
          few = omega arith;
          sound = λ h. refl;
          offset = rw all_kept (scanned.offset ∙ omega arith);
          last = omega (arith, scanned.last, d.last_one);
          ids = rw all_kept scanned.ids;
        })

  reopen_extra :
      (e : Envelope)
      → d.tail ≡ record_of f e
      → Fits f e
      → e.sequence ≡ suc s.last
      → e.sequence < 2 ^ 64 - 1
      → s.failed ≡ true
      → Q e
      → IsReopened f Q s d (recover f s.file s.baseline_file)
  reopen_extra e is fit seq lt broken q =
      let all_in = d.kept ++ e ∷ [] in
      let follow =
        Follow-append s.baseline d.kept e d.follow (omega (arith, seq, d.last_one))
          (omega (arith, seq, d.last_one, lt)) in
      let fits = All-append (Fits f) d.kept (e ∷ []) d.fits (fit, _) in
      let whole : s.file ≡ log_of f all_in ++ [] =
        d.file
        ∙ ap (λ (t : List ℕ). log_of f d.kept ++ t) is
        ∙ sym (append-nil (log_of f all_in) ∙ log_of-append f d.kept e) in
      let bound : suc (s.baseline + length all_in) < 2 ^ 64 =
        omega (arith, Follow-lt s.baseline all_in follow) in
      let scanned =
        recover-log f s.baseline all_in [] ok (next_event-torn f _ [] bound (IsTorn-nil f)) follow
          fits in
      rw (whole, d.same)
        (record {
          extra = e ∷ [];
          rest = [];
          file = whole;
          follow = follow;
          fits = fits;
          come = All-append Q d.kept (e ∷ []) d.come (q, _);
          few = omega arith;
          sound = λ h. absurd (ground (arith, h, broken));
          offset = scanned.offset ∙ omega arith;
          last = omega (arith, scanned.last, d.last_one, length-append d.kept (e ∷ []));
          ids = scanned.ids;
        })

  sound_tail : (failed : Bool) → s.failed ≡ failed → 0 < length d.tail → failed ≡ true
  sound_tail true h some_tail = refl
  sound_tail false h some_tail = absurd (omega (arith, some_tail, ap length (d.sound h)))

  -- An old number is not the next, and a torn record is none.
  reopen_left : IsLeft f Q s.last d.tail → IsReopened f Q s d (recover f s.file s.baseline_file)
  reopen_left (inl torn) =
      reopen_kept (next_event-torn f s.last d.tail (omega (arith, IsStored-bound f Q s d)) torn)
  reopen_left (inr (e, is, fit, at, lt, q)) = elim (Bool-cases (leb e.sequence s.last)) [
    | inl old ↦ reopen_kept (
        rw (is ∙ sym (append-nil (record_of f e)))
          (next_event-other f s.last e [] ok fit (ground (arith, old, IsStored-bound f Q s d))))
    | inr new ↦
        reopen_extra e is fit (ground (arith, new, at)) lt
          (sound_tail s.failed refl
            (omega (arith, ap length is, length-encode_data f (f.marshal e))))
          q
  ]

  pub recover-IsReopened : IsReopened f Q s d (recover f s.file s.baseline_file)
  recover-IsReopened = reopen_left d.left

pub restarted-IsStored :
    (f : Format) (Q : Envelope → Type 0) (s : Store)
    → IsFormat f
    → IsStored f Q s
    → IsStored f Q (restarted f s)
unfolding restarted open_inbox reopened
restarted-IsStored f Q s ok d =
    let r = recover-IsReopened f Q ok s d in
    if-cases (λ (o : Option Store). IsStored f Q (reopened s o)) (ltb s.max_bytes max_record_size)
      (λ small. absurd (omega (arith, d.room, ltb→lt s.max_bytes max_record_size small)))
      (λ room. record {
        room = d.room;
        kept = d.kept ++ r.extra;
        tail = [];
        file =
            rw (append-nil (log_of f (d.kept ++ r.extra)), r.offset, r.file)
              (take-append (log_of f (d.kept ++ r.extra)) r.rest);
        left = inl (IsTorn-nil f);
        follow = rw d.same r.follow;
        fits = r.fits;
        come = r.come;
        same = refl;
        last_one = omega (arith, r.last, d.same, d.last_one, length-append d.kept r.extra);
        size = r.offset;
        known = r.ids;
        sound = λ h. refl;
      })

IsStored-empty :
    (n : ℕ) (ids : List (ℕ × List ℕ)) → (not (length ids == 0) || not (n == 0)) ≡ false → n ≡ 0
IsStored-empty n ids h = ground arith

-- Where the baseline stands on the disk but not in memory, the next start is that of the new baseline.
same_start :
    (f : Format) (Q : Envelope → Type 0) (n : ℕ) (s : Store)
    → max_record_size ≤ s.max_bytes
    → IsStored f Q (restarted f (record s { baseline_file = n; last = n; baseline = n }))
    → IsStored f Q (restarted f (record s { baseline_file = n }))
unfolding restarted open_inbox reopened
same_start f Q n s room =
    if-cases
      (λ (o : Option Store).
        IsStored f Q (reopened (record s { baseline_file = n; last = n; baseline = n }) o)
        → IsStored f Q (reopened (record s { baseline_file = n }) o))
      (ltb s.max_bytes max_record_size)
      (λ small. absurd (omega (arith, room, ltb→lt s.max_bytes max_record_size small))) (λ h d. d)

write_baseline-IsStored :
    (f : Format) (Q : Envelope → Type 0) (b : Replace) (n : ℕ) (s : Store)
    → IsFormat f
    → IsStored f Q s
    → IsStored f Q (record s { baseline_file = n; last = n; baseline = n })
    → IsStored f Q ((after_baseline f (write_baseline b n s)).0)
unfolding write_baseline after_baseline
write_baseline-IsStored f Q replaced n s ok d moved = moved
write_baseline-IsStored f Q not_replaced n s ok d moved = restarted-IsStored f Q s ok d
write_baseline-IsStored f Q replaced_only n s ok d moved =
    same_start f Q n s (d.room)
      (restarted-IsStored f Q (record s { baseline_file = n; last = n; baseline = n }) ok moved)

pub on_handshake-IsStored :
    (f : Format) (Q : Envelope → Type 0) (b : Replace) (n : ℕ) (s : Store)
    → IsFormat f
    → n < 2 ^ 64 - 1
    → IsStored f Q s
    → IsStored f Q ((on_handshake f b n s).0)
unfolding on_handshake set_baseline after_baseline
on_handshake-IsStored f Q b n s ok lt d =
    if-cases (λ (r : Store × Bool). IsStored f Q (r.0)) (ltb s.last n)
      (λ behind.
        if-cases (λ (r : Store × Option InboxError). IsStored f Q ((after_baseline f r).0))
          (leb n s.last) (λ old. d)
          (λ new.
            if-cases (λ (r : Store × Option InboxError). IsStored f Q ((after_baseline f r).0))
              (not (length s.ids == 0) || not (s.bytes == 0)) (λ h. restarted-IsStored f Q s ok d)
              (λ h. write_baseline-IsStored f Q b n s ok d (
                moved-IsStored f Q n s d (ltb→lt s.last n behind) lt
                  (IsStored-empty s.bytes s.ids h)))))
      (λ ahead. d)

pub call-IsStored :
    (f : Format) (Q : Envelope → Type 0) (c : Call) (s : Store)
    → IsFormat f
    → IsSent Q c
    → IsStored f Q s
    → IsStored f Q (call f c s)
unfolding call close
call-IsStored f Q (handshake n b) s ok lt d = on_handshake-IsStored f Q b n s ok lt d
call-IsStored f Q (receive es w) s ok good d = accept-IsStored f Q w es s ok good d
call-IsStored f Q close_inbox s ok good d = d
call-IsStored f Q restart s ok good d = restarted-IsStored f Q s ok d

pub run-IsStored :
    (f : Format) (Q : Envelope → Type 0) (cs : List Call) (s : Store)
    → IsFormat f
    → All (IsSent Q) cs
    → IsStored f Q s
    → IsStored f Q (run f cs s)
unfolding run
run-IsStored f Q [] s ok good d = d
run-IsStored f Q (c ∷ cs) s ok (now, good) d =
    run-IsStored f Q cs (call f c s) ok good (call-IsStored f Q c s ok now d)

-- The inbox of an empty directory, when the bound is large enough.
abbrev pub IsFresh : Format → (Envelope → Type 0) → Option Store → Type 0
IsFresh f Q none = 0 ≤ 0
IsFresh f Q (some s) = IsStored f Q s × (s.last ≡ 0)

pub open_inbox-IsFresh :
    (f : Format) (Q : Envelope → Type 0) (limit : ℕ) → IsFresh f Q (open_inbox f limit [] 0)
unfolding open_inbox recover recover_loop
open_inbox-IsFresh f Q limit =
    if-cases (IsFresh f Q) (ltb limit max_record_size) (λ small. omega arith)
      (λ room. (
        record {
          room = ltb→le limit max_record_size room;
          kept = [];
          tail = [];
          file = refl;
          left = inl (IsTorn-nil f);
          follow = omega arith;
          fits = tt;
          come = tt;
          same = refl;
          last_one = omega arith;
          size = refl;
          known = refl;
          sound = λ h. refl;
        },
        refl,
      ))
