-- ===== src/Agent/Inbox/Kept.antt =====
-- Each operation of an inbox keeps its files and what it holds together, whatever the disk does.
use gooophira_mp.Prelude.{
  ℕ, suc, ◌+◌, ◌-◌, ◌≤◌, ◌<◌, ◌^◌, ◌≡◌, refl, sym, ap, ◌∙◌, Bool, true, false, inl, inr, Option,
  none, List, [], ◌∷◌, ◌++◌, ltb, leb, ◌==◌, not, length, take, length-append, take_all_of_le,
  append-nil, arith, Bool-cases, All, All-append, if-cases, match-cases, ltb→lt, ltb→le,
}
use gooophira_mp.Agent.Outbox.{Envelope, Format, Write, u64}
use gooophira_mp.Agent.Outbox.Recovery.{is_identified}
use gooophira_mp.Agent.Outbox.Records.{
  IsFormat, Fits, record_of, length-encode_data, read_record-torn, encode_record-some,
}
use gooophira_mp.Agent.Outbox.Queue.{Follow-lt, log_of}
use gooophira_mp.Agent.Outbox.Durable.{Follow-append, IsTorn-nil, log_of-append}
use gooophira_mp.Agent.Inbox.{
  Store, InboxError, on_file, write_event, accept_again, accept_next, accept_event, accept_events,
  accept, encode, same_text, id_at,
}
use gooophira_mp.Agent.Inbox.Stored.{ids_of, IsLeft, IsOnDisk, IsStored}

ids_of-append :
    (ids : List (ℕ × List ℕ)) (es : List Envelope) (e : Envelope)
    → ids_of ids (es ++ e ∷ []) ≡ (e.sequence, e.id) ∷ ids_of ids es
ids_of-append ids [] e = refl
ids_of-append ids (x ∷ es) e = ids_of-append ((x.sequence, x.id) ∷ ids) es e

module _ (f : Format) (Q : Envelope → Type 0) (ok : IsFormat f) (e : Envelope) (s : Store)
    (d : IsStored f Q s) (sane : s.failed ≡ false) (fit : Fits f e) (seq : e.sequence ≡ suc s.last)
    (lt : e.sequence < 2 ^ 64 - 1) (q : Q e) where
  whole : s.file ≡ log_of f d.kept
  whole =
      d.file
      ∙ ap (λ (t : List ℕ). log_of f d.kept ++ t) (d.sound sane)
      ∙ append-nil (log_of f d.kept)

  -- The record stands behind the log: as one that is kept, or as one that is left over.
  write_kept :
      (failed : Bool)
      → IsOnDisk f Q s.max_bytes
          (s.file ++ record_of f e)
          s.baseline_file
          s.baseline
          (s.bytes + length (record_of f e))
          e.sequence
          ((e.sequence, e.id) ∷ s.ids)
          failed
  write_kept failed = record {
    room = d.room;
    kept = d.kept ++ e ∷ [];
    tail = [];
    file =
        ap (λ (l : List ℕ). l ++ record_of f e) whole
        ∙ sym (append-nil (log_of f (d.kept ++ e ∷ [])) ∙ log_of-append f d.kept e);
    left = inl (IsTorn-nil f);
    follow =
        Follow-append s.baseline d.kept e d.follow (omega (arith, seq, d.last_one))
          (omega (arith, seq, d.last_one, lt));
    fits = All-append (Fits f) d.kept (e ∷ []) d.fits (fit, _);
    come = All-append Q d.kept (e ∷ []) d.come (q, _);
    same = d.same;
    last_one = omega (arith, seq, d.last_one, length-append d.kept (e ∷ []));
    size = omega (
      arith,
      d.size,
      ap length (log_of-append f d.kept e),
      length-append (log_of f d.kept) (record_of f e),
    );
    known = ap (◌∷◌ (e.sequence, e.id)) d.known ∙ sym (ids_of-append [] d.kept e);
    sound = λ h. refl;
  }

  write_left :
      (tail : List ℕ)
      → IsLeft f Q s.last tail
      → IsOnDisk f Q s.max_bytes
          (s.file ++ tail)
          s.baseline_file
          s.baseline
          s.bytes
          s.last
          s.ids
          true
  write_left tail left = record {
    room = d.room;
    kept = d.kept;
    tail = tail;
    file = ap (λ (l : List ℕ). l ++ tail) whole;
    left = left;
    follow = d.follow;
    fits = d.fits;
    come = d.come;
    same = d.same;
    last_one = d.last_one;
    size = d.size;
    known = d.known;
    sound = λ h. absurd (ground (arith, h));
  }

  whole-IsLeft : IsLeft f Q s.last (record_of f e)
  whole-IsLeft = inr (e, refl, fit, omega (arith, seq), lt, q)

  torn-IsLeft : (n : ℕ) → IsLeft f Q s.last (take n (record_of f e))
  torn-IsLeft n = elim (Bool-cases (ltb n (length (record_of f e)))) [
    | inl short ↦ inl (read_record-torn f e n ok fit.0 (ltb→lt n _ short))
    | inr long ↦ rw (take_all_of_le n (record_of f e) (ltb→le n _ long)) whole-IsLeft
  ]

  pub write_event-IsStored : (w : Write) → IsStored f Q ((write_event w e (record_of f e) s).0)
  unfolding write_event
  write_event-IsStored Write.written = write_kept s.failed
  write_event-IsStored Write.not_flushed = write_left (record_of f e) whole-IsLeft
  write_event-IsStored (Write.cut_short n) = write_left (take n (record_of f e)) (torn-IsLeft n)

-- An event that the server may send: it has an id, and its number is not near the end of uint64.
abbrev pub IsEvent : Envelope → Type 0
IsEvent e = (0 < length e.id) × (e.sequence < 2 ^ 64 - 1)

pub IsEvent-identified :
    (last : ℕ) (e : Envelope) → IsEvent e → e.sequence ≡ suc last → is_identified e ≡ true
unfolding is_identified
IsEvent-identified last e (id, lt) seq = ground (arith, id, seq)

next_sequence :
    (last : ℕ) (e : Envelope)
    → IsEvent e
    → leb e.sequence last ≡ false
    → not (e.sequence == u64 (last + 1)) ≡ false
    → last < 2 ^ 64 - 1
    → e.sequence ≡ suc last
next_sequence last e (id, lt) above next bound = ground (arith, above, next, bound, lt)

-- An event that may be sent, of which `Q` is known.
abbrev pub IsKnown : (Envelope → Type 0) → Envelope → Type 0
IsKnown Q e = IsEvent e × Q e

pub IsStored-bound :
    (f : Format) (Q : Envelope → Type 0) (s : Store) → IsStored f Q s → s.last < 2 ^ 64 - 1
IsStored-bound f Q s d = omega (arith, d.last_one, Follow-lt s.baseline d.kept d.follow)

pub accept_event-IsStored :
    (f : Format) (Q : Envelope → Type 0) (w : Write) (e : Envelope) (s : Store)
    → IsFormat f
    → IsKnown Q e
    → s.failed ≡ false
    → IsStored f Q s
    → IsStored f Q ((accept_event f w e s).0)
unfolding accept_event accept_again accept_next
accept_event-IsStored f Q w e s ok good sane d =
    let P : Store × Option InboxError → Type 0 = λ r. IsStored f Q (r.0) in
    if-cases P (leb e.sequence s.last)
      (λ old. if-cases P (not (same_text (id_at e.sequence s.ids) e.id)) (λ h. d) (λ h. d))
      (λ new.
        if-cases P (not (e.sequence == u64 (s.last + 1))) (λ gap. d)
          (λ next.
            match-cases P (encode f e) (λ large. d)
              (λ r made.
                let fit = encode_record-some f e r made in
                let seq = next_sequence s.last e good.0 new next (IsStored-bound f Q s d) in
                if-cases P (ltb s.max_bytes (s.bytes + length r)) (λ full. d)
                  (λ room. rw (fit.1) (
                    write_event-IsStored f Q ok e s d sane
                      (fit.0, IsEvent-identified s.last e good.0 seq) seq (good.0.1) (good.1)
                      (on_file s.is_open w))))))

write_event-sane :
    (w : Write) (e : Envelope) (r : List ℕ) (s : Store)
    → (write_event w e r s).1 ≡ none
    → ((write_event w e r s).0).failed ≡ s.failed
unfolding write_event
write_event-sane Write.written e r s h = refl
write_event-sane Write.not_flushed e r s h = absurd (cc h)
write_event-sane (Write.cut_short n) e r s h = absurd (cc h)

accept_event-sane :
    (f : Format) (w : Write) (e : Envelope) (s : Store)
    → (accept_event f w e s).1 ≡ none
    → ((accept_event f w e s).0).failed ≡ s.failed
unfolding accept_event accept_again accept_next
accept_event-sane f w e s =
    let P : Store × Option InboxError → Type 0 = λ r. r.1 ≡ none → (r.0).failed ≡ s.failed in
    if-cases P (leb e.sequence s.last)
      (λ old.
        if-cases P (not (same_text (id_at e.sequence s.ids) e.id)) (λ h q. refl) (λ h q. refl))
      (λ new.
        if-cases P (not (e.sequence == u64 (s.last + 1))) (λ gap q. refl)
          (λ next.
            match-cases P (encode f e) (λ large q. refl)
              (λ r made.
                if-cases P (ltb s.max_bytes (s.bytes + length r)) (λ full q. refl)
                  (λ room. write_event-sane (on_file s.is_open w) e r s))))

accept_events-IsStored :
    (f : Format) (Q : Envelope → Type 0) (w : ℕ → Write) (es : List Envelope) (s : Store)
    → IsFormat f
    → All (IsKnown Q) es
    → s.failed ≡ false
    → IsStored f Q s
    → IsStored f Q ((accept_events f w es s).0)
unfolding accept_events
accept_events-IsStored f Q w [] s ok good sane d = d
accept_events-IsStored f Q w (e ∷ es) s ok (now, good) sane d =
    let step = accept_event f (w e.sequence) e s in
    let first = accept_event-IsStored f Q (w e.sequence) e s ok now sane d in
    match-cases (λ (r : Store × Option InboxError). IsStored f Q (r.0)) (step.1)
      (λ taken.
        accept_events-IsStored f Q w es (step.0) ok good
          (accept_event-sane f (w e.sequence) e s taken ∙ sane) first)
      (λ error refusal. first)

pub accept-IsStored :
    (f : Format) (Q : Envelope → Type 0) (w : ℕ → Write) (es : List Envelope) (s : Store)
    → IsFormat f
    → All (IsKnown Q) es
    → IsStored f Q s
    → IsStored f Q ((accept f w es s).0)
unfolding accept
accept-IsStored f Q w es s ok good d =
    if-cases (λ (r : Store × Option InboxError). IsStored f Q (r.0)) s.failed (λ broken. d)
      (λ sane. accept_events-IsStored f Q w es s ok good sane d)

-- The baseline of an inbox with no event moves up, and what is left behind stays an old record.
moved-IsLeft :
    (f : Format) (Q : Envelope → Type 0) (last n : ℕ) (tail : List ℕ)
    → last ≤ n
    → IsLeft f Q last tail
    → IsLeft f Q n tail
moved-IsLeft f Q last n tail le (inl torn) = inl torn
moved-IsLeft f Q last n tail le (inr (e, is, fit, at, lt, q)) =
    inr (e, is, fit, omega (arith, at, le), lt, q)

no_events : (f : Format) (base : ℕ) (es : List Envelope) → length (log_of f es) ≡ 0 → es ≡ []
no_events f base [] h = refl
no_events f base (e ∷ es) h = absurd (
    omega
      (arith, h, length-append (record_of f e) (log_of f es), length-encode_data f (f.marshal e)))

pub moved-IsStored :
    (f : Format) (Q : Envelope → Type 0) (n : ℕ) (s : Store)
    → IsStored f Q s
    → s.last < n
    → n < 2 ^ 64 - 1
    → s.bytes ≡ 0
    → IsStored f Q (record s { baseline_file = n; last = n; baseline = n })
moved-IsStored f Q n s d above lt empty =
    let none_kept = no_events f s.baseline d.kept (sym d.size ∙ empty) in
    record {
      room = d.room;
      kept = [];
      tail = d.tail;
      file = d.file ∙ ap (λ (es : List Envelope). log_of f es ++ d.tail) none_kept;
      left = moved-IsLeft f Q s.last n d.tail (omega arith) d.left;
      follow = lt;
      fits = tt;
      come = tt;
      same = refl;
      last_one = omega arith;
      size = empty;
      known = d.known ∙ ap (ids_of []) none_kept;
      sound = d.sound;
    }
