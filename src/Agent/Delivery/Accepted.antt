-- ===== src/Agent/Delivery/Accepted.antt =====
-- A batch of known events is accepted by an inbox that has room, those that it has and those that are
-- new.
use gooophira_mp.Prelude.{
  ℕ, suc, zero, ◌+◌, ◌-◌, ◌≤◌, ◌<◌, ◌^◌, ◌≡◌, refl, ap, ◌∙◌, subst, true, false, inl, inr, Option,
  none, some, List, [], ◌∷◌, ◌++◌, leb, length, take, get_elem?, arith, All, length-append,
  Bool-cases, leb→le, if-cases, match-cases,
}
use Prim.Native.Nat.{max}
use gooophira_mp.Agent.Outbox.{Envelope, Format, Write, encode_record, max_record_size}
use gooophira_mp.Agent.Outbox.Records.{IsFormat, record_of}
use gooophira_mp.Agent.Outbox.Queue.{Follow, log_of}
use gooophira_mp.Agent.Inbox.{
  Store, InboxError, on_file, same_text, id_at, write_event, accept_again, accept_next,
  accept_event, accept_events, accept,
}
use gooophira_mp.Agent.Inbox.Stored.{ids_of, IsStored}
use gooophira_mp.Agent.Inbox.Kept.{IsKnown, accept_event-IsStored}
use gooophira_mp.Agent.Delivery.Sent.{IsIn, IsIn-take}

same_text_refl : (t : List ℕ) → same_text t t ≡ true
unfolding same_text
same_text_refl [] = refl
same_text_refl (a ∷ t) = ground (arith, same_text_refl t)

-- The map of ids has the id of each event that was kept.
id_at-old :
    (sequence base : ℕ) (ids : List (ℕ × List ℕ)) (es : List Envelope)
    → Follow base es
    → sequence ≤ base
    → id_at sequence (ids_of ids es) ≡ id_at sequence ids
unfolding id_at
id_at-old sequence base ids [] h le = refl
id_at-old sequence base ids (e ∷ es) (seq, h) le =
    id_at-old sequence (suc base) ((e.sequence, e.id) ∷ ids) es h (omega arith)
    ∙ ground (arith, seq, le)

id_at-kept :
    (base i : ℕ) (ids : List (ℕ × List ℕ)) (es : List Envelope) (e : Envelope)
    → Follow base es
    → get_elem? es i ≡ some e
    → id_at e.sequence (ids_of ids es) ≡ e.id
unfolding id_at
id_at-kept base i ids [] e h there = absurd (cc there)
id_at-kept base zero ids (x ∷ es) e (seq, h) there =
    let same : x ≡ e = cc there in
    rw (← same) (
      id_at-old x.sequence (suc base) ((x.sequence, x.id) ∷ ids) es h (omega (arith, seq))
      ∙ ground (arith))
id_at-kept base (suc i) ids (x ∷ es) e (seq, h) there =
    id_at-kept (suc base) i ((x.sequence, x.id) ∷ ids) es e h there

get_elem?-take {ℓ} :
    {A : Type ℓ} (xs : List A) (i n : ℕ) → i < n → get_elem? (take n xs) i ≡ get_elem? xs i
get_elem?-take [] i zero lt = absurd (omega arith)
get_elem?-take [] i (suc n) lt = refl
get_elem?-take (x ∷ xs) i zero lt = absurd (omega arith)
get_elem?-take (x ∷ xs) zero (suc n) lt = refl
get_elem?-take (x ∷ xs) (suc i) (suc n) lt = get_elem?-take xs i n (omega arith)

-- The records up to an event and its own are no more than all.
log_of-room :
    (f : Format) (sent : List Envelope) (i : ℕ) (e : Envelope)
    → get_elem? sent i ≡ some e
    → length (log_of f (take i sent)) + length (record_of f e) ≤ length (log_of f sent)
log_of-room f [] i e h = absurd (cc h)
log_of-room f (x ∷ sent) zero e h =
    let same : x ≡ e = cc h in
    rw (← same) (omega (arith, length-append (record_of f x) (log_of f sent)))
log_of-room f (x ∷ sent) (suc i) e h = omega (
  arith,
  length-append (record_of f x) (log_of f sent),
  length-append (record_of f x) (log_of f (take i sent)),
  log_of-room f sent i e h,
)

-- An inbox in good order, with room for all that was sent.
pub record IsReady (f : Format) (sent : List Envelope) (s : Store) : Type 0 where
  pub stored : IsStored f (IsIn sent) s
  pub base : s.baseline ≡ 0
  pub sane : s.failed ≡ false
  pub open_file : s.is_open ≡ true
  pub room : length (log_of f sent) ≤ s.max_bytes

ready-kept :
    (f : Format) (sent : List Envelope) (s : Store) (r : IsReady f sent s)
    → take s.last sent ≡ r.stored.kept
ready-kept f sent s r =
    let d = r.stored in
    let count : s.last ≡ length d.kept = omega (arith, d.last_one, r.base) in
    let follow : Follow 0 d.kept = rw (← r.base) d.follow in
    rw count (IsIn-take sent d.kept 0 follow d.come)

again-accepted :
    (f : Format) (sent : List Envelope) (w : Write) (e : Envelope) (s : Store)
    → IsReady f sent s
    → IsIn sent e
    → e.sequence ≤ s.last
    → accept_event f w e s ≡ (s, none)
unfolding accept_event accept_again
again-accepted f sent w e s r (i, seq, there) old =
    let d = r.stored in
    let follow : Follow 0 d.kept = rw (← r.base) d.follow in
    let in_kept : get_elem? d.kept i ≡ some e =
      rw (← ready-kept f sent s r)
        (get_elem?-take sent i s.last (omega (arith, seq, old)) ∙ there) in
    let same : id_at e.sequence s.ids ≡ e.id =
      ap (id_at e.sequence) d.known ∙ id_at-kept 0 i [] d.kept e follow in_kept in
    let test : same_text (id_at e.sequence s.ids) e.id ≡ true = rw same (same_text_refl e.id) in
    ground (arith, old, test)

-- The next event is written behind the log.
abbrev with_event : Format → Envelope → Store → Store
with_event f e s = record s {
  file = s.file ++ record_of f e;
  bytes = s.bytes + length (record_of f e);
  last = e.sequence;
  ids = (e.sequence, e.id) ∷ s.ids;
}

next-accepted :
    (f : Format) (sent : List Envelope) (e : Envelope) (s : Store)
    → IsReady f sent s
    → IsIn sent e
    → e.sequence ≡ suc s.last
    → s.last < 2 ^ 64 - 1
    → length (f.marshal e) ≤ max_record_size
    → accept_event f Write.written e s ≡ (with_event f e s, none)
unfolding accept_event accept_next write_event on_file encode_record
next-accepted f sent e s r (i, seq, there) next lt small =
    let at : i ≡ s.last = omega (arith, seq, next) in
    let here : get_elem? sent s.last ≡ some e = rw (← at) there in
    let fits : s.bytes + length (record_of f e) ≤ s.max_bytes = omega (
      arith,
      r.stored.size,
      ap (λ (es : List Envelope). length (log_of f es)) (ready-kept f sent s r),
      log_of-room f sent s.last e here,
      r.room,
    ) in
    ground (arith, next, lt, small, fits, r.open_file)

-- What a batch leaves: no error, and an inbox that holds its events.
pub record IsTaken (f : Format) (sent : List Envelope) (last : ℕ) (r : Store × Option InboxError)
    : Type 0 where
  pub result : r.1 ≡ none
  pub ready : IsReady f sent (r.0)
  pub last_one : (r.0).last ≡ last

-- An event with its record not too long.
abbrev pub IsSmall : Format → Envelope → Type 0
IsSmall f e = length (f.marshal e) ≤ max_record_size

next-IsReady :
    (f : Format) (sent : List Envelope) (e : Envelope) (s : Store)
    → IsReady f sent s
    → IsStored f (IsIn sent) (with_event f e s)
    → IsReady f sent (with_event f e s)
next-IsReady f sent e s r d = record {
  stored = d;
  base = r.base;
  sane = r.sane;
  open_file = r.open_file;
  room = r.room;
}

step-IsTaken :
    (f : Format) (sent : List Envelope) (e : Envelope) (s : Store)
    → IsFormat f
    → IsReady f sent s
    → IsKnown (IsIn sent) e
    → IsSmall f e
    → e.sequence ≤ suc s.last
    → IsTaken f sent (max s.last e.sequence) (accept_event f Write.written e s)
step-IsTaken f sent e s ok r known small le = elim (Bool-cases (leb e.sequence s.last)) [
  | inl old ↦
      let at = leb→le e.sequence s.last old in
      rw (again-accepted f sent Write.written e s r known.1 at)
        (record { result = refl; ready = r; last_one = omega (arith, at) })
  | inr new ↦
      let next : e.sequence ≡ suc s.last = ground (arith, new, le) in
      let taken = next-accepted f sent e s r known.1 next (omega (arith, next, known.0.1)) small in
      let d =
        subst (λ (q : Store × Option InboxError). IsStored f (IsIn sent) (q.0)) taken
          (accept_event-IsStored f (IsIn sent) Write.written e s ok known r.sane r.stored) in
      rw taken (record {
        result = refl;
        ready = next-IsReady f sent e s r d;
        last_one = omega (arith, next);
      })
]

accept_events-IsTaken :
    (f : Format) (sent : List Envelope) (base : ℕ) (es : List Envelope) (s : Store)
    → IsFormat f
    → IsReady f sent s
    → Follow base es
    → All (IsKnown (IsIn sent)) es
    → All (IsSmall f) es
    → base ≤ s.last
    → IsTaken f sent (max s.last (base + length es)) (accept_events f (λ n. Write.written) es s)
unfolding accept_events
accept_events-IsTaken f sent base [] s ok r h known small le = record {
  result = refl;
  ready = r;
  last_one = omega (arith, le);
}
accept_events-IsTaken f sent base (e ∷ es) s ok r (seq, h) (now, known) (fit, small) le =
    let first = step-IsTaken f sent e s ok r now fit (omega (arith, seq, le)) in
    let later =
      accept_events-IsTaken f sent (suc base) es ((accept_event f Write.written e s).0) ok
        first.ready h known small (omega (arith, first.last_one, seq, le)) in
    let end = max s.last (base + suc (length es)) in
    match-cases (IsTaken f sent end) ((accept_event f Write.written e s).1)
      (λ taken. record {
        result = later.result;
        ready = later.ready;
        last_one = later.last_one ∙ omega (arith, first.last_one, seq, le);
      })
      (λ error refusal. absurd (cc (refusal, first.result)))

-- A batch that begins no higher than behind the last number is accepted whole.
pub accept-IsTaken :
    (f : Format) (sent : List Envelope) (base : ℕ) (es : List Envelope) (s : Store)
    → IsFormat f
    → IsReady f sent s
    → Follow base es
    → All (IsKnown (IsIn sent)) es
    → All (IsSmall f) es
    → base ≤ s.last
    → IsTaken f sent (max s.last (base + length es)) (accept f (λ n. Write.written) es s)
unfolding accept
accept-IsTaken f sent base es s ok r h known small le =
    if-cases (IsTaken f sent (max s.last (base + length es))) s.failed
      (λ broken. absurd (cc (broken, r.sane)))
      (λ sane. accept_events-IsTaken f sent base es s ok r h known small le)
