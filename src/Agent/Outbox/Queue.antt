-- ===== src/Agent/Outbox/Queue.antt =====
-- A log of consecutive envelopes is recovered whole, whatever torn record follows it.
use Prim.Native.Nat.{max}
use gooophira_mp.Prelude.{
  ℕ, suc, zero, ◌+◌, ◌-◌, ◌≤◌, ◌<◌, ◌^◌, ◌≡◌, refl, sym, ◌∙◌, true, inl, inr, none, List, [], ◌∷◌,
  ◌++◌, ltb, if◌then◌else◌, length, length-append, append_assoc, append-nil, arith, Bool-cases, All,
}
use gooophira_mp.Agent.Outbox.{Envelope, Format}
use gooophira_mp.Agent.Outbox.Recovery.{
  read_record, Scan, is_next, take_event, recover_loop, recover_log,
}
use gooophira_mp.Agent.Outbox.Records.{
  IsFormat, Fits, record_of, length-encode_data, read_record-record,
}

-- The numbers after `base`, one by one, below the bound of a uint64.
abbrev pub Follow : ℕ → List Envelope → Type 0
Follow base [] = base < 2 ^ 64 - 1
Follow base (e ∷ es) = (e.sequence ≡ suc base) × Follow (suc base) es

abbrev pub log_of : Format → List Envelope → List ℕ
log_of f [] = []
log_of f (e ∷ es) = record_of f e ++ log_of f es

-- The events behind a checkpoint, and the last number of a log.
unfoldable pub pending : ℕ → List Envelope → List Envelope
pending acked [] = []
pending acked (e ∷ es) =
    let rest = pending acked es in if ltb acked e.sequence then e ∷ rest else rest

pub Follow-lt : (base : ℕ) (es : List Envelope) → Follow base es → base + length es < 2 ^ 64 - 1
Follow-lt base [] h = omega arith
Follow-lt base (e ∷ es) h = omega (arith, Follow-lt (suc base) es h.1)

-- Nothing is read where the log ends, or a torn record stands.
abbrev pub IsTorn : Format → List ℕ → Type 0
IsTorn f tail = read_record f tail ≡ none

-- What the loop makes of a log: it is read to its end, and what is behind the checkpoint is pending.
record IsScanned (f : Format) (acked base : ℕ) (es : List Envelope) (s r : Scan) : Type 0 where
  offset : r.offset ≡ s.offset + length (log_of f es)
  latest : r.latest ≡ max acked (base + length es)
  events : r.events ≡ s.events ++ pending acked es

record IsReady (acked base : ℕ) (s : Scan) : Type 0 where
  next : is_next acked s.previous (suc base) ≡ true
  latest : s.latest ≡ max acked base

take_event-IsReady :
    (acked base size : ℕ) (e : Envelope) (s : Scan)
    → IsReady acked base s
    → e.sequence ≡ suc base
    → suc base < 2 ^ 64 - 1
    → IsReady acked (suc base) (take_event acked e size s)
unfolding take_event is_next
take_event-IsReady acked base size e s ready h bound = record {
  next = ground arith;
  latest = ground arith;
}

grown :
    (acked : ℕ) (e : Envelope) (es more : List Envelope)
    → (if ltb acked e.sequence then es ++ e ∷ [] else es) ++ more
      ≡ es ++ (if ltb acked e.sequence then e ∷ more else more)
grown acked e es more = elim (Bool-cases (ltb acked e.sequence)) [
  | inl h ↦ rw h (append_assoc es (e ∷ []) more)
  | inr h ↦ rw h refl
]

recover_loop-log :
    (f : Format) (acked base fuel : ℕ) (es : List Envelope) (tail : List ℕ) (s : Scan)
    → IsFormat f
    → IsTorn f tail
    → Follow base es
    → All (Fits f) es
    → length es ≤ fuel
    → IsReady acked base s
    → IsScanned f acked base es s (recover_loop f acked fuel (log_of f es ++ tail) s)
unfolding recover_loop pending take_event
recover_loop-log f acked base zero [] tail s ok torn follow fits le ready = record {
  offset = omega arith;
  latest = ready.latest ∙ omega arith;
  events = sym (append-nil s.events);
}
recover_loop-log f acked base (suc fuel) [] tail s ok torn follow fits le ready =
    rw (torn, recover_loop)
      (record {
        offset = omega arith;
        latest = ready.latest ∙ omega arith;
        events = sym (append-nil s.events);
      })
recover_loop-log f acked base zero (e ∷ es) tail s ok torn follow fits le ready =
    absurd (omega arith)
recover_loop-log f acked base (suc fuel) (e ∷ es) tail s ok torn (seq, follow) (fit, fits) le
      ready =
    let rest = log_of f es ++ tail in
    let size = length (log_of f (e ∷ es) ++ tail) - length rest in
    let later =
      recover_loop-log f acked (suc base) fuel es tail (take_event acked e size s) ok torn follow
        fits (omega arith)
        (take_event-IsReady acked base size e s ready seq
          (omega (arith, Follow-lt (suc base) es follow))) in
    let next : is_next acked s.previous e.sequence ≡ true = rw seq ready.next in
    rw (append_assoc, read_record-record f e rest ok fit, recover_loop)
      (rw (next, recover_loop)
        (record {
          offset = omega (
            arith,
            later.offset,
            length-append (log_of f (e ∷ es)) tail,
            length-append (log_of f es) tail,
            length-append (record_of f e) (log_of f es),
          );
          latest = later.latest ∙ omega arith;
          events = later.events ∙ grown acked e s.events (pending acked es);
        }))

pub length-log_of : (f : Format) (es : List Envelope) → length es ≤ length (log_of f es)
length-log_of f [] = omega arith
length-log_of f (e ∷ es) = omega (
  arith,
  length-append (record_of f e) (log_of f es),
  length-encode_data f (f.marshal e),
  length-log_of f es,
)

-- A log of fitting envelopes with consecutive numbers, the first at most one above the checkpoint,
-- is read to its end, whatever torn record stands behind: the events behind the checkpoint are
-- pending, and the last number is found.
pub recover_log-log :
    (f : Format) (acked base : ℕ) (es : List Envelope) (tail : List ℕ)
    → IsFormat f
    → IsTorn f tail
    → Follow base es
    → All (Fits f) es
    → base ≤ acked
    → acked < 2 ^ 64 - 1
    → (scan : Scan) × (recover_log f acked (log_of f es ++ tail) ≡ scan)
      × (scan.offset ≡ length (log_of f es))
      × (scan.latest ≡ max acked (base + length es))
      × (scan.events ≡ pending acked es)
unfolding recover_log is_next
recover_log-log f acked base es tail ok torn follow fits le bound =
    let start : Scan = record { offset = 0; previous = none; latest = acked; events = [] } in
    let scanned =
      recover_loop-log f acked base (length (log_of f es ++ tail)) es tail start ok torn follow fits
        (omega (arith, length-log_of f es, length-append (log_of f es) tail))
        (record { next = ground arith; latest = omega arith }) in
    (_, refl, omega (arith, scanned.offset), scanned.latest, scanned.events)
