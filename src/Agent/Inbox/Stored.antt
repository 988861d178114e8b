-- ===== src/Agent/Inbox/Stored.antt =====
-- The files under an inbox stand for what it holds.
use gooophira_mp.Prelude.{
  ℕ, suc, zero, ◌+◌, ◌-◌, ◌≤◌, ◌<◌, ◌^◌, ◌≡◌, refl, Bool, false, ◌⊎◌, none, some, List, [], ◌∷◌,
  ◌++◌, length, length-append, append_assoc, arith, All,
}
use gooophira_mp.Agent.Outbox.{Envelope, Format, max_record_size}
use gooophira_mp.Agent.Outbox.Recovery.{read_record}
use gooophira_mp.Agent.Outbox.Records.{IsFormat, Fits, record_of}
use gooophira_mp.Agent.Outbox.Queue.{Follow, Follow-lt, log_of, length-log_of}
use gooophira_mp.Agent.Inbox.{Store, Scan, next_event, take_event, recover_loop, recover}
use gooophira_mp.Agent.Inbox.Records.{next_event-record}

-- The map of ids after these events.
abbrev pub ids_of : List (ℕ × List ℕ) → List Envelope → List (ℕ × List ℕ)
ids_of ids [] = ids
ids_of ids (e ∷ es) = ids_of ((e.sequence, e.id) ∷ ids) es

-- What the loop makes of a log that ends where it finds nothing to take.
pub record IsScanned (f : Format) (base : ℕ) (es : List Envelope) (s r : Scan) : Type 0 where
  pub offset : r.offset ≡ s.offset + length (log_of f es)
  pub last : r.last ≡ base + length es
  pub ids : r.ids ≡ ids_of s.ids es

recover_loop-log :
    (f : Format) (base fuel : ℕ) (es : List Envelope) (tail : List ℕ) (s : Scan)
    → IsFormat f
    → next_event f (base + length es) tail ≡ none
    → Follow base es
    → All (Fits f) es
    → length es ≤ fuel
    → s.last ≡ base
    → IsScanned f base es s (recover_loop f fuel (log_of f es ++ tail) s)
unfolding recover_loop take_event
recover_loop-log f base zero [] tail s ok stop follow fits le at = record {
  offset = omega arith;
  last = omega (arith, at);
  ids = refl;
}
recover_loop-log f base (suc fuel) [] tail s ok stop follow fits le at =
    let here : base + 0 ≡ s.last = omega (arith, at) in
    let stopped : next_event f s.last tail ≡ none = rw (← here) stop in
    rw (stopped, recover_loop)
      (record { offset = omega arith; last = omega (arith, at); ids = refl })
recover_loop-log f base zero (e ∷ es) tail s ok stop follow fits le at = absurd (omega arith)
recover_loop-log f base (suc fuel) (e ∷ es) tail s ok stop (seq, follow) (fit, fits) le at =
    let rest = log_of f es ++ tail in
    let size = length (log_of f (e ∷ es) ++ tail) - length rest in
    let next : next_event f s.last (record_of f e ++ rest) ≡ some (e, rest) =
      next_event-record f s.last e rest ok fit (omega (arith, seq, at))
        (omega (arith, at, Follow-lt (suc base) es follow)) in
    let same : base + suc (length es) ≡ suc base + length es = omega arith in
    let later =
      recover_loop-log f (suc base) fuel es tail (take_event e size s) ok (rw (← same) stop) follow
        fits (omega arith) seq in
    rw (append_assoc, next, recover_loop)
      (record {
        offset = omega (
          arith,
          later.offset,
          length-append (log_of f (e ∷ es)) tail,
          length-append (log_of f es) tail,
          length-append (record_of f e) (log_of f es),
        );
        last = omega (arith, later.last);
        ids = later.ids;
      })

-- Consecutive records are recovered from the number of the baseline on, whatever stands behind them
-- that the loop does not take.
pub recover-log :
    (f : Format) (base : ℕ) (es : List Envelope) (tail : List ℕ)
    → IsFormat f
    → next_event f (base + length es) tail ≡ none
    → Follow base es
    → All (Fits f) es
    → IsScanned f base es
        (record { offset = 0; last = base; ids = [] })
        (recover f (log_of f es ++ tail) base)
unfolding recover
recover-log f base es tail ok stop follow fits =
    recover_loop-log f base (length (log_of f es ++ tail)) es tail
      (record { offset = 0; last = base; ids = [] }) ok stop follow fits
      (omega (arith, length-log_of f es, length-append (log_of f es) tail)) refl

-- What a failed write may leave behind the log: a part of a record, or one whole record, whose number
-- is the next one, or an old one when the baseline moved on.
abbrev pub IsLeft : Format → (Envelope → Type 0) → ℕ → List ℕ → Type 0
IsLeft f Q last tail =
    (read_record f tail ≡ none)
    ⊎ ((e : Envelope) × (tail ≡ record_of f e)
        × Fits f e
        × (e.sequence ≤ suc last)
        × (e.sequence < 2 ^ 64 - 1)
        × Q e)

-- The files under an inbox: the baseline, the records of `kept`, which the inbox knows of, and what a
-- failed write left. Each event has the property `Q`.
pub record IsOnDisk (f : Format) (Q : Envelope → Type 0) (limit : ℕ) (disk : List ℕ)
    (baseline_file baseline bytes last : ℕ) (ids : List (ℕ × List ℕ)) (failed : Bool) : Type 0 where
  pub room : max_record_size ≤ limit
  pub kept : List Envelope
  pub tail : List ℕ
  pub file : disk ≡ log_of f kept ++ tail
  pub left : IsLeft f Q last tail
  pub follow : Follow baseline kept
  pub fits : All (Fits f) kept
  pub come : All Q kept
  pub same : baseline_file ≡ baseline
  pub last_one : last ≡ baseline + length kept
  pub size : bytes ≡ length (log_of f kept)
  pub known : ids ≡ ids_of [] kept
  pub sound : failed ≡ false → tail ≡ []

abbrev pub IsStored : Format → (Envelope → Type 0) → Store → Type 0
IsStored f Q s =
    IsOnDisk f Q s.max_bytes s.file s.baseline_file s.baseline s.bytes s.last s.ids s.failed
