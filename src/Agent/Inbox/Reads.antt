-- ===== src/Agent/Inbox/Reads.antt =====
-- What `ReadAfter` gives of an inbox that is in use.
use gooophira_mp.Prelude.{
  ℕ, suc, zero, ◌+◌, ◌-◌, ◌≤◌, ◌<◌, ◌≡◌, refl, sym, ap, ◌∙◌, subst, true, false, inl, inr, some,
  List, [], ◌∷◌, ◌++◌, ltb, length, take, drop, length-append, append_assoc, append-nil, arith,
  Bool-cases, All, ltb→lt,
}
use gooophira_mp.Agent.Outbox.{Envelope, Format}
use gooophira_mp.Agent.Outbox.Records.{IsFormat, Fits}
use gooophira_mp.Agent.Outbox.Queue.{Follow, log_of, length-log_of, pending}
use gooophira_mp.Agent.Outbox.Durable.Runs.{pending-drop}
use gooophira_mp.Agent.Inbox.{
  Store, Scan, recover, open_inbox, at_end, batch, read_event, read_loop, read_after,
}
use gooophira_mp.Agent.Inbox.Records.{read_event-found}
use gooophira_mp.Agent.Inbox.Stored.{ids_of, IsStored}
use gooophira_mp.Agent.Inbox.Runs.{
  Call, run, IsSent, IsFresh, open_inbox-IsFresh, run-IsStored, recover-IsReopened,
}

read_event-nil : (f : Format) → read_event f [] ≡ at_end
unfolding read_event
read_event-nil f = refl

take-nil : (n : ℕ) → take {A = Envelope} n [] ≡ []
take-nil zero = refl
take-nil (suc n) = refl

nothing_left : (n : ℕ) (out : List Envelope) → batch out ≡ batch (out ++ take n [])
nothing_left n out = ap batch (sym (ap (◌++◌ out) (take-nil n) ∙ append-nil out))

no_room :
    (limit : ℕ) (out es : List Envelope)
    → ltb (length out) limit ≡ false
    → batch out ≡ batch (out ++ take (limit - length out) es)
no_room limit out es h =
    let none_left : limit - length out ≡ 0 = ground (arith, h) in
    ap batch (sym (ap (λ (n : ℕ). out ++ take n es) none_left ∙ append-nil out))

one_more :
    (limit : ℕ) (e : Envelope) (out es : List Envelope)
    → ltb (length out) limit ≡ true
    → (out ++ e ∷ []) ++ take (limit - length (out ++ e ∷ [])) es
      ≡ out ++ take (limit - length out) (e ∷ es)
one_more limit e out es h =
    let left : limit - length out ≡ suc (limit - length (out ++ e ∷ [])) =
      omega (arith, ltb→lt (length out) limit h, length-append out (e ∷ [])) in
    append_assoc out (e ∷ []) (take (limit - length (out ++ e ∷ [])) es)
    ∙ ap (λ (n : ℕ). out ++ take n (e ∷ es)) (sym left)

-- The loop over a whole log: of the events above the number as many as there is room for.
read_loop-log :
    (f : Format) (after limit fuel base : ℕ) (es out : List Envelope)
    → IsFormat f
    → Follow base es
    → All (Fits f) es
    → length es ≤ fuel
    → read_loop f after limit fuel (log_of f es) out
      ≡ batch (out ++ take (limit - length out) (pending after es))
unfolding read_loop pending
read_loop-log f after limit zero base [] out ok follow fits le = nothing_left _ out
read_loop-log f after limit (suc fuel) base [] out ok follow fits le =
    elim (Bool-cases (ltb (length out) limit)) [
      | inl room ↦ rw (room, read_event-nil f, read_loop) (nothing_left _ out)
      | inr full ↦ rw (full, read_loop) (nothing_left _ out)
    ]
read_loop-log f after limit zero base (e ∷ es) out ok follow fits le = absurd (omega arith)
read_loop-log f after limit (suc fuel) base (e ∷ es) out ok (seq, follow) (fit, fits) le =
    let later = λ (more : List Envelope).
      read_loop-log f after limit fuel (suc base) es more ok follow fits (omega arith) in
    elim (Bool-cases (ltb (length out) limit)) [
      | inl room ↦ elim (Bool-cases (ltb after e.sequence)) [
        | inl above ↦
            rw (room, read_event-found f e (log_of f es) ok fit, above, read_loop, pending)
              (later (out ++ e ∷ []) ∙ ap batch (one_more limit e out (pending after es) room))
        | inr below ↦
            rw (room, read_event-found f e (log_of f es) ok fit, below, read_loop, pending)
              (later out)
      ]
      | inr full ↦ rw (full, read_loop) (no_room limit out _ full)
    ]

-- What an inbox that is in use gives: its events, behind any number and in any amount, and what the
-- next start makes of its files, which is what is in memory.
pub record IsServed (f : Format) (Q : Envelope → Type 0) (s : Store) (k limit : ℕ) (scan : Scan)
    : Type 0 where
  pub events : List Envelope
  pub file : s.file ≡ log_of f events
  pub follow : Follow s.baseline events
  pub come : All Q events
  pub last : s.last ≡ s.baseline + length events
  pub read : read_after f (s.baseline + k) limit s ≡ batch (take limit (drop k events))
  pub same_last : scan.last ≡ s.last
  pub same_ids : scan.ids ≡ s.ids
  pub same_bytes : scan.offset ≡ s.bytes

served :
    (f : Format) (Q : Envelope → Type 0) (s : Store) (k limit : ℕ)
    → IsFormat f
    → IsStored f Q s
    → s.failed ≡ false
    → s.baseline + k ≤ s.last
    → 0 < limit
    → IsServed f Q s k limit (recover f s.file s.baseline_file)
unfolding read_after
served f Q s k limit ok d sane within some_room =
    let r = recover-IsReopened f Q ok s d in
    let all_kept : d.kept ++ r.extra ≡ d.kept =
      ap (◌++◌ d.kept) (r.sound sane) ∙ append-nil d.kept in
    let whole : s.file ≡ log_of f d.kept =
      d.file
      ∙ ap (λ (t : List ℕ). log_of f d.kept ++ t) (d.sound sane)
      ∙ append-nil (log_of f d.kept) in
    let le : k ≤ length d.kept = omega (arith, within, d.last_one) in
    let read : read_loop f (s.baseline + k) limit (length s.file) s.file []
        ≡ batch (take limit (drop k d.kept)) =
      rw whole (
        read_loop-log f (s.baseline + k) limit (length (log_of f d.kept)) s.baseline d.kept [] ok
          d.follow d.fits (length-log_of f d.kept)
        ∙ ap (λ (n : ℕ). batch (take n (pending (s.baseline + k) d.kept))) (omega arith))
      ∙ ap (λ (es : List Envelope). batch (take limit es))
          (pending-drop s.baseline k d.kept d.follow le) in
    record {
      events = d.kept;
      file = whole;
      follow = d.follow;
      come = d.come;
      last = d.last_one;
      read = ground (arith, read, within, some_room);
      same_last = omega (arith, r.last, ap length (r.sound sane));
      same_ids = r.ids ∙ ap (ids_of []) all_kept ∙ sym d.known;
      same_bytes =
          r.offset ∙ ap (λ (es : List Envelope). length (log_of f es)) all_kept ∙ sym d.size;
    }

-- After any handshakes, batches and restarts on an empty directory, with any failures of the disk
-- except one that fails an event in the present process, `ReadAfter` gives for each number from the
-- baseline to the last one the events behind it, in order and as many as were asked for; the
-- file is their records, their numbers follow the baseline, and a start on the files finds the same last
-- number, ids and size. Each event has the property `Q` that the events of the batches have. These have an id and a number below 2^64 - 1.
pub run-IsServed :
    (f : Format) (Q : Envelope → Type 0) (max_bytes : ℕ) (cs : List Call) (s : Store) (k limit : ℕ)
    → IsFormat f
    → All (IsSent Q) cs
    → open_inbox f max_bytes [] 0 ≡ some s
    → (run f cs s).failed ≡ false
    → (run f cs s).baseline + k ≤ (run f cs s).last
    → 0 < limit
    → IsServed f Q (run f cs s) k limit (recover f (run f cs s).file (run f cs s).baseline_file)
run-IsServed f Q max_bytes cs s k limit ok sent opened sane within some_room =
    let start = subst (IsFresh f Q) opened (open_inbox-IsFresh f Q max_bytes) in
    served f Q (run f cs s) k limit ok (run-IsStored f Q cs s ok sent (start.0)) sane within
      some_room
