-- ===== src/Agent/Delivery/Acked.antt =====
-- Acknowledgements and restarts move the outbox along its queue.
use gooophira_mp.Prelude.{
  ℕ, suc, ◌+◌, ◌-◌, ◌≤◌, ◌<◌, ◌≡◌, refl, sym, ap, ◌∙◌, subst, Bool, true, false, inl, inr, ◌⊎◌,
  Option, some, List, [], ◌++◌, ltb, leb, length, drop, arith, All, All-mono, if◌then◌else◌,
  length-append, length-drop, if-cases, match-cases, ltb→le, drop-append_of_le, drop-append_of_eq,
  append-nil, drop_all,
}
use gooophira_mp.Agent.Outbox.{
  Envelope, Format, Store, Sync, OutboxError, max_record_size, encode_all, events_behind, ack,
  ack_found, compact, write_checkpoint,
}
use gooophira_mp.Agent.Outbox.Recovery.{is_identified, open_store}
use gooophira_mp.Agent.Outbox.Records.{IsFormat, Fits}
use gooophira_mp.Agent.Outbox.Queue.{Follow}
use gooophira_mp.Agent.Outbox.Durable.{IsDurable, Follow-drop, All-drop}
use gooophira_mp.Agent.Outbox.Durable.Acks.{drop-drop, events_behind-drop}
use gooophira_mp.Agent.Outbox.Durable.Runs.{restart-IsDurable, reopened}
use gooophira_mp.Agent.Outbox.Durable.Runs as Durable
use gooophira_mp.Agent.Outbox.Durable.Reopened.{reread}
use gooophira_mp.Agent.Delivery.Sent.{Follow-join}
use gooophira_mp.Agent.Delivery.Outgoing.{IsQueue, durable-Follow, durable-Fits}

-- After an acknowledgement of that number the queue is the same, and the checkpoint is the old one or
-- that number.
pub record IsAcked (sent : List Envelope) (sequence : ℕ) (s t : Store) : Type 0 where
  pub queue : IsQueue sent t
  pub latest : t.latest ≡ s.latest
  pub checkpoint : (t.checkpoint ≡ s.checkpoint) ⊎ (t.checkpoint ≡ sequence)

unmoved :
    (sent : List Envelope) (sequence : ℕ) (s : Store) → IsQueue sent s → IsAcked sent sequence s s
unmoved sent sequence s q = record { queue = q; latest = refl; checkpoint = inl refl }

module _ (sent : List Envelope) (sequence : ℕ) (s : Store) (q : IsQueue sent s)
    (above : s.acked ≤ sequence) (within : sequence ≤ s.latest) where
  moved :
      (file : List ℕ) (bytes : ℕ)
      → IsAcked sent sequence s (record s {
        checkpoint = sequence;
        acked = sequence;
        events = drop sequence sent;
        file = file;
        bytes = bytes;
      })
  moved file bytes = record {
    queue = record {
      follow = q.follow;
      events = refl;
      latest = q.latest;
      above = omega arith;
      within = omega (arith, within, q.latest);
    };
    latest = refl;
    checkpoint = inr refl;
  }

  ahead : IsAcked sent sequence s (record s { checkpoint = sequence })
  ahead = record {
    queue = record {
      follow = q.follow;
      events = q.events;
      latest = q.latest;
      above = above;
      within = omega (arith, within, q.latest);
    };
    latest = refl;
    checkpoint = inr refl;
  }

  abbrev After : Store × Option OutboxError → Type 0
  After r = IsAcked sent sequence s (r.0)

  compact-IsAcked :
      (f : Format) (b : Sync)
      → IsAcked sent sequence s (
          (compact f b
            (record s { checkpoint = sequence; acked = sequence; events = drop sequence sent })).0)
  unfolding compact
  compact-IsAcked f Sync.synced =
      match-cases After (encode_all f (drop sequence sent)) (λ large. moved s.file s.bytes)
        (λ log made. moved log (length log))
  compact-IsAcked f Sync.no_checkpoint =
      match-cases After (encode_all f (drop sequence sent)) (λ large. moved s.file s.bytes)
        (λ log made. moved s.file s.bytes)
  compact-IsAcked f Sync.checkpoint_only =
      match-cases After (encode_all f (drop sequence sent)) (λ large. moved s.file s.bytes)
        (λ log made. moved s.file s.bytes)
  compact-IsAcked f Sync.not_replaced =
      match-cases After (encode_all f (drop sequence sent)) (λ large. moved s.file s.bytes)
        (λ log made. moved s.file s.bytes)
  compact-IsAcked f Sync.replaced_only =
      match-cases After (encode_all f (drop sequence sent)) (λ large. moved s.file s.bytes)
        (λ log made. moved log s.bytes)
  compact-IsAcked f Sync.not_reopened =
      match-cases After (encode_all f (drop sequence sent)) (λ large. moved s.file s.bytes)
        (λ log made. moved log (length log))

  ack_found-IsAcked :
      (f : Format) (b : Sync)
      → IsAcked sent sequence s ((ack_found f b sequence (drop sequence sent) s).0)
  unfolding ack_found write_checkpoint
  ack_found-IsAcked f Sync.synced = compact-IsAcked f Sync.synced
  ack_found-IsAcked f Sync.no_checkpoint = unmoved sent sequence s q
  ack_found-IsAcked f Sync.checkpoint_only = ahead
  ack_found-IsAcked f Sync.not_replaced = compact-IsAcked f Sync.not_replaced
  ack_found-IsAcked f Sync.replaced_only = compact-IsAcked f Sync.replaced_only
  ack_found-IsAcked f Sync.not_reopened = compact-IsAcked f Sync.not_reopened

pub events_behind-sent :
    (sent : List Envelope) (sequence : ℕ) (s : Store)
    → IsQueue sent s
    → s.acked < sequence
    → sequence ≤ s.latest
    → events_behind sequence s.events ≡ some (drop sequence sent)
events_behind-sent sent sequence s q above within =
    let k = sequence - suc s.acked in
    let at : s.acked + suc k ≡ sequence = omega (arith, above) in
    let known : s.acked ≤ length sent = omega (arith, q.above, q.within) in
    rw (q.events) (
      events_behind-drop (0 + s.acked) k sequence (drop s.acked sent)
        (Follow-drop 0 s.acked sent (q.follow) known) (omega (arith, above))
        (omega (arith, above, within, q.latest, length-drop s.acked sent))
      ∙ ap some (drop-drop (suc k) s.acked sent ∙ ap (λ (n : ℕ). drop n sent) at))

pub ack-IsAcked :
    (f : Format) (b : Sync) (sent : List Envelope) (sequence : ℕ) (s : Store)
    → IsQueue sent s
    → IsAcked sent sequence s ((ack f b sequence s).0)
unfolding ack
ack-IsAcked f b sent sequence s q =
    let P : Store × Option OutboxError → Type 0 = λ r. IsAcked sent sequence s (r.0) in
    let same = unmoved sent sequence s q in
    if-cases P (leb sequence s.acked) (λ old. same)
      (λ new.
        if-cases P (ltb s.latest sequence) (λ far. same)
          (λ near.
            let above : s.acked < sequence = ground (arith, new) in
            let within : sequence ≤ s.latest = ltb→le s.latest sequence near in
            let known = events_behind-sent sent sequence s q above within in
            match-cases P (events_behind sequence s.events) (λ gone. same)
              (λ rest is_rest.
                let at : rest ≡ drop sequence sent = cc (is_rest, known) in
                rw at (ack_found-IsAcked sent sequence s q (omega arith) within f b))))

-- A start on the files of the outbox: the queue goes on from the checkpoint, with at most one event
-- more, whose writing had failed.
pub record IsResumed (sent : List Envelope) (s t : Store) : Type 0 where
  pub extra : List Envelope
  pub few : length extra ≤ 1
  pub fits : All (λ (e : Envelope). 0 < length e.id) extra
  pub learnt : drop (s.latest - t.acked) t.events ≡ extra
  pub queue : IsQueue (sent ++ extra) t
  pub acked : t.acked ≡ s.checkpoint ⊎ t.acked ≡ s.acked
  pub checkpoint : t.checkpoint ≡ s.checkpoint

identified-named : (f : Format) (e : Envelope) → Fits f e → 0 < length e.id
unfolding is_identified
identified-named f e fit = ground (arith, fit.1)

pub durable-named :
    (f : Format) (s : Store) → IsDurable f s → All (λ (e : Envelope). 0 < length e.id) s.events
durable-named f s d = All-mono s.events (identified-named f) (durable-Fits f s d)

queue-all_known :
    (sent : List Envelope) (s : Store) → IsQueue sent s → drop (s.latest - s.acked) s.events ≡ []
queue-all_known sent s q =
    drop_all (s.latest - s.acked) s.events
      (omega (arith, ap length q.events, length-drop s.acked sent, q.latest))

unchanged-IsResumed : (sent : List Envelope) (s : Store) → IsQueue sent s → IsResumed sent s s
unchanged-IsResumed sent s q = record {
  extra = [];
  few = omega arith;
  fits = tt;
  learnt = queue-all_known sent s q;
  queue = rw (append-nil sent) q;
  acked = inr refl;
  checkpoint = refl;
}

-- The events of a start are those behind the checkpoint, then the extra one.
restarted-IsResumed :
    (f : Format) (sent : List Envelope) (s t : Store)
    → IsQueue sent s
    → IsDurable f t
    → t.acked ≡ s.checkpoint
    → t.checkpoint ≡ s.checkpoint
    → (extra : List Envelope) → length extra ≤ 1
    → t.events ≡ drop (s.checkpoint - s.acked) s.events ++ extra
    → t.latest ≡ s.latest + length extra
    → IsResumed sent s t
restarted-IsResumed f sent s t q d acked checkpoint extra few events latest =
    let cp = s.checkpoint in
    let by : s.acked + (cp - s.acked) ≡ cp = omega (arith, q.above) in
    let front : t.events ≡ drop cp sent ++ extra =
      events
      ∙ ap (λ (l : List Envelope). drop (cp - s.acked) l ++ extra) q.events
      ∙ ap (λ (l : List Envelope). l ++ extra)
          (drop-drop (cp - s.acked) s.acked sent ∙ ap (λ (n : ℕ). drop n sent) by) in
    let count : s.latest - t.acked ≡ length (drop cp sent) =
      omega (arith, q.latest, acked, length-drop cp sent) in
    let learnt : drop (s.latest - t.acked) t.events ≡ extra =
      ap (drop (s.latest - t.acked)) front ∙ drop-append_of_eq (drop cp sent) extra count in
    let at : t.acked + (s.latest - t.acked) ≡ 0 + length sent =
      omega (arith, acked, q.within, q.latest) in
    let le : s.latest - t.acked ≤ length t.events =
      omega (arith, count, ap length front, length-append (drop cp sent) extra) in
    let later : Follow (0 + length sent) extra =
      subst (λ (n : ℕ). Follow n extra) at
        (subst (Follow (t.acked + (s.latest - t.acked))) learnt
          (Follow-drop t.acked (s.latest - t.acked) t.events (durable-Follow f t d) le)) in
    record {
      extra = extra;
      few = few;
      fits = subst (All (λ (e : Envelope). 0 < length e.id)) learnt (
          All-drop (λ (e : Envelope). 0 < length e.id) (s.latest - t.acked) t.events
            (durable-named f t d));
      learnt = learnt;
      queue = record {
        follow = Follow-join 0 sent extra (q.follow) later;
        events =
            front
            ∙ sym (drop-append_of_le cp sent extra q.within)
            ∙ ap (λ (n : ℕ). drop n (sent ++ extra)) (sym acked);
        latest = omega (arith, latest, q.latest, length-append sent extra);
        above = omega (arith, acked, checkpoint);
        within = omega (arith, checkpoint, q.within, length-append sent extra);
      };
      acked = inl acked;
      checkpoint = checkpoint;
    }

few_one : (b : Bool) (n : ℕ) → n ≤ (if b then 1 else 0) → n ≤ 1
few_one true n h = h
few_one false n h = omega (arith, h)

pub restart-IsResumed :
    (f : Format) (sent : List Envelope) (s : Store)
    → IsFormat f
    → IsDurable f s
    → IsQueue sent s
    → IsResumed sent s (reopened s (open_store f s.max s.file s.checkpoint))
unfolding Durable.call open_store reopened
restart-IsResumed f sent s ok d q =
    let again = reread f s ok d in
    if-cases (λ (o : Option Store). IsDurable f (reopened s o) → IsResumed sent s (reopened s o))
      (ltb s.max max_record_size) (λ small e. unchanged-IsResumed sent s q)
      (λ room e.
        restarted-IsResumed f sent s _ q e refl refl (again.extra)
          (few_one s.failed (length again.extra) (again.few)) (again.events) (again.latest))
      (restart-IsDurable f s ok d)
