-- ===== src/Agent/Delivery/Progress.antt =====
-- While nothing fails, the rounds of `poll` empty the outbox into the inbox.
use Prim.Native.Nat.{min}
use gooophira_mp.Prelude.{
  ℕ, suc, zero, ◌+◌, ◌≤◌, ◌<◌, ◌≡◌, refl, sym, ap, ◌∙◌, subst, true, none, some, List, [], ◌∷◌,
  length, drop, take, length-drop, length-take, arith, All, All-take, All-mono,
}
use gooophira_mp.Agent.Outbox as Outbox
use gooophira_mp.Agent.Outbox.{
  Envelope, Format, Write, Sync, OutboxError, batch, refused, events_after, ack, ack_found,
  write_checkpoint, compact, max_record_size,
}
use gooophira_mp.Agent.Outbox.Records.{IsFormat, Fits}
use gooophira_mp.Agent.Outbox.Queue.{Follow, Follow-lt}
use gooophira_mp.Agent.Outbox.Durable.{IsDurable, All-drop}
use gooophira_mp.Agent.Outbox.Durable.Acks.{encode_all-log_of, drop-drop}
use gooophira_mp.Agent.Inbox.{accept}
use gooophira_mp.Agent.Delivery.{
  Link, answered, Round, last_sequence, handle_events, handle_ack, is_done, on_ack, send_ack,
  after_accept, on_events, ask_events, poll_round, decode_events, max_request_body,
}
use gooophira_mp.Agent.Delivery.Outgoing.{IsQueue, durable-Follow, durable-Fits}
use gooophira_mp.Agent.Delivery.Acked.{events_behind-sent}
use gooophira_mp.Agent.Delivery.Linked.{IsLinked}
use gooophira_mp.Agent.Delivery.Rounds.{pending-IsKnown, poll_round-IsLinked}
use gooophira_mp.Agent.Delivery.Accepted.{IsReady, IsSmall, accept-IsTaken}

-- A round in which nothing fails.
abbrev pub clear_round : Round
clear_round = record {
  events_reply = answered;
  disk = λ n. Write.written;
  processed = true;
  ack_reply = answered;
  sync = Sync.synced;
}

-- A numbered batch ends with the number of its events behind its base.
last_sequence-Follow :
    (n base : ℕ) (e : Envelope) (es : List Envelope)
    → Follow base (e ∷ es)
    → last_sequence n (e ∷ es) ≡ base + length (e ∷ es)
unfolding last_sequence
last_sequence-Follow n base e [] (seq, h) = omega (arith, seq)
last_sequence-Follow n base e (x ∷ es) (seq, h) =
    last_sequence-Follow e.sequence (suc base) x es h ∙ omega arith

Follow-take : (base n : ℕ) (es : List Envelope) → Follow base es → Follow base (take n es)
Follow-take base zero es h = omega (arith, Follow-lt base es h)
Follow-take base (suc n) [] h = h
Follow-take base (suc n) (e ∷ es) (seq, h) = (seq, Follow-take (suc base) n es h)

-- No answer to a request for events is longer than the client decodes, once all of `sent` was sent.
abbrev pub AnswersFit : Format → List Envelope → Type 0
AnswersFit f sent =
    (acked : ℕ)
    → length (f.marshal_response acked (length sent) (take 100 (drop acked sent)))
      ≤ max_request_body

-- Both sides are in good order, and `poll` runs with the number that the outbox has.
pub record IsClear (f : Format) (l : Link) : Type 0 where
  pub linked : IsLinked f l
  pub ready : IsReady f l.sent l.inbox
  pub polls : l.acked ≡ some l.outbox.acked
  pub answers : AnswersFit f l.sent

-- An acknowledgement of a later number in the queue succeeds.
ack-synced :
    (f : Format) (sent : List Envelope) (sequence : ℕ) (s : Outbox.Store)
    → IsQueue sent s
    → All (Fits f) (drop sequence sent)
    → s.acked < sequence
    → sequence ≤ s.latest
    → ((ack f Sync.synced sequence s).1 ≡ none)
      × (((ack f Sync.synced sequence s).0).acked ≡ sequence)
unfolding ack ack_found write_checkpoint compact
ack-synced f sent sequence s q fits above within =
    let found = events_behind-sent sent sequence s q above within in
    let log = encode_all-log_of f (drop sequence sent) fits in
    ground (arith, found, log, above, within)

queue-Fits :
    (f : Format) (sent : List Envelope) (s : Outbox.Store) (k : ℕ)
    → IsQueue sent s
    → IsDurable f s
    → All (Fits f) (drop (s.acked + k) sent)
queue-Fits f sent s k q d =
    subst (All (Fits f)) (ap (drop k) q.events ∙ drop-drop k s.acked sent)
      (All-drop (Fits f) k s.events (durable-Fits f s d))

-- The request for events is answered with the first hundred pending ones.
abbrev asked : Link → Link
asked l = record l { delivered = last_sequence l.outbox.acked (take 100 l.outbox.events) }

poll_round-asked :
    (f : Format) (l : Link)
    → l.acked ≡ some l.outbox.acked
    → length (f.marshal_response l.outbox.acked l.outbox.latest (take 100 l.outbox.events))
      ≤ max_request_body
    → poll_round f clear_round l
      ≡ on_events f clear_round (asked l, some (take 100 l.outbox.events))
unfolding poll_round ask_events handle_events events_after decode_events
poll_round-asked f l h fits = ground (arith, h, fits)

-- The answer to the next request can be decoded.
answer-fits :
    (f : Format) (l : Link)
    → IsClear f l
    → length (f.marshal_response l.outbox.acked l.outbox.latest (take 100 l.outbox.events))
      ≤ max_request_body
answer-fits f l c =
    let q = c.linked.queue in
    subst
      (λ (es : List Envelope).
        length (f.marshal_response l.outbox.acked l.outbox.latest (take 100 es)) ≤ max_request_body)
      (sym q.events)
      (subst
        (λ (n : ℕ).
          length (f.marshal_response l.outbox.acked n (take 100 (drop l.outbox.acked l.sent)))
          ≤ max_request_body)
        (sym q.latest) (c.answers l.outbox.acked))

-- What a batch comes to when all goes well.
abbrev arrived : Format → ℕ → List Envelope → Link → Link
arrived f n es l = record l {
  outbox = (ack f Sync.synced n l.outbox).0;
  inbox = (accept f (λ n. Write.written) es l.inbox).0;
  acked = some n;
}

on_events-arrived :
    (f : Format) (n : ℕ) (e : Envelope) (es : List Envelope) (l : Link)
    → last_sequence 0 (e ∷ es) ≡ n
    → l.delivered ≡ n
    → (accept f (λ n. Write.written) (e ∷ es) l.inbox).1 ≡ none
    → n ≤ ((accept f (λ n. Write.written) (e ∷ es) l.inbox).0).last
    → (ack f Sync.synced n l.outbox).1 ≡ none
    → on_events f clear_round (l, some (e ∷ es)) ≡ arrived f n (e ∷ es) l
unfolding on_events after_accept send_ack on_ack handle_ack is_done
on_events-arrived f n e es l last delivered accepted durable done =
    ground (arith, last, delivered, accepted, durable, done)

-- A clear round moves on by a hundred events, or to the end.
pub record IsMoved (f : Format) (l r : Link) : Type 0 where
  pub state : IsClear f r
  pub sent : r.sent ≡ l.sent
  pub acked : r.outbox.acked ≡ l.outbox.acked + min 100 (length l.outbox.events)

module _ (f : Format) (ok : IsFormat f) (l : Link) (c : IsClear f l) where
  batch-IsMoved :
      (e : Envelope) (es : List Envelope)
      → take 100 l.outbox.events ≡ e ∷ es
      → IsMoved f l (poll_round f clear_round l)
  batch-IsMoved e es whole =
      let a = l.outbox.acked in
      let n = a + length (e ∷ es) in
      let p = c.linked in
      let counted : length (e ∷ es) ≡ min 100 (length l.outbox.events) =
        ap length (sym whole) ∙ length-take 100 l.outbox.events in
      let follow : Follow a (e ∷ es) =
        subst (Follow a) whole
          (Follow-take a 100 l.outbox.events (durable-Follow f l.outbox p.out)) in
      let known = subst (All _) whole (pending-IsKnown f 100 l p) in
      let small : All (IsSmall f) (e ∷ es) = subst (All (IsSmall f)) whole (
        All-take (IsSmall f) 100 l.outbox.events
          (All-mono l.outbox.events (λ x fit. fit.0) (durable-Fits f l.outbox p.out))) in
      let within : n ≤ l.outbox.latest = omega (
        arith,
        counted,
        ap length p.queue.events,
        length-drop a l.sent,
        p.queue.latest,
        p.queue.above,
        p.queue.within,
      ) in
      let taken =
        accept-IsTaken f l.sent a (e ∷ es) l.inbox ok c.ready follow known small
          (omega (arith, p.queue.above, p.reach)) in
      let fits = queue-Fits f l.sent l.outbox (length (e ∷ es)) p.queue p.out in
      let done = ack-synced f l.sent n l.outbox p.queue fits (omega arith) within in
      let result : poll_round f clear_round l ≡ arrived f n (e ∷ es) (asked l) =
        poll_round-asked f l c.polls (answer-fits f l c)
        ∙ ap (λ (b : List Envelope). on_events f clear_round (asked l, some b)) whole
        ∙ on_events-arrived f n e es (asked l) (last_sequence-Follow 0 a e es follow)
            (ap (last_sequence a) whole ∙ last_sequence-Follow a a e es follow) (taken.result)
            (omega (arith, taken.last_one)) (done.0) in
      rw result (record {
        state = record {
          linked = subst (IsLinked f) result (poll_round-IsLinked f clear_round l ok p);
          ready = taken.ready;
          polls = ap some (sym (done.1));
          answers = c.answers;
        };
        sent = refl;
        acked = omega (arith, done.1, counted);
      })

  none-IsMoved : take 100 l.outbox.events ≡ [] → IsMoved f l (poll_round f clear_round l)
  unfolding on_events
  none-IsMoved none_left =
      let counted : min 100 (length l.outbox.events) ≡ 0 =
        sym (length-take 100 l.outbox.events) ∙ ap length none_left in
      let result : poll_round f clear_round l ≡ asked l =
        poll_round-asked f l c.polls (answer-fits f l c)
        ∙ ap (λ (b : List Envelope). on_events f clear_round (asked l, some b)) none_left in
      rw result (record {
        state = record { linked = c.linked; ready = c.ready; polls = c.polls; answers = c.answers };
        sent = refl;
        acked = omega (arith, counted);
      })

  pub poll_round-IsMoved : IsMoved f l (poll_round f clear_round l)
  poll_round-IsMoved = split (take 100 l.outbox.events) refl
    where
      split :
          (es : List Envelope)
          → take 100 l.outbox.events ≡ es
          → IsMoved f l (poll_round f clear_round l)
      split [] h = none-IsMoved h
      split (e ∷ es) h = batch-IsMoved e es h
