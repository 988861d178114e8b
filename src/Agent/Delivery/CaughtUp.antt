-- ===== src/Agent/Delivery/CaughtUp.antt =====
-- An agent that starts again catches up with the server.
use Prim.Native.Nat.{min}
use gooophira_mp.Prelude.{
  ℕ, suc, zero, ◌+◌, ◌-◌, ◌*◌, ◌≤◌, ◌<◌, ◌^◌, ◌≡◌, refl, ap, ◌∙◌, Bool, true, false, Option, none,
  some, List, [], ◌∷◌, ltb, if◌then◌else◌, length, replicate, ltb→lt, drop_all, length-drop, arith,
  All, if-cases,
}
use gooophira_mp.Agent.Outbox as Outbox
use gooophira_mp.Agent.Outbox.{
  Envelope, Format, Write, Sync, OutboxError, batch, refused, events_after, ack, ack_found,
  write_checkpoint, compact, max_record_size,
}
use gooophira_mp.Agent.Outbox.Records.{IsFormat}
use gooophira_mp.Agent.Outbox.Queue.{log_of}
use gooophira_mp.Agent.Inbox as Inbox
use gooophira_mp.Agent.Inbox.{accept, InboxError, Replace, open_inbox}
use gooophira_mp.Agent.Inbox.Runs.{restarted, reopened}
use gooophira_mp.Agent.Inbox.Stored.{IsStored}
use gooophira_mp.Agent.Delivery.{
  Link, answered, Action, agent_round, agent_restart, agent_connect, connect, connected,
  disconnected, handle_handshake, act, poll_round, run,
}
use gooophira_mp.Agent.Delivery.Sent.{IsIn}
use gooophira_mp.Agent.Delivery.Linked.{IsLinked, agent_restart-IsLinked}
use gooophira_mp.Agent.Delivery.Rounds.{HasId}
use gooophira_mp.Agent.Delivery.Delivered.{start, linked-IsDelivered, run-start-IsLinked}
use gooophira_mp.Agent.Outbox.Recovery.{open_store}
use gooophira_mp.Agent.Delivery.Incoming.{on_handshake-known}
use gooophira_mp.Agent.Delivery.Progress.{poll_round-IsMoved, clear_round, IsClear, AnswersFit}

-- Rounds in which nothing fails, one after the other.
abbrev pub clear_rounds : ℕ → List Action
clear_rounds n = replicate n (agent_round clear_round)

run-IsClear :
    (f : Format) (n : ℕ) (l : Link)
    → IsFormat f
    → IsClear f l
    → IsClear f (run f (clear_rounds n) l)
      × ((run f (clear_rounds n) l).sent ≡ l.sent)
      × ((run f (clear_rounds n) l).outbox.acked
          ≡ l.outbox.acked + min (100 * n) (length l.outbox.events))
unfolding run act
run-IsClear f zero l ok c = (c, refl, omega arith)
run-IsClear f (suc n) l ok c =
    let m = poll_round-IsMoved f ok l c in
    let r = poll_round f clear_round l in
    let later = run-IsClear f n r ok m.state in
    let q = c.linked.queue in
    let p = m.state.linked.queue in
    (
      later.0,
      later.1 ∙ m.sent,
      omega (
        arith,
        later.2,
        m.acked,
        ap length p.events,
        length-drop r.outbox.acked r.sent,
        ap length m.sent,
        ap length q.events,
        length-drop l.outbox.acked l.sent,
        q.above,
        q.within,
        p.above,
        p.within,
      ),
    )

restarted-ready :
    (f : Format) (sent : List Envelope) (s : Inbox.Store)
    → IsStored f (IsIn sent) s
    → ((restarted f s).failed ≡ false)
      × ((restarted f s).is_open ≡ true)
      × ((restarted f s).max_bytes ≡ s.max_bytes)
unfolding restarted open_inbox reopened
restarted-ready f sent s d =
    if-cases
      (λ (o : Option Inbox.Store).
        ((reopened s o).failed ≡ false)
        × ((reopened s o).is_open ≡ true)
        × ((reopened s o).max_bytes ≡ s.max_bytes))
      (ltb s.max_bytes max_record_size)
      (λ small. absurd (omega (arith, d.room, ltb→lt s.max_bytes max_record_size small)))
      (λ room. (refl, refl, refl))

-- The agent starts again and connects.
abbrev pub started : Format → Replace → Link → Link
started f d l = run f (agent_restart ∷ agent_connect answered d ∷ []) l

abbrev restarted_link : Format → Link → Link
restarted_link f l = record l {
  delivered = l.outbox.acked;
  inbox = restarted f l.inbox;
  acked = some l.outbox.acked;
}

started-link :
    (f : Format) (d : Replace) (l : Link)
    → l.outbox.acked ≤ (restarted f l.inbox).last
    → started f d l ≡ restarted_link f l
unfolding run act connect connected disconnected handle_handshake
started-link f d l le =
    let same = on_handshake-known f d l.outbox.acked (restarted f l.inbox) le in
    ap
      (λ (r : Inbox.Store × Bool). record l {
        delivered = l.outbox.acked;
        inbox = r.0;
        acked = if r.1 then some l.outbox.acked else none;
      })
      same

started-IsClear :
    (f : Format) (d : Replace) (l : Link)
    → IsFormat f
    → IsLinked f l
    → length (log_of f l.sent) ≤ l.inbox.max_bytes
    → AnswersFit f l.sent
    → IsClear f (started f d l)
      × ((started f d l).sent ≡ l.sent)
      × ((started f d l).outbox ≡ l.outbox)
unfolding act disconnected
started-IsClear f d l ok p room answers =
    let q = agent_restart-IsLinked f l ok p in
    let again = restarted-ready f l.sent l.inbox p.inn in
    rw (started-link f d l (omega (arith, q.queue.above, q.reach))) (
      record {
        linked = q;
        ready = record {
          stored = q.inn;
          base = q.base;
          sane = again.0;
          open_file = again.1;
          room = omega (arith, again.2, room);
        };
        polls = refl;
        answers = answers;
      },
      refl,
      refl,
    )

-- What is left when the agent has caught up: nothing is pending, and the inbox holds all.
pub record IsCaughtUp (sent : List Envelope) (l : Link) : Type 0 where
  pub events : l.outbox.events ≡ []
  pub acked : l.outbox.acked ≡ length sent
  pub last : l.inbox.last ≡ length sent
  pub same : l.sent ≡ sent

linked-IsCaughtUp :
    (f : Format) (d : Replace) (n : ℕ) (l : Link)
    → IsFormat f
    → IsLinked f l
    → length (log_of f l.sent) ≤ l.inbox.max_bytes
    → AnswersFit f l.sent
    → length l.outbox.events ≤ 100 * n
    → IsCaughtUp l.sent (run f (clear_rounds n) (started f d l))
linked-IsCaughtUp f d n l ok p room answers enough =
    let c = started-IsClear f d l ok p room answers in
    let r = run f (clear_rounds n) (started f d l) in
    let after = run-IsClear f n (started f d l) ok (c.0) in
    let end = after.0.linked in
    let same : r.sent ≡ l.sent = after.1 ∙ c.1 in
    let out : (started f d l).outbox ≡ l.outbox = c.2 in
    let acked : r.outbox.acked ≡ length l.sent = omega (
      arith,
      after.2,
      ap (λ (o : Outbox.Store). o.acked) out,
      ap (λ (o : Outbox.Store). length o.events) out,
      enough,
      ap length p.queue.events,
      length-drop l.outbox.acked l.sent,
      p.queue.above,
      p.queue.within,
    ) in
    record {
      events =
          end.queue.events ∙ drop_all r.outbox.acked r.sent (omega (arith, acked, ap length same));
      acked = acked;
      last = omega (
        arith,
        acked,
        end.queue.above,
        end.reach,
        (linked-IsDelivered f r end).within,
        ap length same,
      );
      same = same;
    }

-- After any history from two empty directories with any failures, at most 2^64 - 2 actions, an agent
-- that starts again and connects empties the outbox when nothing fails any more, if all that was sent
-- fits into the inbox, and no answer with up to a hundred of these events, in order, is longer than the
-- 65536 bytes that the client decodes: a round for each hundred pending events is enough. Then nothing
-- is pending, and all that was sent is acknowledged and in the inbox.
pub run-IsCaughtUp :
    (f : Format) (out_max in_max : ℕ) (actions : List Action) (o : Outbox.Store) (i : Inbox.Store)
    (d : Replace) (n : ℕ)
    → IsFormat f
    → All HasId actions
    → length actions < 2 ^ 64 - 1
    → open_store f out_max [] 0 ≡ some o
    → open_inbox f in_max [] 0 ≡ some i
    → length (log_of f (run f actions (start o i)).sent)
      ≤ (run f actions (start o i)).inbox.max_bytes
    → AnswersFit f (run f actions (start o i)).sent
    → length (run f actions (start o i)).outbox.events ≤ 100 * n
    → IsCaughtUp
        (run f actions (start o i)).sent
        (run f (clear_rounds n) (started f d (run f actions (start o i))))
run-IsCaughtUp f out_max in_max actions o i d n ok named few opened_out opened_in room answers
      enough =
    linked-IsCaughtUp f d n (run f actions (start o i)) ok
      (run-start-IsLinked f out_max in_max actions o i ok named few opened_out opened_in) room
      answers enough
