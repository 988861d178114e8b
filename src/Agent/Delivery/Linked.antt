-- ===== src/Agent/Delivery/Linked.antt =====
-- The outbox and the inbox agree on the events that were sent, whatever fails on the way.
use gooophira_mp.Prelude.{
  ℕ, suc, ◌-◌, ◌≤◌, ◌<◌, ◌^◌, ◌≡◌, refl, sym, ap, ◌∙◌, subst, Bool, Option, none, some, List, [],
  ◌∷◌, ◌++◌, length, arith, All, All-append,
}
use gooophira_mp.Agent.Outbox as Outbox
use gooophira_mp.Agent.Outbox.{
  Envelope, Format, Priority, Write, Sync, OutboxError, Batch, batch, refused, events_after, append,
  append_envelope, new_envelope, ack, close,
}
use gooophira_mp.Agent.Outbox.Recovery.{open_store}
use gooophira_mp.Agent.Outbox.Records.{IsFormat}
use gooophira_mp.Agent.Outbox.Errors.{append_envelope-refused}
use gooophira_mp.Agent.Outbox.Durable.{IsDurable}
use gooophira_mp.Agent.Outbox.Durable.Runs.{append-IsDurable, restart-IsDurable}
use gooophira_mp.Agent.Outbox.Durable.Runs as Durable
use gooophira_mp.Agent.Inbox as Inbox
use gooophira_mp.Agent.Inbox.{Replace, accept, InboxError}
use gooophira_mp.Agent.Inbox.Stored.{IsStored}
use gooophira_mp.Agent.Inbox.Runs.{restarted, restarted-IsStored}
use gooophira_mp.Agent.Delivery.{
  Link, Reply, unsent, unanswered, answered, publish, agent_restart, handle_handshake, disconnected,
  connected, connect, restart_server, on_append, act,
}
use gooophira_mp.Agent.Delivery.Sent.{IsIn, IsIn-more}
use gooophira_mp.Agent.Delivery.Outgoing.{
  IsQueue, append_envelope-Takes, append_envelope-checkpoint, new_envelope-sequence,
  new_envelope-id, taken-IsQueue, kept-IsQueue,
}
use gooophira_mp.Agent.Delivery.Acked.{restart-IsResumed}
use gooophira_mp.Agent.Delivery.Incoming.{IsStored-mono, Grows, restarted-Grows, on_handshake-known}

abbrev pub IsNamed : Envelope → Type 0
IsNamed e = 0 < length e.id

-- The two stores next to what was sent. Nothing is acknowledged that the inbox does not hold.
pub record IsPair (f : Format) (sent : List Envelope) (o : Outbox.Store) (i : Inbox.Store)
    : Type 0 where
  pub out : IsDurable f o
  pub queue : IsQueue sent o
  pub named : All IsNamed sent
  pub inn : IsStored f (IsIn sent) i
  pub base : i.baseline ≡ 0
  pub reach : o.checkpoint ≤ i.last

abbrev pub IsLinked : Format → Link → Type 0
IsLinked f l = IsPair f l.sent l.outbox l.inbox

-- One event more was sent, or none.
more-IsPair :
    (f : Format) (sent more : List Envelope) (o t : Outbox.Store) (i : Inbox.Store)
    → IsPair f sent o i
    → IsDurable f t
    → IsQueue (sent ++ more) t
    → All IsNamed more
    → t.checkpoint ≡ o.checkpoint
    → IsPair f (sent ++ more) t i
more-IsPair f sent more o t i p d q named same = record {
  out = d;
  queue = q;
  named = All-append IsNamed sent more p.named named;
  inn = IsStored-mono f (IsIn sent) (IsIn (sent ++ more)) i (IsIn-more sent more) p.inn;
  base = p.base;
  reach = omega (arith, same, p.reach);
}

on_append-IsLinked :
    (f : Format) (l : Link) (e : Envelope) (r : Outbox.Store × Option OutboxError)
    → IsLinked f l
    → IsDurable f (r.0)
    → IsNamed e
    → (r.1 ≡ none → IsQueue (l.sent ++ e ∷ []) (r.0))
    → ((error : OutboxError) → r.1 ≡ some error → IsQueue l.sent (r.0))
    → (r.0).checkpoint ≡ l.outbox.checkpoint
    → IsLinked f (on_append l e r)
unfolding on_append
on_append-IsLinked f l e (o, none) p d named taken refusal same =
    more-IsPair f l.sent (e ∷ []) l.outbox o l.inbox p d (taken refl) (named, _) same
on_append-IsLinked f l e (o, some error) p d named taken refusal same = record {
  out = d;
  queue = refusal error refl;
  named = p.named;
  inn = p.inn;
  base = p.base;
  reach = omega (arith, same, p.reach);
}

pub publish-IsLinked :
    (f : Format) (id event_type : List ℕ) (now : ℕ) (payload : List ℕ) (priority : Priority)
    (w : Write) (l : Link)
    → IsFormat f
    → 0 < length id
    → suc (length l.sent) < 2 ^ 64 - 1
    → IsLinked f l
    → IsLinked f (act f (publish id event_type now payload priority w) l)
unfolding act append
publish-IsLinked f id event_type now payload priority w l ok named lt p =
    let e = new_envelope l.outbox.latest id event_type now payload in
    let bound : suc l.outbox.latest < 2 ^ 64 - 1 = omega (arith, lt, p.queue.latest) in
    let next : e.sequence ≡ suc l.outbox.latest =
      new_envelope-sequence l.outbox.latest id event_type now payload bound in
    let o = (append_envelope f priority w e l.outbox).0 in
    on_append-IsLinked f l e (append_envelope f priority w e l.outbox) p
      (append-IsDurable f id event_type now payload priority w l.outbox ok p.out named bound)
      (omega (arith, named, ap length (new_envelope-id l.outbox.latest id event_type now payload)))
      (λ taken.
        taken-IsQueue l.sent l.outbox o e p.queue next bound
          (append_envelope-Takes f priority w e l.outbox taken))
      (λ error refusal.
        kept-IsQueue l.sent l.outbox o p.queue
          (append_envelope-refused f priority w e l.outbox error refusal).0)
      (append_envelope-checkpoint f priority w e l.outbox)

pub restart_server-IsLinked :
    (f : Format) (l : Link) → IsFormat f → IsLinked f l → IsLinked f (restart_server f l)
unfolding restart_server Durable.call
restart_server-IsLinked f l ok p =
    let opened =
      Durable.reopened l.outbox (open_store f l.outbox.max l.outbox.file l.outbox.checkpoint) in
    let r = restart-IsResumed f l.sent l.outbox ok p.out p.queue in
    rw (r.learnt) (
      more-IsPair f l.sent (r.extra) l.outbox opened l.inbox p
        (restart-IsDurable f l.outbox ok p.out) (r.queue) (r.fits) (r.checkpoint))

-- The inbox is another one that has grown.
pub inbox-IsPair :
    (f : Format) (sent : List Envelope) (o : Outbox.Store) (i j : Inbox.Store)
    → IsPair f sent o i
    → IsStored f (IsIn sent) j
    → Grows i j
    → IsPair f sent o j
inbox-IsPair f sent o i j p d (le, same) = record {
  out = p.out;
  queue = p.queue;
  named = p.named;
  inn = d;
  base = same ∙ p.base;
  reach = omega (arith, p.reach, le);
}

pub agent_restart-IsLinked :
    (f : Format) (l : Link) → IsFormat f → IsLinked f l → IsLinked f (act f agent_restart l)
unfolding act disconnected
agent_restart-IsLinked f l ok p =
    inbox-IsPair f l.sent l.outbox l.inbox (restarted f l.inbox) p
      (restarted-IsStored f (IsIn l.sent) l.inbox ok p.inn)
      (restarted-Grows f (IsIn l.sent) l.inbox ok p.inn)

pub connect-IsLinked :
    (f : Format) (reply : Reply) (b : Replace) (l : Link)
    → IsLinked f l
    → IsLinked f (connect f reply b l)
unfolding connect connected handle_handshake disconnected
connect-IsLinked f unsent b l p = p
connect-IsLinked f unanswered b l p = p
connect-IsLinked f answered b l p =
    let same =
      on_handshake-known f b l.outbox.acked l.inbox (omega (arith, p.queue.above, p.reach)) in
    subst (λ (r : Inbox.Store × Bool). IsPair f l.sent l.outbox (r.0)) (sym same) p
