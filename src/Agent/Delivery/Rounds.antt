-- ===== src/Agent/Delivery/Rounds.antt =====
-- A round of `poll`, and any other action, keeps the outbox and the inbox in agreement.
use gooophira_mp.Prelude.{
  ℕ, suc, ◌-◌, ◌≤◌, ◌<◌, ◌^◌, ◌≡◌, refl, Bool, true, false, inl, inr, ◌⊎◌, Option, none, some, List,
  [], ◌∷◌, ltb, ◌==◌, not, ◌||◌, length, drop, take, arith, All, All-take, if-cases, match-cases,
}
use gooophira_mp.Agent.Outbox as Outbox
use gooophira_mp.Agent.Outbox.{
  Envelope, Format, Priority, Write, Sync, OutboxError, Batch, batch, refused, events_after, append,
  append_envelope, new_envelope, ack, close,
}
use gooophira_mp.Agent.Outbox.Records.{IsFormat}
use gooophira_mp.Agent.Outbox.Queue.{Follow, Follow-lt}
use gooophira_mp.Agent.Outbox.Durable.{All-drop}
use gooophira_mp.Agent.Outbox.Durable.Acks.{ack-IsDurable}
use gooophira_mp.Agent.Inbox.{accept, InboxError}
use gooophira_mp.Agent.Inbox.Kept.{IsEvent, IsKnown, accept-IsStored}
use gooophira_mp.Agent.Delivery.{
  Link, Reply, unsent, unanswered, answered, Round, Action, publish, server_restart, server_close,
  agent_connect, agent_round, agent_restart, last_sequence, handle_events, handle_ack, disconnected,
  on_ack, send_ack, after_accept, on_events, decode_events, ask_events, poll_round, act,
}
use gooophira_mp.Agent.Delivery.Sent.{IsIn, sent-IsIn}
use gooophira_mp.Agent.Delivery.Acked.{ack-IsAcked}
use gooophira_mp.Agent.Delivery.Incoming.{accept-Grows}
use gooophira_mp.Agent.Delivery.Linked.{
  IsNamed, IsLinked, publish-IsLinked, restart_server-IsLinked, inbox-IsPair,
  agent_restart-IsLinked, connect-IsLinked,
}

-- What the outbox sends is known, with numbers below the bound.
Follow-IsEvent : (base : ℕ) (es : List Envelope) → Follow base es → All IsNamed es → All IsEvent es
Follow-IsEvent base [] h named = tt
Follow-IsEvent base (e ∷ es) (seq, h) (now, named) =
    ((now, omega (arith, seq, Follow-lt (suc base) es h)), Follow-IsEvent (suc base) es h named)

both {ℓ κ μ} :
    {A : Type ℓ} (P : A → Type κ) (Q : A → Type μ) (xs : List A)
    → All P xs
    → All Q xs
    → All (λ (x : A). P x × Q x) xs
both P Q [] p q = tt
both P Q (x ∷ xs) (p, ps) (q, qs) = ((p, q), both P Q xs ps qs)

pub sent-IsKnown :
    (sent : List Envelope) → Follow 0 sent → All IsNamed sent → All (IsKnown (IsIn sent)) sent
sent-IsKnown sent h named =
    both IsEvent (IsIn sent) sent (Follow-IsEvent 0 sent h named) (sent-IsIn sent h)

handle_ack-IsLinked :
    (f : Format) (b : Sync) (last : ℕ) (l : Link)
    → last ≤ l.inbox.last
    → IsLinked f l
    → IsLinked f ((handle_ack f b last l).0)
unfolding handle_ack
handle_ack-IsLinked f b last l le p =
    let r = ack-IsAcked f b l.sent last l.outbox p.queue in
    if-cases (λ (q : Link × Bool). IsLinked f (q.0)) (ltb l.delivered last) (λ early. p)
      (λ known. record {
        out = ack-IsDurable f b last l.outbox p.out;
        queue = r.queue;
        named = p.named;
        inn = p.inn;
        base = p.base;
        reach = reached (r.checkpoint);
      })
  where
    reached :
        ((ack f b last l.outbox).0).checkpoint ≡ l.outbox.checkpoint
          ⊎ ((ack f b last l.outbox).0).checkpoint ≡ last
        → ((ack f b last l.outbox).0).checkpoint ≤ l.inbox.last
    reached (inl old) = omega (arith, old, p.reach)
    reached (inr new) = omega (arith, new, le)

on_ack-IsLinked :
    (f : Format) (last : ℕ) (r : Link × Bool) → IsLinked f (r.0) → IsLinked f (on_ack last r)
unfolding on_ack disconnected
on_ack-IsLinked f last (l, true) p = p
on_ack-IsLinked f last (l, false) p = p

send_ack-IsLinked :
    (f : Format) (reply : Reply) (b : Sync) (last : ℕ) (l : Link)
    → last ≤ l.inbox.last
    → IsLinked f l
    → IsLinked f (send_ack f reply b last l)
unfolding send_ack disconnected
send_ack-IsLinked f unsent b last l le p = p
send_ack-IsLinked f unanswered b last l le p = handle_ack-IsLinked f b last l le p
send_ack-IsLinked f answered b last l le p =
    on_ack-IsLinked f last (handle_ack f b last l) (handle_ack-IsLinked f b last l le p)

durable :
    (last asked : ℕ) (processed : Bool) → (ltb last asked || not processed) ≡ false → asked ≤ last
durable last asked processed h = ground (arith, h)

after_accept-IsLinked :
    (f : Format) (r : Round) (last : ℕ) (result : Option InboxError) (l : Link)
    → IsLinked f l
    → IsLinked f (after_accept f r last result l)
unfolding after_accept disconnected
after_accept-IsLinked f r last (some error) l p = p
after_accept-IsLinked f r last none l p =
    if-cases (IsLinked f) (ltb l.inbox.last last || not r.processed) (λ bad. p)
      (λ good.
        send_ack-IsLinked f r.ack_reply r.sync last l (durable l.inbox.last last r.processed good)
          p)

on_events-IsLinked :
    (f : Format) (r : Round) (l : Link) (es : List Envelope)
    → IsFormat f
    → All (IsKnown (IsIn l.sent)) es
    → IsLinked f l
    → IsLinked f (on_events f r (l, some es))
unfolding on_events disconnected
on_events-IsLinked f r l [] ok known p = if-cases (IsLinked f) r.processed (λ h. p) (λ h. p)
on_events-IsLinked f r l (e ∷ es) ok known p = after_accept-IsLinked f r _ _ _ (
    inbox-IsPair f l.sent l.outbox l.inbox ((accept f r.disk (e ∷ es) l.inbox).0) p
      (accept-IsStored f (IsIn l.sent) r.disk (e ∷ es) l.inbox ok known p.inn)
      (accept-Grows f r.disk (e ∷ es) l.inbox))

-- The answer to a request for events.
pub events_after-cases :
    (after limit : ℕ) (s : Outbox.Store)
    → (events_after after limit s ≡ batch (take limit s.events))
      ⊎ ((error : OutboxError) × (events_after after limit s ≡ refused error))
unfolding events_after
events_after-cases after limit s =
    let P : Batch → Type 0 =
      λ b. (b ≡ batch (take limit s.events)) ⊎ ((error : OutboxError) × (b ≡ refused error)) in
    if-cases P (not (after == s.acked)) (λ h. inr (OutboxError.ack_mismatch, refl))
      (λ h.
        if-cases P (ltb limit 1) (λ h. inr (OutboxError.limit_not_positive, refl)) (λ h. inl refl))

pub pending-IsKnown :
    (f : Format) (limit : ℕ) (l : Link)
    → IsLinked f l
    → All (IsKnown (IsIn l.sent)) (take limit l.outbox.events)
pending-IsKnown f limit l p = rw (p.queue.events) (
    All-take (IsKnown (IsIn l.sent)) limit (drop l.outbox.acked l.sent) (
      All-drop (IsKnown (IsIn l.sent)) l.outbox.acked l.sent
        (sent-IsKnown l.sent (p.queue.follow) p.named)))

pub handle_events-cases :
    (after limit : ℕ) (l : Link)
    → (handle_events after limit l ≡ (
      record l { delivered = last_sequence l.outbox.acked (take limit l.outbox.events) },
      some (take limit l.outbox.events),
    ))
      ⊎ (handle_events after limit l ≡ (l, none))
unfolding handle_events
handle_events-cases after limit l = elim (events_after-cases after limit l.outbox) [
  | inl got ↦ inl (rw (got, handle_events) refl)
  | inr (error, bad) ↦ inr (rw (bad, handle_events) refl)
]

lost_answer :
    (f : Format) (r : Round) (l : Link) → IsLinked f l → IsLinked f (on_events f r (l, none))
unfolding on_events disconnected
lost_answer f r l p = p

closed : (f : Format) (l : Link) → IsLinked f l → IsLinked f (record l { outbox = close l.outbox })
unfolding close
closed f l p = record {
  out = p.out;
  queue = record {
    follow = p.queue.follow;
    events = p.queue.events;
    latest = p.queue.latest;
    above = p.queue.above;
    within = p.queue.within;
  };
  named = p.named;
  inn = p.inn;
  base = p.base;
  reach = p.reach;
}

-- The answer is decoded, or it is too long.
pub decode_events-cases :
    (f : Format) (l : Link) (es : List Envelope)
    → (decode_events f (l, some es) ≡ (l, some es)) ⊎ (decode_events f (l, some es) ≡ (l, none))
unfolding decode_events
decode_events-cases f l es =
    if-cases (λ (r : Link × Option (List Envelope)). (r ≡ (l, some es)) ⊎ (r ≡ (l, none))) _
      (λ long. inr refl) (λ fits. inl refl)

ask_events-IsLinked :
    (f : Format) (r : Round) (acked : ℕ) (reply : Reply) (l : Link)
    → IsFormat f
    → IsLinked f l
    → IsLinked f (ask_events f r acked reply l)
unfolding ask_events disconnected decode_events
ask_events-IsLinked f r acked unsent l ok p = p
ask_events-IsLinked f r acked unanswered l ok p = elim (handle_events-cases acked 100 l) [
  | inl got ↦ rw got p
  | inr bad ↦ rw bad p
]
ask_events-IsLinked f r acked answered l ok p = elim (handle_events-cases acked 100 l) [
  | inl got ↦
      let es = take 100 l.outbox.events in
      let m = record l { delivered = last_sequence l.outbox.acked es } in
      rw got (elim (decode_events-cases f m es) [
        | inl read ↦ rw read (on_events-IsLinked f r _ es ok (pending-IsKnown f 100 l p) p)
        | inr long ↦ rw long (lost_answer f r m p)
      ])
  | inr bad ↦ rw bad (lost_answer f r l p)
]

pub poll_round-IsLinked :
    (f : Format) (r : Round) (l : Link) → IsFormat f → IsLinked f l → IsLinked f (poll_round f r l)
unfolding poll_round
poll_round-IsLinked f r l ok p =
    match-cases (IsLinked f) l.acked (λ h. p)
      (λ acked h. ask_events-IsLinked f r acked r.events_reply l ok p)

-- The ids that are given are not empty.
abbrev pub HasId : Action → Type 0
HasId (publish id event_type now payload priority w) = 0 < length id
HasId server_restart = 0 ≤ 0
HasId server_close = 0 ≤ 0
HasId (agent_connect reply b) = 0 ≤ 0
HasId (agent_round r) = 0 ≤ 0
HasId agent_restart = 0 ≤ 0

pub act-IsLinked :
    (f : Format) (a : Action) (l : Link)
    → IsFormat f
    → HasId a
    → suc (length l.sent) < 2 ^ 64 - 1
    → IsLinked f l
    → IsLinked f (act f a l)
act-IsLinked f (publish id event_type now payload priority w) l ok named lt p =
    publish-IsLinked f id event_type now payload priority w l ok named lt p
act-IsLinked f server_restart l ok named lt p = unfold act in restart_server-IsLinked f l ok p
act-IsLinked f server_close l ok named lt p = unfold act in closed f l p
act-IsLinked f (agent_connect reply b) l ok named lt p =
    unfold act in connect-IsLinked f reply b l p
act-IsLinked f (agent_round r) l ok named lt p = unfold act in poll_round-IsLinked f r l ok p
act-IsLinked f agent_restart l ok named lt p = agent_restart-IsLinked f l ok p
