-- ===== src/Agent/Delivery/Delivered.antt =====
-- Histories of the two sides: what was sent is what the inbox holds, and what is pending.
use gooophira_mp.Prelude.{
  ℕ, suc, ◌+◌, ◌-◌, ◌≤◌, ◌<◌, ◌^◌, ◌≡◌, refl, sym, ap, ◌∙◌, subst, Bool, true, false, inl, inr,
  Option, none, some, List, [], ◌∷◌, ◌++◌, ltb, not, ◌||◌, if◌then◌else◌, length, drop, take,
  drop_all, length-drop, arith, All, length-append, if-cases, match-cases,
}
use gooophira_mp.Agent.Outbox as Outbox
use gooophira_mp.Agent.Outbox.{
  Envelope, Format, Sync, OutboxError, batch, refused, events_after, append, append_envelope,
  new_envelope, ack,
}
use gooophira_mp.Agent.Outbox.Recovery.{open_store}
use gooophira_mp.Agent.Outbox.Records.{IsFormat}
use gooophira_mp.Agent.Outbox.Queue.{Follow, log_of}
use gooophira_mp.Agent.Outbox.Durable.{IsDurable}
use gooophira_mp.Agent.Outbox.Durable.Reopened as Reopened
use gooophira_mp.Agent.Inbox as Inbox
use gooophira_mp.Agent.Inbox.{open_inbox, accept, InboxError}
use gooophira_mp.Agent.Inbox.Stored.{IsStored}
use gooophira_mp.Agent.Inbox.Runs.{open_inbox-IsFresh}
use gooophira_mp.Agent.Inbox.Runs as Starts
use gooophira_mp.Agent.Delivery.{
  Link, Reply, unsent, unanswered, answered, Round, Action, publish, server_restart, server_close,
  agent_connect, agent_round, agent_restart, handle_handshake, handle_ack, disconnected, connected,
  connect, on_ack, send_ack, after_accept, on_events, last_sequence, decode_events, ask_events,
  poll_round, restart_server, on_append, act, run,
}
use gooophira_mp.Agent.Delivery.Sent.{IsIn, IsIn-take, IsIn-length}
use gooophira_mp.Agent.Delivery.Acked.{restart-IsResumed}
use gooophira_mp.Agent.Delivery.Linked.{IsLinked}
use gooophira_mp.Agent.Delivery.Rounds.{
  HasId, handle_events-cases, decode_events-cases, act-IsLinked,
}

-- A round sends nothing new.
handle_ack-sent :
    (f : Format) (b : Sync) (n : ℕ) (l : Link) → ((handle_ack f b n l).0).sent ≡ l.sent
unfolding handle_ack
handle_ack-sent f b n l =
    if-cases (λ (q : Link × Bool). (q.0).sent ≡ l.sent) (ltb l.delivered n) (λ h. refl) (λ h. refl)

on_ack-sent : (n : ℕ) (r : Link × Bool) → (on_ack n r).sent ≡ (r.0).sent
unfolding on_ack disconnected
on_ack-sent n (l, true) = refl
on_ack-sent n (l, false) = refl

send_ack-sent :
    (f : Format) (reply : Reply) (b : Sync) (n : ℕ) (l : Link)
    → (send_ack f reply b n l).sent ≡ l.sent
unfolding send_ack disconnected
send_ack-sent f unsent b n l = refl
send_ack-sent f unanswered b n l = handle_ack-sent f b n l
send_ack-sent f answered b n l = on_ack-sent n (handle_ack f b n l) ∙ handle_ack-sent f b n l

after_accept-sent :
    (f : Format) (r : Round) (n : ℕ) (result : Option InboxError) (l : Link)
    → (after_accept f r n result l).sent ≡ l.sent
unfolding after_accept disconnected
after_accept-sent f r n (some error) l = refl
after_accept-sent f r n none l =
    if-cases (λ (q : Link). q.sent ≡ l.sent) (ltb l.inbox.last n || not r.processed) (λ h. refl)
      (λ h. send_ack-sent f r.ack_reply r.sync n l)

on_events-sent :
    (f : Format) (r : Round) (l : Link) (es : Option (List Envelope))
    → (on_events f r (l, es)).sent ≡ l.sent
unfolding on_events disconnected
on_events-sent f r l none = refl
on_events-sent f r l (some []) =
    if-cases (λ (q : Link). q.sent ≡ l.sent) r.processed (λ h. refl) (λ h. refl)
on_events-sent f r l (some (e ∷ es)) = after_accept-sent f r _ _ _

ask_events-sent :
    (f : Format) (r : Round) (acked : ℕ) (reply : Reply) (l : Link)
    → (ask_events f r acked reply l).sent ≡ l.sent
unfolding ask_events disconnected decode_events
ask_events-sent f r acked unsent l = refl
ask_events-sent f r acked unanswered l = elim (handle_events-cases acked 100 l) [
  | inl got ↦ rw got refl
  | inr bad ↦ rw bad refl
]
ask_events-sent f r acked answered l = elim (handle_events-cases acked 100 l) [
  | inl got ↦
      let es = take 100 l.outbox.events in
      let m = record l { delivered = last_sequence l.outbox.acked es } in
      rw got (elim (decode_events-cases f m es) [
        | inl read ↦ rw read (on_events-sent f r m (some es))
        | inr long ↦ rw long (on_events-sent f r m none)
      ])
  | inr bad ↦ rw bad (on_events-sent f r l none)
]

poll_round-sent : (f : Format) (r : Round) (l : Link) → (poll_round f r l).sent ≡ l.sent
unfolding poll_round
poll_round-sent f r l =
    match-cases (λ (q : Link). q.sent ≡ l.sent) l.acked (λ h. refl)
      (λ acked h. ask_events-sent f r acked r.events_reply l)

connect-sent :
    (f : Format) (reply : Reply) (b : Inbox.Replace) (l : Link)
    → (connect f reply b l).sent ≡ l.sent
unfolding connect connected handle_handshake disconnected
connect-sent f unsent b l = refl
connect-sent f unanswered b l = refl
connect-sent f answered b l = refl

on_append-sent :
    (l : Link) (e : Envelope) (r : Outbox.Store × Option OutboxError)
    → length (on_append l e r).sent ≤ suc (length l.sent)
unfolding on_append
on_append-sent l e (o, none) = omega (arith, length-append l.sent (e ∷ []))
on_append-sent l e (o, some error) = omega arith

act-sent :
    (f : Format) (a : Action) (l : Link)
    → IsFormat f
    → IsLinked f l
    → length (act f a l).sent ≤ suc (length l.sent)
unfolding act restart_server disconnected
act-sent f (publish id event_type now payload priority w) l ok p = on_append-sent l _ _
act-sent f server_restart l ok p =
    let r = restart-IsResumed f l.sent l.outbox ok p.out p.queue in
    omega (
      arith,
      ap (λ (more : List Envelope). length (l.sent ++ more)) r.learnt,
      length-append l.sent (r.extra),
      r.few,
    )
act-sent f server_close l ok p = omega arith
act-sent f (agent_connect reply b) l ok p = omega (arith, ap length (connect-sent f reply b l))
act-sent f (agent_round r) l ok p = omega (arith, ap length (poll_round-sent f r l))
act-sent f agent_restart l ok p = omega arith

pub run-IsLinked :
    (f : Format) (actions : List Action) (l : Link)
    → IsFormat f
    → All HasId actions
    → length l.sent + length actions < 2 ^ 64 - 1
    → IsLinked f l
    → IsLinked f (run f actions l)
unfolding run
run-IsLinked f [] l ok named few p = p
run-IsLinked f (a ∷ actions) l ok (now, named) few p =
    run-IsLinked f actions (act f a l) ok named (omega (arith, few, act-sent f a l ok p))
      (act-IsLinked f a l ok now (omega (arith, few)) p)

-- Two stores that were just opened.
abbrev pub start : Outbox.Store → Inbox.Store → Link
start o i = record { outbox = o; delivered = 0; inbox = i; acked = none; sent = [] }

no_length {ℓ} : {A : Type ℓ} (xs : List A) → length xs ≡ 0 → xs ≡ []
no_length [] h = refl
no_length (x ∷ xs) h = absurd (omega arith)

start-IsLinked :
    (f : Format) (o : Outbox.Store) (i : Inbox.Store)
    → IsDurable f o × (o.latest ≡ 0)
    → IsStored f (IsIn []) i × (i.last ≡ 0)
    → IsLinked f (start o i)
start-IsLinked f o i (d, latest) (c, last) = record {
  out = d;
  queue = record {
    follow = omega arith;
    events =
        no_length o.events
          (omega (arith, ap length d.events, length-drop d.behind d.kept, d.last, latest))
        ∙ sym (drop_all o.acked [] (omega arith));
    latest = latest;
    above = omega (arith, d.same);
    within = omega (arith, d.same, d.place, d.known, d.last, latest);
  };
  named = tt;
  inn = c;
  base = omega (arith, c.last_one, last);
  reach = omega (arith, d.same, d.place, d.known, d.last, latest);
}

-- What the two stores hold of the events that were sent.
pub record IsDelivered (f : Format) (l : Link) : Type 0 where
  pub numbers : Follow 0 l.sent
  pub acked : l.outbox.acked ≤ l.inbox.last
  pub within : l.inbox.last ≤ length l.sent
  pub pending : l.outbox.events ≡ drop l.outbox.acked l.sent
  pub rest : List ℕ
  pub file : l.inbox.file ≡ log_of f (take l.inbox.last l.sent) ++ rest
  pub sound : rest ≡ (if l.inbox.failed then rest else [])

whole_file :
    (failed : Bool) (rest : List ℕ)
    → (failed ≡ false → rest ≡ [])
    → rest ≡ (if failed then rest else [])
whole_file true rest h = refl
whole_file false rest h = h refl

pub linked-IsDelivered : (f : Format) (l : Link) → IsLinked f l → IsDelivered f l
linked-IsDelivered f l p =
    let c = p.inn in
    let follow : Follow 0 c.kept = rw (← p.base) c.follow in
    let all_kept : take (length c.kept) l.sent ≡ c.kept = IsIn-take l.sent c.kept 0 follow c.come in
    let count : l.inbox.last ≡ length c.kept = omega (arith, c.last_one, p.base) in
    record {
      numbers = p.queue.follow;
      acked = omega (arith, p.queue.above, p.reach);
      within = omega (arith, count, IsIn-length l.sent c.kept 0 follow c.come (omega arith));
      pending = p.queue.events;
      rest = c.tail;
      file =
          c.file
          ∙ ap (λ (es : List Envelope). log_of f es ++ c.tail)
              (sym (ap (λ (n : ℕ). take n l.sent) count ∙ all_kept));
      sound = whole_file l.inbox.failed c.tail c.sound;
    }

pub run-start-IsLinked :
    (f : Format) (out_max in_max : ℕ) (actions : List Action) (o : Outbox.Store) (i : Inbox.Store)
    → IsFormat f
    → All HasId actions
    → length actions < 2 ^ 64 - 1
    → open_store f out_max [] 0 ≡ some o
    → open_inbox f in_max [] 0 ≡ some i
    → IsLinked f (run f actions (start o i))
run-start-IsLinked f out_max in_max actions o i ok named few opened_out opened_in =
    let fresh_out = subst (Reopened.IsFresh f) opened_out (Reopened.open_store-IsFresh f out_max) in
    let fresh_in =
      subst (Starts.IsFresh f (IsIn [])) opened_in (open_inbox-IsFresh f (IsIn []) in_max) in
    run-IsLinked f actions (start o i) ok named (omega (arith, few))
      (start-IsLinked f o i fresh_out fresh_in)

-- From two empty directories, after any appends, polls, restarts of either side and lost requests and
-- answers, with any failures of the two disks, at most 2^64 - 2 of them: the file of the inbox is the
-- records of the first events that were sent, each once and in order, and no more unless a write of the
-- inbox has failed since its start; the pending events of the outbox are those
-- behind the acknowledged number, which is not above the last number of the inbox. So each event that
-- was sent is in the inbox or pending, and none is acknowledged that the inbox does not hold.
pub run-IsDelivered :
    (f : Format) (out_max in_max : ℕ) (actions : List Action) (o : Outbox.Store) (i : Inbox.Store)
    → IsFormat f
    → All HasId actions
    → length actions < 2 ^ 64 - 1
    → open_store f out_max [] 0 ≡ some o
    → open_inbox f in_max [] 0 ≡ some i
    → IsDelivered f (run f actions (start o i))
run-IsDelivered f out_max in_max actions o i ok named few opened_out opened_in =
    linked-IsDelivered f (run f actions (start o i))
      (run-start-IsLinked f out_max in_max actions o i ok named few opened_out opened_in)
