-- ===== src/Agent/Delivery.antt =====
-- From the outbox of the server to the inbox of the agent: the handlers of
-- internal/agent/ipc/server.go for the handshake, the events and the acknowledgement, and `run` and
-- `poll` of src/cmd/agent/main.go, which call them. A request does not arrive, or its answer does not, or
-- both do; a consumer that the service does not take counts as the first. The processors
-- only read the inbox: of them it counts whether they reach the last event. That the acknowledged number
-- in an answer is the one asked for, which `poll` tests, follows from `Events`.
pub mod Sent
pub mod Outgoing
pub mod Acked
pub mod Incoming
pub mod Linked
pub mod Rounds
pub mod Delivered
pub mod Accepted
pub mod Progress
pub mod CaughtUp
mod Tests
use gooophira_mp.Prelude.{
  ℕ, suc, zero, ◌+◌, ◌-◌, ◌^◌, Bool, true, false, not, ◌||◌, Option, none, some, List, [], ◌∷◌,
  ◌++◌, ltb, ◌==◌, if◌then◌else◌, length, drop,
}
use gooophira_mp.Agent.Outbox as Outbox
use gooophira_mp.Agent.Outbox.{
  Envelope, Format, Priority, Write, Sync, OutboxError, Batch, batch, refused, events_after, ack,
  append, close,
}
use gooophira_mp.Agent.Outbox.Recovery.{open_store}
use gooophira_mp.Agent.Outbox.Durable.Runs as Durable
use gooophira_mp.Agent.Inbox as Inbox
use gooophira_mp.Agent.Inbox.{InboxError, Replace, accept}
use gooophira_mp.Agent.Inbox.Runs.{restarted, on_handshake}

-- `delivered` is `lastDelivered` of the service, `acked` the variable of `poll` while it runs. `sent`
-- is no part of the program: the events that were appended, as the outbox knows of them.
pub record Link : Type 0 where
  pub outbox : Outbox.Store
  pub delivered : ℕ
  pub inbox : Inbox.Store
  pub acked : Option ℕ
  pub sent : List Envelope

pub data Reply : Type 0 where
  unsent : Reply
  unanswered : Reply
  answered : Reply

unfoldable pub handle_handshake : Link → Link
handle_handshake l = record l { delivered = l.outbox.acked }

-- `events[len(events)-1].Sequence`, with a value for no events.
unfoldable pub last_sequence : ℕ → List Envelope → ℕ
last_sequence n [] = n
last_sequence n (e ∷ es) = last_sequence e.sequence es

unfoldable pub handle_events : ℕ → ℕ → Link → Link × Option (List Envelope)
handle_events after limit l = elim (events_after after limit l.outbox) [
  | batch es ↦ (record l { delivered = last_sequence l.outbox.acked es }, some es)
  | refused error ↦ (l, none)
]

unfoldable pub is_done : Option OutboxError → Bool
is_done none = true
is_done (some error) = false

unfoldable pub handle_ack : Format → Sync → ℕ → Link → Link × Bool
handle_ack f d sequence l = if ltb l.delivered sequence then (l, false) else (
  record l { outbox = (ack f d sequence l.outbox).0 },
  is_done ((ack f d sequence l.outbox).1),
)

-- `poll` returns, and `run` will connect again.
unfoldable pub disconnected : Link → Link
disconnected l = record l { acked = none }

-- A round of `run` up to `poll`.
unfoldable pub connected : Format → Replace → ℕ → Link → Link
connected f d acked l =
    let (inbox, goes_on) = on_handshake f d acked l.inbox in
    record l { inbox = inbox; acked = if goes_on then some acked else none }

unfoldable pub connect : Format → Reply → Replace → Link → Link
connect f unsent d l = disconnected l
connect f unanswered d l = disconnected (handle_handshake l)
connect f answered d l = connected f d l.outbox.acked (handle_handshake l)

-- What happens in a round of `poll`: to the request for events, to the records of the inbox, to the
-- processors, to the acknowledgement and to the disk under the outbox.
pub record Round : Type 0 where
  pub events_reply : Reply
  pub disk : ℕ → Write
  pub processed : Bool
  pub ack_reply : Reply
  pub sync : Sync

unfoldable pub on_ack : ℕ → Link × Bool → Link
on_ack last (l, true) = record l { acked = some last }
on_ack last (l, false) = disconnected l

unfoldable pub send_ack : Format → Reply → Sync → ℕ → Link → Link
send_ack f unsent d last l = disconnected l
send_ack f unanswered d last l = disconnected ((handle_ack f d last l).0)
send_ack f answered d last l = on_ack last (handle_ack f d last l)

-- The rest of the round, once `Accept` has returned.
unfoldable pub after_accept : Format → Round → ℕ → Option InboxError → Link → Link
after_accept f r last (some error) l = disconnected l
after_accept f r last none l =
    if ltb l.inbox.last last || not r.processed
    then disconnected l
    else send_ack f r.ack_reply r.sync last l

unfoldable pub on_events : Format → Round → Link × Option (List Envelope) → Link
on_events f r (l, none) = disconnected l
on_events f r (l, some []) = if r.processed then l else disconnected l
on_events f r (l, some (e ∷ es)) =
    let (inbox, result) = accept f r.disk (e ∷ es) l.inbox in
    after_accept f r (last_sequence 0 (e ∷ es)) result (record l { inbox = inbox })

abbrev pub max_request_body : ℕ
max_request_body = 2 ^ 16

-- `Client.Events` decodes what `io.LimitReader` lets through of the answer: a longer one is an error.
unfoldable pub decode_events :
    Format → Link × Option (List Envelope) → Link × Option (List Envelope)
decode_events f (l, none) = (l, none)
decode_events f (l, some es) =
    if ltb max_request_body (length (f.marshal_response l.outbox.acked l.outbox.latest es))
    then (l, none)
    else (l, some es)

unfoldable pub ask_events : Format → Round → ℕ → Reply → Link → Link
ask_events f r acked unsent l = disconnected l
ask_events f r acked unanswered l = disconnected ((handle_events acked 100 l).0)
ask_events f r acked answered l = on_events f r (decode_events f (handle_events acked 100 l))

unfoldable pub poll_round : Format → Round → Link → Link
poll_round f r l = elim l.acked [ none ↦ l | some acked ↦ ask_events f r acked r.events_reply l ]

-- A new service has delivered nothing. A restart may find an event whose append had failed.
unfoldable pub restart_server : Format → Link → Link
restart_server f l =
    let opened =
      Durable.reopened l.outbox (open_store f l.outbox.max l.outbox.file l.outbox.checkpoint) in
    record l {
      outbox = opened;
      delivered = 0;
      acked = none;
      sent = l.sent ++ drop (l.outbox.latest - opened.acked) opened.events;
    }

unfoldable pub on_append : Link → Envelope → Outbox.Store × Option OutboxError → Link
on_append l e (o, none) = record l { outbox = o; sent = l.sent ++ e ∷ [] }
on_append l e (o, some error) = record l { outbox = o }

pub data Action : Type 0 where
  publish : List ℕ → List ℕ → ℕ → List ℕ → Priority → Write → Action
  server_restart : Action
  server_close : Action
  agent_connect : Reply → Replace → Action
  agent_round : Round → Action
  agent_restart : Action

unfoldable pub act : Format → Action → Link → Link
act f (publish id event_type now payload priority w) l =
    on_append l (Outbox.new_envelope l.outbox.latest id event_type now payload)
      (append f id event_type now payload priority w l.outbox)
act f server_restart l = restart_server f l
act f server_close l = record l { outbox = close l.outbox }
act f (agent_connect reply d) l = connect f reply d l
act f (agent_round r) l = poll_round f r l
act f agent_restart l = disconnected (record l { inbox = restarted f l.inbox })

unfoldable pub run : Format → List Action → Link → Link
run f [] l = l
run f (a ∷ actions) l = run f actions (act f a l)
