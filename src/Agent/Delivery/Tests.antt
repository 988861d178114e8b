-- ===== src/Agent/Delivery/Tests.antt =====
-- The way from the outbox to the inbox on concrete inputs.
use gooophira_mp.Prelude.{
  ◌≤◌, ◌*◌, ◌≡◌, refl, suc, zero, true, false, some, List, [], ◌∷◌, length, arith, All,
}
use gooophira_mp.Agent.Outbox as Outbox
use gooophira_mp.Agent.Outbox.{
  Priority, Write, Sync, append, append_envelope, append_record, write_record, new_envelope,
  encode_record, encode_data, limit_for, events_after,
}
use gooophira_mp.Agent.Outbox.Recovery.{open_store, recover_log, recover_loop}
use gooophira_mp.Agent.Outbox.Queue.{log_of}
use gooophira_mp.Agent.Inbox as Inbox
use gooophira_mp.Agent.Inbox.{
  Replace, open_inbox, recover, accept, accept_events, accept_event, accept_next, on_file,
  write_event,
}
use gooophira_mp.Agent.Inbox.Runs.{on_handshake}
use gooophira_mp.Agent.Delivery.{
  Link, Reply, Round, Action, run, act, on_append, poll_round, connect, connected, handle_handshake,
  ask_events, handle_events, decode_events, on_events, after_accept, send_ack, disconnected,
  last_sequence,
}
use gooophira_mp.Agent.Delivery.Progress.{AnswersFit}
use gooophira_mp.Agent.Delivery.Rounds.{HasId}
use gooophira_mp.Agent.Delivery.Delivered.{start, IsDelivered, run-IsDelivered}
use gooophira_mp.Agent.Delivery.CaughtUp.{IsCaughtUp, run-IsCaughtUp, clear_rounds, started}
use gooophira_mp.Agent.Plain.{plain, marshal_plain, marshal_plain_response, plain-IsFormat}
use gooophira_mp.Protocol.Uuid.{be_bytes}

abbrev first_outbox : Outbox.Store
first_outbox = record {
  max = 1048576;
  file = [];
  checkpoint = 0;
  events = [];
  acked = 0;
  latest = 0;
  bytes = 0;
  dropped = 0;
  closed = false;
  failed = false;
}

abbrev first_inbox : Inbox.Store
first_inbox = record {
  max_bytes = 1048576;
  file = [];
  baseline_file = 0;
  bytes = 0;
  baseline = 0;
  last = 0;
  ids = [];
  failed = false;
  is_open = true;
}

opened_outbox : open_store plain 1048576 [] 0 ≡ some first_outbox
unfolding open_store recover_log recover_loop
opened_outbox = refl

opened_inbox : open_inbox plain 1048576 [] 0 ≡ some first_inbox
unfolding open_inbox recover Inbox.recover_loop
opened_inbox = refl

-- Two events are sent; the answer to the acknowledgement of the first does not arrive.
abbrev lost_ack : Round
lost_ack = record {
  events_reply = Reply.answered;
  disk = λ n. Write.written;
  processed = true;
  ack_reply = Reply.unsent;
  sync = Sync.synced;
}

abbrev history : List Action
history =
    Action.publish (1 ∷ []) (65 ∷ []) 100 (5 ∷ 6 ∷ []) Priority.critical Write.written
    ∷ Action.agent_connect Reply.answered Replace.replaced
    ∷ Action.agent_round lost_ack
    ∷ Action.publish (2 ∷ []) (66 ∷ []) 101 [] Priority.normal Write.written
    ∷ []

history-HasId : All HasId history
history-HasId = (omega arith, (omega arith, (omega arith, (omega arith, tt))))

run-IsDelivered_example : IsDelivered plain (run plain history (start first_outbox first_inbox))
run-IsDelivered_example =
    run-IsDelivered plain 1048576 1048576 history first_outbox first_inbox plain-IsFormat
      history-HasId (omega arith) opened_outbox opened_inbox

abbrev ended : Link
ended = run plain history (start first_outbox first_inbox)

ended-room : length (log_of plain ended.sent) ≤ ended.inbox.max_bytes
unfolding run act on_append append append_envelope append_record write_record new_envelope
    encode_record encode_data limit_for be_bytes marshal_plain poll_round connect connected
    handle_handshake on_handshake ask_events handle_events decode_events events_after on_events
    after_accept marshal_plain_response send_ack disconnected last_sequence accept accept_events
    accept_event accept_next on_file write_event
ended-room = omega arith

ended-pending : length ended.outbox.events ≤ 100 * 1
unfolding run act on_append append append_envelope append_record write_record new_envelope
    encode_record encode_data limit_for be_bytes marshal_plain poll_round connect connected
    handle_handshake on_handshake ask_events handle_events decode_events events_after on_events
    after_accept marshal_plain_response send_ack disconnected last_sequence accept accept_events
    accept_event accept_next on_file write_event
ended-pending = omega arith

ended-answers : AnswersFit plain ended.sent
unfolding run act on_append append append_envelope append_record write_record new_envelope
    encode_record encode_data limit_for be_bytes marshal_plain poll_round connect connected
    handle_handshake on_handshake ask_events handle_events decode_events events_after on_events
    after_accept send_ack disconnected last_sequence accept accept_events accept_event accept_next
    on_file write_event marshal_plain_response
ended-answers zero = omega arith
ended-answers (suc zero) = omega arith
ended-answers (suc (suc zero)) = omega arith
ended-answers (suc (suc (suc n))) = omega arith

run-IsCaughtUp_example :
    IsCaughtUp ended.sent (run plain (clear_rounds 1) (started plain Replace.replaced ended))
run-IsCaughtUp_example =
    run-IsCaughtUp plain 1048576 1048576 history first_outbox first_inbox Replace.replaced 1
      plain-IsFormat history-HasId (omega arith) opened_outbox opened_inbox ended-room ended-answers
      ended-pending
