-- ===== src/Agent/Inbox/Tests.antt =====
-- The inbox on concrete inputs.
use gooophira_mp.Prelude.{ℕ, ◌+◌, ◌≤◌, ◌≡◌, refl, true, false, some, List, [], ◌∷◌, arith, All}
use gooophira_mp.Agent.Outbox.{Envelope, Write, encode_record, encode_data}
use gooophira_mp.Agent.Inbox.{
  Store, Replace, open_inbox, recover, recover_loop, set_baseline, write_baseline, accept,
  accept_events, accept_event, accept_again, accept_next, write_event, on_file, same_text, id_at,
  close,
}
use gooophira_mp.Agent.Inbox.Runs.{
  Call, handshake, receive, close_inbox, run, call, IsSent, on_handshake, after_baseline,
}
use gooophira_mp.Agent.Inbox.Reads.{IsServed, run-IsServed}
use gooophira_mp.Agent.Plain.{plain, marshal_plain, plain-IsFormat}
use gooophira_mp.Protocol.Uuid.{be_bytes}

abbrev event : ℕ → Envelope
event n = record {
  version = 1;
  id = n ∷ [];
  sequence = n;
  event_type = [];
  created_at = 0;
  payload = 9 ∷ [];
}

abbrev first_inbox : Store
first_inbox = record {
  max_bytes = 1048576;
  file = [];
  baseline_file = 0;
  bytes = 0;
  baseline = 0;
  last = 0;
  ids = [];
  failed = false;
  is_open = true;
}

opened : open_inbox plain 1048576 [] 0 ≡ some first_inbox
unfolding open_inbox recover recover_loop
opened = refl

-- The server has acknowledged four events before; then two more come, the second twice.
abbrev history : List Call
history =
    handshake 4 Replace.replaced
    ∷ receive (event 5 ∷ []) (λ n. Write.written)
    ∷ receive (event 5 ∷ event 6 ∷ []) (λ n. Write.written)
    ∷ close_inbox
    ∷ []

IsFirst : Envelope → Type 0
IsFirst e = e.version ≡ 1

history-IsSent : All (IsSent IsFirst) history
unfolding IsFirst
history-IsSent = (
  omega arith,
  (
    (((omega arith, omega arith), refl), tt),
    (
      (((omega arith, omega arith), refl), (((omega arith, omega arith), refl), tt)),
      (omega arith, tt),
    ),
  ),
)

abbrev ended : Store
ended = run plain history first_inbox

ended-sane : ended.failed ≡ false
unfolding run call close on_handshake after_baseline set_baseline write_baseline accept
    accept_events accept_event accept_again accept_next write_event on_file same_text id_at
    encode_record marshal_plain encode_data be_bytes
ended-sane = refl

ended-within : ended.baseline + 1 ≤ ended.last
unfolding run call close on_handshake after_baseline set_baseline write_baseline accept
    accept_events accept_event accept_again accept_next write_event on_file same_text id_at
    encode_record marshal_plain encode_data be_bytes
ended-within = omega arith

run-IsServed_example :
    IsServed plain IsFirst ended 1 5 (recover plain ended.file ended.baseline_file)
run-IsServed_example =
    run-IsServed plain IsFirst 1048576 history first_inbox 1 5 plain-IsFormat history-IsSent opened
      ended-sane ended-within (omega arith)
