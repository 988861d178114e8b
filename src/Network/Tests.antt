-- ===== src/Network/Tests.antt =====
-- The limits on concrete inputs.
use Prim.Native.Nat.{max}
use gooophira_mp.Prelude.{
  Bool, false, ℕ, ◌≤◌, ◌≡◌, refl, true, none, some, List, [], ◌∷◌, ◌++◌, arith,
}
use gooophira_mp.Protocol.Commands.{ClientCommand}
use gooophira_mp.Network.ConnLimit.{
  ConnectionRateLimiter, Event, attempt, cleaned, count_allowed, cleanup,
}
use gooophira_mp.Network.ConnLimit.Window.{count_allowed-max}
use gooophira_mp.Network.ConnLimit.Cleaning.{answers, answers-cleanup}
use gooophira_mp.Network.RateLimit.{Session}
use gooophira_mp.Protocol.Writer.{new_binary_writer, to_buffer, write_u8, write_bool, write_buffer}
use gooophira_mp.Protocol.Composite.{encode_packet}
use gooophira_mp.Protocol.Commands.Encode.{encode_client_command}
use gooophira_mp.Protocol.Framing.{
  frame_with_length_prefix, effective_limit, try_decode_frame, frame_need_more, decode_frame_loop,
  finish_frame,
}
use gooophira_mp.Network.Reading.{read_session, drain, take_frame, max_frame_size}
use gooophira_mp.Network.Reading.Chunks.{drain-rest, read_session-chunks}
use gooophira_mp.Network.Reading.Sent.{IsSent, read_session-IsSent}

abbrev limiter : ConnectionRateLimiter
limiter = record {
  windows = λ ip. none;
  banned = λ ip. none;
  max_conns = 2;
  window_dur = 10;
  ban_dur = 30;
}

abbrev rush : List Event
rush =
    attempt 7 100 ∷ attempt 7 101 ∷ attempt 8 102 ∷ cleaned 103 ∷ attempt 7 104 ∷ attempt 7 109 ∷ []

count_allowed-max_example : count_allowed 7 rush limiter ≤ max 1 limiter.max_conns
count_allowed-max_example =
    count_allowed-max 7 100 110 rush limiter refl refl (omega arith) (omega arith) (
      (omega arith, omega arith),
      (
        (omega arith, omega arith),
        (
          (omega arith, omega arith),
          (
            (omega arith, omega arith),
            ((omega arith, omega arith), ((omega arith, omega arith), tt)),
          ),
        ),
      ),
    )

answers-cleanup_example : answers rush (cleanup 100 limiter) ≡ answers rush limiter
answers-cleanup_example = answers-cleanup 100 rush limiter (
  omega arith,
  (omega arith, (omega arith, (omega arith, (omega arith, (omega arith, omega arith))))),
)

abbrev session : Session
session = record {
  is_user = true;
  rl = record {
    op_bucket = record { tokens = 1500000000; last = 0 };
    total_bucket = record { tokens = 15000000000; last = 0 };
  };
  command_rate_limit = true;
}

abbrev talk : List (ClientCommand × Bool × ℕ)
talk =
    (ClientCommand.chat [], false, 10)
    ∷ (ClientCommand.ready, false, 20)
    ∷ (ClientCommand.touches [], false, 30)
    ∷ (ClientCommand.ping, false, 30)
    ∷ []

read_session-chunks_example :
    read_session ((1 ∷ 1 ∷ []) ∷ [] ∷ (0 ∷ 1 ∷ []) ∷ [])
    ≡ read_session ((1 ∷ []) ∷ (1 ∷ 0 ∷ 1 ∷ []) ∷ [])
read_session-chunks_example =
    read_session-chunks ((1 ∷ 1 ∷ []) ∷ [] ∷ (0 ∷ 1 ∷ []) ∷ []) ((1 ∷ []) ∷ (1 ∷ 0 ∷ 1 ∷ []) ∷ [])
      refl

abbrev ping_frame : List ℕ
ping_frame = frame_with_length_prefix (0 ∷ [])

abbrev lock_frame : List ℕ
lock_frame = frame_with_length_prefix (8 ∷ 1 ∷ [])

abbrev sent : List ClientCommand
sent = ClientCommand.ping ∷ ClientCommand.lock_room true ∷ []

sent-IsSent : IsSent sent (ping_frame ++ (lock_frame ++ []))
unfolding effective_limit encode_packet encode_client_command new_binary_writer to_buffer write_u8
    write_bool write_buffer
sent-IsSent = (
  0 ∷ [],
  lock_frame ++ [],
  refl,
  omega arith,
  refl,
  (8 ∷ 1 ∷ [], [], refl, omega arith, refl, refl),
)

read_session-IsSent_example :
    read_session ((1 ∷ ping_frame) ∷ lock_frame ∷ []) ≡ record { commands = sent; buf = some [] }
read_session-IsSent_example =
    read_session-IsSent sent (ping_frame ++ (lock_frame ++ [])) ((1 ∷ ping_frame) ∷ lock_frame ∷ [])
      (tt, (tt, tt)) sent-IsSent refl

half_read : (drain 2 (5 ∷ 1 ∷ [])).buf ≡ some (5 ∷ 1 ∷ [])
unfolding drain take_frame try_decode_frame decode_frame_loop finish_frame effective_limit
half_read = refl

drain-rest_example : try_decode_frame (5 ∷ 1 ∷ []) max_frame_size ≡ frame_need_more
drain-rest_example = drain-rest 2 (5 ∷ 1 ∷ []) (5 ∷ 1 ∷ []) (omega arith) half_read
