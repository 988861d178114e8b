-- ===== src/Protocol/Commands/Safety.antt =====
-- Decoding a client command from any bytes: a command whose fields are in their ranges, or a
-- ProtocolError.
use gooophira_mp.Prelude.{ℕ, ◌<◌, ◌^◌, ◌≡◌, refl, ◌==◌, ◌⊎◌, inl, inr, List, All, arith}
use gooophira_mp.Prelude.Int.{IsI8, IsI32}
use gooophira_mp.Protocol.Monad.{Result, ok, panic, stuck, ProtocolError}
use gooophira_mp.Protocol.Reader.{BinaryReader, new_binary_reader}
use gooophira_mp.Protocol.Half.{f16_bits_to_f32}
use gooophira_mp.Protocol.RoomId.{
  IsRoomId, IsRoomId-of_parse, parse_room_id, Parsed, valid, invalid,
}
use gooophira_mp.Protocol.Composite.{read_compact_pos, decode_packet}
use gooophira_mp.Protocol.Wire.{IsByte}
use gooophira_mp.Protocol.Wire.Safe.{Outcome, Safe, Safe-pure, Safe-fail, Safe-if, Safe-bind}
use gooophira_mp.Protocol.Wire.SafePrimitives.{
  read_u8-Safe, read_i8-Safe, read_bool-Safe, read_u16-Safe, read_u32-Safe, read_i32-Safe,
  read_f32-Safe, read_string-Safe, read_varchar-Safe, read_array-Safe,
}
use gooophira_mp.Protocol.Commands.{TouchPoint, TouchFrame, ClientCommand}
use gooophira_mp.Protocol.Commands.Decode.{
  decode_touch_point, decode_touch_frame, decode_judge_event, accept_room_id, decode_room_id,
  decode_client_command_tagged, decode_client_command,
}
use gooophira_mp.Protocol.Commands.Valid.{AreFew, IsVarchar, IsJudgeEvent}

-- The single that some half converts to.
abbrev pub IsWidened : ℕ → Type 0
IsWidened v = (h : ℕ) × (h < 2 ^ 16) × (f16_bits_to_f32 h ≡ v)

abbrev pub IsReceivedPoint : TouchPoint → Type 0
IsReceivedPoint p = IsI8 p.id × IsWidened p.pos.x × IsWidened p.pos.y

abbrev pub IsReceivedFrame : TouchFrame → Type 0
IsReceivedFrame f = (f.time < 2 ^ 32) × AreFew IsReceivedPoint f.points

-- What a decoded command can be: the limits of the varchar fields, the rules for room ids and the
-- ranges of the numbers hold.
abbrev pub IsReceived : ClientCommand → Type 0
IsReceived ClientCommand.ping = Unit {0}
IsReceived (ClientCommand.authenticate token) = IsVarchar 32 token
IsReceived (ClientCommand.chat message) = IsVarchar 200 message
IsReceived (ClientCommand.touches frames) = AreFew IsReceivedFrame frames
IsReceived (ClientCommand.judges judges) = AreFew IsJudgeEvent judges
IsReceived (ClientCommand.create_room id) = IsRoomId id
IsReceived (ClientCommand.join_room id monitor) = IsRoomId id
IsReceived ClientCommand.leave_room = Unit {0}
IsReceived (ClientCommand.lock_room lock) = Unit {0}
IsReceived (ClientCommand.cycle_room cycle) = Unit {0}
IsReceived (ClientCommand.select_chart id) = IsI32 id
IsReceived ClientCommand.request_start = Unit {0}
IsReceived ClientCommand.ready = Unit {0}
IsReceived ClientCommand.cancel_ready = Unit {0}
IsReceived (ClientCommand.played id) = IsI32 id
IsReceived ClientCommand.abort = Unit {0}

read_compact_pos-Safe : Safe (λ p. IsWidened p.x × IsWidened p.y) read_compact_pos
unfolding read_compact_pos
read_compact_pos-Safe = Safe-bind _ _ _ _ read_u16-Safe (λ x hx.
    Safe-bind _ _ _ _ read_u16-Safe (λ y hy.
      Safe-pure _ (record { x = f16_bits_to_f32 x; y = f16_bits_to_f32 y })
        ((x, hx, refl), (y, hy, refl))))

decode_touch_point-Safe : Safe IsReceivedPoint decode_touch_point
unfolding decode_touch_point
decode_touch_point-Safe = Safe-bind _ _ _ _ read_i8-Safe (λ id hid.
    Safe-bind _ _ _ _ read_compact_pos-Safe
      (λ pos hpos. Safe-pure _ (record { id = id; pos = pos }) (hid, hpos.0, hpos.1)))

decode_touch_frame-Safe : Safe IsReceivedFrame decode_touch_frame
unfolding decode_touch_frame
decode_touch_frame-Safe = Safe-bind _ _ _ _ read_f32-Safe (λ time ht.
    Safe-bind _ _ _ _ (read_array-Safe _ _ decode_touch_point-Safe)
      (λ points hp. Safe-pure _ (record { time = time; points = points }) (ht, hp)))

decode_judge_event-Safe : Safe IsJudgeEvent decode_judge_event
unfolding decode_judge_event
decode_judge_event-Safe = Safe-bind _ _ _ _ read_f32-Safe (λ time ht.
    Safe-bind _ _ _ _ read_u32-Safe (λ line_id hl. Safe-bind _ _ _ _ read_u32-Safe (λ note_id hn.
      Safe-bind _ _ _ _ read_u8-Safe (λ judgement hj. Safe-pure _ _ (ht, hl, hn, hj)))))

accept_room_id-Safe :
    (s : List ℕ) (r : Parsed (List ℕ)) → parse_room_id s ≡ r → Safe IsRoomId (accept_room_id r)
unfolding accept_room_id
accept_room_id-Safe s (valid id) e =
    let (same, good) = IsRoomId-of_parse s id e in Safe-pure _ id (rw same good)
accept_room_id-Safe s (invalid er) e = Safe-fail _ er

decode_room_id-Safe : Safe IsRoomId decode_room_id
unfolding decode_room_id
decode_room_id-Safe =
    Safe-bind _ _ _ _ read_string-Safe (λ s _. accept_room_id-Safe s (parse_room_id s) refl)

decode_client_command_tagged-Safe : (tag : ℕ) → Safe IsReceived (decode_client_command_tagged tag)
unfolding decode_client_command_tagged
decode_client_command_tagged-Safe tag = Safe-if _ (tag == 0) (Safe-pure _ ClientCommand.ping tt) (
    Safe-if _ (tag == 1)
      (Safe-bind _ _ _ _ (read_varchar-Safe 32)
        (λ token h_token. (Safe-pure _ (ClientCommand.authenticate token) h_token)))
      (Safe-if _ (tag == 2)
        (Safe-bind _ _ _ _ (read_varchar-Safe 200)
          (λ message h_message. (Safe-pure _ (ClientCommand.chat message) h_message)))
        (Safe-if _ (tag == 3)
          (Safe-bind _ _ _ _ (read_array-Safe _ _ decode_touch_frame-Safe)
            (λ frames h_frames. (Safe-pure _ (ClientCommand.touches frames) h_frames)))
          (Safe-if _ (tag == 4)
            (Safe-bind _ _ _ _ (read_array-Safe _ _ decode_judge_event-Safe)
              (λ judges h_judges. (Safe-pure _ (ClientCommand.judges judges) h_judges)))
            (Safe-if _ (tag == 5)
              (Safe-bind _ _ _ _ decode_room_id-Safe
                (λ id h_id. (Safe-pure _ (ClientCommand.create_room id) h_id)))
              (Safe-if _ (tag == 6)
                (Safe-bind _ _ _ _ decode_room_id-Safe (λ id h_id.
                  (Safe-bind _ _ _ _ read_bool-Safe
                    (λ monitor _. (Safe-pure _ (ClientCommand.join_room id monitor) h_id)))))
                (Safe-if _ (tag == 7) (Safe-pure _ ClientCommand.leave_room tt) (
                  Safe-if _ (tag == 8)
                    (Safe-bind _ _ _ _ read_bool-Safe
                      (λ lock _. (Safe-pure _ (ClientCommand.lock_room lock) tt)))
                    (Safe-if _ (tag == 9)
                      (Safe-bind _ _ _ _ read_bool-Safe
                        (λ cycle _. (Safe-pure _ (ClientCommand.cycle_room cycle) tt)))
                      (Safe-if _ (tag == 10)
                        (Safe-bind _ _ _ _ read_i32-Safe
                          (λ id h_id. (Safe-pure _ (ClientCommand.select_chart id) h_id)))
                        (Safe-if _ (tag == 11) (Safe-pure _ ClientCommand.request_start tt) (
                          Safe-if _ (tag == 12) (Safe-pure _ ClientCommand.ready tt) (
                            Safe-if _ (tag == 13) (Safe-pure _ ClientCommand.cancel_ready tt) (
                              Safe-if _ (tag == 14)
                                (Safe-bind _ _ _ _ read_i32-Safe
                                  (λ id h_id. (Safe-pure _ (ClientCommand.played id) h_id)))
                                (Safe-if _ (tag == 15) (Safe-pure _ ClientCommand.abort tt)
                                  (Safe-fail _ _))))))))))))))))

decode_client_command-Safe : Safe IsReceived decode_client_command
unfolding decode_client_command
decode_client_command-Safe =
    Safe-bind _ _ _ _ read_u8-Safe (λ tag _. decode_client_command_tagged-Safe tag)

abbrev pub Decodes {ℓ} : {A : Type ℓ} → (A → Type 0) → Result A → Type ℓ
Decodes {A} P r = ((a : A) × (r ≡ ok a) × P a) ⊎ ((e : ProtocolError) × (r ≡ panic e))

Decodes-of_Outcome {ℓ} :
    {A : Type ℓ} (P : A → Type 0) (r : BinaryReader) (x : Result (A × BinaryReader))
    → Outcome P r x
    → Decodes P (elim x [ ok (a, _) ↦ ok a | panic e ↦ panic e | stuck ↦ stuck ])
Decodes-of_Outcome P r (ok (a, s)) h = inl (a, refl, h.0)
Decodes-of_Outcome P r (panic e) h = inr (e, refl)
Decodes-of_Outcome P r stuck h = absurd h

-- Decoding a client command from any bytes ends, if the machine has the memory for the arrays whose
-- length the bytes state: with a command in the ranges that `IsReceived` states, or with a
-- ProtocolError, which `DecodePacket` returns, and not with a panic of the runtime for an index, a
-- slice or the length of an array.
pub decode_packet-client_command :
    (bs : List ℕ) → All IsByte bs → Decodes IsReceived (decode_packet bs decode_client_command)
unfolding decode_packet new_binary_reader
decode_packet-client_command bs h =
    Decodes-of_Outcome IsReceived _ _
      (decode_client_command-Safe.run (new_binary_reader bs) h (omega arith))
