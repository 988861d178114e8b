-- ===== src/Network/Reading/Sent.antt =====
-- What a client sends is read.
use gooophira_mp.Prelude.{
  ℕ, ◌^◌, ◌≤◌, ◌<◌, ◌≡◌, refl, ap, subst, ◌∙◌, some, List, [], ◌∷◌, ◌++◌, length, arith, All,
}
use gooophira_mp.Protocol.Monad.{Result}
use gooophira_mp.Protocol.Composite.{decode_packet, encode_packet}
use gooophira_mp.Protocol.Commands.{ClientCommand}
use gooophira_mp.Protocol.Commands.Decode.{decode_client_command}
use gooophira_mp.Protocol.Commands.Encode.{encode_client_command}
use gooophira_mp.Protocol.Commands.Valid.{IsClientCommand}
use gooophira_mp.Protocol.Packets.{client_command_round_trip}
use gooophira_mp.Protocol.Framing.{try_decode_frame, frame_with_length_prefix, effective_limit}
use gooophira_mp.Protocol.Framing.Decoding.{try_decode_frame-frame_with_length_prefix}
use gooophira_mp.Network.Reading.{
  command_first, take_frame, take_packet, drain, read_session, max_frame_size, protocol_version,
}
use gooophira_mp.Network.Reading.Chunks.{
  drain_all, drain_all-take_frame, join, read_bytes, read_session-join,
}

-- The frames of commands, one behind the other.
abbrev pub IsSent : List ClientCommand → List ℕ → Type 0
IsSent [] bytes = bytes ≡ []
IsSent (cmd ∷ cmds) bytes =
    (payload : List ℕ) × (rest : List ℕ) × (encode_packet cmd encode_client_command
      ≡ Result.ok payload)
    × (length payload ≤ effective_limit max_frame_size)
    × (bytes ≡ frame_with_length_prefix payload ++ rest)
    × IsSent cmds rest

frame_limit : effective_limit max_frame_size < 2 ^ 32
unfolding effective_limit
frame_limit = omega arith

decoded :
    (cmd : ClientCommand) (payload : List ℕ)
    → IsClientCommand cmd
    → encode_packet cmd encode_client_command ≡ Result.ok payload
    → decode_packet payload decode_client_command ≡ Result.ok cmd
decoded cmd payload v made =
    let (bs, are_bytes, writes, reads) = client_command_round_trip cmd v in
    let same : bs ≡ payload = cc (writes, made) in
    subst (λ (x : List ℕ). decode_packet x decode_client_command ≡ Result.ok cmd) same reads

drain_all-IsSent :
    (cmds : List ClientCommand) (bytes : List ℕ)
    → All IsClientCommand cmds
    → IsSent cmds bytes
    → drain_all bytes ≡ record { commands = cmds; buf = some [] }
unfolding drain_all drain take_frame take_packet command_first
drain_all-IsSent [] bytes valid sent = rw sent refl
drain_all-IsSent (cmd ∷ cmds) bytes (v, valid) (payload, rest, made, small, eq, sent) =
    let framed =
      try_decode_frame-frame_with_length_prefix payload rest max_frame_size small
        (omega (arith, small, frame_limit)) in
    drain_all-take_frame bytes
    ∙ ap (λ (b : List ℕ). take_frame drain_all b (try_decode_frame b max_frame_size)) eq
    ∙ ap (take_frame drain_all _) framed
    ∙ ap (λ (p : Result ClientCommand). take_packet p (drain_all rest)) (decoded cmd payload v made)
    ∙ ap (command_first cmd) (drain_all-IsSent cmds rest valid sent)

-- Commands that fit the wire, whose packets are no longer than a frame may be, are all passed on, in
-- their order, when their frames are sent behind the version, however these are cut into chunks.
pub read_session-IsSent :
    (cmds : List ClientCommand) (bytes : List ℕ) (chunks : List (List ℕ))
    → All IsClientCommand cmds
    → IsSent cmds bytes
    → join chunks ≡ protocol_version ∷ bytes
    → read_session chunks ≡ record { commands = cmds; buf = some [] }
unfolding read_bytes
read_session-IsSent cmds bytes chunks valid sent same =
    read_session-join chunks ∙ ap read_bytes same ∙ drain_all-IsSent cmds bytes valid sent
