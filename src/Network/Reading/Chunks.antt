-- ===== src/Network/Reading/Chunks.antt =====
-- What is read does not depend on how the bytes were cut into chunks.
use gooophira_mp.Prelude.{
  ℕ, suc, zero, ◌≤◌, ◌<◌, ◌≡◌, refl, sym, ap, subst, ◌∙◌, Option, none, some, List, [], ◌∷◌, ◌++◌,
  ◌==◌, if◌then◌else◌, length, append-nil, append_assoc, length-append, arith, Option-cases, inl,
  inr,
}
use gooophira_mp.Protocol.Monad.{Result, panic, stuck}
use gooophira_mp.Protocol.Composite.{decode_packet}
use gooophira_mp.Protocol.Commands.{ClientCommand}
use gooophira_mp.Protocol.Commands.Decode.{decode_client_command}
use gooophira_mp.Protocol.Framing.{
  DecodeFrameResult, frame_need_more, frame_ok, frame_error, try_decode_frame, decode_frame_loop,
}
use gooophira_mp.Protocol.Framing.Streams.{extended, try_decode_frame-append, try_decode_frame_ok}
use gooophira_mp.Network.Reading.{
  Reading, command_first, commands_first, take_frame, take_packet, drain, read_loop, read_byte,
  read_session, after_version, max_frame_size, protocol_version,
}

frame_shorter :
    (buf payload remaining : List ℕ)
    → try_decode_frame buf max_frame_size ≡ frame_ok payload remaining
    → length remaining < length buf
frame_shorter buf payload remaining e =
    let s = try_decode_frame_ok buf payload remaining max_frame_size e in
    omega (
      arith,
      ap length s.1,
      length-append s.0 (payload ++ remaining),
      length-append payload remaining,
      s.2,
    )

take_frame-cong :
    (k l : List ℕ → Reading) (buf : List ℕ) (r : DecodeFrameResult)
    → ((payload remaining : List ℕ) → r ≡ frame_ok payload remaining → k remaining ≡ l remaining)
    → take_frame k buf r ≡ take_frame l buf r
unfolding take_frame
take_frame-cong k l buf frame_need_more h = refl
take_frame-cong k l buf (frame_error e) h = refl
take_frame-cong k l buf (frame_ok payload remaining) h =
    ap (take_packet _) (h payload remaining refl)

-- More fuel than bytes changes nothing.
drain-fuel : (m n : ℕ) (buf : List ℕ) → length buf ≤ m → length buf ≤ n → drain m buf ≡ drain n buf
unfolding drain take_frame try_decode_frame decode_frame_loop
drain-fuel zero zero buf le ge = refl
drain-fuel zero (suc n) [] le ge = refl
drain-fuel zero (suc n) (x ∷ buf) le ge = absurd (omega arith)
drain-fuel (suc m) zero [] le ge = refl
drain-fuel (suc m) zero (x ∷ buf) le ge = absurd (omega arith)
drain-fuel (suc m) (suc n) buf le ge =
    take_frame-cong (drain m) (drain n) buf (try_decode_frame buf max_frame_size)
      (λ payload remaining e.
        let fewer = frame_shorter buf payload remaining e in
        drain-fuel m n remaining (omega (arith, le, fewer)) (omega (arith, ge, fewer)))

unfoldable pub drain_all : List ℕ → Reading
drain_all buf = drain (length buf) buf

pub drain_all-take_frame :
    (buf : List ℕ) → drain_all buf ≡ take_frame drain_all buf (try_decode_frame buf max_frame_size)
unfolding drain_all drain take_frame try_decode_frame decode_frame_loop
drain_all-take_frame [] = refl
drain_all-take_frame (x ∷ xs) =
    take_frame-cong (drain (length xs)) drain_all (x ∷ xs)
      (try_decode_frame (x ∷ xs) max_frame_size)
      (λ payload remaining e.
        drain-fuel (length xs) (length remaining) remaining
          (omega (arith, frame_shorter (x ∷ xs) payload remaining e)) (omega arith))

-- What more bytes make of a reading.
unfoldable joined : Reading → List ℕ → Reading
joined r more = elim r.buf [
  | none ↦ r
  | some rest ↦ commands_first r.commands (drain_all (rest ++ more))
]

joined-command_first :
    (cmd : ClientCommand) (r : Reading) (more : List ℕ)
    → command_first cmd (joined r more) ≡ joined (command_first cmd r) more
unfolding joined command_first commands_first
joined-command_first cmd r more = elim (Option-cases r.buf) [
  | inl e ↦ rw e refl
  | inr (rest, e) ↦ rw e refl
]

joined-take_packet :
    (p : Result ClientCommand) (r : Reading) (more : List ℕ)
    → take_packet p (joined r more) ≡ joined (take_packet p r) more
unfolding take_packet joined
joined-take_packet (Result.ok cmd) r more = joined-command_first cmd r more
joined-take_packet (panic e) r more = refl
joined-take_packet stuck r more = refl

take_frame-extended :
    (buf more : List ℕ) (r : DecodeFrameResult)
    → try_decode_frame buf max_frame_size ≡ r
    → ((payload remaining : List ℕ)
        → r ≡ frame_ok payload remaining
        → drain_all (remaining ++ more) ≡ joined (drain_all remaining) more)
    → drain_all (buf ++ more) ≡ joined (take_frame drain_all buf r) more
unfolding take_frame joined commands_first
take_frame-extended buf more frame_need_more e h = refl
take_frame-extended buf more (frame_error x) e h =
    let ended : try_decode_frame (buf ++ more) max_frame_size ≡ frame_error x =
      try_decode_frame-append buf more max_frame_size (λ i. cc (e, i))
      ∙ ap (λ r. extended r more) e in
    drain_all-take_frame (buf ++ more) ∙ ap (take_frame drain_all (buf ++ more)) ended
take_frame-extended buf more (frame_ok payload remaining) e h =
    let longer : try_decode_frame (buf ++ more) max_frame_size
        ≡ frame_ok payload (remaining ++ more) =
      try_decode_frame-append buf more max_frame_size (λ i. cc (e, i))
      ∙ ap (λ r. extended r more) e in
    drain_all-take_frame (buf ++ more)
    ∙ ap (take_frame drain_all (buf ++ more)) longer
    ∙ ap (take_packet _) (h payload remaining refl)
    ∙ joined-take_packet _ (drain_all remaining) more

drain_all-append :
    (fuel : ℕ) (buf more : List ℕ)
    → length buf ≤ fuel
    → drain_all (buf ++ more) ≡ joined (drain_all buf) more
drain_all-append zero [] more le =
    take_frame-extended [] more _ refl
      (λ payload remaining e. absurd (omega (arith, frame_shorter [] payload remaining e)))
    ∙ ap (λ r. joined r more) (sym (drain_all-take_frame []))
drain_all-append zero (x ∷ xs) more le = absurd (omega arith)
drain_all-append (suc fuel) buf more le =
    take_frame-extended buf more _ refl (λ payload remaining e.
      drain_all-append fuel remaining more
        (omega (arith, le, frame_shorter buf payload remaining e)))
    ∙ ap (λ r. joined r more) (sym (drain_all-take_frame buf))

abbrev pub join : List (List ℕ) → List ℕ
join [] = []
join (chunk ∷ chunks) = chunk ++ join chunks

read_loop-closed :
    (chunks : List (List ℕ)) (cmds : List ClientCommand)
    → read_loop chunks (record { commands = cmds; buf = none })
      ≡ record { commands = cmds; buf = none }
unfolding read_loop
read_loop-closed [] cmds = refl
read_loop-closed (chunk ∷ chunks) cmds = refl

read_loop-joined :
    (chunk : List ℕ) (chunks : List (List ℕ)) (cmds : List ClientCommand) (b : Option (List ℕ))
    → read_loop (chunk ∷ chunks) (record { commands = cmds; buf = b })
      ≡ read_loop chunks (joined (record { commands = cmds; buf = b }) chunk)
unfolding read_loop joined drain_all
read_loop-joined chunk chunks cmds none = sym (read_loop-closed chunks cmds)
read_loop-joined chunk chunks cmds (some rest) = refl

read_loop-join :
    (chunks : List (List ℕ)) (buf : List ℕ)
    → read_loop chunks (drain_all buf) ≡ drain_all (buf ++ join chunks)
unfolding read_loop
read_loop-join [] buf = ap drain_all (sym (append-nil buf))
read_loop-join (chunk ∷ chunks) buf =
    read_loop-joined chunk chunks (drain_all buf).commands (drain_all buf).buf
    ∙ ap (read_loop chunks) (sym (drain_all-append (length buf) buf chunk (omega arith)))
    ∙ read_loop-join chunks (buf ++ chunk)
    ∙ ap drain_all (append_assoc buf chunk (join chunks))

-- What a session reads from all the bytes of a connection.
unfoldable pub read_bytes : List ℕ → Reading
read_bytes [] = record { commands = []; buf = none }
read_bytes (version ∷ bytes) =
    if version == protocol_version then drain_all bytes else record { commands = []; buf = none }

pub read_session-join : (chunks : List (List ℕ)) → read_session chunks ≡ read_bytes (join chunks)
unfolding read_session read_byte read_bytes after_version drain_all drain
read_session-join [] = refl
read_session-join ([] ∷ chunks) = read_session-join chunks
read_session-join ((version ∷ bytes) ∷ chunks) =
    ap
      (λ (r : Reading).
        if version == protocol_version then r else record { commands = []; buf = none })
      (read_loop-join (bytes ∷ chunks) [])

-- The commands that a session passes on, in their order, the bytes that are left in its buffer, and
-- whether it closes the connection for an error, depend on the bytes alone, however these were cut into
-- chunks on the way.
pub read_session-chunks :
    (chunks others : List (List ℕ))
    → join chunks ≡ join others
    → read_session chunks ≡ read_session others
read_session-chunks chunks others same =
    read_session-join chunks ∙ ap read_bytes same ∙ sym (read_session-join others)

take_frame-rest :
    (k : List ℕ → Reading) (buf rest : List ℕ) (r : DecodeFrameResult)
    → try_decode_frame buf max_frame_size ≡ r
    → ((payload remaining : List ℕ)
        → r ≡ frame_ok payload remaining
        → (k remaining).buf ≡ some rest
        → try_decode_frame rest max_frame_size ≡ frame_need_more)
    → (take_frame k buf r).buf ≡ some rest
    → try_decode_frame rest max_frame_size ≡ frame_need_more
unfolding take_frame take_packet command_first
take_frame-rest k buf rest frame_need_more e h left =
    let same : buf ≡ rest = cc left in
    subst (λ (b : List ℕ). try_decode_frame b max_frame_size ≡ frame_need_more) same e
take_frame-rest k buf rest (frame_error x) e h left = absurd (cc left)
take_frame-rest k buf rest (frame_ok payload remaining) e h left =
    go (decode_packet payload decode_client_command) left
  where
    go :
        (p : Result ClientCommand)
        → (take_packet p (k remaining)).buf ≡ some rest
        → try_decode_frame rest max_frame_size ≡ frame_need_more
    go (Result.ok cmd) l = h payload remaining refl l
    go (panic x) l = absurd (cc l)
    go stuck l = absurd (cc l)

-- With as much fuel as there are bytes, the inner loop goes on until an error, or until no whole frame
-- is left in the buffer: it never ends for want of fuel.
pub drain-rest :
    (fuel : ℕ) (buf rest : List ℕ)
    → length buf ≤ fuel
    → (drain fuel buf).buf ≡ some rest
    → try_decode_frame rest max_frame_size ≡ frame_need_more
unfolding drain try_decode_frame decode_frame_loop
drain-rest zero [] rest le left =
    let same : [] ≡ rest = cc left in
    subst (λ (b : List ℕ). try_decode_frame b max_frame_size ≡ frame_need_more) same refl
drain-rest zero (x ∷ buf) rest le left = absurd (omega arith)
drain-rest (suc fuel) buf rest le left =
    take_frame-rest (drain fuel) buf rest (try_decode_frame buf max_frame_size) refl
      (λ payload remaining e l.
        drain-rest fuel remaining rest (omega (arith, le, frame_shorter buf payload remaining e)) l)
      left
