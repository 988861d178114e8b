-- ===== src/Replay/RoundTrip.antt =====
-- A replay file that was written is read back.
use gooophira_mp.Prelude.{
  ℕ, ◌≡◌, refl, ap, subst, ◌∙◌, true, some, List, [], ◌++◌, arith, append-nil,
}
use gooophira_mp.Prelude.Int.{IsI32, IsI64, to_i32, to_u32, to_i32-IsI32, to_u32-to_i32}
use gooophira_mp.Protocol.Monad.{M, ok, pure, ◌>>=◌}
use gooophira_mp.Protocol.Reader.{BinaryReader, new_binary_reader, read_array}
use gooophira_mp.Protocol.Writer.{new_binary_writer, to_buffer, le_bytes}
use gooophira_mp.Protocol.Composite.{decode_packet}
use gooophira_mp.Protocol.Commands.{TouchFrame, JudgeEvent}
use gooophira_mp.Protocol.Commands.Decode.{decode_touch_frame}
use gooophira_mp.Protocol.Commands.Valid.{AreFew, IsTouchFrame, IsJudgeEvent}
use gooophira_mp.Protocol.Commands.RoundTrip.{few, touch_frames}
use gooophira_mp.Protocol.Wire.{Codec, Writes, Reads, Writes-seq, Reads-seq, seq, last}
use gooophira_mp.Protocol.Wire.Primitives.{u8, i32, i64, f32, string, IsText}
use gooophira_mp.Replay.Format.{
  Compression, build_header, is_prefix, is_phira_record_v2, compression_of, compression_deflate,
  decode_payload, encode_replay_judge_event, decode_replay_judge_event, ReplayHeader, read_header,
  header_of_content, read_replay_header, write_header, write_body, write_content, buffer_of,
  build_content, record_file,
}

-- What the format relies on: Deflate does not fail on bytes in memory, and is undone.
pub record IsCompression (c : Compression) : Type 0 where
  pub packed : List ℕ → List ℕ
  pub deflates : (bs : List ℕ) → c.deflate bs ≡ some (packed bs)
  pub inflates : (bs : List ℕ) → c.inflate (packed bs) ≡ some bs

abbrev pub IsHeader : ReplayHeader → Type 0
IsHeader h =
    IsI32 h.record_id
    × IsI64 h.timestamp
    × IsI32 h.chart_id
    × IsText h.chart_name
    × IsI32 h.user_id
    × IsText h.user_name

-- A judge whose line and note went through a signed number.
abbrev passed : JudgeEvent → JudgeEvent
passed v = record {
  time = v.time;
  line_id = to_u32 (to_i32 v.line_id);
  note_id = to_u32 (to_i32 v.note_id);
  judgement = v.judgement;
}

passed-same : (v : JudgeEvent) → IsJudgeEvent v → passed v ≡ v
passed-same v h =
    ap
      (λ (n : ℕ). record {
        time = v.time;
        line_id = n;
        note_id = to_u32 (to_i32 v.note_id);
        judgement = v.judgement;
      })
      (to_u32-to_i32 v.line_id h.1)
    ∙ ap
        (λ (n : ℕ). record {
          time = v.time;
          line_id = v.line_id;
          note_id = n;
          judgement = v.judgement;
        })
        (to_u32-to_i32 v.note_id h.2)

judge_event :
    (v : JudgeEvent)
    → IsJudgeEvent v
    → Codec (encode_replay_judge_event v) decode_replay_judge_event v
unfolding encode_replay_judge_event decode_replay_judge_event
judge_event v h =
    let there : Codec (encode_replay_judge_event v) decode_replay_judge_event (passed v) =
      seq _ (f32 v.time h.0) (
        seq _ (i32 (to_i32 v.line_id) (to_i32-IsI32 v.line_id h.1)) (
          seq _ (i32 (to_i32 v.note_id) (to_i32-IsI32 v.note_id h.2)) (
            last
              (λ judgement. record {
                time = v.time;
                line_id = to_u32 (to_i32 v.line_id);
                note_id = to_u32 (to_i32 v.note_id);
                judgement = judgement;
              })
              (u8 v.judgement h.3)))) in
    subst (Codec (encode_replay_judge_event v) decode_replay_judge_event) (passed-same v h) there

header : (h : ReplayHeader) → IsHeader h → Codec (write_header h) read_header h
unfolding write_header read_header
header h fit = seq _ (i32 h.record_id fit.0) (
    seq _ (i64 h.timestamp fit.1) (
      seq _ (i32 h.chart_id fit.2) (
        seq _ (string h.chart_name fit.3) (
          seq _ (i32 h.user_id fit.4) (
            last
              (λ user_name. record {
                record_id = h.record_id;
                timestamp = h.timestamp;
                chart_id = h.chart_id;
                chart_name = h.chart_name;
                user_id = h.user_id;
                user_name = user_name;
              })
              (string h.user_name fit.5))))))

-- A reader of a whole content.
abbrev pub Replay : Type 0
Replay = ReplayHeader × List TouchFrame × List JudgeEvent

unfoldable pub read_body : ReplayHeader → M BinaryReader Replay
read_body h = do
  touches ← read_array decode_touch_frame
  judges ← read_array decode_replay_judge_event
  pure (h, touches, judges)

unfoldable pub read_content : M BinaryReader Replay
read_content = do h ← read_header; read_body h

body :
    (h : ReplayHeader) (touches : List TouchFrame) (judges : List JudgeEvent)
    → AreFew IsTouchFrame touches
    → AreFew IsJudgeEvent judges
    → Codec (write_body touches judges) (read_body h) (h, touches, judges)
unfolding write_body read_body
body h touches judges some_touches some_judges =
    seq _ (touch_frames touches some_touches)
      (last (λ js. (h, touches, js)) (few _ _ judge_event judges some_judges))

-- The content, and what its reader makes of it.
record IsContent (h : ReplayHeader) (touches : List TouchFrame) (judges : List JudgeEvent)
    (bytes : List ℕ) : Type 0 where
  built : build_content h touches judges ≡ some bytes
  whole : decode_packet bytes read_content ≡ ok (h, touches, judges)
  front : decode_packet bytes read_header ≡ ok h

decode_packet-Reads :
    {A : Type 0} (d : M BinaryReader A) (bytes post : List ℕ) (a : A)
    → Reads d bytes a
    → decode_packet (bytes ++ post) d ≡ ok a
unfolding decode_packet new_binary_reader
decode_packet-Reads d bytes post a r = rw (r [] post, decode_packet) refl

built-IsContent :
    (h : ReplayHeader) (touches : List TouchFrame) (judges : List JudgeEvent)
    → IsHeader h
    → AreFew IsTouchFrame touches
    → AreFew IsJudgeEvent judges
    → (bytes : List ℕ) × IsContent h touches judges bytes
unfolding build_content buffer_of decode_packet new_binary_reader new_binary_writer to_buffer
    write_content read_content
built-IsContent h touches judges fit some_touches some_judges =
    let front = header h fit in
    let rest = body h touches judges some_touches some_judges in
    let all_bytes = front.bytes ++ rest.bytes in
    let written : Writes (write_content h touches judges) all_bytes =
      Writes-seq front.bytes rest.bytes front.writes rest.writes in
    let reads : Reads read_content all_bytes (h, touches, judges) =
      Reads-seq read_header read_body front.bytes rest.bytes h front.reads rest.reads in
    (
      all_bytes,
      record {
        built = ap buffer_of (written new_binary_writer);
        whole =
            rw (← append-nil all_bytes)
              (decode_packet-Reads read_content all_bytes [] (h, touches, judges) reads);
        front = decode_packet-Reads read_header front.bytes rest.bytes h front.reads;
      },
    )

-- What a file must give back.
pub record IsFile (c : Compression) (h : ReplayHeader) (touches : List TouchFrame)
    (judges : List JudgeEvent) (file : List ℕ) : Type 0 where
  pub header_read : read_replay_header c file ≡ some h
  pub content_bytes : List ℕ
  pub payload_read : decode_payload c file ≡ some content_bytes
  pub content_read : decode_packet content_bytes read_content ≡ ok (h, touches, judges)

framed-is_phira_record_v2 :
    (payload : List ℕ) → is_phira_record_v2 (build_header compression_deflate ++ payload) ≡ true
unfolding is_phira_record_v2 build_header is_prefix le_bytes
framed-is_phira_record_v2 payload = ground arith

framed-decode_payload :
    (c : Compression) (payload : List ℕ)
    → decode_payload c (build_header compression_deflate ++ payload) ≡ c.inflate payload
unfolding decode_payload build_header le_bytes compression_of
framed-decode_payload c payload = refl

-- A recording that fits the format is written to a file, and that is read back: its header by
-- `ReadReplayHeader`, and the whole content from the payload.
pub record_file-IsFile :
    (c : Compression) (h : ReplayHeader) (touches : List TouchFrame) (judges : List JudgeEvent)
    → IsCompression c
    → IsHeader h
    → AreFew IsTouchFrame touches
    → AreFew IsJudgeEvent judges
    → (file : List ℕ) × (record_file c h touches judges ≡ some file)
      × IsFile c h touches judges file
unfolding record_file read_replay_header header_of_content
record_file-IsFile c h touches judges undone fit some_touches some_judges =
    let (bytes, known) = built-IsContent h touches judges fit some_touches some_judges in
    let payload = undone.packed bytes in
    let file = build_header compression_deflate ++ payload in
    let read : decode_payload c file ≡ some bytes =
      framed-decode_payload c payload ∙ undone.inflates bytes in
    (
      file,
      rw (known.built, record_file) (rw (undone.deflates bytes, record_file) refl),
      record {
        header_read =
            rw (framed-is_phira_record_v2 payload, read_replay_header)
              (rw (read, read_replay_header) (rw (known.front, header_of_content) refl));
        content_bytes = bytes;
        payload_read = read;
        content_read = known.whole;
      },
    )
