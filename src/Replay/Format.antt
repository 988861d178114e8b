-- ===== src/Replay/Format.antt =====
-- format.go of internal/core/replay, `ReadReplayHeader` of reader.go, and the content that
-- `buildContent` of recorder.go makes of a recording. A file is its bytes.
use gooophira_mp.Prelude.{
  ℕ, Bool, true, false, ◌&&◌, not, Option, none, some, List, [], ◌∷◌, ◌++◌, ltb, ◌==◌,
  if◌then◌else◌, length, drop,
}
use gooophira_mp.Prelude.Int.{ℤ, to_i32, to_u32}
use gooophira_mp.Protocol.Monad.{M, Result, panic, stuck, pure, ◌>>=◌, ◌>>◌}
use gooophira_mp.Protocol.Reader.{BinaryReader, read_f32, read_i32, read_i64, read_u8, read_string}
use gooophira_mp.Protocol.Writer.{
  BinaryWriter, new_binary_writer, to_buffer, le_bytes, write_f32, write_i32, write_i64, write_u8,
  write_string, write_array,
}
use gooophira_mp.Protocol.Composite.{decode_packet}
use gooophira_mp.Protocol.Commands.{TouchFrame, JudgeEvent}
use gooophira_mp.Protocol.Commands.Encode.{encode_touch_frame}

-- `compress/flate`, and the decoder of Zstandard; `none` is an error.
pub record Compression : Type 0 where
  pub deflate : List ℕ → Option (List ℕ)
  pub inflate : List ℕ → Option (List ℕ)
  pub decode_zstd : List ℕ → Option (List ℕ)

abbrev pub phira_record_magic : List ℕ
phira_record_magic = b'P' ∷ b'H' ∷ b'I' ∷ b'R' ∷ b'A' ∷ b'R' ∷ b'E' ∷ b'C' ∷ []

abbrev pub phira_record_version : ℕ
phira_record_version = 1

abbrev pub phira_record_header_size : ℕ
phira_record_header_size = 13

abbrev pub compression_none : ℕ
compression_none = 0

abbrev pub compression_zstd : ℕ
compression_zstd = 1

abbrev pub compression_deflate : ℕ
compression_deflate = 2

unfoldable pub build_header : ℕ → List ℕ
build_header compression =
    phira_record_magic ++ (le_bytes 4 phira_record_version ++ compression ∷ [])

unfoldable pub is_prefix : List ℕ → List ℕ → Bool
is_prefix [] bytes = true
is_prefix (a ∷ rest) [] = false
is_prefix (a ∷ rest) (b ∷ bytes) = (a == b) && is_prefix rest bytes

unfoldable pub is_phira_record_v2 : List ℕ → Bool
is_phira_record_v2 buf =
    not (ltb (length buf) phira_record_header_size) && is_prefix phira_record_magic buf

-- `buf[12]`, for a buffer that has it.
unfoldable pub compression_of : List ℕ → ℕ
compression_of [] = 0
compression_of (b ∷ rest) = b

unfoldable pub decode_payload : Compression → List ℕ → Option (List ℕ)
decode_payload c buf =
    let compression = compression_of (drop 12 buf) in
    let payload = drop phira_record_header_size buf in
    if compression == compression_none
    then some payload
    else if compression == compression_deflate
    then c.inflate payload
    else if compression == compression_zstd
    then c.decode_zstd payload
    else none

-- `int32` of an unsigned number that is kept as a pattern.
unfoldable pub encode_replay_judge_event : JudgeEvent → M BinaryWriter (Unit {0})
encode_replay_judge_event v = do
  write_f32 v.time
  write_i32 (to_i32 v.line_id)
  write_i32 (to_i32 v.note_id)
  write_u8 v.judgement

unfoldable pub decode_replay_judge_event : M BinaryReader JudgeEvent
decode_replay_judge_event = do
  time ← read_f32
  line_id ← read_i32
  note_id ← read_i32
  judgement ← read_u8
  pure (record {
    time = time;
    line_id = to_u32 line_id;
    note_id = to_u32 note_id;
    judgement = judgement;
  })

pub record ReplayHeader : Type 0 where
  pub record_id : ℤ
  pub timestamp : ℤ
  pub chart_id : ℤ
  pub chart_name : List ℕ
  pub user_id : ℤ
  pub user_name : List ℕ

unfoldable pub read_header : M BinaryReader ReplayHeader
read_header = do
  record_id ← read_i32
  timestamp ← read_i64
  chart_id ← read_i32
  chart_name ← read_string
  user_id ← read_i32
  user_name ← read_string
  pure (record {
    record_id = record_id;
    timestamp = timestamp;
    chart_id = chart_id;
    chart_name = chart_name;
    user_id = user_id;
    user_name = user_name;
  })

-- `ReadReplayHeader` of a file with these bytes.
unfoldable pub header_of_content : Result ReplayHeader → Option ReplayHeader
header_of_content (Result.ok h) = some h
header_of_content (panic e) = none
header_of_content stuck = none

unfoldable pub read_replay_header : Compression → List ℕ → Option ReplayHeader
read_replay_header c raw =
    if not (is_phira_record_v2 raw) then none else elim (decode_payload c raw) [
      | none ↦ none
      | some content ↦ header_of_content (decode_packet content read_header)
    ]

-- What is written of a recording: its header, its touches and its judges.
unfoldable pub write_header : ReplayHeader → M BinaryWriter (Unit {0})
write_header h = do
  write_i32 h.record_id
  write_i64 h.timestamp
  write_i32 h.chart_id
  write_string h.chart_name
  write_i32 h.user_id
  write_string h.user_name

unfoldable pub write_body : List TouchFrame → List JudgeEvent → M BinaryWriter (Unit {0})
write_body touches judges = do
  write_array encode_touch_frame touches
  write_array encode_replay_judge_event judges

unfoldable pub write_content :
    ReplayHeader → List TouchFrame → List JudgeEvent → M BinaryWriter (Unit {0})
write_content h touches judges = do write_header h; write_body touches judges

-- An error of the writer gives no content.
unfoldable pub buffer_of : Result (Unit {0} × BinaryWriter) → Option (List ℕ)
buffer_of (Result.ok (u, w)) = some (to_buffer w)
buffer_of (panic e) = none
buffer_of stuck = none

unfoldable pub build_content : ReplayHeader → List TouchFrame → List JudgeEvent → Option (List ℕ)
build_content h touches judges = buffer_of (write_content h touches judges new_binary_writer)

-- The bytes that `writeRecordFile` writes.
unfoldable pub record_file :
    Compression → ReplayHeader → List TouchFrame → List JudgeEvent → Option (List ℕ)
record_file c h touches judges = elim (build_content h touches judges) [
  | none ↦ none
  | some content ↦ elim (c.deflate content) [
    | none ↦ none
    | some payload ↦ some (build_header compression_deflate ++ payload)
  ]
]
