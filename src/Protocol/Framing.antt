-- ===== src/Protocol/Framing.antt =====
-- internal/common/protocol/framing.go, and `ToFrameBuffer` of binary.go: frames with a LEB128
-- length prefix. A Go `int` that is a length is a number here; the one test `length < 0` of
-- EncodeLengthPrefixU32 is on an integer.
pub mod Prefix
pub mod Decoding
pub mod Streams
use gooophira_mp.Prelude.{
  ℕ, zero, suc, ◌+◌, ◌-◌, ◌*◌, ◌/◌, ◌%◌, ◌^◌, ◌≤◌, ◌<◌, bit_and, bit_or, Bool, true, false, not,
  Option, none, some, List, [], ◌∷◌, ◌++◌, ltb, leb, ◌==◌, if◌then◌else◌, length, take, drop,
  replicate, arith,
}
use gooophira_mp.Prelude.Int.{ℤ, pos, negsuc}
use gooophira_mp.Protocol.Monad.{Result, ok, panic, frame_reserve_head_too_small}
use gooophira_mp.Protocol.Writer.{BinaryWriter, uleb_bytes}

abbrev pub default_max_payload_bytes : ℕ
default_max_payload_bytes = 2 * 1024 * 1024

pub data FrameError : Type 0 where
  frame_invalid_length frame_payload_too_large frame_invalid_length_prefix : FrameError

pub data PrefixResult : Type 0 where
  prefix : List ℕ → PrefixResult
  rejected : FrameError → PrefixResult

-- `uint32(length)` wraps.
unfoldable pub encode_length_prefix_u32 : ℤ → PrefixResult
encode_length_prefix_u32 (negsuc n) = rejected frame_invalid_length
encode_length_prefix_u32 (pos n) = prefix (uleb_bytes (n % 2 ^ 32))

-- `prefixLen := 1; for v := x >> 7; v != 0; v >>= 7 { prefixLen++ }`. Five rounds empty a uint32.
unfoldable pub count_groups : ℕ → ℕ → ℕ
count_groups zero v = 0
count_groups (suc fuel) v =
    let more = count_groups fuel (v / 2 ^ 7) in if v == 0 then 0 else more + 1

unfoldable pub prefix_length : ℕ → ℕ
prefix_length x = 1 + count_groups 5 (x / 2 ^ 7)

-- `copy(out[i:], bs)`, up to the end of `out`.
unfoldable pub overwrite : List ℕ → ℕ → List ℕ → List ℕ
overwrite out i bs = take (length out) (take i out ++ (bs ++ drop (i + length bs) out))

-- The prefix is written into a buffer of `prefixLen + len(body)` zeros, and the body behind it.
unfoldable pub frame_with_length_prefix : List ℕ → List ℕ
frame_with_length_prefix body =
    let x = length body % 2 ^ 32 in
    let out = overwrite (replicate (prefix_length x + length body) 0) 0 (uleb_bytes x) in
    overwrite out (length (uleb_bytes x)) body

-- The prefix is filled in before the body, in the head that the writer kept free.
unfoldable pub to_frame_buffer : BinaryWriter → Result (List ℕ)
to_frame_buffer w =
    let x = (length w.buf - w.reserve_head) % 2 ^ 32 in
    let start = w.reserve_head - prefix_length x in
    if ltb w.reserve_head (prefix_length x)
    then panic frame_reserve_head_too_small
    else ok (drop start (overwrite w.buf start (uleb_bytes x)))

pub data DecodeFrameResult : Type 0 where
  frame_need_more : DecodeFrameResult
  frame_ok : List ℕ → List ℕ → DecodeFrameResult
  frame_error : FrameError → DecodeFrameResult

-- With the prefix read, `rest` is the buffer from `offset` on.
unfoldable pub finish_frame : ℕ → ℕ → List ℕ → DecodeFrameResult
finish_frame max_payload_bytes len rest =
    if ltb max_payload_bytes len
    then frame_error frame_payload_too_large
    else if ltb (length rest) len
    then frame_need_more
    else frame_ok (take len rest) (drop len rest)

-- `shift` is at most 28 where a byte is merged, so the 64-bit `int` holds every sum.
unfoldable pub decode_frame_loop : ℕ → ℕ → ℕ → List ℕ → DecodeFrameResult
decode_frame_loop max_payload_bytes len shift [] = frame_need_more
decode_frame_loop max_payload_bytes len shift (b ∷ rest) =
    let len' = bit_or len (bit_and b 0x7f * 2 ^ shift) in
    let more = decode_frame_loop max_payload_bytes len' (shift + 7) rest in
    if bit_and b 0x80 == 0
    then finish_frame max_payload_bytes len' rest
    else if leb 35 (shift + 7)
    then frame_error frame_invalid_length_prefix
    else more

-- A limit of 0 or less is the default.
unfoldable pub effective_limit : ℤ → ℕ
effective_limit (pos zero) = default_max_payload_bytes
effective_limit (pos (suc n)) = suc n
effective_limit (negsuc n) = default_max_payload_bytes

unfoldable pub try_decode_frame : List ℕ → ℤ → DecodeFrameResult
try_decode_frame buf max_payload_bytes =
    decode_frame_loop (effective_limit max_payload_bytes) 0 0 buf
