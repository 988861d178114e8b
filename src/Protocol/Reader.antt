-- ===== src/Protocol/Reader.antt =====
-- BinaryReader of internal/common/protocol/binary.go. A byte is a number below 256, a Go string
-- is its bytes, and a float32 is its bit pattern.
use gooophira_mp.Prelude.{
  ℕ, zero, suc, ◌+◌, ◌-◌, ◌*◌, ◌%◌, ◌^◌, bit_and, bit_or, Bool, Option, none, some, List, [], ◌∷◌,
  ltb, leb, ◌==◌, if◌then◌else◌, length, get_elem?, take, drop,
}
use gooophira_mp.Prelude.Int.{ℤ, to_i8, to_i32, to_i64}
use gooophira_mp.Protocol.Monad.{
  M, ok, panic, stuck, ◌>>=◌, ◌>>◌, pure, fail, binary_unexpected_eof, binary_length_too_large,
  binary_string_too_long,
}

pub record BinaryReader : Type 0 where
  pub buf : List ℕ
  pub offset : ℕ

unfoldable pub new_binary_reader : List ℕ → BinaryReader
new_binary_reader buf = record { buf = buf; offset = 0 }

unfoldable pub ensure : ℕ → M BinaryReader (Unit {0})
ensure need r =
    if ltb (length r.buf) (r.offset + need) then panic binary_unexpected_eof else ok (tt, r)

-- `r.Buf[r.Offset : r.Offset+n]` and `r.Offset += n`. Out of range, Go's runtime panics, and no recover
-- of the package catches it: that is `stuck`.
unfoldable pub slice : ℕ → M BinaryReader (List ℕ)
slice n r =
    if leb (r.offset + n) (length r.buf)
    then ok (take n (drop r.offset r.buf), record r { offset = r.offset + n })
    else stuck

unfoldable pub take_bytes : ℕ → M BinaryReader (List ℕ)
take_bytes n = do ensure n; slice n

-- `r.Buf[r.Offset]` and `r.Offset++`, with the same panic.
unfoldable pub index : M BinaryReader ℕ
index r = elim (get_elem? r.buf r.offset) [
  | none ↦ stuck
  | some b ↦ ok (b, record r { offset = r.offset + 1 })
]

unfoldable pub read_u8 : M BinaryReader ℕ
read_u8 = do ensure 1; index

unfoldable pub read_i8 : M BinaryReader ℤ
read_i8 = do b ← read_u8; pure (to_i8 b)

unfoldable pub read_bool : M BinaryReader Bool
read_bool = do b ← read_u8; pure (b == 1)

-- `binary.LittleEndian`: the number that bytes stand for, lowest first.
unfoldable pub little_endian : List ℕ → ℕ
little_endian [] = 0
little_endian (b ∷ bs) = b + 256 * little_endian bs

unfoldable pub read_u16 : M BinaryReader ℕ
read_u16 = do bs ← take_bytes 2; pure (little_endian bs)

unfoldable pub read_u32 : M BinaryReader ℕ
read_u32 = do bs ← take_bytes 4; pure (little_endian bs)

unfoldable pub read_i32 : M BinaryReader ℤ
read_i32 = do u ← read_u32; pure (to_i32 u)

unfoldable pub read_u64 : M BinaryReader ℕ
read_u64 = do bs ← take_bytes 8; pure (little_endian bs)

unfoldable pub read_i64 : M BinaryReader ℤ
read_i64 = do u ← read_u64; pure (to_i64 u)

-- The pattern is kept.
unfoldable pub read_f32 : M BinaryReader ℕ
read_f32 = read_u32

-- `result |= uint64(b&0x7F) << shift`: a uint64 drops the bits from 64 on.
unfoldable pub merge_group : ℕ → ℕ → ℕ → ℕ
merge_group result b shift = bit_or result (bit_and b 0x7f * 2 ^ shift % 2 ^ 64)

-- A round takes a byte, so `length r.buf + 1` rounds are more than the input can feed.
unfoldable pub read_uleb_loop : ℕ → ℕ → ℕ → M BinaryReader ℕ
read_uleb_loop zero result shift r = stuck
read_uleb_loop (suc fuel) result shift r =
    let next = λ (b : ℕ). read_uleb_loop fuel (merge_group result b shift) (shift + 7) in
    (read_u8 >>= λ b. elim (bit_and b 0x80 == 0) [
      | Bool.true ↦ pure (merge_group result b shift)
      | Bool.false ↦ next b
    ])
      r

unfoldable pub read_uleb : M BinaryReader ℕ
read_uleb r = read_uleb_loop (length r.buf + 1) 0 0 r

abbrev pub max_int32 : ℕ
max_int32 = 2 ^ 31 - 1

unfoldable pub read_len : M BinaryReader ℕ
read_len = do v ← read_uleb; if ltb max_int32 v then fail binary_length_too_large else pure v

unfoldable pub read_string : M BinaryReader (List ℕ)
read_string = do n ← read_len; take_bytes n

unfoldable pub read_varchar : ℕ → M BinaryReader (List ℕ)
read_varchar max_len = do
  n ← read_len
  if ltb max_len n then fail binary_string_too_long else take_bytes n

-- `make([]T, n)`: Go's runtime panics, unrecovered, when the elements would take more than 2^48 bytes. An
-- element of 2^16 bytes is larger than any that is read. That the machine has the memory is
-- presupposed.
unfoldable pub make_slice : ℕ → M BinaryReader (Unit {0})
make_slice n r = if leb (n * 2 ^ 16) (2 ^ 48) then ok (tt, r) else stuck

module _ {ℓ} {A : Type ℓ} (decode : M BinaryReader A) where
  unfoldable pub read_option : M BinaryReader (Option A)
  read_option = do
    present ← read_bool
    if present then (decode >>= λ v. pure (some v)) else pure none

  -- `for i := range n { out[i] = decode(r) }`
  unfoldable pub read_items : ℕ → M BinaryReader (List A)
  read_items zero = pure []
  read_items (suc n) = do v ← decode; rest ← read_items n; pure (v ∷ rest)

  unfoldable pub read_array : M BinaryReader (List A)
  read_array = do n ← read_len; make_slice n; read_items n
