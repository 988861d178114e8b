-- ===== src/Protocol/Writer.antt =====
-- BinaryWriter of internal/common/protocol/binary.go.
use mathlib.Core.WellFounded.{Acc}
use gooophira_mp.Prelude.{
  ℕ, zero, suc, ◌/◌, ◌%◌, ◌^◌, ◌≤◌, ◌<◌, bit_and, bit_or, dite, Bool, Option, none, some, List, [],
  ◌∷◌, ◌++◌, ltb, if◌then◌else◌, length, drop, take, replicate, dec_le, arith,
}
use gooophira_mp.Prelude.Int.{ℤ, to_u8, to_u32, to_u64}
use gooophira_mp.Prelude.Order.{lt_wf}
use gooophira_mp.Protocol.Monad.{M, ok, ◌>>◌, pure, fail, binary_string_too_long}

pub record BinaryWriter : Type 0 where
  pub buf : List ℕ
  pub reserve_head : ℕ

unfoldable pub new_binary_writer : BinaryWriter
new_binary_writer = record { buf = []; reserve_head = 0 }

unfoldable pub new_frame_writer : ℕ → BinaryWriter
new_frame_writer reserve_head = record {
  buf = replicate reserve_head 0;
  reserve_head = reserve_head;
}

unfoldable pub reset : BinaryWriter → BinaryWriter
reset w = record w { buf = take w.reserve_head w.buf }

unfoldable pub to_buffer : BinaryWriter → List ℕ
to_buffer w = drop w.reserve_head w.buf

unfoldable pub write_buffer : List ℕ → M BinaryWriter (Unit {0})
write_buffer b w = ok (tt, record w { buf = w.buf ++ b })

unfoldable pub write_u8 : ℕ → M BinaryWriter (Unit {0})
write_u8 v = write_buffer (v ∷ [])

unfoldable pub write_i8 : ℤ → M BinaryWriter (Unit {0})
write_i8 v = write_u8 (to_u8 v)

unfoldable pub write_bool : Bool → M BinaryWriter (Unit {0})
write_bool v = if v then write_u8 1 else write_u8 0

-- `binary.LittleEndian`: the lowest `k` bytes of a number.
unfoldable pub le_bytes : ℕ → ℕ → List ℕ
le_bytes zero v = []
le_bytes (suc k) v = v % 256 ∷ le_bytes k (v / 256)

unfoldable pub write_u16 : ℕ → M BinaryWriter (Unit {0})
write_u16 v = write_buffer (le_bytes 2 v)

unfoldable pub write_u32 : ℕ → M BinaryWriter (Unit {0})
write_u32 v = write_buffer (le_bytes 4 v)

unfoldable pub write_i32 : ℤ → M BinaryWriter (Unit {0})
write_i32 v = write_u32 (to_u32 v)

unfoldable pub write_u64 : ℕ → M BinaryWriter (Unit {0})
write_u64 v = write_buffer (le_bytes 8 v)

unfoldable pub write_i64 : ℤ → M BinaryWriter (Unit {0})
write_i64 v = write_u64 (to_u64 v)

unfoldable pub write_f32 : ℕ → M BinaryWriter (Unit {0})
write_f32 v = write_u32 v

-- The bytes of the loop `for v >= 0x80 { byte(v&0x7F)|0x80; v >>= 7 }` and of the last `byte(v)`,
-- which binary.go and framing.go write out alike.
pub shift_shrinks : (v : ℕ) → 0x80 ≤ v → v / 128 < v
shift_shrinks v h = omega arith

unfoldable pub uleb_loop : (v : ℕ) → Acc ◌<◌ v → List ℕ
uleb_loop v (Acc.intro _ smaller) =
    dite (dec_le 0x80 v)
      (λ more.
        bit_or (bit_and v 0x7f % 256) 0x80
        ∷ uleb_loop (v / 2 ^ 7) (smaller (v / 2 ^ 7) (shift_shrinks v more)))
      (λ _. v % 256 ∷ [])

unfoldable pub uleb_bytes : ℕ → List ℕ
uleb_bytes v = uleb_loop v (lt_wf.apply v)

unfoldable pub write_uleb : ℕ → M BinaryWriter (Unit {0})
write_uleb v = write_buffer (uleb_bytes v)

unfoldable pub write_string : List ℕ → M BinaryWriter (Unit {0})
write_string s = do write_uleb (length s); write_buffer s

unfoldable pub write_varchar : ℕ → List ℕ → M BinaryWriter (Unit {0})
write_varchar max_len s =
    if ltb max_len (length s)
    then fail binary_string_too_long
    else (write_uleb (length s) >> write_buffer s)

module _ {ℓ} {A : Type ℓ} (encode : A → M BinaryWriter (Unit {0})) where
  unfoldable pub write_option : Option A → M BinaryWriter (Unit {0})
  write_option none = write_bool Bool.false
  write_option (some v) = do write_bool Bool.true; encode v

  unfoldable pub write_items : List A → M BinaryWriter (Unit {0})
  write_items [] = pure tt
  write_items (v ∷ rest) = do encode v; write_items rest

  unfoldable pub write_array : List A → M BinaryWriter (Unit {0})
  write_array arr = do write_uleb (length arr); write_items arr
