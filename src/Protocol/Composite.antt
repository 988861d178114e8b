-- ===== src/Protocol/Composite.antt =====
-- The composite calls of internal/common/protocol/binary.go: UUIDs, positions, maps, string
-- results, and whole packets.
use gooophira_mp.Prelude.{
  ℕ, zero, suc, true, false, Option, none, some, List, [], ◌∷◌, if◌then◌else◌, length,
}
use gooophira_mp.Prelude.Int.{ℤ, leb_ℤ, eqb_ℤ}
use gooophira_mp.Protocol.Monad.{
  M, Result, panic, stuck, ◌>>=◌, ◌>>◌, pure, fail, binary_invalid_uuid,
}
use gooophira_mp.Protocol.Reader.{
  BinaryReader, new_binary_reader, read_u16, read_u64, read_bool, read_len, read_string,
}
use gooophira_mp.Protocol.Writer.{
  BinaryWriter, new_binary_writer, to_buffer, write_u16, write_u64, write_bool, write_uleb,
  write_string,
}
use gooophira_mp.Protocol.Half.{f16_bits_to_f32, f32_to_f16_bits}
use gooophira_mp.Protocol.Uuid.{uuid_to_u64_pair, u64_pair_to_uuid}

unfoldable pub read_uuid : M BinaryReader (List ℕ)
read_uuid = do low ← read_u64; high ← read_u64; pure (u64_pair_to_uuid high low)

unfoldable pub write_uuid : List ℕ → M BinaryWriter (Unit {0})
write_uuid uuid = elim (uuid_to_u64_pair uuid) [
  | none ↦ fail binary_invalid_uuid
  | some (high, low) ↦ write_u64 low >> write_u64 high
]

-- Both coordinates are float32 patterns.
pub record CompactPos : Type 0 where
  pub x : ℕ
  pub y : ℕ

unfoldable pub read_compact_pos : M BinaryReader CompactPos
read_compact_pos = do
  x ← read_u16
  y ← read_u16
  pure (record { x = f16_bits_to_f32 x; y = f16_bits_to_f32 y })

unfoldable pub write_compact_pos : CompactPos → M BinaryWriter (Unit {0})
write_compact_pos p = do write_u16 (f32_to_f16_bits p.x); write_u16 (f32_to_f16_bits p.y)

-- `slices.Sort` on int32 keys.
unfoldable pub insert_key : ℤ → List ℤ → List ℤ
insert_key k [] = k ∷ []
insert_key k (j ∷ js) = if leb_ℤ k j then k ∷ j ∷ js else j ∷ insert_key k js

unfoldable pub sort : List ℤ → List ℤ
unfolding insert_key
sort [] = []
sort (k ∷ ks) = insert_key k (sort ks)

-- A Go map is a list of its entries, in some order of iteration.
module _ {ℓ} {V : Type ℓ} where
  abbrev pub keys : List (ℤ × V) → List ℤ
  keys [] = []
  keys ((k, v) ∷ m) = k ∷ keys m

  unfoldable pub lookup : ℤ → List (ℤ × V) → Option V
  lookup k [] = none
  lookup k ((j, v) ∷ m) = if eqb_ℤ j k then some v else lookup k m

  -- `out[k] = v`
  unfoldable pub insert : ℤ → V → List (ℤ × V) → List (ℤ × V)
  insert k v [] = (k, v) ∷ []
  insert k v ((j, w) ∷ m) = if eqb_ℤ j k then (k, v) ∷ m else (j, w) ∷ insert k v m

module _ {ℓ} {V : Type ℓ} (decode_k : M BinaryReader ℤ) (decode_v : M BinaryReader V) where
  unfoldable pub read_entries : ℕ → List (ℤ × V) → M BinaryReader (List (ℤ × V))
  read_entries zero out = pure out
  read_entries (suc n) out = do k ← decode_k; v ← decode_v; read_entries n (insert k v out)

  unfoldable pub read_map : M BinaryReader (List (ℤ × V))
  read_map = do n ← read_len; read_entries n []

module _ {ℓ} {V : Type ℓ} (encode_k : ℤ → M BinaryWriter (Unit {0}))
    (encode_v : V → M BinaryWriter (Unit {0})) where
  -- `encodeV(w, m[k])`, where `k` comes from `m`.
  unfoldable pub write_value : Option V → M BinaryWriter (Unit {0})
  write_value none = pure tt
  write_value (some v) = encode_v v

  unfoldable pub write_entries : List (ℤ × V) → List ℤ → M BinaryWriter (Unit {0})
  write_entries m [] = pure tt
  write_entries m (k ∷ ks) = do encode_k k; write_value (lookup k m); write_entries m ks

  unfoldable pub write_sorted_map : List (ℤ × V) → M BinaryWriter (Unit {0})
  write_sorted_map m = do write_uleb (length (sort (keys m))); write_entries m (sort (keys m))

-- Rust's Result with a string for its error.
pub data StringResult {ℓ} (A : Type ℓ) : Type ℓ where
  ok : A → StringResult A
  errr : List ℕ → StringResult A

module _ {ℓ} {A : Type ℓ} where
  unfoldable pub encode_string_result :
      (A → M BinaryWriter (Unit {0})) → StringResult A → M BinaryWriter (Unit {0})
  encode_string_result encode_ok (StringResult.ok v) = do write_bool true; encode_ok v
  encode_string_result encode_ok (errr e) = do write_bool false; write_string e

  unfoldable pub decode_string_result : M BinaryReader A → M BinaryReader (StringResult A)
  decode_string_result decode_ok = do
    success ← read_bool
    if success
        then (decode_ok >>= λ v. pure (StringResult.ok v))
        else (read_string >>= λ e. pure (errr e))

  -- A ProtocolError's panic is recovered as an error.
  unfoldable pub decode_packet : List ℕ → M BinaryReader A → Result A
  decode_packet input decode = elim (decode (new_binary_reader input)) [
    | Result.ok (a, r) ↦ Result.ok a
    | panic e ↦ panic e
    | stuck ↦ stuck
  ]

  unfoldable pub encode_packet : A → (A → M BinaryWriter (Unit {0})) → Result (List ℕ)
  encode_packet value encode = elim (encode value new_binary_writer) [
    | Result.ok (_, w) ↦ Result.ok (to_buffer w)
    | panic e ↦ panic e
    | stuck ↦ stuck
  ]
