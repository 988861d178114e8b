-- ===== src/Protocol/Wire/Primitives.antt =====
-- Each primitive write of binary.go with the read that undoes it.
use native.Mathlib.Nat.{pow-suc}
use gooophira_mp.Prelude.{
  ℕ, zero, suc, ◌/◌, ◌^◌, ◌≤◌, ◌<◌, ◌≡◌, refl, ap, Bool, true, false, none, some, List, [], ◌∷◌,
  length, All, arith, ltb, leb, ◌*◌, ◌==◌,
}
use gooophira_mp.Prelude.Int.{
  ℤ, IsI8, IsI32, IsI64, to_u64, to_i64, to_i64-to_u64, to_u64-lt, to_u8, to_u32, to_i8, to_i32,
  to_i8-to_u8, to_i32-to_u32, to_u8-lt, to_u32-lt,
}
use gooophira_mp.Protocol.Monad.{M, pure, ◌>>=◌, ◌>>◌}
use gooophira_mp.Protocol.Reader.{
  BinaryReader, take_bytes, read_u8, read_i8, read_bool, little_endian, read_u16, read_u32,
  read_i32, read_u64, read_i64, read_f32, read_uleb, read_len, read_string, read_varchar,
  read_option, read_items, make_slice, read_array, max_int32,
}
use gooophira_mp.Protocol.Writer.{
  BinaryWriter, write_buffer, write_u8, write_i8, write_bool, le_bytes, write_u16, write_u32,
  write_i32, write_u64, write_i64, write_f32, write_uleb, write_string, write_varchar, write_option,
  write_items, write_array,
}
use gooophira_mp.Protocol.Wire.{IsByte, Reads, Codec, seq, last, done}
use gooophira_mp.Protocol.Wire.Bytes.{read_u8-Reads, take_bytes-Reads}
use gooophira_mp.Protocol.Wire.Uleb.{
  groups, groups-IsByte, read_uleb-Reads, uleb_bytes-groups, IsU64,
}

pub u8 : (v : ℕ) → IsByte v → Codec (write_u8 v) read_u8 v
unfolding write_u8 write_buffer
u8 v h = record { bytes = v ∷ []; are_bytes = (h, tt); writes = λ w. refl; reads = read_u8-Reads v }

pub i8 : (v : ℤ) → IsI8 v → Codec (write_i8 v) read_i8 v
unfolding write_i8 read_i8
i8 v h = rw (to_i8-to_u8 v h) at (last to_i8 (u8 (to_u8 v) (to_u8-lt v)))

pub bool : (v : Bool) → Codec (write_bool v) read_bool v
unfolding write_bool read_bool
bool true = last (λ b. b == 1) (u8 1 (omega arith))
bool false = last (λ b. b == 1) (u8 0 (omega arith))

le_bytes-IsByte : (k v : ℕ) → All IsByte (le_bytes k v)
unfolding le_bytes
le_bytes-IsByte zero v = tt
le_bytes-IsByte (suc k) v = (omega arith, le_bytes-IsByte k (v / 256))

length-le_bytes : (k v : ℕ) → length (le_bytes k v) ≡ k
unfolding le_bytes
length-le_bytes zero v = refl
length-le_bytes (suc k) v = ap suc (length-le_bytes k (v / 256))

little_endian-le_bytes : (k v : ℕ) → v < 256 ^ k → little_endian (le_bytes k v) ≡ v
unfolding little_endian le_bytes
little_endian-le_bytes zero v h = omega arith
little_endian-le_bytes (suc k) v h =
    omega (arith, pow-suc 256 k, little_endian-le_bytes k (v / 256) (omega (arith, pow-suc 256 k)))

-- A number of `k` bytes.
fixed :
    (k v : ℕ)
    → v < 256 ^ k
    → Codec (write_buffer (le_bytes k v)) (take_bytes k >>= λ bs. pure (little_endian bs)) v
unfolding write_buffer
fixed k v h = record {
  bytes = le_bytes k v;
  are_bytes = le_bytes-IsByte k v;
  writes = λ w. refl;
  reads = λ pre post. rw (taken pre post, ◌>>=◌, little_endian-le_bytes k v h) refl;
}
  where
    taken : Reads (take_bytes k) (le_bytes k v) (le_bytes k v)
    taken pre post = rw (length-le_bytes k v) at (take_bytes-Reads (le_bytes k v) pre post)

pub u16 : (v : ℕ) → v < 2 ^ 16 → Codec (write_u16 v) read_u16 v
unfolding write_u16 read_u16
u16 v h = fixed 2 v h

pub u32 : (v : ℕ) → v < 2 ^ 32 → Codec (write_u32 v) read_u32 v
unfolding write_u32 read_u32
u32 v h = fixed 4 v h

pub i32 : (v : ℤ) → IsI32 v → Codec (write_i32 v) read_i32 v
unfolding write_i32 read_i32
i32 v h = rw (to_i32-to_u32 v h) at (last to_i32 (u32 (to_u32 v) (to_u32-lt v)))

pub u64 : (v : ℕ) → v < 2 ^ 64 → Codec (write_u64 v) read_u64 v
unfolding write_u64 read_u64
u64 v h = fixed 8 v h

pub i64 : (v : ℤ) → IsI64 v → Codec (write_i64 v) read_i64 v
unfolding write_i64 read_i64
i64 v h = rw (to_i64-to_u64 v h) at (last to_i64 (u64 (to_u64 v) (to_u64-lt v)))

pub f32 : (v : ℕ) → v < 2 ^ 32 → Codec (write_f32 v) read_f32 v
unfolding write_f32 read_f32
f32 v h = u32 v h

pub uleb : (v : ℕ) → IsU64 v → Codec (write_uleb v) read_uleb v
unfolding write_uleb write_buffer
uleb v h = record {
  bytes = groups 9 v;
  are_bytes = groups-IsByte 9 v (omega arith);
  writes = λ w. rw (uleb_bytes-groups v h) refl;
  reads = read_uleb-Reads v h;
}

-- What is read decides the result without reading on: a test that is passed, a tag alone.
pub checked {ℓ κ} :
    {A : Type ℓ} {B : Type κ} {e : M BinaryWriter (Unit {0})} {d : M BinaryReader A} {a : A} {b : B}
    (f : A → M BinaryReader B)
    → Codec e d a
    → f a ≡ pure b
    → Codec e (d >>= f) b
checked f c p = record {
  bytes = c.bytes;
  are_bytes = c.are_bytes;
  writes = c.writes;
  reads = λ pre post. rw (c.reads pre post, ◌>>=◌, p) refl;
}

pub len : (n : ℕ) → n ≤ max_int32 → Codec (write_uleb n) read_len n
unfolding read_len
len n h = checked _ (uleb n (omega arith)) (ground arith)

body : (s : List ℕ) → All IsByte s → Codec (write_buffer s) (take_bytes (length s)) s
unfolding write_buffer
body s h = record { bytes = s; are_bytes = h; writes = λ w. refl; reads = take_bytes-Reads s }

-- What a length prefix can announce.
abbrev pub IsText : List ℕ → Type 0
IsText s = All IsByte s × (length s ≤ max_int32)

pub string : (s : List ℕ) → IsText s → Codec (write_string s) read_string s
unfolding write_string read_string
string s h = seq _ (len (length s) h.1) (body s h.0)

pub varchar :
    (max_len : ℕ) (s : List ℕ)
    → max_len ≤ max_int32
    → All IsByte s
    → length s ≤ max_len
    → Codec (write_varchar max_len s) (read_varchar max_len) s
unfolding write_varchar read_varchar
varchar max_len s small h fits =
    rw (fits_test, ◌>>◌) (seq _ (len (length s) (omega arith)) (rw fits_test (body s h)))
  where
    fits_test : ltb max_len (length s) ≡ false
    fits_test = ground arith

-- Behind a length that was read, Go's `make` passes.
made {ℓ} :
    {B : Type ℓ} {e : M BinaryWriter (Unit {0})} {d : M BinaryReader B} {b : B} (n : ℕ)
    → n ≤ max_int32
    → Codec e d b
    → Codec e (make_slice n >> d) b
unfolding make_slice
made n small c =
    let fits : leb (n * 2 ^ 16) (2 ^ 48) ≡ true = ground arith in
    record {
      bytes = c.bytes;
      are_bytes = c.are_bytes;
      writes = c.writes;
      reads = λ pre post. rw (fits, ◌>>=◌) (c.reads pre post);
    }

module _ {ℓ} {A : Type ℓ} (e : A → M BinaryWriter (Unit {0})) (d : M BinaryReader A) where
  pub option_some :
      (a : A) → Codec (e a) d a → Codec (write_option e (some a)) (read_option d) (some a)
  unfolding write_option read_option
  option_some a c = seq _ (bool true) (last some c)

  pub option_none : Codec (write_option e none) (read_option d) none
  unfolding write_option read_option
  option_none = checked _ (bool false) refl

  pub items :
      (xs : List A)
      → All (λ x. Codec (e x) d x) xs
      → Codec (write_items e xs) (read_items d (length xs)) xs
  unfolding write_items read_items
  items [] h = done []
  items (x ∷ xs) (hx, hxs) = seq _ hx (last (◌∷◌ x) (items xs hxs))

  pub array :
      (xs : List A)
      → All (λ x. Codec (e x) d x) xs
      → length xs ≤ max_int32
      → Codec (write_array e xs) (read_array d) xs
  unfolding write_array read_array
  array xs h fits = seq _ (len (length xs) fits) (made (length xs) fits (items xs h))
