-- ===== src/Prelude/Int.antt =====
-- Go's signed integers, over the native numbers, and the conversions from and to bit patterns.
use gooophira_mp.Prelude.{
  ℕ, ◌-◌, ◌%◌, ◌^◌, ◌<◌, ◌≡◌, refl, Bool, true, false, arith, ltb, leb, if◌then◌else◌,
}

-- `negsuc n` is -(n + 1).
pub data ℤ : Type 0 where
  pos : ℕ → ℤ
  negsuc : ℕ → ℤ

abbrev pub leb_ℤ : ℤ → ℤ → Bool
leb_ℤ (pos a) (pos b) = leb a b
leb_ℤ (pos a) (negsuc b) = false
leb_ℤ (negsuc a) (pos b) = true
leb_ℤ (negsuc a) (negsuc b) = leb b a

abbrev pub eqb_ℤ : ℤ → ℤ → Bool
eqb_ℤ a b = if leb_ℤ a b then leb_ℤ b a else false

-- `uint8(v)` and `int8(u)`.
abbrev pub to_u8 : ℤ → ℕ
to_u8 (pos n) = n % 2 ^ 8
to_u8 (negsuc n) = 2 ^ 8 - 1 - n % 2 ^ 8

abbrev pub to_i8 : ℕ → ℤ
to_i8 u = if ltb u (2 ^ 7) then pos u else negsuc (2 ^ 8 - u - 1)

-- `uint32(v)` and `int32(u)`.
abbrev pub to_u32 : ℤ → ℕ
to_u32 (pos n) = n % 2 ^ 32
to_u32 (negsuc n) = 2 ^ 32 - 1 - n % 2 ^ 32

abbrev pub to_i32 : ℕ → ℤ
to_i32 u = if ltb u (2 ^ 31) then pos u else negsuc (2 ^ 32 - u - 1)

-- `uint64(v)` and `int64(u)`.
abbrev pub to_u64 : ℤ → ℕ
to_u64 (pos n) = n % 2 ^ 64
to_u64 (negsuc n) = 2 ^ 64 - 1 - n % 2 ^ 64

abbrev pub to_i64 : ℕ → ℤ
to_i64 u = if ltb u (2 ^ 63) then pos u else negsuc (2 ^ 64 - u - 1)

abbrev pub IsI64 : ℤ → Type 0
IsI64 (pos n) = n < 2 ^ 63
IsI64 (negsuc n) = n < 2 ^ 63

abbrev pub IsI8 : ℤ → Type 0
IsI8 (pos n) = n < 2 ^ 7
IsI8 (negsuc n) = n < 2 ^ 7

abbrev pub IsI32 : ℤ → Type 0
IsI32 (pos n) = n < 2 ^ 31
IsI32 (negsuc n) = n < 2 ^ 31

pub to_i8-to_u8 : (v : ℤ) → IsI8 v → to_i8 (to_u8 v) ≡ v
to_i8-to_u8 (pos n) h = ground arith
to_i8-to_u8 (negsuc n) h = ground arith

pub to_i32-to_u32 : (v : ℤ) → IsI32 v → to_i32 (to_u32 v) ≡ v
to_i32-to_u32 (pos n) h = ground arith
to_i32-to_u32 (negsuc n) h = ground arith

pub to_i64-to_u64 : (v : ℤ) → IsI64 v → to_i64 (to_u64 v) ≡ v
to_i64-to_u64 (pos n) h = ground arith
to_i64-to_u64 (negsuc n) h = ground arith

pub to_u64-lt : (v : ℤ) → to_u64 v < 2 ^ 64
to_u64-lt (pos n) = omega arith
to_u64-lt (negsuc n) = omega arith

-- A pattern of 32 bits survives being read as a signed number.
pub to_u32-to_i32 : (u : ℕ) → u < 2 ^ 32 → to_u32 (to_i32 u) ≡ u
to_u32-to_i32 u h = ground arith

pub to_u8-lt : (v : ℤ) → to_u8 v < 2 ^ 8
to_u8-lt (pos n) = omega arith
to_u8-lt (negsuc n) = omega arith

pub to_u32-lt : (v : ℤ) → to_u32 v < 2 ^ 32
to_u32-lt (pos n) = omega arith
to_u32-lt (negsuc n) = omega arith

pub to_i8-IsI8 : (u : ℕ) → u < 2 ^ 8 → IsI8 (to_i8 u)
to_i8-IsI8 u h = ground arith

pub to_i32-IsI32 : (u : ℕ) → u < 2 ^ 32 → IsI32 (to_i32 u)
to_i32-IsI32 u h = ground arith

pub leb_ℤ_refl : (a : ℤ) → leb_ℤ a a ≡ true
leb_ℤ_refl (pos a) = ground arith
leb_ℤ_refl (negsuc a) = ground arith

pub leb_ℤ_total : (a b : ℤ) → leb_ℤ a b ≡ false → leb_ℤ b a ≡ true
leb_ℤ_total (pos a) (pos b) h = ground arith
leb_ℤ_total (pos a) (negsuc b) h = refl
leb_ℤ_total (negsuc a) (pos b) h = cc
leb_ℤ_total (negsuc a) (negsuc b) h = ground arith

-- `a < b` and `b < c`, as failed tests.
pub lt_ℤ_trans : (a b c : ℤ) → leb_ℤ b a ≡ false → leb_ℤ c b ≡ false → leb_ℤ c a ≡ false
lt_ℤ_trans (pos a) (pos b) (pos c) p q = ground arith
lt_ℤ_trans (pos a) (pos b) (negsuc c) p q = cc
lt_ℤ_trans (pos a) (negsuc b) c p q = cc
lt_ℤ_trans (negsuc a) (pos b) (pos c) p q = refl
lt_ℤ_trans (negsuc a) (pos b) (negsuc c) p q = cc
lt_ℤ_trans (negsuc a) (negsuc b) (pos c) p q = refl
lt_ℤ_trans (negsuc a) (negsuc b) (negsuc c) p q = ground arith
