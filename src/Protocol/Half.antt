-- ===== src/Protocol/Half.antt =====
-- internal/common/protocol/half.go: IEEE-754 binary16 and binary32, both as bit patterns.
-- (`math.Float32bits` and `math.Float32frombits` keep the pattern.)
pub mod RoundTrip
use gooophira_mp.Prelude.{
  ℕ, zero, suc, ◌+◌, ◌-◌, ◌*◌, ◌/◌, ◌%◌, ◌^◌, bit_and, bit_or, Bool, ◌&&◌, ◌||◌, not, ltb, leb,
  ◌==◌, if◌then◌else◌,
}

-- `for frac&0x0400 == 0 { frac <<= 1; e-- }`. Any `frac` from 1 to 1023 needs ten rounds at most.
unfoldable pub normalize : ℕ → ℕ → ℕ → ℕ × ℕ
normalize zero frac e = (frac, e)
normalize (suc fuel) frac e =
    let rest = normalize fuel (frac * 2 % 2 ^ 32) (e - 1) in
    if bit_and frac 0x0400 == 0 then rest else (frac, e)

unfoldable pub subnormal_to_f32 : ℕ → ℕ × ℕ → ℕ
subnormal_to_f32 sign (frac, e) = bit_or (bit_or sign (e * 2 ^ 23)) (bit_and frac 0x03ff * 2 ^ 13)

unfoldable pub f16_parts_to_f32 : ℕ → ℕ → ℕ → ℕ
unfolding normalize subnormal_to_f32
f16_parts_to_f32 sign exp frac =
    if exp == 0
    then (if frac == 0 then sign else subnormal_to_f32 sign (normalize 10 frac (127 - 15 + 1)))
    else if exp == 0x1f
    then (if frac == 0
        then bit_or sign 0x7f800000
        else bit_or (bit_or sign 0x7f800000) (frac * 2 ^ 13))
    else bit_or (bit_or sign ((exp + (127 - 15)) * 2 ^ 23)) (frac * 2 ^ 13)

unfoldable pub f16_bits_to_f32 : ℕ → ℕ
unfolding f16_parts_to_f32
f16_bits_to_f32 bits =
    f16_parts_to_f32 (bit_and bits 0x8000 * 2 ^ 16) (bit_and (bits / 2 ^ 10) 0x1f)
      (bit_and bits 0x03ff)

-- Round to nearest, ties to even: `rem` is what was cut off, `halfway` one half of the last place.
abbrev rounds_up : ℕ → ℕ → ℕ → Bool
rounds_up rem halfway res = ltb halfway rem || (rem == halfway && bit_and res 1 == 1)

unfoldable pub round_subnormal : ℕ → ℕ → ℕ → ℕ
round_subnormal sign mant shift =
    let res = mant / 2 ^ shift in
    let up = rounds_up (bit_and mant (2 ^ shift - 1)) (2 ^ (shift - 1)) res in
    bit_or sign ((if up then res + 1 else res) % 2 ^ 16)

unfoldable pub round_normal : ℕ → ℕ → ℕ
round_normal half mant =
    if rounds_up (bit_and mant 0x1fff) 0x1000 half then (half + 1) % 2 ^ 16 else half

-- `e = exp - 127 + 15` may be negative: its tests are written without the subtraction.
unfoldable pub f32_parts_to_f16 : ℕ → ℕ → ℕ → ℕ
unfolding round_subnormal round_normal
f32_parts_to_f16 sign exp mant =
    if exp == 0xff
    then (if not (mant == 0) then 0x7e00 else bit_or sign 0x7c00)
    else if leb (0x1f + 127) (exp + 15)
    then bit_or sign 0x7c00
    else if leb (exp + 15) 127
    then (if ltb (exp + 15 + 10) 127
        then sign
        else round_subnormal sign (bit_or mant 0x00800000) (14 + 127 - (exp + 15)))
    else round_normal
        (bit_or (bit_or sign ((exp + 15 - 127) * 2 ^ 10 % 2 ^ 16)) (mant / 2 ^ 13 % 2 ^ 16)) mant

unfoldable pub f32_to_f16_bits : ℕ → ℕ
unfolding f32_parts_to_f16
f32_to_f16_bits b =
    f32_parts_to_f16 (bit_and (b / 2 ^ 16) 0x8000 % 2 ^ 16) (bit_and (b / 2 ^ 23) 0xff)
      (bit_and b 0x007fffff)
