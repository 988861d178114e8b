-- ===== src/Protocol/Half/RoundTrip.antt =====
-- Every half is found again after a conversion to single precision.
use gooophira_mp.Prelude.{
  ℕ, ◌<◌, ◌%◌, ◌≡◌, refl, Bool, true, ltb, ◌==◌, ==_iff, ◌^◌, if◌then◌else◌, bit_and, not, ◌≢◌,
  arith,
}
use gooophira_mp.Prelude.Bits.{all_below, all_below_sound}
use gooophira_mp.Protocol.Half.{normalize, f16_bits_to_f32, f32_to_f16_bits}

-- Exponent all ones, and a fraction.
abbrev pub is_nan : ℕ → Bool
is_nan h = ltb 0x7c00 (h % 0x8000)

abbrev kept : ℕ → ℕ
kept h = if is_nan h then 0x7e00 else h

table : all_below 0x10000 (λ h. f32_to_f16_bits (f16_bits_to_f32 h) == kept h) ≡ true
unfolding all_below f32_to_f16_bits f16_bits_to_f32
table = refl

-- The loop of the subnormal branch ends within its ten rounds: the implicit bit is then set.
normalize_table :
    all_below 0x400 (λ f. if f == 0 then true else not (bit_and (normalize 10 f 113).0 0x0400 == 0))
    ≡ true
unfolding all_below normalize
normalize_table = refl

pub normalize_enough : (f : ℕ) → 0 < f → f < 0x400 → bit_and (normalize 10 f 113).0 0x0400 ≢ 0
normalize_enough f pos low = ground (arith, all_below_sound 0x400 _ f normalize_table low)

-- A half, 16 bits, widened to single precision and narrowed again is the same half; every NaN
-- becomes 0x7e00.
pub half_round_trip :
    (h : ℕ) → h < 2 ^ 16 → f32_to_f16_bits (f16_bits_to_f32 h) ≡ (if is_nan h then 0x7e00 else h)
half_round_trip h low = (==_iff _ _).0 (all_below_sound 0x10000 _ h table low)
