-- ===== src/Protocol/Uuid/RoundTrip.antt =====
-- The text of a UUID and its two numbers, both ways.
use gooophira_mp.Prelude.{
  ℕ, zero, suc, ◌+◌, ◌*◌, ◌/◌, ◌%◌, ◌^◌, ◌<◌, ◌≡◌, refl, ap, ◌∙◌, Option, none, some, List, [], ◌∷◌,
  ◌++◌, true, false, Bool, ◌==◌, ==_iff, All, All-append, arith, take, drop,
}
use gooophira_mp.Prelude.Bits.{all_below, all_below_sound}
use native.Mathlib.Nat.{pow-suc, div-add-mod, add-mul-mod_self_right, mod-eq_of_lt, mod-lt}
use gooophira_mp.Protocol.Uuid.{
  byte_at, hex_pair, hex_pair_positions, hex_digit, parse_pairs, parse_uuid, format_uuid,
  big_endian_from, be_bytes, uuid_to_u64_pair, u64_pair_to_uuid,
}

is_some : Option ℕ → ℕ → Bool
is_some none b = false
is_some (some a) b = a == b

is_some→eq : (o : Option ℕ) (b : ℕ) → is_some o b ≡ true → o ≡ some b
unfolding is_some
is_some→eq none b h = cc
is_some→eq (some a) b h = ap some ((==_iff a b).0 h)

digit_table :
    all_below 256 (λ b. is_some (hex_pair (hex_digit (b / 16)) (hex_digit (b % 16))) b) ≡ true
unfolding all_below is_some hex_pair hex_digit
digit_table = refl

hex_pair-hex_digit : (b : ℕ) → b < 256 → hex_pair (hex_digit (b / 16)) (hex_digit (b % 16)) ≡ some b
hex_pair-hex_digit b h = is_some→eq _ b (all_below_sound 256 _ b digit_table h)

-- The positions `ps` of `s` hold the digits of the bytes `bs`.
abbrev Pairs : List ℕ → List ℕ → List ℕ → Type 0
Pairs s [] [] = Unit {0}
Pairs s [] (b ∷ bs) = ⊥
Pairs s (p ∷ ps) [] = ⊥
Pairs s (p ∷ ps) (b ∷ bs) = (hex_pair (byte_at s p) (byte_at s (p + 1)) ≡ some b) × Pairs s ps bs

parse_pairs-Pairs : (s ps bs : List ℕ) → Pairs s ps bs → parse_pairs s ps ≡ some bs
unfolding parse_pairs
parse_pairs-Pairs s [] [] h = refl
parse_pairs-Pairs s [] (b ∷ bs) h = absurd h
parse_pairs-Pairs s (p ∷ ps) [] h = absurd h
parse_pairs-Pairs s (p ∷ ps) (b ∷ bs) (h, hs) = ground (arith, parse_pairs-Pairs s ps bs hs)

parse_uuid-format_uuid :
    (b0 b1 b2 b3 b4 b5 b6 b7 b8 b9 b10 b11 b12 b13 b14 b15 : ℕ)
    → All
        (λ b. b < 256)
        (b0 ∷ b1 ∷ b2 ∷ b3 ∷ b4 ∷ b5 ∷ b6 ∷ b7 ∷ b8 ∷ b9 ∷ b10 ∷ b11 ∷ b12 ∷ b13 ∷ b14 ∷ b15 ∷ [])
    → parse_uuid (
        format_uuid (
          b0 ∷ b1 ∷ b2 ∷ b3 ∷ b4 ∷ b5 ∷ b6 ∷ b7 ∷ b8 ∷ b9 ∷ b10 ∷ b11 ∷ b12 ∷ b13 ∷ b14 ∷ b15 ∷ []))
      ≡ some
          (b0 ∷ b1 ∷ b2 ∷ b3 ∷ b4 ∷ b5 ∷ b6 ∷ b7 ∷ b8 ∷ b9 ∷ b10 ∷ b11 ∷ b12 ∷ b13 ∷ b14 ∷ b15 ∷ [])
unfolding parse_uuid format_uuid
parse_uuid-format_uuid b0 b1 b2 b3 b4 b5 b6 b7 b8 b9 b10 b11 b12 b13 b14 b15 h =
    let b : List ℕ =
      b0 ∷ b1 ∷ b2 ∷ b3 ∷ b4 ∷ b5 ∷ b6 ∷ b7 ∷ b8 ∷ b9 ∷ b10 ∷ b11 ∷ b12 ∷ b13 ∷ b14 ∷ b15 ∷ [] in
    parse_pairs-Pairs (format_uuid b) hex_pair_positions b (
      (
        hex_pair-hex_digit b0 (omega arith),
        (
          hex_pair-hex_digit b1 (omega arith),
          (
            hex_pair-hex_digit b2 (omega arith),
            (
              hex_pair-hex_digit b3 (omega arith),
              (
                hex_pair-hex_digit b4 (omega arith),
                (
                  hex_pair-hex_digit b5 (omega arith),
                  (
                    hex_pair-hex_digit b6 (omega arith),
                    (
                      hex_pair-hex_digit b7 (omega arith),
                      (
                        hex_pair-hex_digit b8 (omega arith),
                        (
                          hex_pair-hex_digit b9 (omega arith),
                          (
                            hex_pair-hex_digit b10 (omega arith),
                            (
                              hex_pair-hex_digit b11 (omega arith),
                              (
                                hex_pair-hex_digit b12 (omega arith),
                                (
                                  hex_pair-hex_digit b13 (omega arith),
                                  (
                                    hex_pair-hex_digit b14 (omega arith),
                                    (hex_pair-hex_digit b15 (omega arith), tt),
                                  ),
                                ),
                              ),
                            ),
                          ),
                        ),
                      ),
                    ),
                  ),
                ),
              ),
            ),
          ),
        ),
      ))

pow-pos : (k : ℕ) → 0 < 256 ^ k
pow-pos zero = omega arith
pow-pos (suc k) = omega (arith, pow-suc 256 k, pow-pos k)

-- The digit to base 256 in front of `p = 256 ^ k`, and what lies below.
mod_times : (p v : ℕ) → 0 < p → v % (p * 256) ≡ v / p % 256 * p + v % p
mod_times p v h =
    let low : ℕ = v / p % 256 * p + v % p in
    let split : v ≡ low + v / p / 256 * (p * 256) =
      omega (arith, div-add-mod v p, ap (λ (t : ℕ). t * p) (div-add-mod (v / p) 256)) in
    ap (λ (t : ℕ). t % (p * 256)) split
    ∙ add-mul-mod_self_right low (v / p / 256) (p * 256)
    ∙ mod-eq_of_lt (grind (arith, mod-lt v h))

pub big_endian_from-be_bytes :
    (k acc v : ℕ) → big_endian_from acc (be_bytes k v) ≡ acc * 256 ^ k + v % 256 ^ k
unfolding big_endian_from be_bytes
big_endian_from-be_bytes zero acc v = omega arith
big_endian_from-be_bytes (suc k) acc v =
    big_endian_from-be_bytes k (acc * 256 + v / 256 ^ k % 256) v
    ∙ omega (
      arith,
      mod_times (256 ^ k) v (pow-pos k),
      ap (λ (t : ℕ). acc * t) (pow-suc 256 k),
      ap (◌%◌ v) (pow-suc 256 k),
    )

be_bytes-IsByte : (k v : ℕ) → All (λ b. b < 256) (be_bytes k v)
unfolding be_bytes
be_bytes-IsByte zero v = tt
be_bytes-IsByte (suc k) v = (omega arith, be_bytes-IsByte k v)

parse_uuid-of_pair :
    (high low : ℕ)
    → parse_uuid (u64_pair_to_uuid high low) ≡ some (be_bytes 8 high ++ be_bytes 8 low)
unfolding u64_pair_to_uuid be_bytes
parse_uuid-of_pair high low = parse_uuid-format_uuid _ _ _ _ _ _ _ _ _ _ _ _ _ _ _ _ (
    All-append (λ b. b < 256) (be_bytes 8 high) (be_bytes 8 low) (be_bytes-IsByte 8 high)
      (be_bytes-IsByte 8 low))

uuid_to_u64_pair-parsed :
    (s b : List ℕ)
    → parse_uuid s ≡ some b
    → uuid_to_u64_pair s
      ≡ some (big_endian_from 0 (take 8 b), big_endian_from 0 (take 8 (drop 8 b)))
unfolding uuid_to_u64_pair
uuid_to_u64_pair-parsed s b h = rw (h, uuid_to_u64_pair) refl

whole_number : (v : ℕ) → v < 2 ^ 64 → big_endian_from 0 (be_bytes 8 v) ≡ v
whole_number v h = omega (arith, big_endian_from-be_bytes 8 0 v)

-- The two numbers below 2 ^ 64 that a UUID was made from are read out of its text.
pub uuid_round_trip :
    (high low : ℕ)
    → high < 2 ^ 64
    → low < 2 ^ 64
    → uuid_to_u64_pair (u64_pair_to_uuid high low) ≡ some (high, low)
uuid_round_trip high low hh hl =
    uuid_to_u64_pair-parsed _ _ (parse_uuid-of_pair high low)
    ∙ unfold be_bytes in cc (whole_number high hh, whole_number low hl)
