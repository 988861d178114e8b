-- ===== src/Protocol/Framing/Decoding.antt =====
-- What `try_decode_frame` makes of a buffer: of whole frames, of parts of one, and of any bytes.
use gooophira_mp.Prelude.{
  ℕ, zero, suc, ◌+◌, ◌*◌, ◌/◌, ◌%◌, ◌^◌, ◌≤◌, ◌<◌, ◌≡◌, refl, ap, ◌∙◌, List, ◌∷◌, ◌++◌,
  append_assoc, leb, ◌==◌, length, length-append, take-append, drop-append, arith, dec_lt, false,
}
use gooophira_mp.Prelude.Int.{ℤ}
use gooophira_mp.Prelude.Bits.{low_seven, high_bit, bit_or-shift}
use gooophira_mp.Protocol.Wire.Uleb.{
  groups, groups_small, groups_large, low_and_rest, group_below, uleb_bytes-groups_u32,
}
use gooophira_mp.Protocol.Framing.{
  frame_with_length_prefix, frame_ok, finish_frame, decode_frame_loop, effective_limit,
  try_decode_frame,
}
use gooophira_mp.Protocol.Framing.Prefix.{frame_with_length_prefix_lem}

-- A byte below 128 ends the prefix.
last_byte :
    (limit len shift b : ℕ) (rest : List ℕ)
    → b < 128
    → len < 2 ^ shift
    → decode_frame_loop limit len shift (b ∷ rest) ≡ finish_frame limit (len + b * 2 ^ shift) rest
unfolding decode_frame_loop
last_byte limit len shift b rest h low =
    ground (arith, high_bit b (omega arith), low_seven b, bit_or-shift shift len b low)

-- The byte `g + 128` adds the group `g`, while the fifth byte is not passed.
inner_byte :
    (limit len shift g : ℕ) (rest : List ℕ)
    → g < 128
    → len < 2 ^ shift
    → shift + 7 < 35
    → decode_frame_loop limit len shift ((g + 128) ∷ rest)
      ≡ decode_frame_loop limit (len + g * 2 ^ shift) (shift + 7) rest
unfolding decode_frame_loop
inner_byte limit len shift g rest h low early =
    rw
      (
        high_bit (g + 128) (omega arith),
        marked,
        on,
        low_seven (g + 128),
        group,
        bit_or-shift shift len g low,
      )
      refl
  where
    marked : ((g + 128) / 128 * 128 == 0) ≡ false
    marked = ground arith

    on : leb 35 (shift + 7) ≡ false
    on = ground arith

    group : (g + 128) % 128 ≡ g
    group = omega arith

decode_frame_loop-groups :
    (k limit v len shift : ℕ) (rest : List ℕ)
    → shift + 7 * k ≤ 28
    → v < 128 ^ suc k
    → len < 2 ^ shift
    → decode_frame_loop limit len shift (groups k v ++ rest)
      ≡ finish_frame limit (len + v * 2 ^ shift) rest
decode_frame_loop-groups zero limit v len shift rest hs hv low =
    unfold groups in last_byte limit len shift v rest (omega arith) low
decode_frame_loop-groups (suc k) limit v len shift rest hs hv low = elim (dec_lt v 128) [
  | yes small ↦ rw (groups_small k v small) (last_byte limit len shift v rest small low)
  | no large ↦
      let sum : ℕ = len + v % 128 * 2 ^ shift in
      let whole : sum + v / 128 * 2 ^ (shift + 7) ≡ len + v * 2 ^ shift =
        omega (arith, low_and_rest v shift) in
      rw (groups_large k v (omega arith)) (
        inner_byte limit len shift (v % 128) (groups k (v / 128) ++ rest) (omega arith) low
          (omega arith)
        ∙ decode_frame_loop-groups k limit (v / 128) sum (shift + 7) rest (omega arith)
            (omega arith) (group_below v len shift low)
        ∙ ap (λ (n : ℕ). finish_frame limit n rest) whole)
]

finish_frame_fits :
    (limit : ℕ) (body rest : List ℕ)
    → length body ≤ limit
    → finish_frame limit (length body) (body ++ rest) ≡ frame_ok body rest
unfolding finish_frame
finish_frame_fits limit body rest h =
    rw (take-append body rest, drop-append body rest) (ground (arith, length-append body rest))

-- A frame at the head of the buffer is found, whatever follows it, when its body is within the
-- limit and shorter than 2 ^ 32.
pub try_decode_frame-frame_with_length_prefix :
    (body rest : List ℕ) (limit : ℤ)
    → length body ≤ effective_limit limit
    → length body < 2 ^ 32
    → try_decode_frame (frame_with_length_prefix body ++ rest) limit ≡ frame_ok body rest
unfolding try_decode_frame
try_decode_frame-frame_with_length_prefix body rest limit h small =
    rw
      (
        frame_with_length_prefix_lem body small,
        uleb_bytes-groups_u32 (length body) small,
        append_assoc (groups 4 (length body)) body rest,
      )
      (decode_frame_loop-groups 4 (effective_limit limit) (length body) 0 0 (body ++ rest)
          (omega arith) (omega arith) (omega arith)
        ∙ ap (λ (n : ℕ). finish_frame (effective_limit limit) n (body ++ rest))
            (plain (length body))
        ∙ finish_frame_fits (effective_limit limit) body rest h)
  where
    plain : (n : ℕ) → 0 + n * 2 ^ 0 ≡ n
    plain n = omega arith
