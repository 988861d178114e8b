-- ===== src/Protocol/Framing/Prefix.antt =====
-- The frames that the writers produce are the length prefix and the body.
use gooophira_mp.Prelude.{
  ℕ, zero, suc, ◌+◌, ◌-◌, ◌/◌, ◌%◌, ◌^◌, ◌≤◌, ◌<◌, ◌≡◌, refl, sym, ap, ◌∙◌, List, ◌++◌, append-nil,
  ltb, length, length-append, length-replicate, take, drop, drop-append_of_eq, drop_all, take_all,
  take-append, false, length-take, length-drop, arith, dec_lt,
}
use gooophira_mp.Protocol.Monad.{ok}
use gooophira_mp.Protocol.Writer.{BinaryWriter, uleb_bytes, to_buffer}
use gooophira_mp.Protocol.Wire.Uleb.{
  groups, groups_small, groups_large, length-groups, uleb_bytes-groups_u32,
}
use gooophira_mp.Protocol.Framing.{
  count_groups, prefix_length, overwrite, frame_with_length_prefix, to_frame_buffer,
}

count_groups-groups :
    (k fuel v : ℕ)
    → k ≤ fuel
    → v < 128 ^ suc k
    → 1 + count_groups fuel (v / 2 ^ 7) ≡ length (groups k v)
unfolding count_groups
count_groups-groups zero zero v hf h = unfold groups in refl
count_groups-groups zero (suc fuel) v hf h = unfold groups in ground arith
count_groups-groups (suc k) zero v hf h = absurd (omega arith)
count_groups-groups (suc k) (suc fuel) v hf h = elim (dec_lt v 128) [
  | yes small ↦ rw (groups_small k v small) (ground arith)
  | no large ↦ ground (
    arith,
    groups_large k v (omega arith),
    count_groups-groups k fuel (v / 128) (omega arith) (omega arith),
  )
]

-- The length that is counted first is that of the bytes written then.
pub prefix_length-uleb_bytes : (x : ℕ) → x < 2 ^ 32 → prefix_length x ≡ length (uleb_bytes x)
unfolding prefix_length
prefix_length-uleb_bytes x h =
    count_groups-groups 4 5 x (omega arith) (omega arith)
    ∙ ap length (sym (uleb_bytes-groups_u32 x h))

-- Where the new bytes fit, they replace as many old ones, and the length stays.
overwrite_lem :
    (out : List ℕ) (i : ℕ) (bs : List ℕ)
    → i + length bs ≤ length out
    → overwrite out i bs ≡ take i out ++ (bs ++ drop (i + length bs) out)
unfolding overwrite
overwrite_lem out i bs h = take_all _ (
    omega (
      arith,
      length-append (take i out) (bs ++ drop (i + length bs) out),
      length-append bs (drop (i + length bs) out),
      length-take i out,
      length-drop (i + length bs) out,
    ))

prefix_fits : (x : ℕ) → x < 2 ^ 32 → length (uleb_bytes x) ≤ 5
prefix_fits x h = omega (arith, ap length (uleb_bytes-groups_u32 x h), length-groups 4 x)

-- Two writes into a buffer of the right size fill it.
two_writes :
    (out new body : List ℕ)
    → length out ≡ length new + length body
    → overwrite (overwrite out 0 new) (length new) body ≡ new ++ body
two_writes out new body h =
    rw
      (
        overwrite_lem out 0 new (omega arith),
        overwrite_lem (new ++ drop (0 + length new) out) (length new) body (omega (arith, sizes)),
        take-append new (drop (0 + length new) out),
        drop_all (length new + length body) (new ++ drop (0 + length new) out)
            (omega (arith, sizes)),
        append-nil body,
      )
      refl
  where
    sizes : length (new ++ drop (0 + length new) out) ≡ length out
    sizes =
        omega
          (arith, length-append new (drop (0 + length new) out), length-drop (0 + length new) out)

-- A frame is the length of the body as LEB128, and the body.
pub frame_with_length_prefix_lem :
    (body : List ℕ)
    → length body < 2 ^ 32
    → frame_with_length_prefix body ≡ uleb_bytes (length body) ++ body
unfolding frame_with_length_prefix
frame_with_length_prefix_lem body h =
    let same : length body % 2 ^ 32 ≡ length body = omega arith in
    rw same (
      two_writes _ (uleb_bytes (length body)) body (
        omega (
          arith,
          length-replicate {A = ℕ} (prefix_length (length body) + length body) 0,
          prefix_length-uleb_bytes (length body) h,
        )))

filled :
    (buf new : List ℕ) (start head : ℕ)
    → start + length new ≡ head
    → head ≤ length buf
    → drop start (overwrite buf start new) ≡ new ++ drop head buf
filled buf new start head ends fits =
    rw (overwrite_lem buf start new (omega arith), ends)
      (drop-append_of_eq (take start buf) (new ++ drop head buf)
        (omega (arith, length-take start buf)))

-- The frame that is built in place, in a writer that kept at least five bytes free and holds a body
-- shorter than 2 ^ 32 behind them, is the frame that `frame_with_length_prefix` builds from it.
pub to_frame_buffer-frame_with_length_prefix :
    (w : BinaryWriter)
    → 5 ≤ w.reserve_head
    → w.reserve_head ≤ length w.buf
    → length w.buf < w.reserve_head + 2 ^ 32
    → to_frame_buffer w ≡ ok (frame_with_length_prefix (to_buffer w))
unfolding to_frame_buffer to_buffer
to_frame_buffer-frame_with_length_prefix w five head fits =
    rw
      (
        same,
        roomy,
        filled w.buf (uleb_bytes x) (w.reserve_head - prefix_length x) w.reserve_head ends head,
      )
      (ap ok (
        sym (frame_with_length_prefix_lem (drop w.reserve_head w.buf) small ∙ rw body_length refl)))
  where
    x : ℕ
    x = length w.buf - w.reserve_head

    body_length : length (drop w.reserve_head w.buf) ≡ x
    body_length = length-drop w.reserve_head w.buf

    small : length (drop w.reserve_head w.buf) < 2 ^ 32
    small = omega (arith, body_length)

    same : (length w.buf - w.reserve_head) % 2 ^ 32 ≡ x
    same = omega arith

    counted : prefix_length x ≡ length (uleb_bytes x)
    counted = prefix_length-uleb_bytes x (omega arith)

    short : length (uleb_bytes x) ≤ 5
    short = prefix_fits x (omega arith)

    roomy : ltb w.reserve_head (prefix_length x) ≡ false
    roomy = ground (arith, counted, short)

    ends : w.reserve_head - prefix_length x + length (uleb_bytes x) ≡ w.reserve_head
    ends = omega (arith, counted, short)
