-- ===== src/Protocol/Framing/Streams.antt =====
-- `try_decode_frame` on a buffer that grows: answers that are final, and parts of a frame.
use gooophira_mp.Prelude.{
  ℕ, ◌+◌, ◌-◌, ◌≤◌, ◌<◌, ◌^◌, ◌*◌, ◌≡◌, ◌≢◌, refl, sym, ap, ◌∙◌, inl, inr, ◌⊎◌, List, [], ◌∷◌, ◌++◌,
  append-nil, length, length-append, length-take, take-append-drop, take-append_of_le,
  drop-append_of_le, arith, bit_or, bit_and,
}
use gooophira_mp.Prelude.Int.{ℤ}
use gooophira_mp.Protocol.Framing.{
  frame_with_length_prefix, DecodeFrameResult, frame_need_more, frame_ok, frame_error, finish_frame,
  decode_frame_loop, effective_limit, try_decode_frame,
}
use gooophira_mp.Protocol.Framing.Decoding.{try_decode_frame-frame_with_length_prefix}

-- A final answer, on a buffer to which `more` is added.
abbrev pub extended : DecodeFrameResult → List ℕ → DecodeFrameResult
extended frame_need_more more = frame_need_more
extended (frame_ok payload remaining) more = frame_ok payload (remaining ++ more)
extended (frame_error e) more = frame_error e

finish_frame-append :
    (limit len : ℕ) (rest more : List ℕ)
    → finish_frame limit len rest ≢ frame_need_more
    → finish_frame limit len (rest ++ more) ≡ extended (finish_frame limit len rest) more
unfolding finish_frame
finish_frame-append limit len rest more h = ground (
  arith,
  length-append rest more,
  take-append_of_le len rest more,
  drop-append_of_le len rest more,
)

decode_frame_loop-append :
    (limit len shift : ℕ) (buf more : List ℕ)
    → decode_frame_loop limit len shift buf ≢ frame_need_more
    → decode_frame_loop limit len shift (buf ++ more)
      ≡ extended (decode_frame_loop limit len shift buf) more
unfolding decode_frame_loop
decode_frame_loop-append limit len shift [] more h = absurd (h refl)
decode_frame_loop-append limit len shift (b ∷ buf) more h =
    let len' : ℕ = bit_or len (bit_and b 0x7f * 2 ^ shift) in
    ground (
      arith,
      finish_frame-append limit len' buf more,
      decode_frame_loop-append limit len' (shift + 7) buf more,
    )

-- An answer other than "need more" is final: bytes that arrive later stay behind the frame, and do
-- not mend an error.
pub try_decode_frame-append :
    (buf more : List ℕ) (limit : ℤ)
    → try_decode_frame buf limit ≢ frame_need_more
    → try_decode_frame (buf ++ more) limit ≡ extended (try_decode_frame buf limit) more
unfolding try_decode_frame
try_decode_frame-append buf more limit h =
    decode_frame_loop-append (effective_limit limit) 0 0 buf more h

append-ne-nil : (xs : List ℕ) (y : ℕ) (ys : List ℕ) → xs ++ y ∷ ys ≡ [] → ⊥
append-ne-nil [] y ys e = cc
append-ne-nil (x ∷ xs) y ys e = cc

-- Of a proper part from the front of a frame, whose body is within the limit and shorter than
-- 2 ^ 32, the decoder says that it needs more.
pub try_decode_frame_partial :
    (body front back : List ℕ) (x : ℕ) (limit : ℤ)
    → length body ≤ effective_limit limit
    → length body < 2 ^ 32
    → frame_with_length_prefix body ≡ front ++ (x ∷ back)
    → try_decode_frame front limit ≡ frame_need_more
try_decode_frame_partial body front back x limit h small split =
    cases (try_decode_frame front limit) refl
  where
    whole : try_decode_frame (front ++ (x ∷ back)) limit ≡ frame_ok body []
    whole = rw (← split) (
        ap (λ (s : List ℕ). try_decode_frame s limit)
          (sym (append-nil (frame_with_length_prefix body)))
        ∙ try_decode_frame-frame_with_length_prefix body [] limit h small)

    cases :
        (r : DecodeFrameResult)
        → try_decode_frame front limit ≡ r
        → try_decode_frame front limit ≡ frame_need_more
    cases frame_need_more e = e
    cases (frame_ok payload remaining) e =
        let grown : try_decode_frame (front ++ (x ∷ back)) limit
            ≡ frame_ok payload (remaining ++ x ∷ back) =
          try_decode_frame-append front (x ∷ back) limit (λ n. cc (e, n))
          ∙ ap (λ (d : DecodeFrameResult). extended d (x ∷ back)) e in
        absurd (append-ne-nil remaining x back (ground (arith, whole, grown)))
    cases (frame_error er) e =
        let grown : try_decode_frame (front ++ (x ∷ back)) limit ≡ frame_error er =
          try_decode_frame-append front (x ∷ back) limit (λ n. cc (e, n))
          ∙ ap (λ (d : DecodeFrameResult). extended d (x ∷ back)) e in
        cc (whole, grown)

-- The buffer is a header of at most `room` bytes, the payload, which is within the limit, and what
-- remains.
abbrev pub IsSplit : List ℕ → List ℕ → List ℕ → ℕ → ℕ → Type 0
IsSplit buf payload remaining limit room =
    (header : List ℕ) × (buf ≡ header ++ (payload ++ remaining))
    × (1 ≤ length header)
    × (length header ≤ room)
    × (length payload ≤ limit)

finish_frame_ok :
    (limit len : ℕ) (rest payload remaining : List ℕ)
    → finish_frame limit len rest ≡ frame_ok payload remaining
    → (rest ≡ payload ++ remaining) × (length payload ≤ limit)
unfolding finish_frame
finish_frame_ok limit len rest payload remaining h =
    ground (arith, take-append-drop len rest, length-take len rest)

-- A round that leads to a frame ends the prefix, or goes on.
loop_cases :
    (limit len shift b : ℕ) (rest payload remaining : List ℕ)
    → decode_frame_loop limit len shift (b ∷ rest) ≡ frame_ok payload remaining
    → let len' = bit_or len (bit_and b 0x7f * 2 ^ shift) in
      (finish_frame limit len' rest ≡ frame_ok payload remaining)
      ⊎ ((shift + 7 < 35)
          × (decode_frame_loop limit len' (shift + 7) rest ≡ frame_ok payload remaining))
unfolding decode_frame_loop
loop_cases limit len shift b rest payload remaining e = ground arith

decode_frame_loop_ok :
    (limit len shift room : ℕ) (buf payload remaining : List ℕ)
    → shift + 7 * room ≡ 35
    → 1 ≤ room
    → decode_frame_loop limit len shift buf ≡ frame_ok payload remaining
    → IsSplit buf payload remaining limit room
decode_frame_loop_ok limit len shift room [] payload remaining hs hr e =
    unfold decode_frame_loop in cc
decode_frame_loop_ok limit len shift room (b ∷ buf) payload remaining hs hr e =
    elim (loop_cases limit len shift b buf payload remaining e) [
      | inl done ↦
          let parts : (buf ≡ payload ++ remaining) × (length payload ≤ limit) =
            finish_frame_ok limit _ buf payload remaining done in
          (b ∷ [], ap (◌∷◌ b) parts.0, omega arith, omega arith, parts.1)
      | inr (early, more) ↦
          let (header, whole, nonempty, short, within) =
            decode_frame_loop_ok limit (bit_or len (bit_and b 0x7f * 2 ^ shift)) (shift + 7)
              (room - 1) buf payload remaining (omega arith) (omega arith) more in
          (b ∷ header, ap (◌∷◌ b) whole, omega arith, omega arith, within)
    ]

-- A frame that is given out is a part of the buffer, behind a header of 1 to 5 bytes and in front of
-- what remains, and its payload is no longer than the limit.
pub try_decode_frame_ok :
    (buf payload remaining : List ℕ) (limit : ℤ)
    → try_decode_frame buf limit ≡ frame_ok payload remaining
    → IsSplit buf payload remaining (effective_limit limit) 5
unfolding try_decode_frame
try_decode_frame_ok buf payload remaining limit e =
    decode_frame_loop_ok (effective_limit limit) 0 0 5 buf payload remaining refl (omega arith) e
