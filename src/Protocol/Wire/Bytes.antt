-- ===== src/Protocol/Wire/Bytes.antt =====
-- The calls of BinaryReader that look at the buffer: one byte, and a run of bytes.
use gooophira_mp.Prelude.{
  ℕ, ◌+◌, ◌≡◌, refl, ap, List, [], ◌∷◌, ◌++◌, append_assoc, length, length-append, leb, true,
  get_elem?-append, drop-append, take-append, arith,
}
use gooophira_mp.Protocol.Monad.{ok, ◌>>=◌}
use gooophira_mp.Protocol.Reader.{BinaryReader, ensure, slice, take_bytes, index, read_u8}
use gooophira_mp.Protocol.Wire.{Reads, at}

-- Two readers with the same buffer and the same offset are one.
BinaryReader-path : {r s : BinaryReader} → r.buf ≡ s.buf → r.offset ≡ s.offset → r ≡ s
BinaryReader-path p q = λ i. record { buf = p i; offset = q i }

advance :
    (pre bs post : List ℕ) {n : ℕ}
    → n ≡ length bs
    → record (at pre (bs ++ post)) { offset = length pre + n } ≡ at (pre ++ bs) post
advance pre bs post h =
    BinaryReader-path (append_sym pre bs post) (omega (arith, length-append pre bs))
  where
    append_sym : (xs ys zs : List ℕ) → xs ++ (ys ++ zs) ≡ (xs ++ ys) ++ zs
    append_sym xs ys zs = rw (append_assoc xs ys zs) refl

ensure_passes :
    (pre bs post : List ℕ) → ensure (length bs) (at pre (bs ++ post)) ≡ ok (tt, at pre (bs ++ post))
unfolding ensure
ensure_passes pre bs post = ground (arith, length-append pre (bs ++ post), length-append bs post)

slice_lem :
    (pre bs post : List ℕ) → slice (length bs) (at pre (bs ++ post)) ≡ ok (bs, at (pre ++ bs) post)
unfolding slice
slice_lem pre bs post =
    let fits : leb (length pre + length bs) (length (pre ++ (bs ++ post))) ≡ true =
      ground (arith, length-append pre (bs ++ post), length-append bs post) in
    rw (slice, fits, drop-append pre (bs ++ post), take-append bs post)
      (ap (λ (r : BinaryReader). ok (bs, r)) (advance pre bs post refl))

-- `Take` of as many bytes as stand there gives them and passes them.
pub take_bytes-Reads : (bs : List ℕ) → Reads (take_bytes (length bs)) bs bs
unfolding take_bytes
take_bytes-Reads bs pre post = rw (ensure_passes pre bs post, ◌>>=◌) (slice_lem pre bs post)

index_lem :
    (pre post : List ℕ) (b : ℕ) → index (at pre (b ∷ post)) ≡ ok (b, at (pre ++ b ∷ []) post)
unfolding index
index_lem pre post b =
    rw (get_elem?-append pre b post, index)
      (ap (λ (r : BinaryReader). ok (b, r)) (advance pre (b ∷ []) post refl))

pub read_u8-Reads : (b : ℕ) → Reads read_u8 (b ∷ []) b
unfolding read_u8
read_u8-Reads b pre post = rw (ensure_passes pre (b ∷ []) post, ◌>>=◌) (index_lem pre post b)
