-- ===== src/Agent/Outbox/Records.antt =====
-- A record that was encoded is read back, and a part of one is not taken for a record.
use gooophira_mp.Prelude.{
  ℕ, suc, ◌+◌, ◌-◌, ◌≤◌, ◌<◌, ◌^◌, ◌≡◌, refl, ap, ◌∙◌, true, inl, inr, none, some, List, [], ◌∷◌,
  ◌++◌, ltb, length, take, length-append, take-append, drop-append, arith, Bool-cases, ==_refl,
  length-take, ltb→lt, ltb→le,
}
use gooophira_mp.Protocol.Uuid.{big_endian_from, be_bytes}
use gooophira_mp.Protocol.Uuid.RoundTrip.{big_endian_from-be_bytes}
use gooophira_mp.Agent.Outbox.{Envelope, Format, max_record_size, encode_data, encode_record}
use gooophira_mp.Agent.Outbox.Recovery.{
  is_identified, split_data, parse_data, read_body, read_record,
}

-- What the log relies on: JSON gives an envelope back and is never empty, and a checksum fits in
-- four bytes.
pub record IsFormat (f : Format) : Type 0 where
  pub parses : (e : Envelope) → f.unmarshal (f.marshal e) ≡ some e
  pub nonempty : (e : Envelope) → 0 < length (f.marshal e)
  pub small : (bs : List ℕ) → f.checksum bs < 2 ^ 32

-- The record of an envelope.
abbrev pub record_of : Format → Envelope → List ℕ
record_of f e = encode_data f (f.marshal e)

abbrev pub Fits : Format → Envelope → Type 0
Fits f e = (length (f.marshal e) ≤ max_record_size) × (is_identified e ≡ true)

pub encode_record-some :
    (f : Format) (e : Envelope) (r : List ℕ)
    → encode_record f e ≡ some r
    → (length (f.marshal e) ≤ max_record_size) × (r ≡ record_of f e)
unfolding encode_record
encode_record-some f e r h = ground arith

pub length-encode_data : (f : Format) (bs : List ℕ) → length (encode_data f bs) ≡ 8 + length bs
unfolding encode_data be_bytes
length-encode_data f bs = omega arith

four_bytes : (v : ℕ) → v < 2 ^ 32 → big_endian_from 0 (be_bytes 4 v) ≡ v
four_bytes v h = omega (arith, big_endian_from-be_bytes 4 0 v)

split_data-append : (bs rest : List ℕ) → split_data (length bs) (bs ++ rest) ≡ some (bs, rest)
unfolding split_data
split_data-append bs rest =
    ground (arith, length-append bs rest, take-append bs rest, drop-append bs rest)

parse_data-record :
    (f : Format) (e : Envelope) (rest : List ℕ)
    → IsFormat f
    → is_identified e ≡ true
    → parse_data f (f.checksum (f.marshal e)) (f.marshal e, rest) ≡ some (e, rest)
unfolding parse_data
parse_data-record f e rest ok id =
    rw (==_refl (f.checksum (f.marshal e)), ok.parses e, parse_data) (rw (id, parse_data) refl)

read_body-record :
    (f : Format) (e : Envelope) (rest : List ℕ)
    → IsFormat f
    → Fits f e
    → read_body f (length (f.marshal e)) (f.checksum (f.marshal e)) (f.marshal e ++ rest)
      ≡ some (e, rest)
unfolding read_body
read_body-record f e rest ok (len, id) =
    ground
      (arith, ok.nonempty e, split_data-append (f.marshal e) rest, parse_data-record f e rest ok id)

read_record-header :
    (f : Format) (a b c d u v w x : ℕ) (rest : List ℕ)
    → read_record f (a ∷ b ∷ c ∷ d ∷ u ∷ v ∷ w ∷ x ∷ rest)
      ≡ read_body f
          (big_endian_from 0 (a ∷ b ∷ c ∷ d ∷ []))
          (big_endian_from 0 (u ∷ v ∷ w ∷ x ∷ []))
          rest
unfolding read_record
read_record-header f a b c d u v w x rest = ground arith

-- The header that was encoded gives the body's length and checksum back.
read_record-encode_data :
    (f : Format) (bs rest : List ℕ)
    → length bs ≤ max_record_size
    → f.checksum bs < 2 ^ 32
    → read_record f (be_bytes 4 (length bs) ++ (be_bytes 4 (f.checksum bs) ++ rest))
      ≡ read_body f (length bs) (f.checksum bs) rest
unfolding be_bytes
read_record-encode_data f bs rest len small =
    read_record-header f _ _ _ _ _ _ _ _ rest
    ∙ ap (λ (l : ℕ). read_body f l (big_endian_from 0 (be_bytes 4 (f.checksum bs))) rest)
        (four_bytes (length bs) (omega arith))
    ∙ ap (λ (c : ℕ). read_body f (length bs) c rest) (four_bytes (f.checksum bs) small)

pub read_record-record :
    (f : Format) (e : Envelope) (rest : List ℕ)
    → IsFormat f
    → Fits f e
    → read_record f (record_of f e ++ rest) ≡ some (e, rest)
unfolding encode_data be_bytes
read_record-record f e rest ok fits =
    read_record-encode_data f (f.marshal e) (f.marshal e ++ rest) fits.0 (ok.small _)
    ∙ read_body-record f e rest ok fits

read_body-short :
    (f : Format) (len sum : ℕ) (rest : List ℕ) → length rest < len → read_body f len sum rest ≡ none
unfolding read_body split_data
read_body-short f len sum rest h = ground (arith, h)

read_record-short : (f : Format) (bytes : List ℕ) → length bytes < 8 → read_record f bytes ≡ none
unfolding read_record
read_record-short f bytes h = ground (arith, h)

read_record-torn_body :
    (f : Format) (bs : List ℕ) (j : ℕ)
    → length bs ≤ max_record_size
    → f.checksum bs < 2 ^ 32
    → j < length bs
    → read_record f (take (suc (suc (suc (suc (suc (suc (suc (suc j)))))))) (encode_data f bs))
      ≡ none
unfolding encode_data be_bytes
read_record-torn_body f bs j len small below =
    read_record-encode_data f bs (take j bs) len small
    ∙ read_body-short f (length bs) (f.checksum bs) (take j bs) (omega (arith, length-take j bs))

-- Of a record that is cut short nothing is read.
pub read_record-torn :
    (f : Format) (e : Envelope) (k : ℕ)
    → IsFormat f
    → length (f.marshal e) ≤ max_record_size
    → k < length (record_of f e)
    → read_record f (take k (record_of f e)) ≡ none
read_record-torn f e k ok len h = elim (Bool-cases (ltb k 8)) [
  | inl low ↦
      read_record-short f (take k (record_of f e))
        (omega (arith, length-take k (record_of f e), ltb→lt k 8 low))
  | inr high ↦
      rw (from_eight k (ltb→le k 8 high))
        (behind (k - 8) (omega (arith, h, length-encode_data f (f.marshal e), ltb→le k 8 high)))
]
  where
    from_eight : (m : ℕ) → 8 ≤ m → m ≡ suc (suc (suc (suc (suc (suc (suc (suc (m - 8))))))))
    from_eight m le = omega arith

    behind :
        (j : ℕ)
        → j < length (f.marshal e)
        → read_record f (take (suc (suc (suc (suc (suc (suc (suc (suc j)))))))) (record_of f e))
          ≡ none
    behind j below = read_record-torn_body f (f.marshal e) j len (ok.small (f.marshal e)) below
