-- ===== src/Protocol/Wire/Maps.antt =====
-- `write_sorted_map` and `read_map` fit together. A map is written by ascending keys, so the list
-- of its entries in that order is what is read back.
use gooophira_mp.Prelude.{
  suc, ◌≤◌, ◌≡◌, refl, ap, false, some, List, [], ◌∷◌, ◌++◌, append_assoc, append-nil, length, All,
  All-mono, All-append,
}
use gooophira_mp.Prelude.Int.{ℤ, leb_ℤ, eqb_ℤ, leb_ℤ_refl, leb_ℤ_total, lt_ℤ_trans}
use gooophira_mp.Protocol.Monad.{M}
use gooophira_mp.Protocol.Reader.{BinaryReader, max_int32}
use gooophira_mp.Protocol.Writer.{BinaryWriter}
use gooophira_mp.Protocol.Composite.{
  insert_key, sort, keys, lookup, insert, read_entries, read_map, write_value, write_entries,
  write_sorted_map,
}
use gooophira_mp.Protocol.Wire.{Codec, seq, done}
use gooophira_mp.Protocol.Wire.Primitives.{len}

module _ {ℓ} {V : Type ℓ} where
  -- The keys of `m` lie above `k`, and ascend.
  abbrev pub Above : ℤ → List (ℤ × V) → Type 0
  Above k [] = Unit {0}
  Above k ((j, v) ∷ m) = (leb_ℤ j k ≡ false) × Above j m

  abbrev pub IsAscending : List (ℤ × V) → Type 0
  IsAscending [] = Unit {0}
  IsAscending ((k, v) ∷ m) = Above k m

  Above-lower : (i k : ℤ) (m : List (ℤ × V)) → leb_ℤ k i ≡ false → Above k m → Above i m
  Above-lower i k [] h a = tt
  Above-lower i k ((j, v) ∷ m) h (a, rest) = (lt_ℤ_trans i k j h a, rest)

  insert_key-first : (k : ℤ) (m : List (ℤ × V)) → Above k m → insert_key k (keys m) ≡ k ∷ keys m
  unfolding insert_key
  insert_key-first k [] a = refl
  insert_key-first k ((j, v) ∷ m) (a, rest) = rw (leb_ℤ_total j k a) refl

  Above→IsAscending : (k : ℤ) (m : List (ℤ × V)) → Above k m → IsAscending m
  Above→IsAscending k [] a = tt
  Above→IsAscending k ((j, v) ∷ m) (_, rest) = rest

  sort-keys : (m : List (ℤ × V)) → IsAscending m → sort (keys m) ≡ keys m
  unfolding sort
  sort-keys [] a = refl
  sort-keys ((k, v) ∷ m) a = rw (sort-keys m (Above→IsAscending k m a)) (insert_key-first k m a)

  -- A key below all those of `m` is none of them.
  Above-apart : (k : ℤ) (m : List (ℤ × V)) → Above k m → All (λ e. eqb_ℤ k e.0 ≡ false) m
  Above-apart k [] a = tt
  Above-apart k ((j, v) ∷ m) (a, rest) =
      (rw (a, leb_ℤ_total j k a) refl, Above-apart k m (Above-lower k j m a rest))

  lookup-All : (m : List (ℤ × V)) → IsAscending m → All (λ e. lookup e.0 m ≡ some e.1) m
  unfolding lookup
  lookup-All [] a = tt
  lookup-All ((k, v) ∷ m) a =
      (rw (leb_ℤ_refl k) refl, zip m (Above-apart k m a) (lookup-All m (Above→IsAscending k m a)))
    where
      zip :
          (xs : List (ℤ × V))
          → All (λ e. eqb_ℤ k e.0 ≡ false) xs
          → All (λ e. lookup e.0 m ≡ some e.1) xs
          → All (λ e. lookup e.0 ((k, v) ∷ m) ≡ some e.1) xs
      zip [] p q = tt
      zip (x ∷ xs) (p, ps) (q, qs) = (rw p q, zip xs ps qs)

  insert_last :
      (k : ℤ) (v : V) (out : List (ℤ × V))
      → All (λ e. leb_ℤ k e.0 ≡ false) out
      → insert k v out ≡ out ++ (k, v) ∷ []
  unfolding insert
  insert_last k v [] h = refl
  insert_last k v ((j, w) ∷ out) (h, hs) = rw (leb_ℤ_total k j h, h, insert_last k v out hs) refl

  length-keys : (m : List (ℤ × V)) → length (keys m) ≡ length m
  length-keys [] = refl
  length-keys ((k, v) ∷ m) = ap suc (length-keys m)

module _ {ℓ} {V : Type ℓ} (encode_k : ℤ → M BinaryWriter (Unit {0}))
    (encode_v : V → M BinaryWriter (Unit {0})) (decode_k : M BinaryReader ℤ)
    (decode_v : M BinaryReader V) where
  abbrev EntryCodec : ℤ × V → Type ℓ
  EntryCodec e = Codec (encode_k e.0) decode_k e.0 × Codec (encode_v e.1) decode_v e.1

  entries :
      (m rest out : List (ℤ × V))
      → All EntryCodec rest
      → All (λ e. lookup e.0 m ≡ some e.1) rest
      → IsAscending rest
      → All (λ e. Above e.0 rest) out
      → Codec
          (write_entries encode_k encode_v m (keys rest))
          (read_entries decode_k decode_v (length rest) out)
          (out ++ rest)
  unfolding write_entries read_entries write_value
  entries m [] out c l a o = rw (append-nil out) (done out)
  entries m ((k, v) ∷ rest) out ((ck, cv), c) (l, ls) a o = rw l (
      seq _ ck (
        seq _ cv (
          rw (insert_last k v out (All-mono out (λ e p. p.0) o), ← regroup)
            (entries m rest (out ++ (k, v) ∷ []) c ls (Above→IsAscending k rest a) below))))
    where
      regroup : (out ++ (k, v) ∷ []) ++ rest ≡ out ++ (k, v) ∷ rest
      regroup = append_assoc out ((k, v) ∷ []) rest

      below : All (λ e. Above e.0 rest) (out ++ (k, v) ∷ [])
      below =
          All-append (λ e. Above e.0 rest) out ((k, v) ∷ [])
            (All-mono out (λ e p. Above-lower e.0 k rest p.0 p.1) o) (a, tt)

  pub sorted_map :
      (m : List (ℤ × V))
      → IsAscending m
      → All EntryCodec m
      → length m ≤ max_int32
      → Codec (write_sorted_map encode_k encode_v m) (read_map decode_k decode_v) m
  unfolding write_sorted_map read_map
  sorted_map m a c fits =
      rw (sort-keys m a, length-keys m)
        (seq _ (len (length m) fits) (entries m m [] c (lookup-All m a) a tt))
