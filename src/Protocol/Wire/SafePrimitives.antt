-- ===== src/Protocol/Wire/SafePrimitives.antt =====
-- The reads of BinaryReader are safe on any buffer.
use gooophira_mp.Prelude.{
  ℕ, zero, suc, ◌+◌, ◌*◌, ◌^◌, ◌≤◌, ◌<◌, ◌≡◌, refl, ap, arith, List, [], ◌∷◌, Option, none, some,
  length, All, ltb, leb, true, ◌==◌, Bool-cases, ◌⊎◌, inl, inr, take, drop, get_elem?, length-take,
  length-drop, bit_and,
}
use native.Mathlib.Nat.{pow-suc}
use gooophira_mp.Prelude.Int.{IsI8, IsI32, to_i8, to_i32, to_i8-IsI8, to_i32-IsI32}
use gooophira_mp.Protocol.Monad.{M, ok, panic, ◌>>=◌, pure, binary_unexpected_eof}
use gooophira_mp.Protocol.Reader.{
  BinaryReader, ensure, slice, index, take_bytes, read_u8, read_i8, read_bool, little_endian,
  read_u16, read_u32, read_i32, read_f32, read_uleb_loop, read_uleb, read_len, read_string,
  read_varchar, read_option, read_items, read_array, make_slice, max_int32, merge_group,
}
use gooophira_mp.Protocol.Wire.{IsByte}
use gooophira_mp.Protocol.Wire.Primitives.{IsText}
use gooophira_mp.Protocol.Wire.Safe.{
  Outcome, Safe, Outcome-weaken, Safe-pure, Safe-if, Safe-bind, Safe-unless, Safe-mono,
}

abbrev pub Any {ℓ} : {A : Type ℓ} → A → Type 0
Any a = Unit {0}

All-drop : (n : ℕ) (xs : List ℕ) → All IsByte xs → All IsByte (drop n xs)
All-drop zero xs h = h
All-drop (suc n) [] h = tt
All-drop (suc n) (x ∷ xs) (h, hs) = All-drop n xs hs

All-take : (n : ℕ) (xs : List ℕ) → All IsByte xs → All IsByte (take n xs)
All-take zero xs h = tt
All-take (suc n) [] h = tt
All-take (suc n) (x ∷ xs) (h, hs) = (h, All-take n xs hs)

get_elem?-IsByte :
    (xs : List ℕ) (i : ℕ)
    → All IsByte xs
    → i < length xs
    → (b : ℕ) × (get_elem? xs i ≡ some b) × IsByte b
get_elem?-IsByte [] i h lt = absurd (omega arith)
get_elem?-IsByte (x ∷ xs) zero (h, hs) lt = (x, refl, h)
get_elem?-IsByte (x ∷ xs) (suc i) (h, hs) lt = get_elem?-IsByte xs i hs (omega arith)

abbrev IsRun : ℕ → List ℕ → Type 0
IsRun n bs = All IsByte bs × (length bs ≡ n)

pub take_bytes-Safe : (n : ℕ) → Safe (IsRun n) (take_bytes n)
unfolding take_bytes ensure slice
take_bytes-Safe n = record {
  run = λ r b h. elim (Bool-cases (ltb (length r.buf) (r.offset + n))) [
    | inl short ↦ rw (short, ensure, ◌>>=◌) tt
    | inr enough ↦
        let fits : r.offset + n ≤ length r.buf = ground arith in
        let inside : leb (r.offset + n) (length r.buf) ≡ true = ground arith in
        rw (enough, ensure, ◌>>=◌, inside, slice)
          (
            (
              All-take n (drop r.offset r.buf) (All-drop r.offset r.buf b),
              omega (arith, length-take n (drop r.offset r.buf), length-drop r.offset r.buf),
            ),
            refl,
            omega arith,
            omega arith,
          )
  ];
}

-- One byte is read and passed, or the buffer is at its end.
read_u8_cases :
    (r : BinaryReader)
    → All IsByte r.buf
    → (read_u8 r ≡ panic binary_unexpected_eof)
      ⊎ ((b : ℕ) × (read_u8 r ≡ ok (b, record r { offset = r.offset + 1 }))
          × (r.offset < length r.buf)
          × IsByte b)
unfolding read_u8 ensure index
read_u8_cases r h = elim (Bool-cases (ltb (length r.buf) (r.offset + 1))) [
  | inl short ↦ inl (rw (short, ensure, ◌>>=◌) refl)
  | inr enough ↦
      let within : r.offset < length r.buf = ground arith in
      let (b, found, is_byte) = get_elem?-IsByte r.buf r.offset h within in
      inr (b, rw (enough, ensure, ◌>>=◌, found, index) refl, within, is_byte)
]

pub read_u8-Safe : Safe IsByte read_u8
read_u8-Safe = record {
  run = λ r h o. elim (read_u8_cases r h) [
    | inl eof ↦ rw eof tt
    | inr (b, found, within, is_byte) ↦ rw found (is_byte, refl, omega arith, omega arith)
  ];
}

pub read_i8-Safe : Safe IsI8 read_i8
unfolding read_i8
read_i8-Safe = Safe-bind _ _ _ _ read_u8-Safe (λ b h. Safe-pure _ (to_i8 b) (to_i8-IsI8 b h))

pub read_bool-Safe : Safe Any read_bool
unfolding read_bool
read_bool-Safe = Safe-bind _ _ _ _ read_u8-Safe (λ b h. Safe-pure _ (b == 1) tt)

little_endian-lt : (bs : List ℕ) → All IsByte bs → little_endian bs < 256 ^ length bs
unfolding little_endian
little_endian-lt [] h = omega arith
little_endian-lt (b ∷ bs) (h, hs) = omega (arith, little_endian-lt bs hs, pow-suc 256 (length bs))

-- A run of `n` bytes as a number.
fixed-Safe : (n : ℕ) → Safe (λ v. v < 256 ^ n) (take_bytes n >>= λ bs. pure (little_endian bs))
fixed-Safe n =
    Safe-bind _ _ _ _ (take_bytes-Safe n)
      (λ bs h. Safe-pure _ (little_endian bs) (rw h.1 at (little_endian-lt bs h.0)))

pub read_u16-Safe : Safe (λ v. v < 2 ^ 16) read_u16
unfolding read_u16
read_u16-Safe = fixed-Safe 2

pub read_u32-Safe : Safe (λ v. v < 2 ^ 32) read_u32
unfolding read_u32
read_u32-Safe = fixed-Safe 4

pub read_i32-Safe : Safe IsI32 read_i32
unfolding read_i32
read_i32-Safe = Safe-bind _ _ _ _ read_u32-Safe (λ u h. Safe-pure _ (to_i32 u) (to_i32-IsI32 u h))

pub read_f32-Safe : Safe (λ v. v < 2 ^ 32) read_f32
unfolding read_f32
read_f32-Safe = read_u32-Safe

-- Each round passes a byte, so the rounds that are left cover the bytes that are left.
read_uleb_loop-Outcome :
    (fuel result shift : ℕ) (r : BinaryReader)
    → All IsByte r.buf
    → r.offset ≤ length r.buf
    → length r.buf < fuel + r.offset
    → Outcome Any r (read_uleb_loop fuel result shift r)
unfolding read_uleb_loop
read_uleb_loop-Outcome zero result shift r h o f = absurd (omega arith)
read_uleb_loop-Outcome (suc fuel) result shift r h o f = elim (read_u8_cases r h) [
  | inl eof ↦ rw (eof, ◌>>=◌) tt
  | inr (b, found, within, is_byte) ↦
      let next : BinaryReader = record r { offset = r.offset + 1 } in
      let rest : Outcome Any r (read_uleb_loop fuel (merge_group result b shift) (shift + 7) next) =
        Outcome-weaken Any r next refl (omega arith) _ (
          read_uleb_loop-Outcome fuel (merge_group result b shift) (shift + 7) next h (omega arith)
            (omega arith)) in
      elim (Bool-cases (bit_and b 0x80 == 0)) [
        | inl last ↦ rw (found, ◌>>=◌, last) (tt, refl, omega arith, omega arith)
        | inr more ↦ rw (found, ◌>>=◌, more) rest
      ]
]

-- `read_uleb` ends on every buffer.
pub read_uleb-Safe : Safe Any read_uleb
unfolding read_uleb
read_uleb-Safe = record {
  run = λ r h o. read_uleb_loop-Outcome (length r.buf + 1) 0 0 r h o (omega arith);
}

pub read_len-Safe : Safe (λ n. n ≤ max_int32) read_len
unfolding read_len
read_len-Safe =
    Safe-bind _ _ _ _ read_uleb-Safe
      (λ v h. Safe-unless _ (ltb max_int32 v) _ (λ fits. Safe-pure _ v (ground arith)))

pub read_string-Safe : Safe IsText read_string
unfolding read_string
read_string-Safe =
    Safe-bind _ _ _ _ read_len-Safe
      (λ n small. Safe-mono _ _ (λ s run. (run.0, omega arith)) (take_bytes-Safe n))

pub read_varchar-Safe :
    (max_len : ℕ) → Safe (λ s. All IsByte s × (length s ≤ max_len)) (read_varchar max_len)
unfolding read_varchar
read_varchar-Safe max_len = Safe-bind _ _ _ _ read_len-Safe (λ n small.
    Safe-unless _ (ltb max_len n) _
      (λ fits. Safe-mono _ _ (λ s run. (run.0, ground arith)) (take_bytes-Safe n)))

make_slice-Safe : (n : ℕ) → n ≤ max_int32 → Safe Any (make_slice n)
unfolding make_slice
make_slice-Safe n small = record {
  run = λ r b h.
      let fits : leb (n * 2 ^ 16) (2 ^ 48) ≡ true = ground arith in
      rw (fits, make_slice) (tt, refl, omega arith, h);
}

module _ {ℓ} {A : Type ℓ} (P : A → Type 0) (d : M BinaryReader A) (s : Safe P d) where
  abbrev IsSomeOf : Option A → Type 0
  IsSomeOf none = Unit {0}
  IsSomeOf (some a) = P a

  pub read_option-Safe : Safe IsSomeOf (read_option d)
  unfolding read_option
  read_option-Safe = Safe-bind _ _ _ _ read_bool-Safe (λ present _.
      Safe-if _ present (Safe-bind _ _ _ _ s (λ a p. Safe-pure _ (some a) p)) (Safe-pure _ none tt))

  read_items-Safe : (n : ℕ) → Safe (λ xs. All P xs × (length xs ≡ n)) (read_items d n)
  unfolding read_items
  read_items-Safe zero = Safe-pure _ [] (tt, refl)
  read_items-Safe (suc n) = Safe-bind _ _ _ _ s (λ a p.
      Safe-bind _ _ _ _ (read_items-Safe n) (λ xs q. Safe-pure _ (a ∷ xs) ((p, q.0), ap suc q.1)))

  pub read_array-Safe : Safe (λ xs. All P xs × (length xs ≤ max_int32)) (read_array d)
  unfolding read_array
  read_array-Safe = Safe-bind _ _ _ _ read_len-Safe (λ n small.
      Safe-bind _ _ _ _ (make_slice-Safe n small)
        (λ _ _. Safe-mono _ _ (λ xs q. (q.0, omega arith)) (read_items-Safe n)))
