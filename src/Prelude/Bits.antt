-- ===== src/Prelude/Bits.antt =====
-- Masks, shifts and disjunctions as arithmetic.
use Prim.Native.Nat.{
  ℕ, zero, suc, ◌+◌, ◌*◌, ◌/◌, ◌%◌, ◌^◌, ◌≤◌, ◌<◌, min, max, bit_and, bit_or, digits,
  bit_or-bitwise, bit_and-bitwise,
}
use mathlib.Core.Path.{◌≡◌, refl, ap, ◌∙◌}
use mathlib.Core.Bool.{Bool, true}
use native.Mathlib.Omega.{arith}
use native.Mathlib.Nat.{pow-suc, div-add-mod, add-mul-mod_self_right, mod-eq_of_lt, mod-lt}
use gooophira_mp.Prelude.{false, if◌then◌else◌, ◌==◌, ==_iff}

-- A test of every number under a bound, run by evaluation.
unfoldable pub all_below : ℕ → (ℕ → Bool) → Bool
all_below zero test = true
all_below (suc bound) test = if test bound then all_below bound test else false

pub all_below_sound :
    (bound : ℕ) (test : ℕ → Bool) (x : ℕ) → all_below bound test ≡ true → x < bound → test x ≡ true
unfolding all_below
all_below_sound zero test x passed below = absurd (omega arith)
all_below_sound (suc bound) test x passed below = ground (arith, all_below_sound bound test x)

low_table : all_below 256 (λ b. bit_and b 0x7f == b % 128) ≡ true
unfolding all_below
low_table = refl

high_table : all_below 256 (λ b. bit_and b 0x80 == b / 128 * 128) ≡ true
unfolding all_below
high_table = refl

mark_table : all_below 128 (λ b. bit_or b 0x80 == b + 128) ≡ true
unfolding all_below
mark_table = refl

-- `b & 0x7f`, `b & 0x80` and `b | 0x80` on a byte.
pub low_bits : (b : ℕ) → b < 256 → bit_and b 0x7f ≡ b % 128
low_bits b h = (==_iff _ _).0 (all_below_sound 256 _ b low_table h)

pub high_bit : (b : ℕ) → b < 256 → bit_and b 0x80 ≡ b / 128 * 128
high_bit b h = (==_iff _ _).0 (all_below_sound 256 _ b high_table h)

pub mark_bit : (b : ℕ) → b < 128 → bit_or b 0x80 ≡ b + 128
mark_bit b h = (==_iff _ _).0 (all_below_sound 128 _ b mark_table h)

-- The native operations stand for a recursion on fuel over the binary digits; any fuel that the
-- first number does not exceed gives the same result.
module _ (last : ℕ → ℕ) (digit : ℕ → ℕ → ℕ) where
  enough_fuel : (a b n m : ℕ) → a ≤ n → a ≤ m → digits last digit n a b ≡ digits last digit m a b
  enough_fuel zero b zero zero hn hm = refl
  enough_fuel zero b zero (suc m) hn hm = refl
  enough_fuel zero b (suc n) zero hn hm = refl
  enough_fuel zero b (suc n) (suc m) hn hm = refl
  enough_fuel (suc a) b zero m hn hm = absurd (omega arith)
  enough_fuel (suc a) b (suc n) zero hn hm = absurd (omega arith)
  enough_fuel (suc a) b (suc n) (suc m) hn hm =
      let rest = enough_fuel (suc a / 2) (b / 2) n m (omega arith) (omega arith) in
      omega (arith, rest)

pub zero-bit_or : (b : ℕ) → bit_or 0 b ≡ b
zero-bit_or b = bit_or-bitwise 0 b

-- The lowest digit of a disjunction, and of a conjunction.
pub bit_or_step : (a b : ℕ) → bit_or a b ≡ bit_or (a / 2) (b / 2) * 2 + max (a % 2) (b % 2)
bit_or_step zero b = omega (arith, zero-bit_or b, zero-bit_or (b / 2))
bit_or_step (suc a) b =
    let fuel =
      enough_fuel (λ x. x) max (suc a / 2) (b / 2) a (suc a / 2) (omega arith) (omega arith) in
    omega (arith, fuel, bit_or-bitwise (suc a) b, bit_or-bitwise (suc a / 2) (b / 2))

pub bit_and_step : (x y : ℕ) → bit_and x y ≡ min (x % 2) (y % 2) + 2 * bit_and (x / 2) (y / 2)
bit_and_step zero y = omega (arith, bit_and-bitwise 0 y, bit_and-bitwise 0 (y / 2))
bit_and_step (suc x) y =
    let fuel =
      enough_fuel (λ t. 0) min (suc x / 2) (y / 2) x (suc x / 2) (omega arith) (omega arith) in
    omega (arith, fuel, bit_and-bitwise (suc x) y, bit_and-bitwise (suc x / 2) (y / 2))

two-pow : (k : ℕ) → 2 ^ suc k ≡ 2 * 2 ^ k
two-pow k = omega (arith, pow-suc 2 k)

half : (b k : ℕ) → b * 2 ^ suc k / 2 ≡ b * 2 ^ k
half b k = omega (arith, ap (λ (t : ℕ). b * t) (two-pow k))

-- Where the bits of `a` lie below those of `b << k`, `|` is a sum.
pub bit_or-shift : (k a b : ℕ) → a < 2 ^ k → bit_or a (b * 2 ^ k) ≡ a + b * 2 ^ k
bit_or-shift zero a b h =
    let none_below : a ≡ 0 = omega arith in rw none_below (omega (arith, zero-bit_or (b * 1)))
bit_or-shift (suc k) a b h = omega (
  arith,
  two-pow k,
  ap (λ (t : ℕ). b * t) (two-pow k),
  bit_or_step a (b * 2 ^ suc k),
  half b k,
  ap (bit_or (a / 2)) (half b k),
  bit_or-shift k (a / 2) b (omega (arith, two-pow k)),
)

-- A conjunction with zero, by halving as often as a bound on the number allows.
cleared : (bound a : ℕ) → a ≤ bound → bit_and a 0 ≡ 0
cleared zero a le = let none : a ≡ 0 = omega arith in rw none (bit_and-bitwise 0 0)
cleared (suc bound) zero le = bit_and-bitwise 0 0
cleared (suc bound) (suc a) le =
    let higher = cleared bound (suc a / 2) (omega arith) in
    omega (arith, higher, bit_and_step (suc a) 0)

mod_double : (p a : ℕ) → 0 < p → a % (2 * p) ≡ a / 2 % p * 2 + a % 2
mod_double p a h =
    let low : ℕ = a / 2 % p * 2 + a % 2 in
    let split : a ≡ low + a / 2 / p * (2 * p) = omega (arith, div-add-mod (a / 2) p) in
    ap (λ (t : ℕ). t % (2 * p)) split
    ∙ add-mul-mod_self_right low (a / 2 / p) (2 * p)
    ∙ mod-eq_of_lt (omega (arith, mod-lt (a / 2) h))

-- A mask of `k` ones keeps the `k` lowest bits.
pub bit_and-mask : (k a m : ℕ) → m + 1 ≡ 2 ^ k → bit_and a m ≡ a % 2 ^ k
bit_and-mask zero a m h =
    let no_ones : m ≡ 0 = omega arith in rw no_ones (omega (arith, cleared a a (omega arith)))
bit_and-mask (suc k) a m h = omega (
  arith,
  two-pow k,
  ap (◌%◌ a) (two-pow k),
  bit_and_step a m,
  bit_and-mask k (a / 2) (m / 2) (omega (arith, two-pow k)),
  mod_double (2 ^ k) a (omega (arith, two-pow k)),
)

pub low_seven : (v : ℕ) → bit_and v 0x7f ≡ v % 128
low_seven v = bit_and-mask 7 v 0x7f refl
