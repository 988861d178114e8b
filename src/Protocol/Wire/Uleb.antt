-- ===== src/Protocol/Wire/Uleb.antt =====
-- LEB128 both ways: `uleb_bytes` and the loop of `read_uleb`.
use mathlib.Core.WellFounded.{Acc}
use native.Mathlib.Nat.{div-add-mod, mod-eq_of_lt}
use native.Mathlib.Numerals.{towards_suc}
use gooophira_mp.Prelude.{
  ℕ, zero, suc, ◌+◌, ◌*◌, ◌/◌, ◌%◌, ◌^◌, ◌≤◌, ◌<◌, bit_and, bit_or, ◌≡◌, ap, ◌∙◌, List, [], ◌∷◌,
  ◌++◌, length, length-append, All, arith, dec_lt, append_assoc, false, ◌==◌, ltb, if◌then◌else◌,
}
use gooophira_mp.Prelude.Bits.{low_seven, mark_bit, high_bit, bit_or-shift}
use gooophira_mp.Protocol.Monad.{ok, ◌>>=◌}
use gooophira_mp.Protocol.Reader.{read_uleb_loop, read_uleb, merge_group}
use gooophira_mp.Protocol.Writer.{uleb_loop, uleb_bytes}
use gooophira_mp.Protocol.Wire.{at, Reads}
use gooophira_mp.Protocol.Wire.Bytes.{read_u8-Reads}

-- The groups of seven bits of `v`, lowest first, for `v` below 128 ^ (k + 1).
unfoldable pub groups : ℕ → ℕ → List ℕ
groups zero v = v ∷ []
groups (suc k) v =
    let more = groups k (v / 128) in if ltb v 128 then v ∷ [] else (v % 128 + 128) ∷ more

marked : (v : ℕ) → bit_or (bit_and v 0x7f % 256) 0x80 ≡ v % 128 + 128
marked v = rw (low_seven v) (mark_bit (v % 128 % 256) (omega arith) ∙ omega arith)

uleb_loop-groups : (k v : ℕ) (w : Acc ◌<◌ v) → v < 128 ^ suc k → uleb_loop v w ≡ groups k v
unfolding uleb_loop groups
uleb_loop-groups zero v (Acc.intro _ smaller) h = ground arith
uleb_loop-groups (suc k) v (Acc.intro _ smaller) h =
    grind
      (arith, marked v, λ (w : Acc ◌<◌ (v / 2 ^ 7)). uleb_loop-groups k (v / 2 ^ 7) w (omega arith))

abbrev pub IsU64 : ℕ → Type 0
IsU64 v = v < 2 ^ 64

pub uleb_bytes-groups : (v : ℕ) → IsU64 v → uleb_bytes v ≡ groups 9 v
unfolding uleb_bytes
uleb_bytes-groups v h = uleb_loop-groups 9 v _ (omega arith)

-- Five groups hold a uint32.
pub uleb_bytes-groups_u32 : (v : ℕ) → v < 2 ^ 32 → uleb_bytes v ≡ groups 4 v
unfolding uleb_bytes
uleb_bytes-groups_u32 v h = uleb_loop-groups 4 v _ (omega arith)

pub groups-IsByte : (k v : ℕ) → v < 128 ^ suc k → All (λ b. b < 256) (groups k v)
unfolding groups
groups-IsByte zero v h = omega arith
groups-IsByte (suc k) v h = ground (arith, groups-IsByte k (v / 128) (omega arith))

pub length-groups : (k v : ℕ) → (1 ≤ length (groups k v)) × (length (groups k v) ≤ k + 1)
unfolding groups
length-groups zero v = omega arith
length-groups (suc k) v = ground (arith, length-groups k (v / 128))

shift_seven : (s : ℕ) → 2 ^ (s + 7) ≡ 128 * 2 ^ s
shift_seven s = simp towards_suc (omega arith)

-- A shifted number is its lowest seven bits, shifted, and the others, shifted by seven more.
pub low_and_rest : (v shift : ℕ) → v * 2 ^ shift ≡ v % 128 * 2 ^ shift + v / 128 * 2 ^ (shift + 7)
low_and_rest v shift =
    let scale : ℕ → ℕ = λ k. k * 2 ^ shift in
    let wider = ap (λ (p : ℕ). v / 128 * p) (shift_seven shift) in
    omega (arith, ap scale (div-add-mod v 128), wider)

-- `result |= group << shift` adds, where `result` has no bit from `shift` on and the sum fits.
merge_group-add :
    (result b shift : ℕ)
    → result < 2 ^ shift
    → IsU64 (result + b % 128 * 2 ^ shift)
    → merge_group result b shift ≡ result + b % 128 * 2 ^ shift
unfolding merge_group
merge_group-add result b shift low fits =
    rw (low_seven b, mod-eq_of_lt (small result (b % 128 * 2 ^ shift) fits))
      (bit_or-shift shift result (b % 128) low)
  where
    small : (x y : ℕ) → IsU64 (x + y) → y < 2 ^ 64
    small x y h = omega arith

-- Seven more bits take `acc` no further than seven more places.
pub group_below : (v acc s : ℕ) → acc < 2 ^ s → acc + v % 128 * 2 ^ s < 2 ^ (s + 7)
group_below v acc s h = rw (shift_seven s) (grind arith)

last_round :
    (fuel v acc shift : ℕ) (pre post : List ℕ)
    → v < 128
    → acc < 2 ^ shift
    → IsU64 (acc + v * 2 ^ shift)
    → read_uleb_loop (suc fuel) acc shift (at pre (v ∷ post))
      ≡ ok (acc + v * 2 ^ shift, at (pre ++ v ∷ []) post)
unfolding read_uleb_loop
last_round fuel v acc shift pre post hv low fits =
    rw (read_u8-Reads v pre post, ◌>>=◌, high_bit v (omega arith))
      (ground (arith, merge_group-add acc v shift))

inner_round :
    (fuel g acc shift : ℕ) (pre post : List ℕ)
    → g < 128
    → acc < 2 ^ shift
    → IsU64 (acc + g * 2 ^ shift)
    → read_uleb_loop (suc fuel) acc shift (at pre ((g + 128) ∷ post))
      ≡ read_uleb_loop fuel (acc + g * 2 ^ shift) (shift + 7) (at (pre ++ (g + 128) ∷ []) post)
unfolding read_uleb_loop
inner_round fuel g acc shift pre post hg low fits = rw (
  read_u8-Reads (g + 128) pre post,
  ◌>>=◌,
  high_bit (g + 128) (omega arith),
  marked_on,
  merge_group-add acc (g + 128) shift low (same_group fits),
  same,
)
  where
    same : (g + 128) % 128 ≡ g
    same = omega arith

    marked_on : ((g + 128) / 128 * 128 == 0) ≡ false
    marked_on = ground arith

    same_group : IsU64 (acc + g * 2 ^ shift) → IsU64 (acc + (g + 128) % 128 * 2 ^ shift)
    same_group h = rw same h

pub groups_small : (k v : ℕ) → v < 128 → groups (suc k) v ≡ v ∷ []
unfolding groups
groups_small k v h = ground arith

pub groups_large : (k v : ℕ) → 128 ≤ v → groups (suc k) v ≡ (v % 128 + 128) ∷ groups k (v / 128)
unfolding groups
groups_large k v h = ground arith

-- The loop reads the groups of `v`, which count from bit `shift` on.
read_uleb_loop-groups :
    (k fuel v acc shift : ℕ) (pre post : List ℕ)
    → length (groups k v) ≤ fuel
    → v < 128 ^ suc k
    → acc < 2 ^ shift
    → IsU64 (acc + v * 2 ^ shift)
    → read_uleb_loop fuel acc shift (at pre (groups k v ++ post))
      ≡ ok (acc + v * 2 ^ shift, at (pre ++ groups k v) post)
read_uleb_loop-groups k zero v acc shift pre post hf hv low fits =
    absurd (omega (arith, length-groups k v))
read_uleb_loop-groups zero (suc fuel) v acc shift pre post hf hv low fits =
    unfold groups in last_round fuel v acc shift pre post (omega arith) low fits
read_uleb_loop-groups (suc k) (suc fuel) v acc shift pre post hf hv low fits = elim (dec_lt v 128) [
  | yes small ↦ rw (groups_small k v small) (last_round fuel v acc shift pre post small low fits)
  | no large ↦
      let mark : List ℕ = (v % 128 + 128) ∷ [] in
      let sum : ℕ = acc + v % 128 * 2 ^ shift in
      let whole : acc + v * 2 ^ shift ≡ sum + v / 128 * 2 ^ (shift + 7) =
        omega (arith, low_and_rest v shift) in
      let within : sum < 2 ^ (shift + 7) = group_below v acc shift low in
      let shorter : length (groups k (v / 128)) ≤ fuel =
        omega (arith, ap length (groups_large k v (omega arith))) in
      rw (groups_large k v (omega arith)) (
        inner_round fuel (v % 128) acc shift pre _ (omega arith) low (omega arith)
        ∙ read_uleb_loop-groups k fuel (v / 128) sum (shift + 7) (pre ++ mark) post shorter
            (omega arith) within (omega arith)
        ∙ cc (whole, append_assoc pre mark (groups k (v / 128))))
]

-- `read_uleb` reads back the uint64 that `write_uleb` wrote.
pub read_uleb-Reads : (v : ℕ) → IsU64 v → Reads read_uleb (groups 9 v) v
unfolding read_uleb
read_uleb-Reads v h pre post =
    let long : length (groups 9 v) ≤ length (pre ++ (groups 9 v ++ post)) + 1 =
      omega (arith, length-append pre (groups 9 v ++ post), length-append (groups 9 v) post) in
    read_uleb_loop-groups 9 _ v 0 0 pre post long (omega arith) (omega arith) (omega arith)
    ∙ cc (plain v)
  where
    plain : (n : ℕ) → 0 + n * 2 ^ 0 ≡ n
    plain n = omega arith
