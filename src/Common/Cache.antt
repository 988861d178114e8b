-- ===== src/Common/Cache.antt =====
-- The local cache of internal/common/cache/cache.go. A key is a number; the map is a list of entries
-- with different keys, in the order of its last iteration; a moment is a millisecond. The moments
-- and the random numbers are arguments. Redis and the file of the cache are left out.
pub mod Entries
pub mod Fresh
pub mod Found
pub mod Calls
mod Tests
use gooophira_mp.Prelude.{
  ℕ, suc, zero, ◌+◌, ◌-◌, ◌%◌, Bool, true, false, ◌&&◌, not, Option, none, some, List, [], ◌∷◌,
  ◌++◌, ltb, leb, ◌==◌, if◌then◌else◌, length, take,
}

abbrev pub lru_sample_size : ℕ
lru_sample_size = 5

pub record MemEntry {ℓ} (V : Type ℓ) : Type ℓ where
  pub value : V
  pub cached_at : ℕ
  pub last_accessed : ℕ

-- A `ttl` of 0 never expires. `pending` waits for the save timer.
pub record Cache {ℓ} (V : Type ℓ) : Type ℓ where
  pub ttl : ℕ
  pub max_mem : ℕ
  pub persist : Bool
  pub mem : List (ℕ × MemEntry V)
  pub pending : Bool
  pub counter : ℕ

-- The sample of the loop: `keys[i]` changes places with the one at the random number, and is taken.
unfoldable pub put_at {ℓ} : {A : Type ℓ} → ℕ → A → List A → List A
put_at i a [] = []
put_at zero a (x ∷ xs) = a ∷ xs
put_at (suc i) a (x ∷ xs) = x ∷ put_at i a xs

unfoldable pub get_at {ℓ} : {A : Type ℓ} → ℕ → A → List A → A
get_at i default [] = default
get_at zero default (x ∷ xs) = x
get_at (suc i) default (x ∷ xs) = get_at i default xs

-- `rand.IntN(n)` is a number below `n`: the argument is taken modulo `n`.
unfoldable pub swap_first {ℓ} : {A : Type ℓ} → ℕ → A → List A → A × List A
swap_first zero x xs = (x, xs)
swap_first (suc j) x xs = (get_at j x xs, put_at j x xs)

unfoldable pub pick {ℓ} : {A : Type ℓ} → List ℕ → List A → List A
pick [] keys = []
pick (r ∷ rands) [] = []
pick (r ∷ rands) (x ∷ xs) =
    let (key, rest) = swap_first (r % suc (length xs)) x xs in key ∷ pick rands rest

module _ {ℓ} {V : Type ℓ} where
  -- `mem[key]`, `delete(mem, key)`, and `mem[key] = e`.
  unfoldable pub find : ℕ → List (ℕ × MemEntry V) → Option (MemEntry V)
  find key [] = none
  find key ((k, e) ∷ mem) = let rest = find key mem in if k == key then some e else rest

  unfoldable pub remove : ℕ → List (ℕ × MemEntry V) → List (ℕ × MemEntry V)
  remove key [] = []
  remove key ((k, e) ∷ mem) = let rest = remove key mem in if k == key then rest else (k, e) ∷ rest

  unfoldable pub store : ℕ → MemEntry V → List (ℕ × MemEntry V) → List (ℕ × MemEntry V)
  store key e mem = (key, e) ∷ remove key mem

  unfoldable pub expired : ℕ → Cache V → ℕ → Bool
  expired now c cached_at = not (c.ttl == 0) && ltb (c.ttl + cached_at) now

  unfoldable pub mem_get : ℕ → ℕ → Cache V → Option V × Cache V
  mem_get now key c = elim (find key c.mem) [
    | none ↦ (none, c)
    | some e ↦ if expired now c e.cached_at then (none, record c { mem = remove key c.mem }) else (
      some e.value,
      record c {
        mem = store key (record e { last_accessed = c.counter + 1 }) c.mem;
        counter = c.counter + 1;
      },
    )
  ]

  unfoldable pub schedule_save : Cache V → Cache V
  schedule_save c = if c.persist then record c { pending = true } else c

  -- The one that was not accessed for longest, of those that were picked. The counter stays below the
  -- bound of an int64, from which `oldestTime` starts.
  unfoldable pub older_of : ℕ × MemEntry V → Option (ℕ × MemEntry V) → ℕ × MemEntry V
  older_of x none = x
  older_of x (some y) = if leb (x.1).last_accessed (y.1).last_accessed then x else y

  unfoldable pub oldest : List (ℕ × MemEntry V) → Option (ℕ × MemEntry V)
  oldest [] = none
  oldest (x ∷ xs) = some (older_of x (oldest xs))

  unfoldable pub evict_if_needed : List ℕ → Cache V → Cache V
  evict_if_needed rands c =
      if leb (length c.mem) c.max_mem
      then c
      else elim (oldest (pick (take lru_sample_size rands) c.mem)) [
        | none ↦ c
        | some x ↦ record c { mem = remove x.0 c.mem }
      ]

  unfoldable pub set : ℕ → List ℕ → ℕ → V → Cache V → Cache V
  set now rands key value c = schedule_save (
      evict_if_needed rands (record c {
        mem =
            store key (record { value = value; cached_at = now; last_accessed = c.counter + 1 })
              c.mem;
        counter = c.counter + 1;
      }))

  unfoldable pub delete : ℕ → Cache V → Cache V
  delete key c = schedule_save (record c { mem = remove key c.mem })

  unfoldable pub clear : Cache V → Cache V
  clear c = if c.persist then record c { mem = []; pending = false } else record c { mem = [] }

  -- `GetOrSet` of a single caller: the factory gives a value or an error.
  unfoldable pub get_or_set : ℕ → List ℕ → ℕ → Option V → Cache V → Option V × Cache V
  get_or_set now rands key made c =
      let (found, d) = mem_get now key c in
      elim found [
        | some v ↦ (some v, d)
        | none ↦ elim made [ none ↦ (none, d) | some v ↦ (some v, set now rands key v d) ]
      ]

  unfoldable pub near_expiry : ℕ → ℕ → Cache V → List (ℕ × MemEntry V) → List ℕ
  near_expiry now remaining c [] = []
  near_expiry now remaining c ((k, e) ∷ mem) =
      let rest = near_expiry now remaining c mem in
      if not (c.ttl == 0) && leb (c.ttl + e.cached_at) (now + remaining) then k ∷ rest else rest

  unfoldable pub keys_near_expiry : ℕ → ℕ → Cache V → List ℕ
  keys_near_expiry now remaining c = near_expiry now remaining c c.mem
