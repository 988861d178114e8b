-- ===== src/Common/Cache/Calls.antt =====
-- Calls of the local cache, one after the other.
use gooophira_mp.Prelude.{ℕ, ◌≤◌, Option, List, [], ◌∷◌, length, arith, All, if-cases, match-cases}
use gooophira_mp.Common.Cache.{Cache, remove, mem_get, set, delete, clear, get_or_set}
use gooophira_mp.Common.Cache.Entries.{count, length-remove}
use gooophira_mp.Common.Cache.Fresh.{
  IsCache, remove-IsKept, schedule_save-IsCache, set-IsCache, mem_get-IsCache,
}

-- A call of the cache, with its moment and its random numbers.
pub data Call {ℓ} (V : Type ℓ) : Type ℓ where
  get_call : ℕ → ℕ → Call V
  set_call : ℕ → List ℕ → ℕ → V → Call V
  delete_call : ℕ → Call V
  clear_call : Call V
  get_or_set_call : ℕ → List ℕ → ℕ → Option V → Call V

module _ {ℓ} {V : Type ℓ} where
  unfoldable pub call : Call V → Cache V → Cache V
  call (get_call now key) c = (mem_get now key c).1
  call (set_call now rands key value) c = set now rands key value c
  call (delete_call key) c = delete key c
  call clear_call c = clear c
  call (get_or_set_call now rands key made) c = (get_or_set now rands key made c).1

  unfoldable pub run : List (Call V) → Cache V → Cache V
  run [] c = c
  run (x ∷ xs) c = run xs (call x c)

  -- Random numbers for a sample of one at least.
  abbrev pub HasRands : Call V → Type 0
  HasRands (get_call now key) = 0 ≤ 0
  HasRands (set_call now rands key value) = 1 ≤ length rands
  HasRands (delete_call key) = 0 ≤ 0
  HasRands clear_call = 0 ≤ 0
  HasRands (get_or_set_call now rands key made) = 1 ≤ length rands

  delete-IsCache : (key : ℕ) (c : Cache V) → IsCache c → IsCache (delete key c)
  unfolding delete
  delete-IsCache key c h =
      schedule_save-IsCache (record c { mem = remove key c.mem })
        (record {
          kept = remove-IsKept key c.counter c.mem h.kept;
          within = omega (arith, h.within, length-remove key c.mem);
        })

  clear-IsCache : (c : Cache V) → IsCache (clear c)
  unfolding clear count
  clear-IsCache c =
      if-cases IsCache c.persist
        (λ a. record {
          kept = record { distinct = λ key. omega arith; counted = tt };
          within = omega arith;
        })
        (λ a. record {
          kept = record { distinct = λ key. omega arith; counted = tt };
          within = omega arith;
        })

  get_or_set-IsCache :
      (now : ℕ) (rands : List ℕ) (key : ℕ) (made : Option V) (c : Cache V)
      → 1 ≤ length rands
      → IsCache c
      → IsCache ((get_or_set now rands key made c).1)
  unfolding get_or_set
  get_or_set-IsCache now rands key made c some_rands h =
      let d = (mem_get now key c).1 in
      let kept = mem_get-IsCache now key c h in
      let P : Option V × Cache V → Type ℓ = λ r. IsCache (r.1) in
      match-cases P (mem_get now key c).0
        (λ missed.
          match-cases P made (λ a. kept) (λ v a. set-IsCache now rands key v d some_rands kept))
        (λ v hit. kept)

  call-IsCache : (x : Call V) (c : Cache V) → HasRands x → IsCache c → IsCache (call x c)
  unfolding call
  call-IsCache (get_call now key) c r h = mem_get-IsCache now key c h
  call-IsCache (set_call now rands key value) c r h = set-IsCache now rands key value c r h
  call-IsCache (delete_call key) c r h = delete-IsCache key c h
  call-IsCache clear_call c r h = clear-IsCache c
  call-IsCache (get_or_set_call now rands key made) c r h =
      get_or_set-IsCache now rands key made c r h

  -- Any calls keep a cache within its bound on entries, with one entry for a key, and every access
  -- counted, when eviction has a random number to draw its sample with.
  pub run-IsCache :
      (xs : List (Call V)) (c : Cache V) → All HasRands xs → IsCache c → IsCache (run xs c)
  unfolding run
  run-IsCache [] c r h = h
  run-IsCache (x ∷ xs) c (r, rs) h = run-IsCache xs (call x c) rs (call-IsCache x c r h)
