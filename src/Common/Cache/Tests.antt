-- ===== src/Common/Cache/Tests.antt =====
-- The cache on concrete inputs.
use gooophira_mp.Prelude.{ℕ, ◌≡◌, refl, true, false, some, List, [], ◌∷◌, arith, All}
use gooophira_mp.Common.Cache.{Cache, mem_get, set, expired}
use gooophira_mp.Common.Cache.Entries.{count}
use gooophira_mp.Common.Cache.Fresh.{IsCache}
use gooophira_mp.Common.Cache.Found.{mem_get-set}
use gooophira_mp.Common.Cache.Calls.{
  Call, get_call, set_call, delete_call, get_or_set_call, HasRands, run, run-IsCache,
}

-- Full, with two entries.
abbrev full_cache : Cache ℕ
full_cache = record {
  ttl = 1000;
  max_mem = 2;
  persist = true;
  mem =
      (7, record { value = 70; cached_at = 5; last_accessed = 1 })
      ∷ (8, record { value = 80; cached_at = 6; last_accessed = 2 })
      ∷ [];
  pending = false;
  counter = 2;
}

full_cache-IsCache : IsCache full_cache
unfolding count
full_cache-IsCache = record {
  kept = record { distinct = λ key. ground arith; counted = (omega arith, (omega arith, tt)) };
  within = omega arith;
}

abbrev rands : List ℕ
rands = 2 ∷ 1 ∷ 0 ∷ 4 ∷ 9 ∷ []

not_expired : expired 900 full_cache 100 ≡ false
unfolding expired
not_expired = refl

mem_get-set_example : (mem_get 900 9 (set 100 rands 9 90 full_cache)).0 ≡ some 90
mem_get-set_example =
    mem_get-set 100 900 rands 9 90 full_cache full_cache-IsCache (omega arith) (omega arith)
      not_expired

abbrev calls : List (Call ℕ)
calls =
    set_call 100 rands 9 90
    ∷ get_call 1200 7
    ∷ get_or_set_call 1300 rands 7 (some 71)
    ∷ delete_call 9
    ∷ []

calls-HasRands : All HasRands calls
calls-HasRands = (omega arith, (omega arith, (omega arith, (omega arith, tt))))

run-IsCache_example : IsCache (run calls full_cache)
run-IsCache_example = run-IsCache calls full_cache calls-HasRands full_cache-IsCache
