-- ===== src/Common/Cache/Found.antt =====
-- A value that was just set is found.
use gooophira_mp.Prelude.{
  ℕ, suc, ◌+◌, ◌≤◌, ◌<◌, ◌≡◌, refl, ap, subst, ◌∙◌, false, not, ◌&&◌, inl, inr, some, List, [], ◌∷◌,
  leb, ltb, ◌==◌, if◌then◌else◌, length, take, length-take, arith, All, Bool-cases, if-cases,
  match-cases, ==_refl,
}
use gooophira_mp.Common.Cache.{
  MemEntry, Cache, find, remove, store, expired, mem_get, schedule_save, pick, oldest,
  evict_if_needed, set, lru_sample_size,
}
use gooophira_mp.Common.Cache.Entries.{
  count, count-pick, length-pick, All-pick, All-oldest, oldest-IsLeast, IsLeast, find-remove,
}
use gooophira_mp.Common.Cache.Fresh.{IsCache, stored, evict_if_needed-same}

module _ {ℓ} {V : Type ℓ} where
  -- The entry of another key than the set one, in a sample.
  abbrev IsLatest : ℕ → ℕ → ℕ × MemEntry V → Type 0
  IsLatest key n x = if x.0 == key then (x.1).last_accessed ≡ suc n else (x.1).last_accessed ≤ n

  All-IsLatest :
      (key n t : ℕ) (xs : List (ℕ × MemEntry V))
      → All (IsLatest key n) xs
      → All (IsLeast t) xs
      → t ≡ suc n
      → length xs ≡ count key xs
  unfolding count
  All-IsLatest key n t [] a b same = refl
  All-IsLatest key n t (x ∷ xs) (p, a) (q, b) same = elim (Bool-cases (x.0 == key)) [
    | inl e ↦ rw e (omega (arith, All-IsLatest key n t xs a b same))
    | inr e ↦ absurd (
        omega (
          arith,
          q,
          same,
          subst (λ c. if c then (x.1).last_accessed ≡ suc n else (x.1).last_accessed ≤ n) e p,
        ))
  ]

  -- Of a sample of two at least, the entry that was set last is not the oldest.
  oldest-other :
      (key n : ℕ) (xs : List (ℕ × MemEntry V)) (y : ℕ × MemEntry V)
      → All (IsLatest key n) xs
      → count key xs ≤ 1
      → 2 ≤ length xs
      → oldest xs ≡ some y
      → (y.0 == key) ≡ false
  oldest-other key n xs y a once two found = elim (Bool-cases (y.0 == key)) [
    | inr e ↦ e
    | inl e ↦
        let p = All-oldest (IsLatest key n) xs y a found in
        let last : (y.1).last_accessed ≡ suc n =
          subst (λ c. if c then (y.1).last_accessed ≡ suc n else (y.1).last_accessed ≤ n) e p in
        absurd (
          omega (
            arith,
            two,
            once,
            All-IsLatest key n ((y.1).last_accessed) xs a (oldest-IsLeast xs y found) last,
          ))
  ]

  evict_if_needed-find :
      (rands : List ℕ) (key n : ℕ) (c : Cache V)
      → 2 ≤ length rands
      → 1 ≤ c.max_mem
      → All (IsLatest key n) c.mem
      → count key c.mem ≤ 1
      → find key ((evict_if_needed rands c).mem) ≡ find key c.mem
  unfolding evict_if_needed
  evict_if_needed-find rands key n c some_rands room set_last once =
      let sample = take lru_sample_size rands in
      let P : Cache V → Type ℓ = λ d. find key d.mem ≡ find key c.mem in
      if-cases P (leb (length c.mem) c.max_mem) (λ a. refl)
        (λ over.
          let full : c.max_mem < length c.mem = ground (arith, over) in
          match-cases P (oldest (pick sample c.mem)) (λ a. refl)
            (λ y found. find-remove key y.0 c.mem (
              oldest-other key n (pick sample c.mem) y
                (All-pick (IsLatest key n) sample c.mem set_last)
                (omega (arith, once, count-pick key sample c.mem))
                (length-pick 2 sample c.mem
                  (omega (arith, length-take lru_sample_size rands, some_rands))
                  (omega (arith, full, room)))
                found)))

  stored-IsLatest :
      (key n : ℕ) (mem : List (ℕ × MemEntry V))
      → All (λ x. (x.1).last_accessed ≤ n) mem
      → All (IsLatest key n) (remove key mem)
  unfolding remove
  stored-IsLatest key n [] h = tt
  stored-IsLatest key n (x ∷ mem) (p, h) = elim (Bool-cases (x.0 == key)) [
    | inl e ↦ rw e (stored-IsLatest key n mem h)
    | inr e ↦ rw e (rw e p, stored-IsLatest key n mem h)
  ]

  find-store :
      (key : ℕ) (e : MemEntry V) (mem : List (ℕ × MemEntry V)) → find key (store key e mem) ≡ some e
  unfolding find store
  find-store key e mem = rw (==_refl key) refl

  schedule_save-same :
      (c : Cache V) → ((schedule_save c).mem ≡ c.mem) × ((schedule_save c).ttl ≡ c.ttl)
  unfolding schedule_save
  schedule_save-same c =
      if-cases (λ (d : Cache V). (d.mem ≡ c.mem) × (d.ttl ≡ c.ttl)) c.persist (λ a. (refl, refl))
        (λ a. (refl, refl))

  newest :
      (key n : ℕ) (e : MemEntry V) (mem : List (ℕ × MemEntry V))
      → All (λ x. (x.1).last_accessed ≤ n) mem
      → e.last_accessed ≡ suc n
      → All (IsLatest key n) (store key e mem)
  unfolding store
  newest key n e mem h last = (rw (==_refl key) last, stored-IsLatest key n mem h)

  -- The entry that was set stands in the cache, with the same time to live.
  find-set :
      (now : ℕ) (rands : List ℕ) (key : ℕ) (value : V) (c : Cache V)
      → IsCache c
      → 1 ≤ c.max_mem
      → 2 ≤ length rands
      → (find key ((set now rands key value c).mem)
          ≡ some (record { value = value; cached_at = now; last_accessed = c.counter + 1 }))
        × ((set now rands key value c).ttl ≡ c.ttl)
  unfolding set
  find-set now rands key value c h room some_rands =
      let e : MemEntry V = record {
        value = value;
        cached_at = now;
        last_accessed = c.counter + 1;
      } in
      let d = record c { mem = store key e c.mem; counter = c.counter + 1 } in
      let saved = schedule_save-same (evict_if_needed rands d) in
      let kept = stored c.counter key e c.mem h.kept refl in
      (
        ap (find key) (saved.0)
            ∙ evict_if_needed-find rands key c.counter d some_rands room
                (newest key c.counter e c.mem (h.kept).counted (omega arith)) (kept.distinct key)
            ∙ find-store key e c.mem,
        saved.1 ∙ (evict_if_needed-same rands d).2,
      )

  mem_get-found :
      (now key : ℕ) (c : Cache V) (e : MemEntry V)
      → find key c.mem ≡ some e
      → expired now c e.cached_at ≡ false
      → (mem_get now key c).0 ≡ some e.value
  unfolding mem_get
  mem_get-found now key c e found young = rw (found, mem_get) (rw (young, mem_get) refl)

  -- A value that was just set is found as long as it is not expired, whatever random entries were looked
  -- at for eviction, in a cache for one entry at least that keeps different keys and counted accesses.
  pub mem_get-set :
      (now later : ℕ) (rands : List ℕ) (key : ℕ) (value : V) (c : Cache V)
      → IsCache c
      → 1 ≤ c.max_mem
      → 2 ≤ length rands
      → expired later c now ≡ false
      → (mem_get later key (set now rands key value c)).0 ≡ some value
  unfolding expired
  mem_get-set now later rands key value c h room some_rands young =
      let (found, ttl) = find-set now rands key value c h room some_rands in
      mem_get-found later key (set now rands key value c) _ found
        (ap (λ t. not (t == 0) && ltb (t + now) later) ttl ∙ young)
