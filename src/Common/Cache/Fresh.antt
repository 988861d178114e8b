-- ===== src/Common/Cache/Fresh.antt =====
-- What the local cache keeps.
use gooophira_mp.Prelude.{
  ℕ, suc, ◌+◌, ◌≤◌, ◌<◌, ◌≡◌, refl, ap, subst, inl, inr, Option, List, leb, ◌==◌, length, take,
  length-take, arith, All, All-mono, Bool-cases, if-cases, match-cases, leb→le, ==_iff,
}
use gooophira_mp.Common.Cache.{
  MemEntry, Cache, find, remove, store, expired, mem_get, schedule_save, pick, oldest,
  evict_if_needed, set, lru_sample_size,
}
use gooophira_mp.Common.Cache.Entries.{
  count, length-remove, count-pick, length-pick, oldest-count, count-remove, count-remove_le,
  All-remove, oldest-none, find-count,
}

module _ {ℓ} {V : Type ℓ} where
  -- The entries have different keys and accesses that were counted.
  pub record IsKept (n : ℕ) (mem : List (ℕ × MemEntry V)) : Type ℓ where
    pub distinct : (key : ℕ) → count key mem ≤ 1
    pub counted : All (λ x. (x.1).last_accessed ≤ n) mem

  pub record IsCache (c : Cache V) : Type ℓ where
    pub kept : IsKept c.counter c.mem
    pub within : length c.mem ≤ c.max_mem

  pub remove-IsKept :
      (key n : ℕ) (mem : List (ℕ × MemEntry V)) → IsKept n mem → IsKept n (remove key mem)
  remove-IsKept key n mem h = record {
    distinct = λ other. omega (arith, h.distinct other, count-remove_le key other mem);
    counted = All-remove _ key mem h.counted;
  }

  store-IsKept :
      (key n : ℕ) (e : MemEntry V) (mem : List (ℕ × MemEntry V))
      → IsKept n mem
      → e.last_accessed ≡ suc n
      → IsKept (suc n) (store key e mem)
  unfolding store count
  store-IsKept key n e mem h last = record {
    distinct = λ other. elim (Bool-cases (key == other)) [
      | inl same ↦ rw same (
          omega (
            arith,
            count-remove key mem,
            ap (λ k. count k (remove key mem)) ((==_iff key other).0 same),
          ))
      | inr far ↦ rw far (omega (arith, h.distinct other, count-remove_le key other mem))
    ];
    counted = (
      omega (arith, last),
      All-mono (remove key mem) (λ x b. omega (arith, b)) (All-remove _ key mem h.counted),
    );
  }

  pub stored :
      (n key : ℕ) (e : MemEntry V) (mem : List (ℕ × MemEntry V))
      → IsKept n mem
      → e.last_accessed ≡ n + 1
      → IsKept (n + 1) (store key e mem)
  stored n key e mem h last =
      let one : suc n ≡ n + 1 = omega arith in
      subst (λ k. IsKept k (store key e mem)) one (store-IsKept key n e mem h (omega (arith, last)))

  length-store :
      (key : ℕ) (e : MemEntry V) (mem : List (ℕ × MemEntry V))
      → length (store key e mem) + count key mem ≡ suc (length mem)
  unfolding store
  length-store key e mem = omega (arith, length-remove key mem)

  -- The entry that is dropped is one of the map.
  evict_if_needed-length :
      (rands : List ℕ) (c : Cache V)
      → 1 ≤ length rands
      → length c.mem ≤ suc c.max_mem
      → length ((evict_if_needed rands c).mem) ≤ c.max_mem
  unfolding evict_if_needed
  evict_if_needed-length rands c some_rands most =
      if-cases (λ (d : Cache V). length d.mem ≤ c.max_mem) (leb (length c.mem) c.max_mem)
        (λ a. leb→le (length c.mem) c.max_mem a)
        (λ over.
          let sample = take lru_sample_size rands in
          let full : c.max_mem < length c.mem = ground (arith, over) in
          let taken =
            length-pick 1 sample c.mem
              (omega (arith, length-take lru_sample_size rands, some_rands))
              (omega (arith, full)) in
          match-cases (λ (d : Cache V). length d.mem ≤ c.max_mem) (oldest (pick sample c.mem))
            (λ none_found.
              absurd (omega (arith, taken, oldest-none (pick sample c.mem) none_found)))
            (λ y found. omega (
              arith,
              most,
              oldest-count (pick sample c.mem) y found,
              count-pick y.0 sample c.mem,
              length-remove y.0 c.mem,
            )))

  evict_if_needed-IsKept :
      (rands : List ℕ) (n : ℕ) (c : Cache V)
      → IsKept n c.mem
      → IsKept n ((evict_if_needed rands c).mem)
  unfolding evict_if_needed
  evict_if_needed-IsKept rands n c h =
      if-cases (λ (d : Cache V). IsKept n d.mem) (leb (length c.mem) c.max_mem) (λ a. h)
        (λ a.
          match-cases (λ (d : Cache V). IsKept n d.mem)
            (oldest (pick (take lru_sample_size rands) c.mem)) (λ b. h)
            (λ y b. remove-IsKept y.0 n c.mem h))

  -- The evicted cache differs in its entries alone.
  pub evict_if_needed-same :
      (rands : List ℕ) (c : Cache V)
      → ((evict_if_needed rands c).max_mem ≡ c.max_mem)
        × ((evict_if_needed rands c).counter ≡ c.counter)
        × ((evict_if_needed rands c).ttl ≡ c.ttl)
  unfolding evict_if_needed
  evict_if_needed-same rands c =
      let P : Cache V → Type 0 =
        λ d. (d.max_mem ≡ c.max_mem) × (d.counter ≡ c.counter) × (d.ttl ≡ c.ttl) in
      if-cases P (leb (length c.mem) c.max_mem) (λ a. (refl, refl, refl))
        (λ a.
          match-cases P (oldest (pick (take lru_sample_size rands) c.mem)) (λ b. (refl, refl, refl))
            (λ y b. (refl, refl, refl)))

  pub schedule_save-IsCache : (c : Cache V) → IsCache c → IsCache (schedule_save c)
  unfolding schedule_save
  schedule_save-IsCache c h =
      if-cases IsCache c.persist (λ a. record { kept = h.kept; within = h.within }) (λ a. h)

  pub set-IsCache :
      (now : ℕ) (rands : List ℕ) (key : ℕ) (value : V) (c : Cache V)
      → 1 ≤ length rands
      → IsCache c
      → IsCache (set now rands key value c)
  unfolding set
  set-IsCache now rands key value c some_rands h =
      let e : MemEntry V = record {
        value = value;
        cached_at = now;
        last_accessed = c.counter + 1;
      } in
      let d = record c { mem = store key e c.mem; counter = c.counter + 1 } in
      let same = evict_if_needed-same rands d in
      schedule_save-IsCache (evict_if_needed rands d) (record {
        kept = rw (same.1) (
            evict_if_needed-IsKept rands (c.counter + 1) d
              (stored c.counter key e c.mem h.kept refl));
        within = rw (same.0) (
            evict_if_needed-length rands d some_rands
              (omega (arith, length-store key e c.mem, h.within)));
      })

  pub mem_get-IsCache : (now key : ℕ) (c : Cache V) → IsCache c → IsCache ((mem_get now key c).1)
  unfolding mem_get
  mem_get-IsCache now key c h =
      match-cases (λ (r : Option V × Cache V). IsCache (r.1)) (find key c.mem) (λ gone. h)
        (λ e found.
          if-cases (λ (r : Option V × Cache V). IsCache (r.1)) (expired now c e.cached_at)
            (λ old. record {
              kept = remove-IsKept key c.counter c.mem h.kept;
              within = omega (arith, h.within, length-remove key c.mem);
            })
            (λ young. record {
              kept =
                  stored c.counter key (record e { last_accessed = c.counter + 1 }) c.mem h.kept
                    refl;
              within = omega (
                arith,
                h.within,
                length-store key (record e { last_accessed = c.counter + 1 }) c.mem,
                find-count key e c.mem found,
              );
            }))
