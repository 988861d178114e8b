-- ===== src/Common/Cache/Entries.antt =====
-- The sample of entries, and the oldest of them.
use gooophira_mp.Prelude.{
  ℕ, suc, zero, ◌+◌, ◌%◌, ◌≤◌, ◌<◌, ◌≡◌, refl, ap, false, inl, inr, Option, none, some, List, [],
  ◌∷◌, leb, ◌==◌, if◌then◌else◌, length, arith, All, Bool-cases, if-cases, All-mono, leb→le, subst,
  ==_refl, ==_iff,
}
use gooophira_mp.Common.Cache.{
  MemEntry, find, remove, put_at, get_at, swap_first, pick, older_of, oldest,
}

module _ {ℓ} {V : Type ℓ} where
  -- How often a key stands in a list of entries.
  unfoldable pub count : ℕ → List (ℕ × MemEntry V) → ℕ
  count key [] = 0
  count key (x ∷ xs) = (if x.0 == key then 1 else 0) + count key xs

  pub length-remove :
      (key : ℕ) (mem : List (ℕ × MemEntry V)) → length (remove key mem) + count key mem ≡ length mem
  unfolding remove count
  length-remove key [] = omega arith
  length-remove key (x ∷ mem) = ground (arith, length-remove key mem)

  count-put_at :
      (key j : ℕ) (x : ℕ × MemEntry V) (xs : List (ℕ × MemEntry V))
      → j < length xs
      → (if (get_at j x xs).0 == key then 1 else 0) + count key (put_at j x xs)
        ≡ (if x.0 == key then 1 else 0) + count key xs
  unfolding count get_at put_at
  count-put_at key j x [] lt = absurd (omega arith)
  count-put_at key zero x (y ∷ xs) lt = omega arith
  count-put_at key (suc j) x (y ∷ xs) lt = omega (arith, count-put_at key j x xs (omega arith))

  count-swap_first :
      (key j : ℕ) (x : ℕ × MemEntry V) (xs : List (ℕ × MemEntry V))
      → j ≤ length xs
      → (if ((swap_first j x xs).0).0 == key then 1 else 0) + count key (swap_first j x xs).1
        ≡ (if x.0 == key then 1 else 0) + count key xs
  unfolding swap_first
  count-swap_first key zero x xs le = refl
  count-swap_first key (suc j) x xs le = count-put_at key j x xs (omega arith)

  pub count-pick :
      (key : ℕ) (rands : List ℕ) (mem : List (ℕ × MemEntry V))
      → count key (pick rands mem) ≤ count key mem
  unfolding count pick
  count-pick key [] mem = omega arith
  count-pick key (r ∷ rands) [] = omega arith
  count-pick key (r ∷ rands) (x ∷ xs) =
      let j = r % suc (length xs) in
      omega (
        arith,
        count-swap_first key j x xs (omega arith),
        count-pick key rands (swap_first j x xs).1,
      )

  length-put_at :
      (j : ℕ) (x : ℕ × MemEntry V) (xs : List (ℕ × MemEntry V)) → length (put_at j x xs) ≡ length xs
  unfolding put_at
  length-put_at j x [] = refl
  length-put_at zero x (y ∷ xs) = refl
  length-put_at (suc j) x (y ∷ xs) = ap suc (length-put_at j x xs)

  length-swap_first :
      (j : ℕ) (x : ℕ × MemEntry V) (xs : List (ℕ × MemEntry V))
      → length (swap_first j x xs).1 ≡ length xs
  unfolding swap_first
  length-swap_first zero x xs = refl
  length-swap_first (suc j) x xs = length-put_at j x xs

  -- A sample of a number of entries, if there are as many.
  pub length-pick :
      (n : ℕ) (rands : List ℕ) (mem : List (ℕ × MemEntry V))
      → n ≤ length rands
      → n ≤ length mem
      → n ≤ length (pick rands mem)
  unfolding pick
  length-pick zero rands mem a b = omega arith
  length-pick (suc n) [] mem a b = a
  length-pick (suc n) (r ∷ rands) [] a b = b
  length-pick (suc n) (r ∷ rands) (x ∷ xs) a b =
      let j = r % suc (length xs) in
      omega (
        arith,
        length-pick n rands (swap_first j x xs).1 (omega arith)
            (omega (arith, length-swap_first j x xs)),
      )

  module _ {κ} (P : ℕ × MemEntry V → Type κ) where
    All-put_at :
        (j : ℕ) (x : ℕ × MemEntry V) (xs : List (ℕ × MemEntry V))
        → P x
        → All P xs
        → P (get_at j x xs) × All P (put_at j x xs)
    unfolding put_at get_at
    All-put_at j x [] p h = (p, h)
    All-put_at zero x (y ∷ xs) p (q, h) = (q, (p, h))
    All-put_at (suc j) x (y ∷ xs) p (q, h) =
        let (one, others) = All-put_at j x xs p h in (one, (q, others))

    All-swap_first :
        (j : ℕ) (x : ℕ × MemEntry V) (xs : List (ℕ × MemEntry V))
        → P x
        → All P xs
        → P (swap_first j x xs).0 × All P (swap_first j x xs).1
    unfolding swap_first
    All-swap_first zero x xs p h = (p, h)
    All-swap_first (suc j) x xs p h = All-put_at j x xs p h

    pub All-pick :
        (rands : List ℕ) (mem : List (ℕ × MemEntry V)) → All P mem → All P (pick rands mem)
    unfolding pick
    All-pick [] mem h = tt
    All-pick (r ∷ rands) [] h = tt
    All-pick (r ∷ rands) (x ∷ xs) (p, h) =
        let (one, others) = All-swap_first (r % suc (length xs)) x xs p h in
        (one, All-pick rands (swap_first (r % suc (length xs)) x xs).1 others)

    -- What holds of all entries holds of the oldest.
    IsOldest : Option (ℕ × MemEntry V) → Type κ
    IsOldest none = Unit
    IsOldest (some y) = P y

    older_of-IsOldest :
        (x : ℕ × MemEntry V) (o : Option (ℕ × MemEntry V)) → P x → IsOldest o → P (older_of x o)
    unfolding older_of IsOldest
    older_of-IsOldest x none p h = p
    older_of-IsOldest x (some y) p h =
        if-cases P (leb (x.1).last_accessed (y.1).last_accessed) (λ a. p) (λ a. h)

    oldest-IsOldest : (xs : List (ℕ × MemEntry V)) → All P xs → IsOldest (oldest xs)
    unfolding oldest IsOldest
    oldest-IsOldest [] h = tt
    oldest-IsOldest (x ∷ xs) (p, h) = older_of-IsOldest x (oldest xs) p (oldest-IsOldest xs h)

    pub All-oldest :
        (xs : List (ℕ × MemEntry V)) (y : ℕ × MemEntry V) → All P xs → oldest xs ≡ some y → P y
    unfolding IsOldest
    All-oldest xs y h e = subst IsOldest e (oldest-IsOldest xs h)

  -- The oldest stands in the sample.
  older_of-count :
      (x : ℕ × MemEntry V) (xs : List (ℕ × MemEntry V)) (o : Option (ℕ × MemEntry V))
      → ((y : ℕ × MemEntry V) → o ≡ some y → 1 ≤ count y.0 xs)
      → 1 ≤ count (older_of x o).0 (x ∷ xs)
  unfolding older_of count
  older_of-count x xs none h = rw (==_refl x.0) (omega arith)
  older_of-count x xs (some y) h =
      if-cases (λ (z : ℕ × MemEntry V). 1 ≤ count z.0 (x ∷ xs))
        (leb (x.1).last_accessed (y.1).last_accessed) (λ a. rw (==_refl x.0) (omega arith))
        (λ a. omega (arith, h y refl))

  pub oldest-count :
      (xs : List (ℕ × MemEntry V)) (y : ℕ × MemEntry V) → oldest xs ≡ some y → 1 ≤ count y.0 xs
  unfolding oldest count
  oldest-count [] y e = absurd (cc e)
  oldest-count (x ∷ xs) y e =
      let same : older_of x (oldest xs) ≡ y = cc e in
      subst (λ (z : ℕ × MemEntry V). 1 ≤ count z.0 (x ∷ xs)) same
        (older_of-count x xs (oldest xs) (oldest-count xs))

  -- No entry was accessed before the oldest.
  abbrev pub IsLeast : ℕ → ℕ × MemEntry V → Type 0
  IsLeast t x = t ≤ (x.1).last_accessed

  older_of-IsLeast :
      (x : ℕ × MemEntry V) (xs : List (ℕ × MemEntry V)) (o : Option (ℕ × MemEntry V))
      → oldest xs ≡ o
      → ((y : ℕ × MemEntry V) → o ≡ some y → All (IsLeast (y.1).last_accessed) xs)
      → All (IsLeast ((older_of x o).1).last_accessed) (x ∷ xs)
  unfolding older_of oldest
  older_of-IsLeast x [] none e h = (omega arith, tt)
  older_of-IsLeast x [] (some y) e h = absurd (cc e)
  older_of-IsLeast x (z ∷ xs) none e h = absurd (cc e)
  older_of-IsLeast x (z ∷ xs) (some y) e h =
      if-cases (λ (w : ℕ × MemEntry V). All (IsLeast (w.1).last_accessed) (x ∷ (z ∷ xs)))
        (leb (x.1).last_accessed (y.1).last_accessed)
        (λ a. (
          omega arith,
          All-mono (z ∷ xs)
              (λ w b. omega (arith, b, leb→le (x.1).last_accessed (y.1).last_accessed a))
              (h y refl),
        ))
        (λ a. (ground (arith, a), h y refl))

  pub oldest-IsLeast :
      (xs : List (ℕ × MemEntry V)) (y : ℕ × MemEntry V)
      → oldest xs ≡ some y
      → All (IsLeast (y.1).last_accessed) xs
  unfolding oldest
  oldest-IsLeast [] y e = tt
  oldest-IsLeast (x ∷ xs) y e =
      let same : older_of x (oldest xs) ≡ y = cc e in
      subst (λ (z : ℕ × MemEntry V). All (IsLeast (z.1).last_accessed) (x ∷ xs)) same
        (older_of-IsLeast x xs (oldest xs) refl (oldest-IsLeast xs))

  pub count-remove : (key : ℕ) (mem : List (ℕ × MemEntry V)) → count key (remove key mem) ≡ 0
  unfolding count remove
  count-remove key [] = refl
  count-remove key (x ∷ mem) = ground (arith, count-remove key mem)

  pub count-remove_le :
      (key other : ℕ) (mem : List (ℕ × MemEntry V)) → count other (remove key mem) ≤ count other mem
  unfolding count remove
  count-remove_le key other [] = omega arith
  count-remove_le key other (x ∷ mem) = ground (arith, count-remove_le key other mem)

  pub All-remove {κ} :
      (P : ℕ × MemEntry V → Type κ) (key : ℕ) (mem : List (ℕ × MemEntry V))
      → All P mem
      → All P (remove key mem)
  unfolding remove
  All-remove P key [] h = tt
  All-remove P key (x ∷ mem) (p, h) =
      if-cases (All P) (x.0 == key) (λ a. All-remove P key mem h) (λ a. (p, All-remove P key mem h))

  pub oldest-none : (xs : List (ℕ × MemEntry V)) → oldest xs ≡ none → length xs ≡ 0
  unfolding oldest
  oldest-none [] e = refl
  oldest-none (x ∷ xs) e = absurd (cc e)

  pub find-count :
      (key : ℕ) (e : MemEntry V) (mem : List (ℕ × MemEntry V))
      → find key mem ≡ some e
      → 1 ≤ count key mem
  unfolding find count
  find-count key e [] found = absurd (cc found)
  find-count key e (x ∷ mem) found = elim (Bool-cases (x.0 == key)) [
    | inl b ↦ rw b (omega arith)
    | inr b ↦
        let rest : find key mem ≡ some e =
          subst (λ c. (if c then some x.1 else find key mem) ≡ some e) b found in
        omega (arith, find-count key e mem rest)
  ]

  -- Another key is found as before.
  pub find-remove :
      (key other : ℕ) (mem : List (ℕ × MemEntry V))
      → (other == key) ≡ false
      → find key (remove other mem) ≡ find key mem
  unfolding find remove
  find-remove key other [] h = refl
  find-remove key other (x ∷ mem) h = elim (Bool-cases (x.0 == other)) [
    | inl b ↦
        let far : (x.0 == key) ≡ false = rw ((==_iff x.0 other).0 b) h in
        rw (b, far) (find-remove key other mem h)
    | inr b ↦ rw b (ap (λ r. if x.0 == key then some x.1 else r) (find-remove key other mem h))
  ]
