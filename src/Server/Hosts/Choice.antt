-- ===== src/Server/Hosts/Choice.antt =====
-- What pickNextHost of internal/core/server/hub_broadcast.go chooses.
use gooophira_mp.Prelude.{
  ℕ, ◌≤◌, ◌<◌, ◌≡◌, refl, sym, ap, ◌∙◌, ◌⊎◌, inl, inr, true, ◌||◌, Option, none, some, List, [],
  ◌∷◌, leb, ltb, ◌==◌, All, All-mono, arith, leb→le, ltb→lt, if-cases,
}
use gooophira_mp.Server.Model.{contains}
use gooophira_mp.Server.Hosts.{insert_sorted, sort_ints, first_above, or_first, pick_next_host}

IsSorted : List ℕ → Type 0
IsSorted [] = Unit {0}
IsSorted (x ∷ xs) = All (λ y. x ≤ y) xs × IsSorted xs

module _ (P : ℕ → Type 0) where
  insert_sorted-All : (x : ℕ) (ys : List ℕ) → P x → All P ys → All P (insert_sorted x ys)
  unfolding insert_sorted
  insert_sorted-All x [] hx hys = (hx, tt)
  insert_sorted-All x (y ∷ ys) hx (hy, hys) =
      if-cases (All P) (leb x y) (λ e. (hx, (hy, hys))) (λ e. (hy, insert_sorted-All x ys hx hys))

  All-insert_sorted : (x : ℕ) (ys : List ℕ) → All P (insert_sorted x ys) → P x × All P ys
  unfolding insert_sorted
  All-insert_sorted x [] h = h
  All-insert_sorted x (y ∷ ys) h =
      if-cases (λ zs. All P zs → P x × (P y × All P ys)) (leb x y) (λ e k. k)
        (λ e k. let below = All-insert_sorted x ys k.1 in (below.0, (k.0, below.1))) h

  All-sort_ints : (xs : List ℕ) → All P (sort_ints xs) → All P xs
  unfolding sort_ints
  All-sort_ints [] h = tt
  All-sort_ints (x ∷ xs) h =
      let parts = All-insert_sorted x (sort_ints xs) h in (parts.0, All-sort_ints xs parts.1)

insert_sorted-IsSorted : (x : ℕ) (ys : List ℕ) → IsSorted ys → IsSorted (insert_sorted x ys)
unfolding insert_sorted IsSorted
insert_sorted-IsSorted x [] h = (tt, tt)
insert_sorted-IsSorted x (y ∷ ys) (hy, hys) =
    if-cases IsSorted (leb x y)
      (λ e. ((leb→le x y e, All-mono ys (λ z h. omega (arith, leb→le x y e)) hy), (hy, hys)))
      (λ e.
        (insert_sorted-All (λ z. y ≤ z) x ys (ground arith) hy, insert_sorted-IsSorted x ys hys))

sort_ints-IsSorted : (xs : List ℕ) → IsSorted (sort_ints xs)
unfolding sort_ints IsSorted
sort_ints-IsSorted [] = tt
sort_ints-IsSorted (x ∷ xs) = insert_sorted-IsSorted x (sort_ints xs) (sort_ints-IsSorted xs)

contains-insert_sorted :
    (x : ℕ) (ys : List ℕ) (v : ℕ) → contains (insert_sorted x ys) v ≡ ((x == v) || contains ys v)
unfolding insert_sorted
contains-insert_sorted x [] v = refl
contains-insert_sorted x (y ∷ ys) v = ground (arith, contains-insert_sorted x ys v)

contains-sort_ints : (xs : List ℕ) (v : ℕ) → contains (sort_ints xs) v ≡ contains xs v
unfolding sort_ints
contains-sort_ints [] v = refl
contains-sort_ints (x ∷ xs) v =
    contains-insert_sorted x (sort_ints xs) v ∙ ap (◌||◌ (x == v)) (contains-sort_ints xs v)

-- The smallest id above the old host.
abbrev IsSuccessor : List ℕ → ℕ → ℕ → Type 0
IsSuccessor ids old h = (contains ids h ≡ true) × (old < h) × All (λ id. old < id → h ≤ id) ids

Found : List ℕ → ℕ → Option ℕ → Type 0
Found ids old none = All (λ id. id ≤ old) ids
Found ids old (some h) = IsSuccessor ids old h

first_above-Found : (ids : List ℕ) (old : ℕ) → IsSorted ids → Found ids old (first_above old ids)
unfolding first_above IsSorted Found
first_above-Found [] old h = tt
first_above-Found (id ∷ ids) old (low, sorted) =
    if-cases (Found (id ∷ ids) old) (ltb old id)
      (λ e. (ground arith, ltb→lt old id e, ((λ h. omega arith), All-mono ids (λ x hx h. hx) low)))
      (λ e. weaken (ground arith) (first_above old ids) (first_above-Found ids old sorted))
  where
    weaken : id ≤ old → (o : Option ℕ) → Found ids old o → Found (id ∷ ids) old o
    weaken le none h = (le, h)
    weaken le (some x) (m, lt, least) = (ground arith, lt, ((λ h. absurd (omega arith)), least))

-- The next host: the successor of the old one, or the smallest id when no id is above.
abbrev pub IsNextHost : List ℕ → ℕ → Option ℕ → Type 0
IsNextHost ids old none = ids ≡ []
IsNextHost ids old (some h) =
    IsSuccessor ids old h
    ⊎ ((contains ids h ≡ true) × All (λ id. id ≤ old) ids × All (λ id. h ≤ id) ids)

choose :
    (ids sorted : List ℕ) (old : ℕ)
    → ((v : ℕ) → contains sorted v ≡ contains ids v)
    → ((P : ℕ → Type 0) → All P sorted → All P ids)
    → IsSorted sorted
    → (o : Option ℕ) → Found sorted old o
    → IsNextHost ids old (or_first o sorted)
unfolding IsSorted Found or_first
choose ids sorted old same all h (some x) (m, lt, least) = inl (sym (same x) ∙ m, lt, all _ least)
choose [] [] old same all h none f = refl
choose (id ∷ ids) [] old same all h none f = absurd (omega (arith, (all (λ x. 1 ≤ 0) tt).0))
choose ids (x ∷ sorted) old same all h none f =
    inr (sym (same x) ∙ ground arith, all _ f, all _ (omega arith, h.0))

-- pickNextHost chooses the smallest id above the old host's; when there is none, the smallest id;
-- and nobody exactly when there are no ids.
pub pick_next_host_lem : (ids : List ℕ) (old : ℕ) → IsNextHost ids old (pick_next_host ids old)
unfolding pick_next_host
pick_next_host_lem ids old =
    choose ids (sort_ints ids) old (contains-sort_ints ids) (λ P. All-sort_ints P ids)
      (sort_ints-IsSorted ids) (first_above old (sort_ints ids))
      (first_above-Found (sort_ints ids) old (sort_ints-IsSorted ids))
