-- ===== src/Server/Ids.antt =====
-- Sets of ids and their sizes.
use gooophira_mp.Prelude.{
  ℕ, suc, ◌≡◌, refl, sym, ap, ◌∙◌, inl, inr, true, false, ◌||◌, List, [], ◌∷◌, ◌++◌, length, ◌==◌,
  ==_iff, if-cases, length-append, arith, Bool-cases,
}
use gooophira_mp.Server.Model.{contains, insert_id}

contains-append :
    (xs ys : List ℕ) (v : ℕ) → contains (xs ++ ys) v ≡ (contains xs v || contains ys v)
contains-append [] ys v = refl
contains-append (x ∷ xs) ys v = ground (arith, contains-append xs ys v)

pub contains-insert_id :
    (xs : List ℕ) (v w : ℕ) → contains (insert_id xs v) w ≡ (contains xs w || (v == w))
unfolding insert_id
contains-insert_id xs v w =
    if-cases (λ (ys : List ℕ). contains ys w ≡ (contains xs w || (v == w))) (contains xs v)
      (λ e. present xs e) (λ e. contains-append xs (v ∷ []) w ∙ ground arith)
  where
    present : (ys : List ℕ) → contains ys v ≡ true → contains ys w ≡ (contains ys w || (v == w))
    present ys e = elim (Bool-cases (v == w)) [
      | inl k ↦
          let same : contains ys w ≡ true = sym (ap (contains ys) ((==_iff v w).0 k)) ∙ e in
          ground (arith, same, k)
      | inr k ↦ ground (arith, k)
    ]

pub length-insert_id :
    (xs : List ℕ) (v : ℕ) → contains xs v ≡ false → length (insert_id xs v) ≡ suc (length xs)
unfolding insert_id
length-insert_id xs v h =
    if-cases (λ (ys : List ℕ). length ys ≡ suc (length xs)) (contains xs v)
      (λ e. absurd (ground (arith, e, h))) (λ e. omega (arith, length-append xs (v ∷ [])))

pub length-insert_id_present :
    (xs : List ℕ) (v : ℕ) → contains xs v ≡ true → length (insert_id xs v) ≡ length xs
unfolding insert_id
length-insert_id_present xs v h =
    if-cases (λ (ys : List ℕ). length ys ≡ length xs) (contains xs v) (λ e. refl)
      (λ e. absurd (ground (arith, e, h)))
