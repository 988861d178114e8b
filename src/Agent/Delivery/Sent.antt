-- ===== src/Agent/Delivery/Sent.antt =====
-- Events by their number: the events of a log that starts at 1 are found at their place.
use gooophira_mp.Prelude.{
  ℕ, suc, zero, ◌+◌, ◌≤◌, ◌<◌, ◌≡◌, refl, ap, subst, ◌∙◌, some, List, [], ◌∷◌, ◌++◌, length, take,
  drop, get_elem?, get_elem?-append, get_elem?-front, drop-get_elem?, length-append, append_assoc,
  arith, All,
}
use gooophira_mp.Agent.Outbox.{Envelope}
use gooophira_mp.Agent.Outbox.Queue.{Follow}

-- The event with its number stands at its place.
abbrev pub IsIn : List Envelope → Envelope → Type 0
IsIn sent e = (i : ℕ) × (e.sequence ≡ suc i) × (get_elem? sent i ≡ some e)

pub IsIn-more : (sent more : List Envelope) (e : Envelope) → IsIn sent e → IsIn (sent ++ more) e
IsIn-more sent more e (i, seq, there) = (i, seq, get_elem?-front sent more i e there)

All-in_from :
    (front es : List Envelope) (base : ℕ)
    → base ≡ length front
    → Follow base es
    → All (IsIn (front ++ es)) es
All-in_from front [] base at h = tt
All-in_from front (e ∷ es) base at (seq, h) =
    let there : get_elem? (front ++ e ∷ es) base ≡ some e =
      ap (get_elem? (front ++ e ∷ es)) at ∙ get_elem?-append front e es in
    let later =
      All-in_from (front ++ e ∷ []) es (suc base) (omega (arith, at, length-append front (e ∷ [])))
        h in
    (
      (base, seq, there),
      subst (λ (l : List Envelope). All (IsIn l) es) (append_assoc front (e ∷ []) es) later,
    )

pub sent-IsIn : (sent : List Envelope) → Follow 0 sent → All (IsIn sent) sent
sent-IsIn sent h = All-in_from [] sent 0 refl h

-- Consecutive events that stand at their places are a piece of the list.
pub IsIn-take :
    (sent es : List Envelope) (base : ℕ)
    → Follow base es
    → All (IsIn sent) es
    → take (length es) (drop base sent) ≡ es
IsIn-take sent [] base h known = refl
IsIn-take sent (e ∷ es) base (seq, h) ((i, at, there), known) =
    let place : i ≡ base = omega (arith, seq, at) in
    let here : get_elem? sent base ≡ some e = rw (← place) there in
    rw (drop-get_elem? sent base e here) (ap (◌∷◌ e) (IsIn-take sent es (suc base) h known))

pub get_elem?-lt {ℓ} :
    {A : Type ℓ} (xs : List A) (i : ℕ) (a : A) → get_elem? xs i ≡ some a → i < length xs
get_elem?-lt [] i a h = absurd (cc h)
get_elem?-lt (x ∷ xs) zero a h = omega arith
get_elem?-lt (x ∷ xs) (suc i) a h = omega (arith, get_elem?-lt xs i a h)

pub IsIn-length :
    (sent es : List Envelope) (base : ℕ)
    → Follow base es
    → All (IsIn sent) es
    → base ≤ length sent
    → base + length es ≤ length sent
IsIn-length sent [] base h known le = omega (arith, le)
IsIn-length sent (e ∷ es) base (seq, h) ((i, at, there), known) le = omega (
  arith,
  IsIn-length sent es (suc base) h known (omega (arith, get_elem?-lt sent i e there, seq, at)),
)

pub Follow-join :
    (base : ℕ) (es more : List Envelope)
    → Follow base es
    → Follow (base + length es) more
    → Follow base (es ++ more)
Follow-join base [] more h later = let same : base + 0 ≡ base = omega arith in rw (← same) later
Follow-join base (e ∷ es) more (seq, h) later =
    let same : base + suc (length es) ≡ suc base + length es = omega arith in
    (seq, Follow-join (suc base) es more h (rw (← same) later))
