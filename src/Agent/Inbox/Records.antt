-- ===== src/Agent/Inbox/Records.antt =====
-- The inbox reads a record where the outbox does, and checks the number besides.
use gooophira_mp.Prelude.{
  ℕ, suc, ◌+◌, ◌<◌, ◌^◌, ◌≡◌, refl, ◌∙◌, false, inl, inr, Option, none, some, List, ◌++◌, ltb, ◌==◌,
  ◌||◌, if◌then◌else◌, length, arith, Bool-cases, Option-cases,
}
use gooophira_mp.Agent.Outbox.{Envelope, Format, max_record_size, u64}
use gooophira_mp.Agent.Outbox.Recovery.{
  is_identified, split_data, parse_data, read_body, read_record,
}
use gooophira_mp.Agent.Outbox.Records.{IsFormat, Fits, record_of, read_record-record}
use gooophira_mp.Agent.Inbox.{
  step_of, Found, at_end, damaged, found, decode, read_data, read_event, is_expected, next_event,
}

-- What the outbox takes of what is found.
unfoldable pub identified : Found → Option (Envelope × List ℕ)
identified at_end = none
identified damaged = none
identified (found e rest) = if is_identified e then some (e, rest) else none

decode-parse :
    (f : Format) (sum : ℕ) (p : List ℕ × List ℕ) → identified (decode f sum p) ≡ parse_data f sum p
unfolding decode parse_data identified
decode-parse f sum (bs, rest) = ground arith

read_data-body :
    (f : Format) (len sum : ℕ) (rest : List ℕ)
    → identified (read_data f len sum rest) ≡ read_body f len sum rest
unfolding read_data read_body identified
read_data-body f len sum rest = elim (Bool-cases ((len == 0) || ltb max_record_size len)) [
  | inl bad ↦ rw (bad, read_data, read_body) refl
  | inr good ↦
      rw (good, read_data, read_body)
        (elim (Option-cases (split_data len rest)) [
          | inl short ↦ rw short refl
          | inr (p, whole) ↦ rw whole (decode-parse f sum p)
        ])
]

pub read_event-record :
    (f : Format) (bytes : List ℕ) → identified (read_event f bytes) ≡ read_record f bytes
unfolding read_event read_record identified
read_event-record f bytes = elim (Bool-cases (ltb (length bytes) 8)) [
  | inl short ↦ ground arith
  | inr long ↦ rw (long, read_event, read_record) (read_data-body f _ _ _)
]

identified-some :
    (r : Found) (e : Envelope) (rest : List ℕ) → identified r ≡ some (e, rest) → r ≡ found e rest
unfolding identified
identified-some at_end e rest h = absurd (cc h)
identified-some damaged e rest h = absurd (cc h)
identified-some (found x more) e rest h = ground arith

pub read_event-found :
    (f : Format) (e : Envelope) (rest : List ℕ)
    → IsFormat f
    → Fits f e
    → read_event f (record_of f e ++ rest) ≡ found e rest
read_event-found f e rest ok fits =
    identified-some _ e rest
      (read_event-record f (record_of f e ++ rest) ∙ read_record-record f e rest ok fits)

-- A number that is not zero, and an id: what is expected is identified.
expected-identified :
    (last : ℕ) (e : Envelope)
    → suc last < 2 ^ 64
    → is_identified e ≡ false
    → is_expected last e ≡ false
unfolding is_identified is_expected
expected-identified last e lt h = ground (arith, lt, h)

identified-none :
    (last : ℕ) (r : Found) → suc last < 2 ^ 64 → identified r ≡ none → step_of last r ≡ none
unfolding identified step_of
identified-none last at_end lt h = refl
identified-none last damaged lt h = refl
identified-none last (found e rest) lt h = elim (Bool-cases (is_identified e)) [
  | inl yes_id ↦ absurd (ground (arith, h, yes_id))
  | inr no_id ↦ rw (expected-identified last e lt no_id) refl
]

-- Where the outbox reads nothing, the inbox takes nothing.
pub next_event-torn :
    (f : Format) (last : ℕ) (bytes : List ℕ)
    → suc last < 2 ^ 64
    → read_record f bytes ≡ none
    → next_event f last bytes ≡ none
unfolding next_event step_of
next_event-torn f last bytes lt h =
    identified-none last (read_event f bytes) lt (read_event-record f bytes ∙ h)

pub next_event-record :
    (f : Format) (last : ℕ) (e : Envelope) (rest : List ℕ)
    → IsFormat f
    → Fits f e
    → e.sequence ≡ suc last
    → suc last < 2 ^ 64
    → next_event f last (record_of f e ++ rest) ≡ some (e, rest)
unfolding next_event step_of is_expected is_identified
next_event-record f last e rest ok fits seq lt =
    rw (read_event-found f e rest ok fits) (ground (arith, seq, lt, fits.1))

-- A record with another number is not taken.
pub next_event-other :
    (f : Format) (last : ℕ) (e : Envelope) (rest : List ℕ)
    → IsFormat f
    → Fits f e
    → (e.sequence == u64 (last + 1)) ≡ false
    → next_event f last (record_of f e ++ rest) ≡ none
unfolding next_event step_of is_expected
next_event-other f last e rest ok fits h =
    rw (read_event-found f e rest ok fits) (ground (arith, h))
