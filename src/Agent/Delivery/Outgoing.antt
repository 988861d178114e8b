-- ===== src/Agent/Delivery/Outgoing.antt =====
-- The outbox as a queue: its pending events are those behind the acknowledged number.
use gooophira_mp.Prelude.{
  ℕ, suc, ◌+◌, ◌-◌, ◌≤◌, ◌<◌, ◌^◌, ◌≡◌, refl, sym, ap, ◌∙◌, inl, inr, Option, none, List, [], ◌∷◌,
  ◌++◌, ltb, length, drop, arith, All, length-append, if-cases, match-cases, drop-append_of_le,
  Option-cases,
}
use gooophira_mp.Agent.Outbox.{
  Envelope, Format, Store, Priority, Write, OutboxError, limit_for, append_envelope, append_record,
  write_record, new_envelope, encode_record,
}
use gooophira_mp.Agent.Outbox.Records.{Fits}
use gooophira_mp.Agent.Outbox.Queue.{Follow}
use gooophira_mp.Agent.Outbox.Errors.{Keeps, append_envelope-refused}
use gooophira_mp.Agent.Outbox.Durable.{
  IsDurable, Follow-drop, Follow-front, Follow-append, All-drop, All-front,
}

pub record IsQueue (sent : List Envelope) (s : Store) : Type 0 where
  pub follow : Follow 0 sent
  pub events : s.events ≡ drop s.acked sent
  pub latest : s.latest ≡ length sent
  pub above : s.acked ≤ s.checkpoint
  pub within : s.checkpoint ≤ length sent

pub durable-Follow : (f : Format) (s : Store) → IsDurable f s → Follow s.acked s.events
durable-Follow f s d =
    rw (d.events, d.place)
      (Follow-drop d.base d.behind d.kept (Follow-front d.base d.kept d.extra d.follow) d.within)

pub durable-Fits : (f : Format) (s : Store) → IsDurable f s → All (Fits f) s.events
durable-Fits f s d =
    rw (d.events) (All-drop (Fits f) d.behind d.kept (All-front (Fits f) d.kept d.extra d.fits))

-- What an append that succeeds does to the memory.
abbrev pub Takes : Store → Envelope → Store → Type 0
Takes s e t =
    (t.events ≡ s.events ++ e ∷ [])
    × (t.latest ≡ e.sequence)
    × (t.acked ≡ s.acked)
    × (t.checkpoint ≡ s.checkpoint)

abbrev Answer : Store → Envelope → Store × Option OutboxError → Type 0
Answer s e r = r.1 ≡ none → Takes s e (r.0)

write_record-Takes :
    (w : Write) (e : Envelope) (r : List ℕ) (s : Store) → Answer s e (write_record w e r s)
unfolding write_record
write_record-Takes Write.written e r s h = (refl, refl, refl, refl)
write_record-Takes (Write.cut_short n) e r s h = absurd (cc h)
write_record-Takes Write.not_flushed e r s h = absurd (cc h)

pub append_envelope-Takes :
    (f : Format) (priority : Priority) (w : Write) (e : Envelope) (s : Store)
    → (append_envelope f priority w e s).1 ≡ none
    → Takes s e ((append_envelope f priority w e s).0)
unfolding append_envelope append_record
append_envelope-Takes f priority w e s =
    if-cases (Answer s e) s.closed (λ c k. absurd (cc k))
      (λ c.
        if-cases (Answer s e) s.failed (λ c k. absurd (cc k))
          (λ c.
            match-cases (Answer s e) (encode_record f e) (λ c k. absurd (cc k))
              (λ r c.
                if-cases (Answer s e) (ltb (limit_for priority s.max) (s.bytes + length r))
                  (λ c k. absurd (cc k)) (λ c. write_record-Takes w e r s))))

pub taken-IsQueue :
    (sent : List Envelope) (s t : Store) (e : Envelope)
    → IsQueue sent s
    → e.sequence ≡ suc s.latest
    → suc s.latest < 2 ^ 64 - 1
    → Takes s e t
    → IsQueue (sent ++ e ∷ []) t
taken-IsQueue sent s t e q seq lt (events, latest, acked, checkpoint) = record {
  follow =
      Follow-append 0 sent e (q.follow) (omega (arith, seq, q.latest))
        (omega (arith, lt, q.latest));
  events =
      events
      ∙ ap (λ (l : List Envelope). l ++ e ∷ []) q.events
      ∙ sym (drop-append_of_le s.acked sent (e ∷ []) (omega (arith, q.above, q.within)))
      ∙ ap (λ (n : ℕ). drop n (sent ++ e ∷ [])) (sym acked);
  latest = omega (arith, latest, seq, q.latest, length-append sent (e ∷ []));
  above = omega (arith, acked, checkpoint, q.above);
  within = omega (arith, checkpoint, q.within, length-append sent (e ∷ []));
}

pub kept-IsQueue :
    (sent : List Envelope) (s t : Store) → IsQueue sent s → Keeps s t → IsQueue sent t
kept-IsQueue sent s t q (events, latest, acked, checkpoint, bytes, file) = record {
  follow = q.follow;
  events = events ∙ q.events ∙ ap (λ (n : ℕ). drop n sent) (sym acked);
  latest = latest ∙ q.latest;
  above = omega (arith, acked, checkpoint, q.above);
  within = omega (arith, checkpoint, q.within);
}

pub append_envelope-checkpoint :
    (f : Format) (priority : Priority) (w : Write) (e : Envelope) (s : Store)
    → ((append_envelope f priority w e s).0).checkpoint ≡ s.checkpoint
append_envelope-checkpoint f priority w e s =
    elim (Option-cases ((append_envelope f priority w e s).1)) [
      | inl taken ↦ (append_envelope-Takes f priority w e s taken).3
      | inr (error, refusal) ↦ (append_envelope-refused f priority w e s error refusal).0.3
    ]

pub new_envelope-sequence :
    (latest : ℕ) (id event_type : List ℕ) (now : ℕ) (payload : List ℕ)
    → suc latest < 2 ^ 64 - 1
    → (new_envelope latest id event_type now payload).sequence ≡ suc latest
unfolding new_envelope
new_envelope-sequence latest id event_type now payload lt = omega (arith, lt)

pub new_envelope-id :
    (latest : ℕ) (id event_type : List ℕ) (now : ℕ) (payload : List ℕ)
    → (new_envelope latest id event_type now payload).id ≡ id
unfolding new_envelope
new_envelope-id latest id event_type now payload = refl
