-- ===== src/Agent/Delivery/Incoming.antt =====
-- The inbox only grows, and takes what the outbox sends.
use gooophira_mp.Prelude.{
  ℕ, ◌+◌, ◌≤◌, ◌≡◌, refl, ◌∙◌, true, inl, inr, Option, List, [], ◌∷◌, ltb, leb, ◌==◌, not, length,
  arith, All-mono, if-cases, match-cases,
}
use gooophira_mp.Agent.Outbox.{Envelope, Format, Write, u64, max_record_size}
use gooophira_mp.Agent.Outbox.Records.{IsFormat}
use gooophira_mp.Agent.Inbox.{
  Store, InboxError, Replace, open_inbox, on_file, encode, same_text, id_at, write_event,
  accept_again, accept_next, accept_event, accept_events, accept,
}
use gooophira_mp.Agent.Inbox.Stored.{IsLeft, IsStored}
use gooophira_mp.Agent.Inbox.Runs.{restarted, reopened, on_handshake, recover-IsReopened}

IsLeft-mono :
    (f : Format) (Q R : Envelope → Type 0) (last : ℕ) (tail : List ℕ)
    → ((e : Envelope) → Q e → R e)
    → IsLeft f Q last tail
    → IsLeft f R last tail
IsLeft-mono f Q R last tail more (inl torn) = inl torn
IsLeft-mono f Q R last tail more (inr (e, is, fit, at, lt, q)) = inr (e, is, fit, at, lt, more e q)

-- What was known of the events stays known where less is asked.
pub IsStored-mono :
    (f : Format) (Q R : Envelope → Type 0) (s : Store)
    → ((e : Envelope) → Q e → R e)
    → IsStored f Q s
    → IsStored f R s
IsStored-mono f Q R s more d = record {
  room = d.room;
  kept = d.kept;
  tail = d.tail;
  file = d.file;
  left = IsLeft-mono f Q R s.last d.tail more d.left;
  follow = d.follow;
  fits = d.fits;
  come = All-mono d.kept more d.come;
  same = d.same;
  last_one = d.last_one;
  size = d.size;
  known = d.known;
  sound = d.sound;
}

-- The last number does not fall, and the baseline stays.
abbrev pub Grows : Store → Store → Type 0
Grows s t = (s.last ≤ t.last) × (t.baseline ≡ s.baseline)

Grows-same : (s : Store) → Grows s s
Grows-same s = (omega arith, refl)

Grows-trans : (s t u : Store) → Grows s t → Grows t u → Grows s u
Grows-trans s t u (le, same) (more, still) = (omega (arith, le, more), still ∙ same)

write_event-Grows :
    (w : Write) (e : Envelope) (r : List ℕ) (s : Store)
    → s.last ≤ e.sequence
    → Grows s ((write_event w e r s).0)
unfolding write_event
write_event-Grows Write.written e r s le = (le, refl)
write_event-Grows Write.not_flushed e r s le = Grows-same s
write_event-Grows (Write.cut_short n) e r s le = Grows-same s

accept_event-Grows :
    (f : Format) (w : Write) (e : Envelope) (s : Store) → Grows s ((accept_event f w e s).0)
unfolding accept_event accept_again accept_next
accept_event-Grows f w e s =
    let P : Store × Option InboxError → Type 0 = λ r. Grows s (r.0) in
    let same = Grows-same s in
    if-cases P (leb e.sequence s.last)
      (λ old. if-cases P (not (same_text (id_at e.sequence s.ids) e.id)) (λ h. same) (λ h. same))
      (λ new.
        if-cases P (not (e.sequence == u64 (s.last + 1))) (λ gap. same)
          (λ next.
            match-cases P (encode f e) (λ large. same)
              (λ r made.
                if-cases P (ltb s.max_bytes (s.bytes + length r)) (λ full. same)
                  (λ room. write_event-Grows (on_file s.is_open w) e r s (ground (arith, new))))))

accept_events-Grows :
    (f : Format) (w : ℕ → Write) (es : List Envelope) (s : Store)
    → Grows s ((accept_events f w es s).0)
unfolding accept_events
accept_events-Grows f w [] s = Grows-same s
accept_events-Grows f w (e ∷ es) s =
    let step = accept_event f (w e.sequence) e s in
    let first = accept_event-Grows f (w e.sequence) e s in
    match-cases (λ (r : Store × Option InboxError). Grows s (r.0)) (step.1)
      (λ taken.
        Grows-trans s (step.0) ((accept_events f w es (step.0)).0) first
          (accept_events-Grows f w es (step.0)))
      (λ error refusal. first)

pub accept-Grows :
    (f : Format) (w : ℕ → Write) (es : List Envelope) (s : Store) → Grows s ((accept f w es s).0)
unfolding accept
accept-Grows f w es s =
    if-cases (λ (r : Store × Option InboxError). Grows s (r.0)) s.failed (λ broken. Grows-same s)
      (λ sane. accept_events-Grows f w es s)

pub restarted-Grows :
    (f : Format) (Q : Envelope → Type 0) (s : Store)
    → IsFormat f
    → IsStored f Q s
    → Grows s (restarted f s)
unfolding restarted open_inbox reopened
restarted-Grows f Q s ok d =
    let r = recover-IsReopened f Q ok s d in
    if-cases (λ (o : Option Store). Grows s (reopened s o)) (ltb s.max_bytes max_record_size)
      (λ small. Grows-same s) (λ room. (omega (arith, r.last), d.same))

-- A server that has acknowledged no more than the inbox holds leaves it alone.
pub on_handshake-known :
    (f : Format) (b : Replace) (n : ℕ) (s : Store) → n ≤ s.last → on_handshake f b n s ≡ (s, true)
unfolding on_handshake
on_handshake-known f b n s le = ground (arith, le)
