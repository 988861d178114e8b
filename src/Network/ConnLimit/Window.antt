-- ===== src/Network/ConnLimit/Window.antt =====
-- How many connections of an address are let through while a window is open.
use Prim.Native.Nat.{max}
use gooophira_mp.Prelude.{
  ℕ, suc, ◌+◌, ◌-◌, ◌≤◌, ◌<◌, ◌≡◌, refl, sym, subst, Bool, true, false, Option, none, some, List,
  [], ◌∷◌, ltb, ◌==◌, if◌then◌else◌, arith, if-cases, Bool-cases, inl, inr, ltb→le, lt→ltb, All,
  All-mono, ==_refl, ==_iff,
}
use gooophira_mp.Network.ConnLimit.{
  ConnWindow, ConnectionRateLimiter, Event, attempt, cleaned, put, holds_ban, is_open, open_window,
  count_in, in_window, allow, live_ban, live_window, cleanup, event, event_time, count_allowed,
}

-- Until `stop` an address has `n` connections at most: none while it is banned, what is left of
-- its window, or a new window.
abbrev Left : ℕ → ℕ → Option ℕ → Option ConnWindow → ℕ → Type 0
Left stop most (some until) w n = stop ≤ until
Left stop most none (some w) n = (stop ≤ w.reset_at) × (most ≤ w.count + n)
Left stop most none none n = (most ≤ n) × (1 ≤ n)

module _ (ip stop most window ban : ℕ) where
  record IsLeft (l : ConnectionRateLimiter) (n : ℕ) : Type 0 where
    left : Left stop most (l.banned ip) (l.windows ip) n
    same_most : l.max_conns ≡ most
    same_window : l.window_dur ≡ window
    same_ban : l.ban_dur ≡ ban

  -- After a connection there is one less.
  abbrev Next : ℕ → Bool × ConnectionRateLimiter → Type 0
  Next n (true, l) = (m : ℕ) × (n ≡ suc m) × IsLeft l m
  Next n (false, l) = IsLeft l n

  count_in-Next :
      (now n : ℕ) (w : ConnWindow) (l : ConnectionRateLimiter)
      → IsLeft l n
      → l.banned ip ≡ none
      → most ≤ w.count + n
      → stop ≤ w.reset_at
      → stop ≤ now + ban
      → Next n (count_in ip now w l)
  unfolding count_in put
  count_in-Next now n w l h free room live later =
      if-cases (Next n) (ltb l.max_conns (w.count + 1))
        (λ full. record {
          left = rw (==_refl ip) (omega (arith, later, h.same_ban));
          same_most = h.same_most;
          same_window = h.same_window;
          same_ban = h.same_ban;
        })
        (λ fits.
          let below : w.count + 1 ≤ most =
            rw (sym h.same_most) (ltb→le l.max_conns (w.count + 1) fits) in
          (
            n - 1,
            omega (arith, room, below),
            record {
              left = rw (==_refl ip, free) (live, omega (arith, room, below));
              same_most = h.same_most;
              same_window = h.same_window;
              same_ban = h.same_ban;
            },
          ))

  open_window-Next :
      (now n : ℕ) (l : ConnectionRateLimiter)
      → IsLeft l n
      → l.banned ip ≡ none
      → most ≤ n
      → 1 ≤ n
      → stop ≤ now + window
      → Next n (true, open_window ip now l)
  unfolding open_window put
  open_window-Next now n l h free room one later = (
    n - 1,
    omega (arith, one),
    record {
      left = rw (==_refl ip, free) (omega (arith, later, h.same_window), omega (arith, room, one));
      same_most = h.same_most;
      same_window = h.same_window;
      same_ban = h.same_ban;
    },
  )

  in_window-Next :
      (now n : ℕ) (w : Option ConnWindow) (l : ConnectionRateLimiter)
      → IsLeft l n
      → l.banned ip ≡ none
      → Left stop most none w n
      → now < stop
      → stop ≤ now + window
      → stop ≤ now + ban
      → Next n (in_window w ip now l)
  unfolding in_window
  in_window-Next now n none l h free left soon wide long =
      open_window-Next now n l h free left.0 left.1 wide
  in_window-Next now n (some w) l h free left soon wide long =
      rw (lt→ltb now w.reset_at (omega (arith, soon, left.0)))
        (count_in-Next now n w l h free left.1 left.0 long)

  freed : ConnectionRateLimiter → ConnectionRateLimiter
  freed l = record l { banned = put ip none l.banned }

  freed-none : (l : ConnectionRateLimiter) → (freed l).banned ip ≡ none
  unfolding freed put
  freed-none l = rw (==_refl ip) refl

  allow-Next :
      (now n : ℕ) (l : ConnectionRateLimiter)
      → IsLeft l n
      → now < stop
      → stop ≤ now + window
      → stop ≤ now + ban
      → Next n (allow ip now l)
  unfolding allow holds_ban freed
  allow-Next now n l h soon wide long = go (l.banned ip) refl
    where
      go : (b : Option ℕ) → l.banned ip ≡ b → Next n (allow ip now l)
      go (some until) e =
          let held : stop ≤ until =
            subst (λ (c : Option ℕ). Left stop most c (l.windows ip) n) e h.left in
          rw (e, lt→ltb now until (omega (arith, soon, held))) h
      go none e =
          let left = subst (λ (c : Option ℕ). Left stop most c (l.windows ip) n) e h.left in
          rw e (
            in_window-Next now n (l.windows ip) (freed l)
              (record {
                left = rw (freed-none l) left;
                same_most = h.same_most;
                same_window = h.same_window;
                same_ban = h.same_ban;
              })
              (freed-none l) left soon wide long)

  -- The connections of another address change nothing for this one.
  allow-other :
      (other now n : ℕ) (l : ConnectionRateLimiter)
      → (ip == other) ≡ false
      → IsLeft l n
      → IsLeft ((allow other now l).1) n
  unfolding allow in_window count_in open_window put
  allow-other other now n l far h =
      if-cases (λ (p : Bool × ConnectionRateLimiter). IsLeft (p.1) n)
        (holds_ban (l.banned other) now) (λ held. h) (λ freed. go (l.windows other))
    where
      go :
          (w : Option ConnWindow)
          → IsLeft ((in_window w other now (record l { banned = put other none l.banned })).1) n
      go none = (record {
        left = rw far h.left;
        same_most = h.same_most;
        same_window = h.same_window;
        same_ban = h.same_ban;
      })
      go (some w) =
          if-cases (λ (p : Bool × ConnectionRateLimiter). IsLeft (p.1) n) (ltb now w.reset_at)
            (λ in_time.
              if-cases (λ (p : Bool × ConnectionRateLimiter). IsLeft (p.1) n)
                (ltb l.max_conns (w.count + 1))
                (λ full. (record {
                  left = rw far h.left;
                  same_most = h.same_most;
                  same_window = h.same_window;
                  same_ban = h.same_ban;
                }))
                (λ fits. (record {
                  left = rw far h.left;
                  same_most = h.same_most;
                  same_window = h.same_window;
                  same_ban = h.same_ban;
                })))
            (λ over. (record {
              left = rw far h.left;
              same_most = h.same_most;
              same_window = h.same_window;
              same_ban = h.same_ban;
            }))

  cleanup-IsLeft :
      (now n : ℕ) (l : ConnectionRateLimiter) → IsLeft l n → now < stop → IsLeft (cleanup now l) n
  unfolding cleanup live_ban live_window holds_ban is_open
  cleanup-IsLeft now n l h soon = record {
    left = go (l.banned ip) (l.windows ip) h.left;
    same_most = h.same_most;
    same_window = h.same_window;
    same_ban = h.same_ban;
  }
    where
      go :
          (b : Option ℕ) (w : Option ConnWindow)
          → Left stop most b w n
          → Left stop most (live_ban now b) (live_window now w) n
      go (some until) w left = rw (lt→ltb now until (omega (arith, soon, left))) left
      go none none left = left
      go none (some w) left = rw (lt→ltb now w.reset_at (omega (arith, soon, left.0))) left

  abbrev IsTimely : Event → Type 0
  IsTimely e = (event_time e < stop) × (stop ≤ event_time e + window) × (stop ≤ event_time e + ban)

  counted :
      (es : List Event) (n : ℕ) (p : Bool × ConnectionRateLimiter)
      → ((k : ℕ) (m : ConnectionRateLimiter) → IsLeft m k → count_allowed ip es m ≤ k)
      → Next n p
      → (if p.0 then suc (count_allowed ip es p.1) else count_allowed ip es p.1) ≤ n
  counted es n (true, m) later (k, e, next) = omega (arith, e, later k m next)
  counted es n (false, m) later next = later n m next

  count_allowed-le :
      (es : List Event) (n : ℕ) (l : ConnectionRateLimiter)
      → IsLeft l n
      → All IsTimely es
      → count_allowed ip es l ≤ n
  unfolding count_allowed event
  count_allowed-le [] n l h timely = omega arith
  count_allowed-le (cleaned now ∷ es) n l h (t, timely) =
      count_allowed-le es n (cleanup now l) (cleanup-IsLeft now n l h t.0) timely
  count_allowed-le (attempt other now ∷ es) n l h (t, timely) = elim (Bool-cases (ip == other)) [
    | inl e ↦
        let same : other ≡ ip = sym ((==_iff ip other).0 e) in
        rw (e, same)
          (counted es n (allow ip now l) (λ k m next. count_allowed-le es k m next timely)
            (allow-Next now n l h t.0 t.1 t.2))
    | inr far ↦
        let rest =
          count_allowed-le es n (allow other now l).1 (allow-other other now n l far h) timely in
        rw far (if-cases (λ (k : ℕ). k ≤ n) (allow other now l).0 (λ ok. rest) (λ no. rest))
  ]

-- While every event falls into a stretch no longer than a window, a ban lasts a window at least, and an
-- address has neither a window nor a ban at the start, it makes as many connections as are allowed in
-- a window at most (one, if none are allowed), whatever others do and however often the maps are cleaned.
pub count_allowed-max :
    (ip start stop : ℕ) (es : List Event) (l : ConnectionRateLimiter)
    → l.banned ip ≡ none
    → l.windows ip ≡ none
    → stop ≤ start + l.window_dur
    → l.window_dur ≤ l.ban_dur
    → All (λ e. (start ≤ event_time e) × (event_time e < stop)) es
    → count_allowed ip es l ≤ max 1 l.max_conns
count_allowed-max ip start stop es l free new wide long within =
    count_allowed-le ip stop l.max_conns l.window_dur l.ban_dur es (max 1 l.max_conns) l
      (record {
        left = rw (free, new) (omega arith, omega arith);
        same_most = refl;
        same_window = refl;
        same_ban = refl;
      })
      (All-mono es (λ e t. (t.1, omega (arith, t.0, wide), omega (arith, t.0, wide, long))) within)
