-- ===== src/Network/ConnLimit/Cleaning.antt =====
-- Cleaning the maps changes no answer from then on.
use gooophira_mp.Prelude.{
  ℕ, ◌+◌, ◌≤◌, ◌≡◌, refl, sym, ap, ◌∙◌, Bool, Option, none, some, List, [], ◌∷◌, ltb, ◌==◌, arith,
  Bool-cases, inl, inr,
}
use gooophira_mp.Network.ConnLimit.{
  ConnWindow, ConnectionRateLimiter, Event, attempt, cleaned, put, holds_ban, is_open, open_window,
  count_in, in_window, allow, live_ban, live_window, cleanup, event, event_time,
}

-- The answers to the attempts, in order.
unfoldable pub answers : List Event → ConnectionRateLimiter → List Bool
answers [] l = []
answers (e ∷ es) l = (event e l).0 ∷ answers es (event e l).1

-- Two limiters with the same entries that have not run out.
record IsLike (now : ℕ) (k l : ConnectionRateLimiter) : Type 0 where
  bans : (ip : ℕ) → live_ban now (k.banned ip) ≡ live_ban now (l.banned ip)
  wins : (ip : ℕ) → live_window now (k.windows ip) ≡ live_window now (l.windows ip)
  most : k.max_conns ≡ l.max_conns
  width : k.window_dur ≡ l.window_dur
  long : k.ban_dur ≡ l.ban_dur

live_ban-later : (now t : ℕ) (b : Option ℕ) → now ≤ t → live_ban t (live_ban now b) ≡ live_ban t b
unfolding live_ban holds_ban
live_ban-later now t none h = refl
live_ban-later now t (some u) h = ground (arith, h)

live_window-later :
    (now t : ℕ) (w : Option ConnWindow)
    → now ≤ t
    → live_window t (live_window now w) ≡ live_window t w
unfolding live_window is_open
live_window-later now t none h = refl
live_window-later now t (some w) h = ground (arith, h)

IsLike-later : (now t : ℕ) (k l : ConnectionRateLimiter) → now ≤ t → IsLike now k l → IsLike t k l
IsLike-later now t k l h s = record {
  bans = λ ip.
      sym (live_ban-later now t (k.banned ip) h)
      ∙ ap (live_ban t) (s.bans ip)
      ∙ live_ban-later now t (l.banned ip) h;
  wins = λ ip.
      sym (live_window-later now t (k.windows ip) h)
      ∙ ap (live_window t) (s.wins ip)
      ∙ live_window-later now t (l.windows ip) h;
  most = s.most;
  width = s.width;
  long = s.long;
}

cleanup-IsLike : (now : ℕ) (l : ConnectionRateLimiter) → IsLike now (cleanup now l) l
unfolding cleanup
cleanup-IsLike now l = record {
  bans = λ ip. live_ban-later now now (l.banned ip) (omega arith);
  wins = λ ip. live_window-later now now (l.windows ip) (omega arith);
  most = refl;
  width = refl;
  long = refl;
}

-- The answer, and the entries afterwards, are the same.
record IsSame (now : ℕ) (p q : Bool × ConnectionRateLimiter) : Type 0 where
  answer : p.0 ≡ q.0
  like : IsLike now p.1 q.1

put-like {ℓ} :
    {A : Type ℓ} (f : Option A → Option A) (ip : ℕ) (v : Option A) (m n : ℕ → Option A)
    → ((x : ℕ) → f (m x) ≡ f (n x))
    → (x : ℕ) → f (put ip v m x) ≡ f (put ip v n x)
unfolding put
put-like f ip v m n h x = elim (Bool-cases (x == ip)) [ inl e ↦ rw e refl | inr e ↦ rw e (h x) ]

in_window-live :
    (ip now : ℕ) (w : Option ConnWindow) (l : ConnectionRateLimiter)
    → in_window (live_window now w) ip now l ≡ in_window w ip now l
unfolding in_window live_window is_open
in_window-live ip now none l = refl
in_window-live ip now (some w) l = ground arith

open_window-IsLike :
    (ip now : ℕ) (k l : ConnectionRateLimiter)
    → IsLike now k l
    → IsLike now (open_window ip now k) (open_window ip now l)
unfolding open_window
open_window-IsLike ip now k l s = record {
  bans = s.bans;
  wins = rw s.width (put-like (live_window now) ip _ k.windows l.windows s.wins);
  most = s.most;
  width = s.width;
  long = s.long;
}

count_in-IsSame :
    (ip now : ℕ) (w : ConnWindow) (k l : ConnectionRateLimiter)
    → IsLike now k l
    → IsSame now (count_in ip now w k) (count_in ip now w l)
unfolding count_in
count_in-IsSame ip now w k l s = elim (Bool-cases (ltb l.max_conns (w.count + 1))) [
  | inl full ↦
      rw (s.most, full)
        (record {
          answer = refl;
          like = record {
            bans = rw s.long (put-like (live_ban now) ip _ k.banned l.banned s.bans);
            wins = put-like (live_window now) ip none k.windows l.windows s.wins;
            most = refl;
            width = s.width;
            long = s.long;
          };
        })
  | inr fits ↦
      rw (s.most, fits)
        (record {
          answer = refl;
          like = record {
            bans = s.bans;
            wins = put-like (live_window now) ip _ k.windows l.windows s.wins;
            most = refl;
            width = s.width;
            long = s.long;
          };
        })
]

in_window-IsSame :
    (ip now : ℕ) (w : Option ConnWindow) (k l : ConnectionRateLimiter)
    → IsLike now k l
    → IsSame now (in_window w ip now k) (in_window w ip now l)
unfolding in_window
in_window-IsSame ip now none k l s = record {
  answer = refl;
  like = open_window-IsLike ip now k l s;
}
in_window-IsSame ip now (some w) k l s = elim (Bool-cases (ltb now w.reset_at)) [
  | inl e ↦ rw e (count_in-IsSame ip now w k l s)
  | inr e ↦ rw e (record { answer = refl; like = open_window-IsLike ip now k l s })
]

holds_ban-live : (b : Option ℕ) (now : ℕ) → holds_ban (live_ban now b) now ≡ holds_ban b now
unfolding holds_ban live_ban
holds_ban-live none now = refl
holds_ban-live (some u) now = ground arith

holds_ban-IsLike :
    (ip now : ℕ) (k l : ConnectionRateLimiter)
    → IsLike now k l
    → holds_ban (k.banned ip) now ≡ holds_ban (l.banned ip) now
holds_ban-IsLike ip now k l s =
    sym (holds_ban-live (k.banned ip) now)
    ∙ ap (λ (b : Option ℕ). holds_ban b now) (s.bans ip)
    ∙ holds_ban-live (l.banned ip) now

freed : ℕ → ConnectionRateLimiter → ConnectionRateLimiter
freed ip l = record l { banned = put ip none l.banned }

freed-IsLike :
    (ip now : ℕ) (k l : ConnectionRateLimiter)
    → IsLike now k l
    → IsLike now (freed ip k) (freed ip l)
unfolding freed
freed-IsLike ip now k l s = record {
  bans = put-like (live_ban now) ip none k.banned l.banned s.bans;
  wins = s.wins;
  most = s.most;
  width = s.width;
  long = s.long;
}

windows-IsSame :
    (ip now : ℕ) (k l : ConnectionRateLimiter)
    → IsLike now k l
    → IsSame now
        (in_window (k.windows ip) ip now (freed ip k))
        (in_window (l.windows ip) ip now (freed ip l))
windows-IsSame ip now k l s =
    let same =
      in_window-IsSame ip now (live_window now (l.windows ip)) (freed ip k) (freed ip l)
        (freed-IsLike ip now k l s) in
    rw
      (
        sym (in_window-live ip now (k.windows ip) (freed ip k)),
        sym (in_window-live ip now (l.windows ip) (freed ip l)),
        s.wins ip,
      )
      same

allow-IsSame :
    (ip now : ℕ) (k l : ConnectionRateLimiter)
    → IsLike now k l
    → IsSame now (allow ip now k) (allow ip now l)
unfolding allow freed
allow-IsSame ip now k l s = elim (Bool-cases (holds_ban (l.banned ip) now)) [
  | inl e ↦ rw (holds_ban-IsLike ip now k l s, e) (record { answer = refl; like = s })
  | inr e ↦ rw (holds_ban-IsLike ip now k l s, e) (windows-IsSame ip now k l s)
]

cleaned-IsLike :
    (now : ℕ) (k l : ConnectionRateLimiter)
    → IsLike now k l
    → IsLike now (cleanup now k) (cleanup now l)
unfolding cleanup
cleaned-IsLike now k l s = record {
  bans = λ ip. ap (live_ban now) (s.bans ip);
  wins = λ ip. ap (live_window now) (s.wins ip);
  most = s.most;
  width = s.width;
  long = s.long;
}

event-IsSame :
    (e : Event) (k l : ConnectionRateLimiter)
    → IsLike (event_time e) k l
    → IsSame (event_time e) (event e k) (event e l)
unfolding event
event-IsSame (attempt ip now) k l s = allow-IsSame ip now k l s
event-IsSame (cleaned now) k l s = record { answer = refl; like = cleaned-IsLike now k l s }

-- The clock does not go back.
abbrev pub InOrder : ℕ → List Event → Type 0
InOrder now [] = now ≤ now
InOrder now (e ∷ es) = (now ≤ event_time e) × InOrder (event_time e) es

answers-IsLike :
    (now : ℕ) (es : List Event) (k l : ConnectionRateLimiter)
    → IsLike now k l
    → InOrder now es
    → answers es k ≡ answers es l
unfolding answers
answers-IsLike now [] k l s h = refl
answers-IsLike now (e ∷ es) k l s (le, h) =
    let same = event-IsSame e k l (IsLike-later now (event_time e) k l le s) in
    ap (λ (b : Bool). b ∷ answers es (event e k).1) same.answer
    ∙ ap (◌∷◌ (event e l).0)
        (answers-IsLike (event_time e) es (event e k).1 (event e l).1 same.like h)

-- Cleaning the maps at a moment changes none of the answers to the attempts from then on, of any
-- addresses in any order, with more cleanings between them, while the clock does not go back.
pub answers-cleanup :
    (now : ℕ) (es : List Event) (l : ConnectionRateLimiter)
    → InOrder now es
    → answers es (cleanup now l) ≡ answers es l
answers-cleanup now es l h = answers-IsLike now es (cleanup now l) l (cleanup-IsLike now l) h
