-- ===== src/Network/ConnLimit.antt =====
-- The limit on connections of an address: internal/server/network/connlimit.go. An address is a
-- number, a moment is its nanosecond, and a map is a function.
pub mod Window
pub mod Cleaning
use gooophira_mp.Prelude.{
  ℕ, suc, ◌+◌, Bool, true, false, Option, none, some, List, [], ◌∷◌, ltb, ◌==◌, if◌then◌else◌,
}

pub record ConnWindow : Type 0 where
  pub count : ℕ
  pub reset_at : ℕ

pub record ConnectionRateLimiter : Type 0 where
  pub windows : ℕ → Option ConnWindow
  pub banned : ℕ → Option ℕ
  pub max_conns : ℕ
  pub window_dur : ℕ
  pub ban_dur : ℕ

unfoldable pub new_connection_rate_limiter : ℕ → ℕ → ℕ → ConnectionRateLimiter
new_connection_rate_limiter max_conns window ban = record {
  windows = λ ip. none;
  banned = λ ip. none;
  max_conns = max_conns;
  window_dur = window;
  ban_dur = ban;
}

unfoldable pub set_max_conns : ℕ → ConnectionRateLimiter → ConnectionRateLimiter
set_max_conns n l = record l { max_conns = n }

-- `m[ip] = v`, or `delete(m, ip)` for `none`.
unfoldable pub put {ℓ} : {A : Type ℓ} → ℕ → Option A → (ℕ → Option A) → ℕ → Option A
put ip v m other = if other == ip then v else m other

-- `if until, ok := l.banned[ip]; ok`: whether the ban holds; an old one is dropped.
unfoldable pub holds_ban : Option ℕ → ℕ → Bool
holds_ban none now = false
holds_ban (some until) now = ltb now until

-- Whether there is a window that has not run out.
unfoldable pub is_open : Option ConnWindow → ℕ → Bool
is_open none now = false
is_open (some w) now = ltb now w.reset_at

unfoldable pub open_window : ℕ → ℕ → ConnectionRateLimiter → ConnectionRateLimiter
open_window ip now l = record l {
  windows = put ip (some (record { count = 1; reset_at = now + l.window_dur })) l.windows;
}

-- `w.count++` and what follows, on an open window.
unfoldable pub count_in : ℕ → ℕ → ConnWindow → ConnectionRateLimiter → Bool × ConnectionRateLimiter
count_in ip now w l =
    if ltb l.max_conns (w.count + 1)
    then (
      false,
      record l {
        windows = put ip none l.windows;
        banned = put ip (some (now + l.ban_dur)) l.banned;
      },
    )
    else (true, record l { windows = put ip (some (record w { count = w.count + 1 })) l.windows })

unfoldable pub in_window :
    Option ConnWindow → ℕ → ℕ → ConnectionRateLimiter → Bool × ConnectionRateLimiter
in_window none ip now l = (true, open_window ip now l)
in_window (some w) ip now l =
    if ltb now w.reset_at then count_in ip now w l else (true, open_window ip now l)

unfoldable pub allow : ℕ → ℕ → ConnectionRateLimiter → Bool × ConnectionRateLimiter
allow ip now l =
    if holds_ban (l.banned ip) now
    then (false, l)
    else in_window (l.windows ip) ip now (record l { banned = put ip none l.banned })

-- The entries of a map that have not run out.
unfoldable pub live_ban : ℕ → Option ℕ → Option ℕ
live_ban now ban = if holds_ban ban now then ban else none

unfoldable pub live_window : ℕ → Option ConnWindow → Option ConnWindow
live_window now w = if is_open w now then w else none

unfoldable pub cleanup : ℕ → ConnectionRateLimiter → ConnectionRateLimiter
cleanup now l = record l {
  windows = λ ip. live_window now (l.windows ip);
  banned = λ ip. live_ban now (l.banned ip);
}

-- What happens to a limiter, and the connections of an address that it lets through.
pub data Event : Type 0 where
  attempt : ℕ → ℕ → Event
  cleaned : ℕ → Event

unfoldable pub event : Event → ConnectionRateLimiter → Bool × ConnectionRateLimiter
event (attempt ip now) l = allow ip now l
event (cleaned now) l = (false, cleanup now l)

abbrev pub event_time : Event → ℕ
event_time (attempt ip now) = now
event_time (cleaned now) = now

abbrev pub is_attempt_of : ℕ → Event → Bool
is_attempt_of ip (attempt other now) = ip == other
is_attempt_of ip (cleaned now) = false

unfoldable pub count_allowed : ℕ → List Event → ConnectionRateLimiter → ℕ
count_allowed ip [] l = 0
count_allowed ip (e ∷ es) l =
    let later = count_allowed ip es (event e l).1 in
    if (event e l).0 then (if is_attempt_of ip e then suc later else later) else later
