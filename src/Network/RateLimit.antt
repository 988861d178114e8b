-- ===== src/Network/RateLimit.antt =====
-- The limit on the commands of a session: internal/server/network/ratelimit.go, and onCommand of
-- session_read.go. Tokens are counted in billionths and moments in nanoseconds, so that what refills a
-- bucket is a whole number; the rounding of float64 is left out.
pub mod Quota
use Prim.Native.Nat.{min}
use gooophira_mp.Prelude.{
  ℕ, ◌+◌, ◌-◌, ◌*◌, ◌^◌, Bool, true, false, Option, none, some, List, [], ◌∷◌, ltb, leb, not,
  if◌then◌else◌,
}
use gooophira_mp.Protocol.Composite.{StringResult}
use gooophira_mp.Protocol.Commands.{ClientCommand, ServerCommand}

pub data RateCategory : Type 0 where
  cat_none : RateCategory
  cat_chat : RateCategory
  cat_api : RateCategory
  cat_room : RateCategory

unfoldable pub categorize : ClientCommand → RateCategory
categorize ClientCommand.ping = RateCategory.cat_none
categorize (ClientCommand.authenticate token) = RateCategory.cat_none
categorize (ClientCommand.chat text) = RateCategory.cat_chat
categorize (ClientCommand.touches frames) = RateCategory.cat_none
categorize (ClientCommand.judges events) = RateCategory.cat_none
categorize (ClientCommand.create_room id) = RateCategory.cat_room
categorize (ClientCommand.join_room id monitor) = RateCategory.cat_room
categorize ClientCommand.leave_room = RateCategory.cat_room
categorize (ClientCommand.lock_room lock) = RateCategory.cat_room
categorize (ClientCommand.cycle_room cycle) = RateCategory.cat_room
categorize (ClientCommand.select_chart id) = RateCategory.cat_api
categorize ClientCommand.request_start = RateCategory.cat_room
categorize ClientCommand.ready = RateCategory.cat_room
categorize ClientCommand.cancel_ready = RateCategory.cat_room
categorize (ClientCommand.played id) = RateCategory.cat_api
categorize ClientCommand.abort = RateCategory.cat_room

unfoldable pub is_cat_none : RateCategory → Bool
is_cat_none RateCategory.cat_none = true
is_cat_none RateCategory.cat_chat = false
is_cat_none RateCategory.cat_api = false
is_cat_none RateCategory.cat_room = false

abbrev pub one_token : ℕ
one_token = 10 ^ 9

pub record BucketSpec : Type 0 where
  pub capacity : ℕ
  pub refill_per_sec : ℕ

abbrev pub op_spec : BucketSpec
op_spec = record { capacity = 2; refill_per_sec = 2 }

abbrev pub total_spec : BucketSpec
total_spec = record { capacity = 15; refill_per_sec = 15 }

pub record Bucket : Type 0 where
  pub tokens : ℕ
  pub last : ℕ

pub record CommandRateLimiter : Type 0 where
  pub op_bucket : Bucket
  pub total_bucket : Bucket

unfoldable pub new_command_rate_limiter : ℕ → CommandRateLimiter
new_command_rate_limiter now = record {
  op_bucket = record { tokens = op_spec.capacity * one_token; last = now };
  total_bucket = record { tokens = total_spec.capacity * one_token; last = now };
}

-- The refill for the time that has passed.
unfoldable pub refill : BucketSpec → ℕ → Bucket → Bucket
refill spec now b =
    if ltb b.last now
    then record {
      tokens = min (spec.capacity * one_token) (b.tokens + (now - b.last) * spec.refill_per_sec);
      last = now;
    }
    else b

unfoldable pub consume : BucketSpec → ℕ → Bucket → Bool × Bucket
consume spec now b =
    let r = refill spec now b in
    if leb one_token r.tokens
    then (true, record r { tokens = r.tokens - one_token })
    else (false, r)

unfoldable pub allow : RateCategory → ℕ → CommandRateLimiter → Bool × CommandRateLimiter
allow cat now l =
    let (ok, total) = consume total_spec now l.total_bucket in
    if not ok
    then (false, record l { total_bucket = total })
    else if is_cat_none cat
    then (true, record l { total_bucket = total })
    else let (op_ok, op) = consume op_spec now l.op_bucket in
      (op_ok, record { op_bucket = op; total_bucket = total })

-- The text is the localized message.
unfoldable pub rate_limited_response : List ℕ → ClientCommand → Option ServerCommand
rate_limited_response msg ClientCommand.ping = none
rate_limited_response msg (ClientCommand.authenticate token) = none
rate_limited_response msg (ClientCommand.chat text) =
    some (ServerCommand.chat (StringResult.errr msg))
rate_limited_response msg (ClientCommand.touches frames) = none
rate_limited_response msg (ClientCommand.judges events) = none
rate_limited_response msg (ClientCommand.create_room id) =
    some (ServerCommand.create_room (StringResult.errr msg))
rate_limited_response msg (ClientCommand.join_room id monitor) =
    some (ServerCommand.join_room (StringResult.errr msg))
rate_limited_response msg ClientCommand.leave_room =
    some (ServerCommand.leave_room (StringResult.errr msg))
rate_limited_response msg (ClientCommand.lock_room lock) =
    some (ServerCommand.lock_room (StringResult.errr msg))
rate_limited_response msg (ClientCommand.cycle_room cycle) =
    some (ServerCommand.cycle_room (StringResult.errr msg))
rate_limited_response msg (ClientCommand.select_chart id) =
    some (ServerCommand.select_chart (StringResult.errr msg))
rate_limited_response msg ClientCommand.request_start =
    some (ServerCommand.request_start (StringResult.errr msg))
rate_limited_response msg ClientCommand.ready = some (ServerCommand.ready (StringResult.errr msg))
rate_limited_response msg ClientCommand.cancel_ready =
    some (ServerCommand.cancel_ready (StringResult.errr msg))
rate_limited_response msg (ClientCommand.played id) =
    some (ServerCommand.played (StringResult.errr msg))
rate_limited_response msg ClientCommand.abort = some (ServerCommand.abort (StringResult.errr msg))

-- What `onCommand` does with a command: it sends a pong, starts the authentication, does nothing, sends
-- the answer that it is limited, if there is one, or has the hub process it.
pub data Handling : Type 0 where
  pong : Handling
  authenticating : List ℕ → Handling
  ignored : Handling
  limited : Option ServerCommand → Handling
  processed : Handling

-- The parts of a session and of the configuration that it reads.
pub record Session : Type 0 where
  pub is_user : Bool
  pub rl : CommandRateLimiter
  pub command_rate_limit : Bool

unfoldable pub on_user_command : List ℕ → ClientCommand → ℕ → Session → Handling × Session
on_user_command msg cmd now s =
    if s.command_rate_limit
    then (let (ok, rl) = allow (categorize cmd) now s.rl in
        (
          if ok then Handling.processed else Handling.limited (rate_limited_response msg cmd),
          record s { rl = rl },
        ))
    else (Handling.processed, s)

-- `authenticates` is whether `handleAuthenticate` sets the user.
unfoldable pub on_command : List ℕ → ClientCommand → Bool → ℕ → Session → Handling × Session
on_command msg ClientCommand.ping authenticates now s = (Handling.pong, s)
on_command msg (ClientCommand.authenticate token) authenticates now s =
    if s.is_user
    then on_user_command msg (ClientCommand.authenticate token) now s
    else (Handling.authenticating token, record s { is_user = authenticates })
on_command msg cmd authenticates now s =
    if s.is_user then on_user_command msg cmd now s else (Handling.ignored, s)
