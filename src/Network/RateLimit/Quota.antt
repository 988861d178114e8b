-- ===== src/Network/RateLimit/Quota.antt =====
-- How many commands of a session are processed in a stretch of time.
use gooophira_mp.Prelude.{
  ℕ, suc, ◌+◌, ◌-◌, ◌*◌, ◌≤◌, ◌≡◌, Bool, true, false, List, [], ◌∷◌, ltb, not, if◌then◌else◌,
}
use gooophira_mp.Protocol.Commands.{ClientCommand}
use gooophira_mp.Network.RateLimit.{
  categorize, is_cat_none, one_token, Bucket, CommandRateLimiter, Handling, Session, on_command,
}

abbrev pub is_processed : Handling → Bool
is_processed Handling.processed = true
is_processed other = false

abbrev pub is_discrete : ClientCommand → Bool
is_discrete cmd = not (is_cat_none (categorize cmd))

-- The commands that the hub processes, out of those that arrive, each at its moment. With each stands
-- whether an authentication that it asks for sets the user.
unfoldable pub count_processed : List ℕ → List (ClientCommand × Bool × ℕ) → Session → ℕ
count_processed msg [] s = 0
count_processed msg ((cmd, signs_in, now) ∷ cs) s =
    let (h, t) = on_command msg cmd signs_in now s in
    let later = count_processed msg cs t in if is_processed h then suc later else later

-- Of these the discrete ones: all but touches and judges.
unfoldable pub count_discrete : List ℕ → List (ClientCommand × Bool × ℕ) → Session → ℕ
count_discrete msg [] s = 0
count_discrete msg ((cmd, signs_in, now) ∷ cs) s =
    let (h, t) = on_command msg cmd signs_in now s in
    let later = count_discrete msg cs t in
    if is_processed h then (if is_discrete cmd then suc later else later) else later

-- What a bucket can give from `start` to `stop`, in billionths of a token.
abbrev budget : ℕ → ℕ → ℕ → Bucket → ℕ
budget rate start stop b =
    if ltb b.last start
    then rate * one_token + rate * (stop - start)
    else b.tokens + rate * (stop - b.last)

pub record IsInside (rate start stop : ℕ) (b : Bucket) : Type 0 where
  pub full : b.tokens ≤ rate * one_token
  pub past : b.last ≤ stop

-- What is left after a step: a token less, if one was taken.
record IsSpent (rate start stop : ℕ) (b : Bucket) (p : Bool × Bucket) : Type 0 where
  inside : IsInside rate start stop p.1
  spent : (if p.0 then one_token else 0) + budget rate start stop p.1 ≤ budget rate start stop b

-- Both buckets of a limiter after a command of a category.
pub record IsWithin (start stop : ℕ) (l : CommandRateLimiter) : Type 0 where
  pub total : IsInside 15 start stop l.total_bucket
  pub op : IsInside 2 start stop l.op_bucket

record IsPaid (start stop : ℕ) (discrete : Bool) (l : CommandRateLimiter)
    (p : Bool × CommandRateLimiter) : Type 0 where
  within : IsWithin start stop p.1
  total :
      (if p.0 then one_token else 0) + budget 15 start stop (p.1).total_bucket
      ≤ budget 15 start stop l.total_bucket
  op :
      (if p.0 then (if discrete then one_token else 0) else 0) + budget 2 start stop (p.1).op_bucket
      ≤ budget 2 start stop l.op_bucket

-- A session in use, which the limit holds for.
record IsLimited (start stop : ℕ) (s : Session) : Type 0 where
  on : s.command_rate_limit ≡ true
  within : IsWithin start stop s.rl

record IsCharged (start stop : ℕ) (discrete : Bool) (s : Session) (p : Handling × Session)
    : Type 0 where
  limited : IsLimited start stop p.1
  total :
      (if is_processed p.0 then one_token else 0) + budget 15 start stop ((p.1).rl).total_bucket
      ≤ budget 15 start stop (s.rl).total_bucket
  op :
      (if is_processed p.0 then (if discrete then one_token else 0) else 0)
        + budget 2 start stop ((p.1).rl).op_bucket
      ≤ budget 2 start stop (s.rl).op_bucket

abbrev pub IsDuring : ℕ → ℕ → ClientCommand × Bool × ℕ → Type 0
IsDuring start stop c = (start ≤ c.2) × (c.2 ≤ stop)
