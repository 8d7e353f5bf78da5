-- ===== src/RateLimit.antt =====
-- backend/app/core/rate_limit.py: the fixed-window limiter over Redis. Redis is a parameter: the three
-- commands of the pipeline, on a state and at an instant in seconds.
pub mod Window
use support_flow.Prelude.{ℕ, String, Bool, not, Option, ltb, if◌then◌else◌}
use support_flow.Prelude.Int.{ℤ, pos, negsuc}
use support_flow.Errors.{AppError, Result, ok, raised}

pub record Redis (S : Type 0) : Type 0 where
  -- the pipeline neither fails nor times out
  pub reachable : ℕ → S → Bool
  -- `SET key 0 EX seconds NX`
  pub set_nx_ex : String → ℕ → ℕ → S → S
  -- `INCR key` with its reply
  pub incr : String → ℕ → S → ℕ × S
  -- `TTL key`
  pub ttl : String → ℕ → S → ℤ

-- `ttl if ttl > 0 else window_seconds`
abbrev retry_after : ℤ → ℕ → ℕ
retry_after (pos ttl) window_seconds = if ltb 0 ttl then ttl else window_seconds
retry_after (negsuc _) window_seconds = window_seconds

module _ {S : Type 0} (redis : Redis S) where
  -- `_hit`: the count and the seconds until the window ends.
  unfoldable pub hit : String → ℕ → ℕ → S → (ℕ × ℕ) × S
  hit key window_seconds now s =
      let s' = redis.set_nx_ex key window_seconds now s in
      let (count, s'') = redis.incr key now s' in
      ((count, retry_after (redis.ttl key now s'') window_seconds), s'')

  -- An unreachable Redis allows the request.
  unfoldable pub enforce : String → ℕ → ℕ → ℕ → S → Result (Unit {0}) × S
  unfolding hit
  enforce key limit window_seconds now s =
      if not (redis.reachable now s)
      then (ok tt, s)
      else let ((count, retry), s') = hit key window_seconds now s in
        (if ltb limit count then raised (AppError.rate_limited_error retry) else ok tt, s')
