-- ===== src/Gateway/RateLimit.antt =====
-- services/gateway/ratelimit/redis_limiter.go: a sliding window over a sorted set for each user. The
-- pipeline runs at the time that was read, and no other command runs between its commands.
pub mod Window
pub mod Times
pub mod Requests
pub mod History
pub mod Bound
use Prim.Native.Nat.{◌^◌}
use nex_pulse.Base.{ℕ, ◌+◌, ◌-◌, ◌%◌, Bool, Option, none, some, List, [], ◌∷◌, ◌++◌, leb}
use nex_pulse.Text.{Text, codes}
use nex_pulse.Anomaly.Float64.{float64}
use nex_pulse.Gateway.SortedSets.{SortedSets}

unfoldable pub rate_key : Text → Text
unfolding codes
rate_key user_id = codes "rl:user:" ++ user_id

-- `now - window.Nanoseconds()` by its bits.
unfoldable pub window_start : ℕ → ℕ → ℕ
window_start now window = (now + 2 ^ 64 - window) % 2 ^ 64

module _ {R : Type 0} (s : SortedSets R) where
  -- The commands of the pipeline but ZCARD, which changes nothing.
  unfoldable pub pipeline_before : Text → ℕ → ℕ → R → R
  unfolding window_start
  pipeline_before key window now r =
      s.zadd key (float64 now) now (s.zremrangebyscore key 0 (window_start now window) r)

  -- The verdict, or none for an error, and the store after the request. `failure` is the store that an
  -- error of the pipeline leaves, or none if there is no error.
  unfoldable pub allow_request : Text → ℕ → ℕ → ℕ → Option R → R → Option Bool × R
  unfolding pipeline_before rate_key
  allow_request user_id limit window now (some left) r = (none, left)
  allow_request user_id limit window now none r =
      let key = rate_key user_id in
      let added = pipeline_before key window now r in
      (some (leb (s.zcard key added) limit), s.expire key now window added)
