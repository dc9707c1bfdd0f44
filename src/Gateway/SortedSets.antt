-- ===== src/Gateway/SortedSets.antt =====
-- What the rate limiter relies on of Redis: the sorted sets behind its keys, whose scores are
-- doubles, and the expiration of keys. Members are the decimal texts of numbers, taken as these numbers.
use nex_pulse.Base.{
  ℕ, ◌+◌, ◌%◌, ◌≡◌, ◌≢◌, ◌<◌, Bool, true, false, not, ◌&&◌, Option, none, some, List, length, leb,
  ◌==◌, if◌then◌else◌,
}
use nex_pulse.Text.{Text}
use nex_pulse.Anomaly.Float64.{Float64, float64, exceeds}
use nex_pulse.Query.Hub.{has, Unique}

unfoldable pub is_some {ℓ} : {A : Type ℓ} → Option A → Bool
is_some none = false
is_some (some a) = true

-- Whether a score is one of those from `low` to `high`.
abbrev pub in_range : ℕ → ℕ → Option Float64 → Bool
in_range low high none = false
in_range low high (some score) =
    not (exceeds (float64 low) score) && not (exceeds score (float64 high))

abbrev pub is_over : Option ℕ → ℕ → Bool
is_over none now = false
is_over (some deadline) now = leb deadline now

-- The commands on a store `R`, and what the documentation of Redis says of them. `elapse now` is the
-- store at the time `now`, where the keys are gone whose deadline has come.
pub record SortedSets (R : Type 0) : Type 0 where
  pub zscore : R → Text → ℕ → Option Float64
  pub deadline : R → Text → Option ℕ
  pub zremrangebyscore : Text → ℕ → ℕ → R → R
  pub zadd : Text → Float64 → ℕ → R → R
  pub zcard : Text → R → ℕ
  pub expire : Text → ℕ → ℕ → R → R
  pub elapse : ℕ → R → R

-- A positive number of nanoseconds that are whole seconds.
abbrev pub IsWholeSeconds : ℕ → Type 0
IsWholeSeconds span = (0 < span) × (span % 1_000_000_000 ≡ 0)

-- The laws: what each command does to the key it names, and that it leaves the others alone.
pub record IsRedis {R : Type 0} (s : SortedSets R) : Type 0 where
  pub zscore-zremrangebyscore :
      (key : Text) (low high : ℕ) (r : R) (m : ℕ)
      → s.zscore (s.zremrangebyscore key low high r) key m
        ≡ (if in_range low high (s.zscore r key m) then none else s.zscore r key m)
  pub zscore-zadd :
      (key : Text) (score : Float64) (member : ℕ) (r : R) (m : ℕ)
      → s.zscore (s.zadd key score member r) key m
        ≡ (if m == member then some score else s.zscore r key m)
  pub zscore-expire :
      (key : Text) (now span : ℕ) (r : R) (m : ℕ)
      → 0 < span
      → s.zscore (s.expire key now span r) key m ≡ s.zscore r key m
  -- The client sends the span in whole seconds.
  pub deadline-expire :
      (key : Text) (now span : ℕ) (r : R)
      → IsWholeSeconds span
      → s.deadline (s.expire key now span r) key ≡ some (now + span)
  pub zscore-elapse :
      (now : ℕ) (r : R) (key : Text) (m : ℕ)
      → s.zscore (s.elapse now r) key m
        ≡ (if is_over (s.deadline r key) now then none else s.zscore r key m)
  pub deadline-elapse :
      (now : ℕ) (r : R) (key : Text)
      → s.deadline (s.elapse now r) key
        ≡ (if is_over (s.deadline r key) now then none else s.deadline r key)
  -- ZCARD counts the members.
  pub zcard-length :
      (key : Text) (r : R) (ms : List ℕ)
      → Unique ms
      → ((m : ℕ) → has m ms ≡ is_some (s.zscore r key m))
      → s.zcard key r ≡ length ms
  pub zremrangebyscore_other :
      (key other : Text) (low high : ℕ) (r : R) (m : ℕ)
      → key ≢ other
      → (s.zscore (s.zremrangebyscore key low high r) other m ≡ s.zscore r other m)
        × (s.deadline (s.zremrangebyscore key low high r) other ≡ s.deadline r other)
  pub zadd_other :
      (key other : Text) (score : Float64) (member : ℕ) (r : R) (m : ℕ)
      → key ≢ other
      → (s.zscore (s.zadd key score member r) other m ≡ s.zscore r other m)
        × (s.deadline (s.zadd key score member r) other ≡ s.deadline r other)
  pub expire_other :
      (key other : Text) (now span : ℕ) (r : R) (m : ℕ)
      → key ≢ other
      → (s.zscore (s.expire key now span r) other m ≡ s.zscore r other m)
        × (s.deadline (s.expire key now span r) other ≡ s.deadline r other)
