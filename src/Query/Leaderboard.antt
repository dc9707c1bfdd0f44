-- ===== src/Query/Leaderboard.antt =====
-- GetLeaderboard of services/query/rdb/redis.go and the handler of /leaderboard in
-- services/query/main.go.
pub mod Top
use Prim.Native.Nat.{◌^◌}
use nex_pulse.Base.{ℕ, zero, suc, ◌+◌, Bool, Option, none, some, List, ◌==◌, if◌then◌else◌}
use nex_pulse.Base.Slices.{ℤ, pos, negsuc}
use nex_pulse.Text.{Text, codes}

-- A member of a sorted set with its score, a whole number here.
abbrev pub Entry : Type 0
Entry = Text × ℕ

-- `count - 1` as an int64.
abbrev pub last_index : ℤ → ℤ
last_index (pos zero) = negsuc 0
last_index (pos (suc n)) = pos n
last_index (negsuc n) = if n + 1 == 2 ^ 63 then pos n else negsuc (n + 1)

-- The result, and the counter of Redis errors.
unfoldable pub result : Option (List Entry) → ℕ → Option (List Entry) × ℕ
result none redis_errors = (none, redis_errors + 1)
result (some res) redis_errors = (some res, redis_errors)

-- `zrevrange` is ZREVRANGE with scores, with the key and the indices.
unfoldable pub get_leaderboard :
    (Text → ℤ → ℤ → Option (List Entry)) → Text → ℤ → ℕ → Option (List Entry) × ℕ
unfolding result
get_leaderboard zrevrange key count redis_errors =
    result (zrevrange key (pos 0) (last_index count)) redis_errors

-- The status, the list in the answer, and the counter.
unfoldable pub reply : Option (List Entry) × ℕ → ℕ × Option (List Entry) × ℕ
reply (none, redis_errors) = (500, none, redis_errors)
reply (some res, redis_errors) = (200, some res, redis_errors)

unfoldable pub handle_leaderboard :
    (Text → ℤ → ℤ → Option (List Entry)) → ℕ → ℕ × Option (List Entry) × ℕ
unfolding get_leaderboard reply codes
handle_leaderboard zrevrange redis_errors =
    reply (get_leaderboard zrevrange (codes "leaderboard:users") (pos 10) redis_errors)
