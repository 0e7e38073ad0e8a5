-- ===== src/Conn/Buffer/Capacity.antt =====
-- The loop that chooses the new capacity ends between what is needed and the limit.
use kvx.Common.{ℕ, zero, suc, ◌+◌, ◌*◌, ◌≤◌, ◌<◌, arith}
use kvx.Conn.Buffer.{grow_cap}

-- From a positive capacity up to the limit, the loop ends with one that is at least the one needed
-- and at least the old one, and at most the limit.
pub grow_cap_bounds :
    (fuel limit min_cap new_cap : ℕ)
    → 0 < new_cap
    → new_cap ≤ limit
    → min_cap ≤ limit
    → min_cap < fuel + new_cap
    → (min_cap ≤ grow_cap fuel limit min_cap new_cap)
      × (new_cap ≤ grow_cap fuel limit min_cap new_cap)
      × (grow_cap fuel limit min_cap new_cap ≤ limit)
unfolding grow_cap
grow_cap_bounds zero limit min_cap new_cap pos low high enough = omega arith
grow_cap_bounds (suc fuel) limit min_cap new_cap pos low high enough =
    ground (arith, grow_cap_bounds fuel limit min_cap (new_cap * 2))
