-- ===== src/Auth/Limits.antt =====
-- authentication/AuthenticationManager.cpp: the count of failures and the lockout of a device.
pub mod Laws
use pc_unlock_project.Common.{
  ℕ, suc, ◌+◌, ◌*◌, ◌%◌, ◌^◌, Bool, true, false, not, ◌&&◌, ltb, leb, ◌==◌, if◌then◌else◌, Option,
  none, some, Bytes,
}
use pc_unlock_project.Common.Assoc.{find, insert, erase, bytes_Eq}
use pc_unlock_project.Auth.Types.{
  RateLimits, DeviceRateLimit, max_failed_attempts, lockout_duration_sec,
}

abbrev no_limit : DeviceRateLimit
no_limit = record { failed_count = 0; lockout_until_ms = 0 }

-- The answer, and the map afterwards: a lockout that is over is cleared.
unfoldable pub is_rate_limited : Bytes → ℕ → RateLimits → Bool × RateLimits
is_rate_limited id now limits = elim (find id limits) [
  | none ↦ (false, limits)
  | some l ↦
      if ltb now l.lockout_until_ms
      then (true, limits)
      else if not (l.lockout_until_ms == 0) && leb l.lockout_until_ms now
      then (false, insert id no_limit limits)
      else (false, limits)
]

-- `m_rateLimits[id]`, which adds an entry of zeros for a new device.
abbrev entry : Bytes → RateLimits → DeviceRateLimit
entry id limits = elim (find id limits) [ none ↦ no_limit | some l ↦ l ]

-- One more failure; the third starts the lockout.
abbrev more : ℕ → DeviceRateLimit → DeviceRateLimit
more now l =
    let count = l.failed_count + 1 in
    if leb max_failed_attempts count
    then record {
      failed_count = count;
      lockout_until_ms = (now + lockout_duration_sec * 1000) % 2 ^ 64;
    }
    else record l { failed_count = count }

unfoldable pub record_failure : Bytes → ℕ → RateLimits → RateLimits
record_failure id now limits = insert id (more now (entry id limits)) limits

unfoldable pub record_success : Bytes → RateLimits → RateLimits
record_success id limits = erase id limits
