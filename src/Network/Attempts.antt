-- ===== src/Network/Attempts.antt =====
-- windows/network/NetworkEngine.cpp: `CheckRateLimit`. Ticks are 32-bit milliseconds that wrap.
use pc_unlock_project.Common.{
  ℕ, ◌+◌, ◌-◌, ◌%◌, ◌^◌, ◌<◌, ◌≤◌, ◌≡◌, refl, Bool, true, false, ltb, if◌then◌else◌, List, none,
  some, Bytes, arith, bytes_eq_iff,
}
use pc_unlock_project.Common.Assoc.{find, insert, bytes_Eq, find-insert}

pub record RateLimitEntry : Type 0 where
  pub first_attempt_ms : ℕ  -- DWORD
  pub attempt_count : ℕ  -- uint32_t
  pub blocked_until_ms : ℕ  -- DWORD

abbrev pub RateLimitTable : Type 0
RateLimitTable = List (Bytes × RateLimitEntry)

abbrev pub first_entry : ℕ → RateLimitEntry
first_entry now = record { first_attempt_ms = now; attempt_count = 1; blocked_until_ms = 0 }

-- Whether the connection is let in, and the table afterwards.
unfoldable pub check_rate_limit : Bytes → ℕ → RateLimitTable → Bool × RateLimitTable
check_rate_limit ip now m = elim (find ip m) [
  | none ↦ (true, insert ip (first_entry now) m)
  | some e ↦
      if ltb now e.blocked_until_ms
      then (false, m)
      else if ltb 60000 ((now + 2 ^ 32 - e.first_attempt_ms) % 2 ^ 32)
      then (true, insert ip (first_entry now) m)
      else if ltb 5 ((e.attempt_count + 1) % 2 ^ 32)
      then (
        false,
        insert ip
            (record e {
              attempt_count = (e.attempt_count + 1) % 2 ^ 32;
              blocked_until_ms = (now + 900000) % 2 ^ 32;
            })
            m,
      )
      else (true, insert ip (record e { attempt_count = (e.attempt_count + 1) % 2 ^ 32 }) m)
]

abbrev blocked : ℕ → RateLimitEntry → RateLimitEntry
blocked now e = record e {
  attempt_count = (e.attempt_count + 1) % 2 ^ 32;
  blocked_until_ms = (now + 900000) % 2 ^ 32;
}

sixth :
    (ip : Bytes) (now : ℕ) (e : RateLimitEntry) (m : RateLimitTable)
    → find ip m ≡ some e
    → e.attempt_count ≡ 5
    → e.blocked_until_ms ≤ now
    → e.first_attempt_ms ≤ now
    → now ≤ e.first_attempt_ms + 60000
    → check_rate_limit ip now m ≡ (false, insert ip (blocked now e) m)
unfolding check_rate_limit
sixth ip now e m found five free begun in_minute =
    let not_blocked : ltb now e.blocked_until_ms ≡ false = ground arith in
    let in_window : ltb 60000 ((now + 2 ^ 32 - e.first_attempt_ms) % 2 ^ 32) ≡ false =
      ground arith in
    let many : ltb 5 ((e.attempt_count + 1) % 2 ^ 32) ≡ true = ground arith in
    rw (found, not_blocked, in_window, many, check_rate_limit) refl

find_blocked :
    (ip : Bytes) (b : RateLimitEntry) (m : RateLimitTable) → find ip (insert ip b m) ≡ some b
find_blocked ip b m = ground (arith, find-insert ip ip b m, bytes_eq_iff ip ip)

still_blocked :
    (ip : Bytes) (later : ℕ) (b : RateLimitEntry) (m : RateLimitTable)
    → find ip m ≡ some b
    → later < b.blocked_until_ms
    → (check_rate_limit ip later m).0 ≡ false
unfolding check_rate_limit
still_blocked ip later b m found soon = ground arith

-- The sixth attempt within a minute is refused, and so is every attempt of the address until 15
-- minutes after it, if the clock does not wrap in that time.
check_rate_limit-blocks :
    (ip : Bytes) (now later : ℕ) (e : RateLimitEntry) (m : RateLimitTable)
    → find ip m ≡ some e
    → e.attempt_count ≡ 5
    → e.blocked_until_ms ≤ now
    → e.first_attempt_ms ≤ now
    → now ≤ e.first_attempt_ms + 60000
    → now + 900000 < 2 ^ 32
    → later < now + 900000
    → ((check_rate_limit ip now m).0 ≡ false)
      × ((check_rate_limit ip later (check_rate_limit ip now m).1).0 ≡ false)
check_rate_limit-blocks ip now later e m found five free begun in_minute small soon =
    rw (sixth ip now e m found five free begun in_minute) (
      refl,
      still_blocked ip later (blocked now e) _ (find_blocked ip (blocked now e) m) (omega arith),
    )

let_in :
    (ip : Bytes) (later : ℕ) (b : RateLimitEntry) (m : RateLimitTable)
    → find ip m ≡ some b
    → b.blocked_until_ms ≤ later
    → b.first_attempt_ms + 60000 < later
    → later < 2 ^ 32
    → (check_rate_limit ip later m).0 ≡ true
unfolding check_rate_limit
let_in ip later b m found ended new_minute small =
    let not_blocked : ltb later b.blocked_until_ms ≡ false = ground arith in
    let over : ltb 60000 ((later + 2 ^ 32 - b.first_attempt_ms) % 2 ^ 32) ≡ true = ground arith in
    rw (found, not_blocked, over, check_rate_limit) refl

-- If the clock wraps within 15 minutes of a sixth attempt in a minute, that attempt is refused, but the
-- next attempt of the address is let in at every tick before the wrap that is more than a minute after
-- the first attempt, though the 15 minutes are not over. It is refused again at every tick after the
-- wrap until they are.
pub check_rate_limit-wraps :
    (ip : Bytes) (now before after : ℕ) (e : RateLimitEntry) (m : RateLimitTable)
    → find ip m ≡ some e
    → e.attempt_count ≡ 5
    → e.blocked_until_ms ≤ now
    → e.first_attempt_ms ≤ now
    → now ≤ e.first_attempt_ms + 60000
    → now < 2 ^ 32
    → 2 ^ 32 ≤ now + 900000
    → e.first_attempt_ms + 60000 < before
    → before < 2 ^ 32
    → after + 2 ^ 32 < now + 900000
    → ((check_rate_limit ip now m).0 ≡ false)
      × ((check_rate_limit ip before (check_rate_limit ip now m).1).0 ≡ true)
      × ((check_rate_limit ip after (check_rate_limit ip now m).1).0 ≡ false)
check_rate_limit-wraps ip now before after e m found five free begun in_minute small wraps
      new_minute unwrapped soon =
    rw (sixth ip now e m found five free begun in_minute) (
      refl,
      let_in ip before (blocked now e) _ (find_blocked ip (blocked now e) m) (omega arith)
          new_minute unwrapped,
      still_blocked ip after (blocked now e) _ (find_blocked ip (blocked now e) m) (omega arith),
    )
