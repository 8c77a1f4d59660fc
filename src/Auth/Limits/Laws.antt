-- ===== src/Auth/Limits/Laws.antt =====
-- The lockout: when it starts, how long it lasts, and the bound on the count of failures.
use pc_unlock_project.Common.{
  ◌⊎◌, option_cases, ℕ, ◌+◌, ◌%◌, ◌^◌, ◌<◌, ◌≡◌, ◌≢◌, refl, Bool, true, false, not, ◌&&◌, ltb, leb,
  ◌==◌, none, some, Bytes, bytes_eq, bytes_eq_iff, arith, Option-cases, Bool-cases, inl, inr,
  if_cases,
}
use pc_unlock_project.Common.Assoc.{find, insert, bytes_Eq, find-insert, find-erase}
use pc_unlock_project.Auth.Types.{RateLimits, DeviceRateLimit}
use pc_unlock_project.Auth.Limits.{
  is_rate_limited, record_failure, record_success, no_limit, entry, more,
}

bytes_eq_refl : (id : Bytes) → bytes_eq id id ≡ true
bytes_eq_refl id = (bytes_eq_iff id id).1 refl

pub find_here :
    (id : Bytes) (l : DeviceRateLimit) (m : RateLimits) → find id (insert id l m) ≡ some l
find_here id l m = rw (find-insert id id l m, bytes_eq_refl id) refl

pub find_there :
    (id k : Bytes) (l : DeviceRateLimit) (m : RateLimits)
    → id ≢ k
    → find k (insert id l m) ≡ find k m
find_there id k l m n = ground (arith, find-insert id k l m, bytes_eq_iff id k)

-- A device is allowed if it has no entry or its lockout is not ahead of the clock.
is_allowed :
    (id : Bytes) (now : ℕ) (m : RateLimits)
    → (is_rate_limited id now m).0
      ≡ (elim (find id m) as (λ o. Bool) [ none ↦ false | some l ↦ ltb now l.lockout_until_ms ])
unfolding is_rate_limited
is_allowed id now m = ground arith

-- A check that lets the device pass leaves nothing that stops it later.
pub is_rate_limited-cleared :
    (id : Bytes) (now later : ℕ) (m : RateLimits)
    → (is_rate_limited id now m).0 ≡ false
    → (is_rate_limited id later (is_rate_limited id now m).1).0 ≡ false
unfolding is_rate_limited
is_rate_limited-cleared id now later m h = elim (Option-cases (find id m)) [
  | inl missing ↦ ground arith
  | inr (l, e) ↦ ground (arith, find_here id no_limit m)
]

entry_here : (id : Bytes) (l : DeviceRateLimit) (m : RateLimits) → entry id (insert id l m) ≡ l
entry_here id l m = rw (find_here id l m, entry) refl

limited_here :
    (id : Bytes) (now : ℕ) (l : DeviceRateLimit) (m : RateLimits)
    → (is_rate_limited id now (insert id l m)).0 ≡ ltb now l.lockout_until_ms
limited_here id now l m = rw (is_allowed id now (insert id l m), find_here id l m) refl

-- Three failures in a row of a device without an entry, at the times `t1`, `t2` and `t3`, lock it
-- out until 15 minutes after the third, and for no longer; the end of the lockout is computed
-- modulo 2^64.
record_failure-lockout :
    (id : Bytes) (t1 t2 t3 now : ℕ) (m : RateLimits)
    → find id m ≡ none
    → (is_rate_limited id now
        (record_failure id t3 (record_failure id t2 (record_failure id t1 m)))).0
      ≡ ltb now ((t3 + 900000) % 2 ^ 64)
unfolding record_failure
record_failure-lockout id t1 t2 t3 now m fresh =
    let once : entry id m ≡ no_limit = rw (fresh, entry) refl in
    rw (limited_here id now) (
      rw (entry_here id (more t2 (entry id (insert id (more t1 (entry id m)) m))) _)
        (rw (entry_here id (more t1 (entry id m)) m) (rw once refl)))

-- At most three failures are counted, and the lockout is set exactly with the third.
abbrev pub IsBounded : DeviceRateLimit → Type 0
IsBounded l =
    ((l.failed_count < 3) × (l.lockout_until_ms ≡ 0))
    ⊎ ((l.failed_count ≡ 3) × (0 < l.lockout_until_ms))

abbrev pub AllBounded : RateLimits → Type 0
AllBounded m = (k : Bytes) (l : DeviceRateLimit) → find k m ≡ some l → IsBounded l

insert-AllBounded :
    (id : Bytes) (l : DeviceRateLimit) (m : RateLimits)
    → AllBounded m
    → IsBounded l
    → AllBounded (insert id l m)
insert-AllBounded id l m b h k d e = elim (Bool-cases (bytes_eq id k)) [
  | inl same ↦ let eq : l ≡ d = ground (arith, find-insert id k l m) in rw (← eq) h
  | inr other ↦ b k d (ground (arith, find-insert id k l m))
]

pub is_rate_limited-AllBounded :
    (id : Bytes) (now : ℕ) (m : RateLimits) → AllBounded m → AllBounded (is_rate_limited id now m).1
unfolding is_rate_limited
is_rate_limited-AllBounded id now m b =
    option_cases (λ (p : Bool × RateLimits). AllBounded p.1) (find id m) _ _ (λ e. b)
      (λ l e.
        if_cases (λ (p : Bool × RateLimits). AllBounded p.1) (ltb now l.lockout_until_ms) _ _
          (λ f. b)
          (λ f.
            if_cases (λ (p : Bool × RateLimits). AllBounded p.1)
              (not (l.lockout_until_ms == 0) && leb l.lockout_until_ms now) _ _
              (λ g. insert-AllBounded id no_limit m b (inl (omega arith, refl))) (λ g. b)))

-- After a check that lets the device pass, its count is below three.
passed_count :
    (id : Bytes) (now : ℕ) (m : RateLimits)
    → AllBounded m
    → (is_rate_limited id now m).0 ≡ false
    → (entry id (is_rate_limited id now m).1).failed_count < 3
unfolding is_rate_limited
passed_count id now m b h = elim (Option-cases (find id m)) [
  | inl missing ↦ ground arith
  | inr (l, e) ↦ ground (arith, find_here id no_limit m, b id l e)
]

more-IsBounded :
    (now : ℕ) (l : DeviceRateLimit)
    → now + 900000 < 2 ^ 64
    → l.failed_count < 3
    → l.lockout_until_ms ≡ 0
    → IsBounded (more now l)
more-IsBounded now l small few zero_lock = ground arith

entry_lockout :
    (id : Bytes) (m : RateLimits)
    → AllBounded m
    → (entry id m).failed_count < 3
    → (entry id m).lockout_until_ms ≡ 0
entry_lockout id m b few = elim (Option-cases (find id m)) [
  | inl missing ↦ rw (missing, entry) refl
  | inr (l, e) ↦ ground (arith, b id l e)
]

-- A failure that is recorded after the check keeps the bound.
pub record_failure-AllBounded :
    (id : Bytes) (now : ℕ) (m : RateLimits)
    → AllBounded m
    → (is_rate_limited id now m).0 ≡ false
    → now + 900000 < 2 ^ 64
    → AllBounded (record_failure id now (is_rate_limited id now m).1)
unfolding record_failure
record_failure-AllBounded id now m b h small =
    let m1 = (is_rate_limited id now m).1 in
    let b1 = is_rate_limited-AllBounded id now m b in
    let few = passed_count id now m b h in
    let zero_lock : (entry id m1).lockout_until_ms ≡ 0 = entry_lockout id m1 b1 few in
    insert-AllBounded id (more now (entry id m1)) m1 b1
      (more-IsBounded now (entry id m1) small few zero_lock)

pub record_success-AllBounded :
    (id : Bytes) (m : RateLimits) → AllBounded m → AllBounded (record_success id m)
unfolding record_success
record_success-AllBounded id m b k l e = b k l (ground (arith, find-erase id k m))

-- The other devices' entries stay as they are.
pub is_rate_limited-frame :
    (id k : Bytes) (now : ℕ) (m : RateLimits)
    → id ≢ k
    → find k (is_rate_limited id now m).1 ≡ find k m
unfolding is_rate_limited
is_rate_limited-frame id k now m n = ground (arith, find_there id k no_limit m n)

pub record_failure-frame :
    (id k : Bytes) (now : ℕ) (m : RateLimits) → id ≢ k → find k (record_failure id now m) ≡ find k m
unfolding record_failure
record_failure-frame id k now m n = find_there id k (more now (entry id m)) m n

pub record_success-frame :
    (id k : Bytes) (m : RateLimits) → id ≢ k → find k (record_success id m) ≡ find k m
unfolding record_success
record_success-frame id k m n = ground (arith, find-erase id k m, bytes_eq_iff id k)
