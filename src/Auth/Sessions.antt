-- ===== src/Auth/Sessions.antt =====
-- An abstract machine for the sessions of the AuthenticationManager: which numbers are issued, and
-- which are accepted. The Replay module shows that the handlers implement it.
use pc_unlock_project.Common.{
  ℕ, ◌+◌, ◌%◌, ◌^◌, ◌≤◌, ◌<◌, ◌≡◌, ◌≢◌, ◌⊎◌, inl, inr, true, false, if◌then◌else◌, Option, none,
  some, Bytes, arith, Bool-cases, bytes_eq, bytes_eq_iff,
}
use pc_unlock_project.Common.Assoc.{find, insert, find-insert, bytes_Eq}
use pc_unlock_project.Auth.Types.{ActiveChallenge, Challenges}

abbrev pub consumed : ActiveChallenge → ActiveChallenge
consumed c = record c { is_consumed = true }

-- One step: the counter and the challenges before and after it, and the session that it accepts.
pub data Move (n : ℕ) (challenges : Challenges) : ℕ → Challenges → Option ℕ → Type 0 where
  same : Move n challenges n challenges none
  skipped : Move n challenges ((n + 1) % 2 ^ 64) challenges none
  issued :
      (id : Bytes) (c : ActiveChallenge)
      → c.session_id ≡ n
      → Move n challenges ((n + 1) % 2 ^ 64) (insert id c challenges) none
  spent :
      (id : Bytes) (c : ActiveChallenge)
      → find id challenges ≡ some c
      → Move n challenges n (insert id (consumed c) challenges) none
  accepted :
      (id : Bytes) (c : ActiveChallenge)
      → find id challenges ≡ some c
      → c.is_consumed ≡ false
      → Move n challenges n (insert id (consumed c) challenges) (some c.session_id)

-- Every challenge has a number below the counter, and no two devices have the same.
pub record IsUnique (n : ℕ) (challenges : Challenges) : Type 0 where
  pub below : (k : Bytes) (c : ActiveChallenge) → find k challenges ≡ some c → c.session_id < n
  pub distinct :
      (k j : Bytes) (c d : ActiveChallenge)
      → find k challenges ≡ some c
      → find j challenges ≡ some d
      → c.session_id ≡ d.session_id
      → k ≡ j

-- A number that can still be accepted: that of an unused challenge, or one that is not issued.
abbrev pub IsOpen : ℕ → Challenges → ℕ → Type 0
IsOpen n challenges a =
    ((k : Bytes) × (c : ActiveChallenge) × (find k challenges ≡ some c)
      × (c.is_consumed ≡ false)
      × (c.session_id ≡ a))
    ⊎ (n ≤ a)

lookup_insert :
    (k j : Bytes) (v d : ActiveChallenge) (m : Challenges)
    → find j (insert k v m) ≡ some d
    → ((k ≡ j) × (v ≡ d)) ⊎ ((k ≢ j) × (find j m ≡ some d))
lookup_insert k j v d m e =
    let known : (if bytes_eq k j then some v else find j m) ≡ some d =
      rw (find-insert k j v m) at e in
    elim (Bool-cases (bytes_eq k j)) [
      | inl same_key ↦ inl ((bytes_eq_iff k j).0 same_key, ground arith)
      | inr other_key ↦ inr (λ eq. ground (arith, bytes_eq_iff k j), ground arith)
    ]

insert-IsUnique :
    (n n1 : ℕ) (m : Challenges) (id : Bytes) (v : ActiveChallenge)
    → IsUnique n m
    → n ≤ n1
    → v.session_id < n1
    → ((j : Bytes) (d : ActiveChallenge) → find j m ≡ some d → v.session_id ≡ d.session_id → id ≡ j)
    → IsUnique n1 (insert id v m)
insert-IsUnique n n1 m id v u le lt other = record {
  below = λ k c e. elim (lookup_insert id k v c m e) [
    | inl (same_key, same_value) ↦ rw (← same_value) lt
    | inr (differ, old) ↦ omega (arith, u.below k c old)
  ];
  distinct = λ k j c d e f eq. elim (lookup_insert id k v c m e) [
    | inl (kk, cc0) ↦ elim (lookup_insert id j v d m f) [
      | inl (jk, dd) ↦ cc
      | inr (differ, old) ↦
          let vd : v.session_id ≡ d.session_id = cc in let ij : id ≡ j = other j d old vd in cc
    ]
    | inr (differ, old) ↦ elim (lookup_insert id j v d m f) [
      | inl (jk, dd) ↦
          let vc : v.session_id ≡ c.session_id = cc in let ik : id ≡ k = other k c old vc in cc
      | inr (differ2, old2) ↦ u.distinct k j c d old old2 eq
    ]
  ];
}

-- The counter stays below 2^64 by hypothesis.
pub Move-IsUnique :
    (n : ℕ) (m : Challenges) {n1 : ℕ} {m1 : Challenges} {a : Option ℕ}
    → Move n m n1 m1 a
    → n + 1 < 2 ^ 64
    → IsUnique n m
    → IsUnique n1 m1 × (n ≤ n1) × (n1 ≤ n + 1)
Move-IsUnique n m same small u = (u, omega arith, omega arith)
Move-IsUnique n m skipped small u = (
  record { below = λ k c e. omega (arith, u.below k c e); distinct = u.distinct },
  omega arith,
  omega arith,
)
Move-IsUnique n m (issued id c e) small u = (
  insert-IsUnique n _ m id c u (omega arith) (omega arith)
      λ j d f eq. absurd (omega (arith, u.below j d f)),
  omega arith,
  omega arith,
)
Move-IsUnique n m (spent id c e) small u = (
  insert-IsUnique n n m id (consumed c) u (omega arith) (u.below id c e)
      λ j d f eq. u.distinct id j c d e f eq,
  omega arith,
  omega arith,
)
Move-IsUnique n m (accepted id c e unused) small u = (
  insert-IsUnique n n m id (consumed c) u (omega arith) (u.below id c e)
      λ j d f eq. u.distinct id j c d e f eq,
  omega arith,
  omega arith,
)

-- What can be accepted after a step could be accepted before it, except the session of the step.
closes :
    (n : ℕ) (m : Challenges) (id : Bytes) (c : ActiveChallenge) (a : ℕ)
    → IsUnique n m
    → find id m ≡ some c
    → IsOpen n (insert id (consumed c) m) a
    → IsOpen n m a × (c.session_id ≢ a)
closes n m id c a u e (inl (k, d, f, unused, eq)) = elim (lookup_insert id k (consumed c) d m f) [
  | inl (kk, same_value) ↦ absurd (ground arith)
  | inr (differ, old) ↦
      (inl (k, d, old, unused, eq), λ x. differ (u.distinct id k c d e old (ground arith)))
]
closes n m id c a u e (inr le) = (inr le, λ x. omega (arith, u.below id c e))

pub Move-IsOpen :
    (n : ℕ) (m : Challenges) {n1 : ℕ} {m1 : Challenges} {o : Option ℕ} (a : ℕ)
    → Move n m n1 m1 o
    → n + 1 < 2 ^ 64
    → IsUnique n m
    → IsOpen n1 m1 a
    → IsOpen n m a × (o ≢ some a)
Move-IsOpen n m a same small u open_a = (open_a, λ e. cc)
Move-IsOpen n m a skipped small u (inl h) = (inl h, λ e. cc)
Move-IsOpen n m a skipped small u (inr le) = (inr (omega arith), λ e. cc)
Move-IsOpen n m a (issued id c eq) small u (inl (k, d, f, unused, same_id)) =
    elim (lookup_insert id k c d m f) [
      | inl (kk, cd) ↦ (inr (ground arith), λ e. cc)
      | inr (differ, old) ↦ (inl (k, d, old, unused, same_id), λ e. cc)
    ]
Move-IsOpen n m a (issued id c eq) small u (inr le) = (inr (omega arith), λ e. cc)
Move-IsOpen n m a (spent id c e) small u h = ((closes n m id c a u e h).0, λ x. cc)
Move-IsOpen n m a (accepted id c e unused) small u h =
    let (still, differ) = closes n m id c a u e h in (still, λ x. ground arith)

-- An accepted session was open.
pub accepted-IsOpen :
    (n : ℕ) (m : Challenges) {n1 : ℕ} {m1 : Challenges} {o : Option ℕ} (a : ℕ)
    → Move n m n1 m1 o
    → o ≡ some a
    → IsOpen n m a
accepted-IsOpen n m a (accepted id c e unused) x = inl (id, c, e, unused, ground arith)
accepted-IsOpen n m a same x = cc
accepted-IsOpen n m a skipped x = cc
accepted-IsOpen n m a (issued id c e) x = cc
accepted-IsOpen n m a (spent id c e) x = cc
