-- ===== src/Text/Decimal.antt =====
-- Decimal text: `operator<<` of an unsigned integer, `std::to_string`, and `%u` of printf.
use pc_unlock_project.Common.{
  ℕ, zero, suc, ◌+◌, ◌-◌, ◌*◌, ◌/◌, ◌%◌, ◌^◌, ◌<◌, ◌≤◌, ◌≡◌, refl, ltb, if◌then◌else◌, [], ◌∷◌,
  ◌++◌, Bytes, replicate, All, length, arith, All-append, length-append, Bool-cases, inl, inr,
}
use native.Mathlib.Nat.{pow-suc}

-- The digits of `n`, with at most `f` rounds.
unfoldable pub digits : ℕ → ℕ → Bytes
digits zero n = []
digits (suc f) n =
    let rest = digits f (n / 10) in if ltb n 10 then (48 + n) ∷ [] else rest ++ (48 + n % 10) ∷ []

-- A 64-bit number has at most 20 digits.
unfoldable pub decimal : ℕ → Bytes
unfolding digits
decimal n = digits 20 n

-- The number that a row of digits stands for.
unfoldable pub value_from : ℕ → Bytes → ℕ
value_from acc [] = acc
value_from acc (c ∷ cs) = value_from (acc * 10 + (c - 48)) cs

abbrev pub IsDigit : ℕ → Type 0
IsDigit c = (48 ≤ c) × (c ≤ 57)

value_from-append :
    (acc : ℕ) (xs ys : Bytes) → value_from acc (xs ++ ys) ≡ value_from (value_from acc xs) ys
unfolding value_from
value_from-append acc [] ys = refl
value_from-append acc (x ∷ xs) ys = value_from-append (acc * 10 + (x - 48)) xs ys

value-digits : (f n : ℕ) → n < 10 ^ f → value_from 0 (digits f n) ≡ n
unfolding value_from digits
value-digits zero n h = omega arith
value-digits (suc f) n h = ground (
  arith,
  pow-suc 10 f,
  value_from-append 0 (digits f (n / 10)) ((48 + n % 10) ∷ []),
  value-digits f (n / 10),
)

-- The text stands for the number: 20 rounds are enough for every 64-bit number.
pub value-decimal : (n : ℕ) → n < 2 ^ 64 → value_from 0 (decimal n) ≡ n
unfolding decimal
value-decimal n h = value-digits 20 n (omega arith)

digits-IsDigit : (f n : ℕ) → All IsDigit (digits f n)
unfolding digits
digits-IsDigit zero n = tt
digits-IsDigit (suc f) n =
    let earlier =
      All-append IsDigit (digits f (n / 10)) ((48 + n % 10) ∷ []) (digits-IsDigit f (n / 10))
        (omega arith) in
    ground (arith, earlier)

pub length-digits : (f n : ℕ) → length (digits f n) ≤ f
unfolding digits
length-digits zero n = omega arith
length-digits (suc f) n =
    ground (arith, length-digits f (n / 10), length-append (digits f (n / 10)) ((48 + n % 10) ∷ []))

pub length-digits-lt : (f k n : ℕ) → n < 10 ^ suc k → length (digits f n) ≤ suc k
unfolding digits
length-digits-lt zero k n h = omega arith
length-digits-lt (suc f) zero n h = ground arith
length-digits-lt (suc f) (suc k) n h = ground (
  arith,
  pow-suc 10 (suc k),
  length-digits-lt f k (n / 10),
  length-append (digits f (n / 10)) ((48 + n % 10) ∷ []),
)

pub decimal-IsDigit : (n : ℕ) → All IsDigit (decimal n)
unfolding decimal
decimal-IsDigit n = digits-IsDigit 20 n

pub length-decimal-lt : (k n : ℕ) → n < 10 ^ suc k → length (decimal n) ≤ suc k
unfolding decimal
length-decimal-lt k n h = length-digits-lt 20 k n h

-- Leading zeros do not change the number.
pub value_zeros : (m : ℕ) (t : Bytes) → value_from 0 (replicate m 48 ++ t) ≡ value_from 0 t
unfolding value_from
value_zeros zero t = refl
value_zeros (suc m) t = value_zeros m t

pub length-decimal : (n : ℕ) → length (decimal n) ≤ 20
unfolding decimal
length-decimal n = length-digits 20 n

cons_of_append : (xs : Bytes) (d : ℕ) → (c : ℕ) × (cs : Bytes) × (xs ++ d ∷ [] ≡ c ∷ cs)
cons_of_append [] d = (d, [], refl)
cons_of_append (x ∷ xs) d = (x, xs ++ d ∷ [], refl)

-- There is a digit.
pub decimal_cons : (n : ℕ) → (c : ℕ) × (cs : Bytes) × (decimal n ≡ c ∷ cs)
unfolding decimal digits
decimal_cons n = elim (Bool-cases (ltb n 10)) [
  | inl small ↦ (48 + n, [], rw small refl)
  | inr large ↦
      let (c, cs, e) = cons_of_append (digits 19 (n / 10)) (48 + n % 10) in (c, cs, rw large e)
]
