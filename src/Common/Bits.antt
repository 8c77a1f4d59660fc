-- ===== src/Common/Bits.antt =====
-- Facts on `|` and `^` of two bytes, each checked by evaluation over all pairs.
use Prim.Native.Nat.{ℕ, zero, suc, ◌<◌, bit_or, bit_xor}
use mathlib.Core.Path.{◌≡◌, refl}
use mathlib.Core.Bool.{Bool, true, false, ◌&&◌, not}
use native.Mathlib.Omega.{arith}
use pc_unlock_project.Common.Tests.{ltb, ◌==◌, if◌then◌else◌}

-- A test of pairs: the rows below `m`, each up to column `n`.
row_holds : (ℕ → Bool) → ℕ → Bool
row_holds test zero = true
row_holds test (suc n) = let before = row_holds test n in if test n then before else false

rows_hold : (ℕ → ℕ → Bool) → ℕ → ℕ → Bool
rows_hold test n zero = true
rows_hold test n (suc m) = let before = rows_hold test n m in row_holds (test m) n && before

row_at : (test : ℕ → Bool) (n b : ℕ) → b < n → row_holds test n ≡ true → test b ≡ true
unfolding row_holds
row_at test zero b lt e = absurd (omega arith)
row_at test (suc n) b lt e = ground (arith, row_at test n b)

pair_at :
    (test : ℕ → ℕ → Bool) (n m a b : ℕ)
    → a < m
    → b < n
    → rows_hold test n m ≡ true
    → test a b ≡ true
unfolding rows_hold
pair_at test n zero a b la lb e = absurd (omega arith)
pair_at test n (suc m) a b la lb e = ground (arith, pair_at test n m a b, row_at (test m) n b)

abbrev agree : Bool → Bool → Bool
agree true b = b
agree false b = not b

abbrev or_test : ℕ → ℕ → Bool
or_test a b = ltb (bit_or a b) 256 && agree (bit_or a b == 0) (a == 0 && b == 0)

abbrev xor_test : ℕ → ℕ → Bool
xor_test a b = ltb (bit_xor a b) 256 && agree (bit_xor a b == 0) (a == b)

or_table : rows_hold or_test 256 256 ≡ true
unfolding rows_hold row_holds
or_table = refl

xor_table : rows_hold xor_test 256 256 ≡ true
unfolding rows_hold row_holds
xor_table = refl

pub bit_or_byte :
    (a b : ℕ) → a < 256 → b < 256 → (bit_or a b < 256) × ((bit_or a b == 0) ≡ (a == 0 && b == 0))
bit_or_byte a b ha hb =
    let here : or_test a b ≡ true = pair_at or_test 256 256 a b ha hb or_table in ground arith

pub bit_xor_byte :
    (a b : ℕ) → a < 256 → b < 256 → (bit_xor a b < 256) × ((bit_xor a b == 0) ≡ (a == b))
bit_xor_byte a b ha hb =
    let here : xor_test a b ≡ true = pair_at xor_test 256 256 a b ha hb xor_table in ground arith
