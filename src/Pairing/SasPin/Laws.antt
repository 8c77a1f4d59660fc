-- ===== src/Pairing/SasPin/Laws.antt =====
-- What the PIN functions promise.
use Prim.Native.Nat.{bit_or, bit_xor}
use pc_unlock_project.Common.{
  ℕ, ◌+◌, ◌<◌, ◌≤◌, ◌≡◌, refl, sym, ◌∙◌, ◌↔◌, true, false, ◌&&◌, ◌==◌, [], ◌∷◌, Bytes, IsByte, All,
  length, arith, bytes_eq, bytes_eq_iff,
}
use pc_unlock_project.Common.Bits.{bit_or_byte, bit_xor_byte}
use pc_unlock_project.Text.Decimal.{digits, IsDigit}
use pc_unlock_project.Pairing.SasPin.{
  FileTime, to_u64, all_digits, is_valid_pin_format, sas_pin_expired, difference, validate_sas_pin,
}

-- The loop without an early exit finds every difference.
difference_lem :
    (diff : ℕ) (xs ys : Bytes)
    → diff < 256
    → All IsByte xs
    → All IsByte ys
    → length xs ≡ length ys
    → (difference diff xs ys == 0) ≡ (diff == 0 && bytes_eq xs ys)
unfolding difference bytes_eq
difference_lem diff [] [] h a b n = ground arith
difference_lem diff [] (y ∷ ys) h a b n = absurd (omega arith)
difference_lem diff (x ∷ xs) [] h a b n = absurd (omega arith)
difference_lem diff (x ∷ xs) (y ∷ ys) h a b n =
    let (small, same) = bit_xor_byte x y a.0 b.0 in
    let (less, zeros) = bit_or_byte diff (bit_xor x y) h small in
    ground (
      arith,
      same,
      zeros,
      difference_lem (bit_or diff (bit_xor x y)) xs ys less a.1 b.1 (omega arith),
    )

all_digits-IsDigit : (xs : Bytes) → (all_digits xs ≡ true) ↔ All IsDigit xs
unfolding all_digits
all_digits-IsDigit [] = (λ h. tt, λ h. refl)
all_digits-IsDigit (x ∷ xs) = ground (arith, all_digits-IsDigit xs)

IsDigit-IsByte : (xs : Bytes) → All IsDigit xs → All IsByte xs
IsDigit-IsByte [] h = tt
IsDigit-IsByte (x ∷ xs) h = (omega arith, IsDigit-IsByte xs h.1)

-- A PIN is of valid form exactly if it consists of six decimal digits.
is_valid_pin_format_iff :
    (pin : Bytes) → (is_valid_pin_format pin ≡ true) ↔ ((length pin ≡ 6) × All IsDigit pin)
unfolding is_valid_pin_format
is_valid_pin_format_iff pin = ground (arith, all_digits-IsDigit pin)

-- A PIN is expired before the time of its generation and later than sixty seconds after it.
sas_pin_expired_iff :
    (now generated_at : FileTime)
    → (sas_pin_expired now generated_at ≡ false)
      ↔ ((to_u64 generated_at ≤ to_u64 now) × (to_u64 now ≤ to_u64 generated_at + 600000000))
unfolding sas_pin_expired
sas_pin_expired_iff now generated_at = ground arith

bytes_eq_refl : (xs : Bytes) → bytes_eq xs xs ≡ true
bytes_eq_refl xs = (bytes_eq_iff xs xs).1 refl

checks_passed :
    (now : FileTime) (candidate stored : Bytes) (generated_at : FileTime) (attempts : ℕ)
    → validate_sas_pin now candidate stored generated_at attempts ≡ true
    → (attempts < 3)
      × (sas_pin_expired now generated_at ≡ false)
      × (is_valid_pin_format candidate ≡ true)
      × (length stored ≡ 6)
      × ((difference 0 candidate stored == 0) ≡ true)
unfolding validate_sas_pin
checks_passed now candidate stored generated_at attempts h = ground arith

accepts_only :
    (now : FileTime) (candidate stored : Bytes) (generated_at : FileTime) (attempts : ℕ)
    → All IsByte stored
    → validate_sas_pin now candidate stored generated_at attempts ≡ true
    → (attempts < 3)
      × (to_u64 generated_at ≤ to_u64 now)
      × (to_u64 now ≤ to_u64 generated_at + 600000000)
      × (length candidate ≡ 6)
      × All IsDigit candidate
      × (candidate ≡ stored)
accepts_only now candidate stored generated_at attempts bytes h =
    let (few, fresh, form, six, zero_diff) =
      checks_passed now candidate stored generated_at attempts h in
    let (size, digits) = (is_valid_pin_format_iff candidate).0 form in
    let (after, before) = (sas_pin_expired_iff now generated_at).0 fresh in
    let compared : (difference 0 candidate stored == 0) ≡ bytes_eq candidate stored =
      difference_lem 0 candidate stored (omega arith) (IsDigit-IsByte candidate digits) bytes
        (omega arith) in
    (few, after, before, size, digits, (bytes_eq_iff candidate stored).0 (sym compared ∙ zero_diff))

accepts :
    (now : FileTime) (candidate stored : Bytes) (generated_at : FileTime) (attempts : ℕ)
    → attempts < 3
    → (to_u64 generated_at ≤ to_u64 now) × (to_u64 now ≤ to_u64 generated_at + 600000000)
    → (length candidate ≡ 6) × All IsDigit candidate
    → candidate ≡ stored
    → validate_sas_pin now candidate stored generated_at attempts ≡ true
unfolding validate_sas_pin
accepts now candidate stored generated_at attempts few fresh form same = rw (← same) (
    ground (
      arith,
      (sas_pin_expired_iff now generated_at).1 fresh,
      (is_valid_pin_format_iff candidate).1 form,
      difference_lem 0 candidate candidate (omega arith) (IsDigit-IsByte candidate form.1)
          (IsDigit-IsByte candidate form.1) refl,
      bytes_eq_refl candidate,
    ))

-- `validate_sas_pin` accepts exactly the stored PIN, of six digits, within sixty seconds of its
-- generation and before the third failure.
pub validate_sas_pin_iff :
    (now : FileTime) (candidate stored : Bytes) (generated_at : FileTime) (attempts : ℕ)
    → All IsByte stored
    → (validate_sas_pin now candidate stored generated_at attempts ≡ true) ↔ (
        (attempts < 3)
        × (to_u64 generated_at ≤ to_u64 now)
        × (to_u64 now ≤ to_u64 generated_at + 600000000)
        × (length candidate ≡ 6)
        × All IsDigit candidate
        × (candidate ≡ stored))
validate_sas_pin_iff now candidate stored generated_at attempts bytes = (
  accepts_only now candidate stored generated_at attempts bytes,
  λ h. accepts now candidate stored generated_at attempts h.0 (h.1, h.2) (h.3, h.4) h.5,
)
