-- ===== src/Pairing/SasPin.antt =====
-- windows/pairing/SasPin.cpp: the six-digit PIN that is shown on the PC and typed on the phone.
pub mod Laws
pub mod Generate
use Prim.Native.Nat.{bit_or, bit_xor}
use pc_unlock_project.Common.{
  ℕ, zero, suc, ◌+◌, ◌-◌, ◌*◌, ◌/◌, ◌%◌, ◌^◌, ◌≡◌, Bool, true, false, not, ◌&&◌, ◌||◌, ltb, leb,
  ◌==◌, if◌then◌else◌, List, [], ◌∷◌, ◌++◌, Option, none, some, Bytes, length, take, replicate,
}
use pc_unlock_project.Text.Decimal.{decimal}

-- FILETIME: 100-nanosecond intervals, in two 32-bit halves.
pub record FileTime : Type 0 where
  pub high : ℕ
  pub low : ℕ

abbrev pub to_u64 : FileTime → ℕ
to_u64 t = t.high * 2 ^ 32 + t.low

abbrev pub sas_pin_length : ℕ
sas_pin_length = 6

abbrev pub sas_max_attempts : ℕ
sas_max_attempts = 3

abbrev pub sas_expiry_seconds : ℕ
sas_expiry_seconds = 60

-- One attempt to draw 32 random bits from the system: the library or its entry point is missing,
-- the call fails and writes nothing, or it writes a value.
pub data Draw : Type 0 where
  no_function : Draw
  call_failed : Draw
  drawn : ℕ → Draw

-- `randomVal` after a draw.
abbrev pub after_draw : ℕ → Draw → ℕ
after_draw v (drawn w) = w
after_draw v _ = v

abbrev pin_range : ℕ
pin_range = 1000000

abbrev pub pin_limit : ℕ
pin_limit = 0xFFFF_FFFF / 1000000 * 1000000

-- The `while` loop with the iterations that are left; `draws` gives the system's answers in turn.
unfoldable pub resample : ℕ → ℕ → (ℕ → Draw) → ℕ
resample zero v draws = v
resample (suc left) v draws =
    let again = resample left (after_draw v (draws 0)) (λ i. draws (suc i)) in
    if leb pin_limit v then again else v

-- "%06u"
unfoldable pub six_digits : ℕ → Bytes
six_digits pin = let text = decimal pin in replicate (6 - length text) b'0' ++ text

abbrev pin_of : ℕ → Bytes
pin_of v = take 6 (six_digits (v % pin_range))

-- The empty string is a failure.
unfoldable pub generate_sas_pin : (ℕ → Draw) → Bytes
generate_sas_pin draws =
    let pin = pin_of (resample 32 (after_draw 0 (draws 0)) (λ i. draws (suc i))) in
    elim (draws 0) [ no_function ↦ [] | _ ↦ pin ]

unfoldable pub all_digits : Bytes → Bool
all_digits [] = true
all_digits (c ∷ cs) = let rest = all_digits cs in if ltb c b'0' || ltb b'9' c then false else rest

unfoldable pub is_valid_pin_format : Bytes → Bool
unfolding all_digits
is_valid_pin_format pin = if not (length pin == sas_pin_length) then false else all_digits pin

-- `now` is the system time at the call.
unfoldable pub sas_pin_expired : FileTime → FileTime → Bool
sas_pin_expired now generated_at =
    if ltb (to_u64 now) (to_u64 generated_at)
    then true
    else ltb (sas_expiry_seconds * 10000000) (to_u64 now - to_u64 generated_at)

-- The comparison without an early exit: `diff |= a ^ b` over the six chars.
unfoldable pub difference : ℕ → Bytes → Bytes → ℕ
difference diff (a ∷ xs) (b ∷ ys) = difference (bit_or diff (bit_xor a b)) xs ys
difference diff _ _ = diff

unfoldable pub validate_sas_pin : FileTime → Bytes → Bytes → FileTime → ℕ → Bool
validate_sas_pin now candidate stored generated_at attempts =
    if leb sas_max_attempts attempts
    then false
    else if sas_pin_expired now generated_at
    then false
    else if not (is_valid_pin_format candidate)
    then false
    else if not (length stored == sas_pin_length)
    then false
    else difference 0 candidate stored == 0

unfoldable pub file_time_to_unix_ms : FileTime → ℕ
file_time_to_unix_ms t =
    let epoch_offset : ℕ = 116444736000000000 in
    if ltb (to_u64 t) epoch_offset then 0 else (to_u64 t - epoch_offset) / 10000
