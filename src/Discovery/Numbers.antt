-- ===== src/Discovery/Numbers.antt =====
-- `std::stoi`, of the C++ library: spaces, a sign, and the digits that follow. `none` stands for its
-- exceptions: no digit, or a number that an int does not hold.
use pc_unlock_project.Common.{
  ℕ, ◌-◌, ◌^◌, ◌<◌, ◌≡◌, refl, sym, ap, ◌∙◌, Bool, true, false, ◌&&◌, ◌||◌, ltb, leb, ◌==◌,
  if◌then◌else◌, [], ◌∷◌, Option, none, some, Bytes, All, arith,
}
use mathlib.Core.Path.{subst}
use pc_unlock_project.Text.Decimal.{
  decimal, value_from, value-decimal, decimal-IsDigit, decimal_cons, IsDigit,
}

pub data ℤ : Type 0 where
  pos negsuc : ℕ → ℤ

abbrev is_space : ℕ → Bool
is_space c = c == 32 || (leb 9 c && leb c 13)

abbrev is_digit : ℕ → Bool
is_digit c = leb 48 c && leb c 57

unfoldable skip_spaces : Bytes → Bytes
skip_spaces [] = []
skip_spaces (c ∷ cs) = let rest = skip_spaces cs in if is_space c then rest else c ∷ cs

unfoldable digit_prefix : Bytes → Bytes
digit_prefix [] = []
digit_prefix (c ∷ cs) = let rest = digit_prefix cs in if is_digit c then c ∷ rest else []

abbrev opposite : ℕ → ℤ
opposite n = if n == 0 then pos 0 else negsuc (n - 1)

abbrev positive : Bytes → Option ℤ
positive [] = none
positive (d ∷ ds) = let n = value_from 0 (d ∷ ds) in if ltb n (2 ^ 31) then some (pos n) else none

abbrev negative : Bytes → Option ℤ
negative [] = none
negative (d ∷ ds) =
    let n = value_from 0 (d ∷ ds) in if leb n (2 ^ 31) then some (opposite n) else none

abbrev signed : Bytes → Option ℤ
signed [] = none
signed (c ∷ cs) =
    if c == b'-'
    then negative (digit_prefix cs)
    else if c == b'+'
    then positive (digit_prefix cs)
    else positive (digit_prefix (c ∷ cs))

unfoldable pub stoi : Bytes → Option ℤ
unfolding skip_spaces digit_prefix
stoi s = signed (skip_spaces s)

digit_prefix-digits : (s : Bytes) → All IsDigit s → digit_prefix s ≡ s
unfolding digit_prefix
digit_prefix-digits [] h = refl
digit_prefix-digits (c ∷ cs) h =
    let digit : is_digit c ≡ true = ground arith in rw (digit, digit_prefix-digits cs h.1) refl

stoi-digits :
    (c : ℕ) (cs : Bytes)
    → All IsDigit (c ∷ cs)
    → value_from 0 (c ∷ cs) < 2 ^ 31
    → stoi (c ∷ cs) ≡ some (pos (value_from 0 (c ∷ cs)))
unfolding stoi skip_spaces
stoi-digits c cs h small =
    let solid : is_space c ≡ false = ground arith in
    let no_minus : (c == b'-') ≡ false = ground arith in
    let no_plus : (c == b'+') ≡ false = ground arith in
    let fits : ltb (value_from 0 (c ∷ cs)) (2 ^ 31) ≡ true = ground arith in
    rw (solid, no_minus, no_plus, digit_prefix-digits (c ∷ cs) h, fits) refl

-- A number that an int holds is read back from its decimal text.
pub stoi-decimal : (n : ℕ) → n < 2 ^ 31 → stoi (decimal n) ≡ some (pos n)
stoi-decimal n h =
    let (c, cs, e) = decimal_cons n in
    let value : value_from 0 (c ∷ cs) ≡ n =
      ap (value_from 0) (sym e) ∙ value-decimal n (omega (arith, h)) in
    let digits : All IsDigit (c ∷ cs) = subst (All IsDigit) e (decimal-IsDigit n) in
    ap stoi e ∙ stoi-digits c cs digits (omega (arith, value, h)) ∙ ap (λ k. some (pos k)) value
