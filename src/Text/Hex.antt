-- ===== src/Text/Hex.antt =====
-- Hexadecimal text: "%02x" of printf, `std::hex` with `setw(2)` and `setfill('0')`, and "%02x" of
-- sscanf as ISO C states it.
use pc_unlock_project.Common.{
  ℕ, ◌+◌, ◌-◌, ◌*◌, ◌/◌, ◌%◌, ◌^◌, ◌<◌, ◌≡◌, refl, Bool, false, ◌&&◌, ◌||◌, ltb, leb, ◌==◌,
  if◌then◌else◌, [], ◌∷◌, ◌++◌, Option, none, some, Bytes, IsByte, length, arith,
}

abbrev pub hex_digit : ℕ → ℕ
hex_digit n = if ltb n 10 then 48 + n else 87 + n

-- One byte, two lower-case digits.
unfoldable pub byte_hex : ℕ → Bytes
byte_hex b = hex_digit (b / 16) ∷ hex_digit (b % 16) ∷ []

-- authentication/AuthenticationManager.cpp: `BytesToHex`.
unfoldable pub bytes_to_hex : Bytes → Bytes
bytes_to_hex [] = []
bytes_to_hex (b ∷ bs) = byte_hex b ++ bytes_to_hex bs

-- `isspace`
unfoldable pub is_space : ℕ → Bool
is_space c = c == 32 || (leb 9 c && leb c 13)

unfoldable pub skip_space : Bytes → Bytes
skip_space [] = []
skip_space (c ∷ cs) = let rest = skip_space cs in if is_space c then rest else c ∷ cs

unfoldable pub hex_value : ℕ → Option ℕ
hex_value c =
    if leb b'0' c && leb c b'9'
    then some (c - b'0')
    else if leb b'a' c && leb c b'f'
    then some (c - 87)
    else if leb b'A' c && leb c b'F'
    then some (c - 55)
    else none

-- At most one more digit after a first one of value `v`.
abbrev second_digit : ℕ → Bytes → ℕ
second_digit v [] = v
second_digit v (c ∷ cs) = elim (hex_value c) [ none ↦ v | some w ↦ v * 16 + w ]

abbrev is_x : Bytes → Bool
is_x [] = false
is_x (c ∷ cs) = c == b'x' || c == b'X'

-- An unsigned hexadecimal number of at most two characters. "0x" takes both characters and has no
-- digit after it, which is a matching failure.
abbrev unsigned2 : Bytes → Option ℕ
unsigned2 [] = none
unsigned2 (c ∷ cs) = elim (hex_value c) [
  | none ↦ none
  | some v ↦ if c == b'0' && is_x cs then none else some (second_digit v cs)
]

abbrev unsigned1 : Bytes → Option ℕ
unsigned1 [] = none
unsigned1 (c ∷ cs) = hex_value c

abbrev negate32 : Option ℕ → Option ℕ
negate32 none = none
negate32 (some v) = some ((2 ^ 32 - v) % 2 ^ 32)

-- A sign takes one of the two characters.
abbrev signed2 : Bytes → Option ℕ
signed2 [] = none
signed2 (c ∷ cs) =
    if c == b'+'
    then unsigned1 cs
    else if c == b'-'
    then negate32 (unsigned1 cs)
    else unsigned2 (c ∷ cs)

-- `sscanf(s, "%02x", &byte)`: `none` if it does not return 1.
unfoldable pub sscanf_02x : Bytes → Option ℕ
unfolding skip_space
sscanf_02x s = signed2 (skip_space s)

-- Reading what was printed: whatever follows is not looked at.
pub sscanf_02x-byte_hex :
    (b : ℕ) (rest : Bytes) → IsByte b → sscanf_02x (byte_hex b ++ rest) ≡ some b
unfolding sscanf_02x byte_hex is_space hex_value
sscanf_02x-byte_hex b rest h = ground arith

pub length-bytes_to_hex : (bs : Bytes) → length (bytes_to_hex bs) ≡ 2 * length bs
unfolding bytes_to_hex byte_hex
length-bytes_to_hex [] = refl
length-bytes_to_hex (b ∷ bs) = omega (arith, length-bytes_to_hex bs)

pub hex_value-hex_digit : (d : ℕ) → d < 16 → hex_value (hex_digit d) ≡ some d
unfolding hex_value
hex_value-hex_digit d h = ground arith

-- A digit is no space, no sign and no dash.
pub hex_digit_plain :
    (d : ℕ)
    → d < 16
    → (is_space (hex_digit d) ≡ false)
      × ((hex_digit d == b'+') ≡ false)
      × ((hex_digit d == b'-') ≡ false)
      × ((hex_digit d == b'x') ≡ false)
      × ((hex_digit d == b'X') ≡ false)
unfolding is_space
hex_digit_plain d h = ground arith
