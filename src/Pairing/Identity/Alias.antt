-- ===== src/Pairing/Identity/Alias.antt =====
-- windows/pairing/DeviceIdentity.cpp: texts that are not in the form of an identity and are read
-- as one all the same, since `sscanf` stops at a char that is no digit and still returns 1.
use pc_unlock_project.Common.{
  ℕ, ◌<◌, ◌≡◌, ◌≢◌, refl, false, Bytes, ◌==◌, [], ◌∷◌, none, some, ap, ◌∙◌, arith,
}
use pc_unlock_project.Text.Hex.{
  hex_digit, hex_value, sscanf_02x, is_space, hex_digit_plain, hex_value-hex_digit,
}
use pc_unlock_project.Pairing.Identity.{DeviceId, device_id_from_string, strip_dashes, scan_bytes}

first_digit_alias :
    (k d c : ℕ) (rest : Bytes)
    → is_space k ≡ false
    → (k == b'+') ≡ false
    → (k == b'-') ≡ false
    → (k == b'x') ≡ false
    → (k == b'X') ≡ false
    → hex_value k ≡ some d
    → hex_value c ≡ none
    → c ≢ b'x'
    → c ≢ b'X'
    → sscanf_02x (k ∷ c ∷ rest) ≡ sscanf_02x (b'0' ∷ k ∷ rest)
unfolding sscanf_02x
first_digit_alias k d c rest space plus minus nx nX v e x y =
    let zero_space : is_space b'0' ≡ false = unfold is_space in refl in
    let zero_value : hex_value b'0' ≡ some 0 = unfold hex_value in refl in
    ground (arith, zero_space, zero_value)

-- One digit before a char that is no hexadecimal digit reads like that digit behind a zero.
sscanf_02x_alias :
    (d c : ℕ) (rest : Bytes)
    → d < 16
    → hex_value c ≡ none
    → c ≢ b'x'
    → c ≢ b'X'
    → sscanf_02x (hex_digit d ∷ c ∷ rest) ≡ sscanf_02x (b'0' ∷ hex_digit d ∷ rest)
sscanf_02x_alias d c rest h e x y =
    let (space, plus, minus, nx, nX) = hex_digit_plain d h in
    first_digit_alias (hex_digit d) d c rest space plus minus nx nX (hex_value-hex_digit d h) e x y

scan_bytes_alias :
    (d c : ℕ) (rest : Bytes) (out : DeviceId)
    → d < 16
    → hex_value c ≡ none
    → c ≢ b'x'
    → c ≢ b'X'
    → scan_bytes (hex_digit d ∷ c ∷ rest) out ≡ scan_bytes (b'0' ∷ hex_digit d ∷ rest) out
unfolding scan_bytes
scan_bytes_alias d c rest [] h e x y = refl
scan_bytes_alias d c rest (o ∷ os) h e x y = ground (arith, sscanf_02x_alias d c rest)

strip_digit :
    (d : ℕ) (s : Bytes) → d < 16 → strip_dashes (hex_digit d ∷ s) ≡ hex_digit d ∷ strip_dashes s
unfolding strip_dashes
strip_digit d s h = ground arith

strip_char : (c : ℕ) (s : Bytes) → c ≢ b'-' → strip_dashes (c ∷ s) ≡ c ∷ strip_dashes s
unfolding strip_dashes
strip_char c s h = ground arith

-- A text whose first digit stands before a char that is neither a hexadecimal digit nor a dash is
-- treated as the text with a zero before that digit.
device_id_from_string_alias :
    (d c : ℕ) (rest : Bytes) (out : DeviceId)
    → d < 16
    → hex_value c ≡ none
    → c ≢ b'x'
    → c ≢ b'X'
    → c ≢ b'-'
    → device_id_from_string (hex_digit d ∷ c ∷ rest) out
      ≡ device_id_from_string (b'0' ∷ hex_digit d ∷ rest) out
unfolding device_id_from_string
device_id_from_string_alias d c rest out h e x y n =
    let front : strip_dashes (hex_digit d ∷ c ∷ rest) ≡ hex_digit d ∷ c ∷ strip_dashes rest =
      strip_digit d (c ∷ rest) h ∙ ap (◌∷◌ (hex_digit d)) (strip_char c rest n) in
    let back : strip_dashes (b'0' ∷ hex_digit d ∷ rest) ≡ b'0' ∷ hex_digit d ∷ strip_dashes rest =
      strip_digit 0 (hex_digit d ∷ rest) (omega arith) ∙ ap (◌∷◌ b'0') (strip_digit d rest h) in
    rw (front, back, scan_bytes_alias d c (strip_dashes rest) out h e x y)
