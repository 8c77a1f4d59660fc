-- ===== src/Crypto/Der.antt =====
-- windows/crypto/CryptoManager.cpp: `ParseSpkiDer`. A read beyond the end of the input is an outcome
-- of its own.
use pc_unlock_project.Common.{
  ℕ, zero, suc, ◌+◌, ◌*◌, ◌%◌, ◌^◌, ◌||◌, ltb, leb, ◌==◌, if◌then◌else◌, [], ◌∷◌, Bytes, length,
  take, drop,
}

abbrev pub p256_coordinate_size : ℕ
p256_coordinate_size = 32

pub data Der {ℓ} (A : Type ℓ) : Type ℓ where
  rejected : Der A
  out_of_bounds : Der A
  parsed : A → Der A

infixl 5 ◌>>=◌
abbrev pub ◌>>=◌ {ℓ κ} : {A : Type ℓ} {B : Type κ} → Der A → (A → Der B) → Der B
rejected >>= f = rejected
out_of_bounds >>= f = out_of_bounds
parsed a >>= f = f a

-- der[i]
abbrev pub byte_at : Bytes → ℕ → Der ℕ
byte_at [] i = out_of_bounds
byte_at (b ∷ bs) zero = parsed b
byte_at (b ∷ bs) (suc i) = byte_at bs i

abbrev pub expect : Bytes → ℕ → ℕ → Der ℕ
expect der i tag = do b ← byte_at der i; if b == tag then parsed (i + 1) else rejected

-- The loop over the bytes of a length, in 64 bits; the value and the offset after it.
unfoldable pub length_bytes : ℕ → Bytes → ℕ → ℕ → Der (ℕ × ℕ)
length_bytes zero der offset acc = parsed (acc, offset)
length_bytes (suc n) der offset acc = do
  b ← byte_at der offset
  length_bytes n der (offset + 1) ((acc * 256 + b) % 2 ^ 64)

-- A length of one byte, or the count of its bytes with the top bit set.
abbrev length_after : Bytes → ℕ → ℕ → Der (ℕ × ℕ)
length_after der offset b =
    let long = length_bytes (b % 128) der (offset + 1) 0 in
    if leb 128 b
    then if ltb (length der) (offset + 1 + b % 128) then rejected else long
    else parsed (b, offset + 1)

unfoldable pub read_length : Bytes → ℕ → Der (ℕ × ℕ)
read_length der offset = byte_at der offset >>= length_after der offset

-- The length of the outer sequence is skipped.
abbrev skip_after : Bytes → ℕ → ℕ → Der ℕ
skip_after der offset b =
    if leb 128 b
    then if ltb (length der) (offset + 1 + b % 128) then rejected else parsed (offset + 1 + b % 128)
    else parsed (offset + 1)

unfoldable pub skip_length : Bytes → ℕ → Der ℕ
skip_length der offset = byte_at der offset >>= skip_after der offset

abbrev pub within : Bytes → ℕ → Der ℕ
within der offset = if leb (length der) offset then rejected else parsed offset

-- The offset behind the AlgorithmIdentifier.
unfoldable pub skip_algorithm : Bytes → ℕ → Der ℕ
skip_algorithm der offset = do
  start ← within der offset
  after_tag ← expect der start 0x30
  (size, after_length) ← read_length der after_tag
  within der ((after_length + size) % 2 ^ 64)

abbrev pub fits : Bytes → ℕ → ℕ → Der ℕ
fits der start size =
    if ltb (length der) ((start + size) % 2 ^ 64) || ltb size 66 then rejected else parsed start

abbrev pub coordinates : Bytes → ℕ → Der (Bytes × Bytes)
coordinates der point =
    if ltb (length der) (point + 2 * p256_coordinate_size)
    then rejected
    else parsed (take 32 (drop point der), take 32 (drop (point + 32) der))

-- The coordinates in the BIT STRING.
unfoldable pub read_point : Bytes → ℕ → Der (Bytes × Bytes)
read_point der offset = do
  tag ← expect der offset 0x03
  after_tag ← within der tag
  (size, start) ← read_length der after_tag
  payload ← fits der start size
  after_unused ← expect der payload 0x00
  point ← expect der after_unused 0x04
  coordinates der point

abbrev parse_body : Bytes → Der (Bytes × Bytes)
parse_body der = do
  after_tag ← expect der 0 0x30
  algorithm ← skip_length der after_tag
  bit_string ← skip_algorithm der algorithm
  read_point der bit_string

unfoldable pub parse_spki_der : Bytes → Der (Bytes × Bytes)
parse_spki_der der = if ltb (length der) 30 then rejected else parse_body der
