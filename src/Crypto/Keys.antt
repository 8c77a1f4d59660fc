-- ===== src/Crypto/Keys.antt =====
-- windows/crypto/CryptoManager.cpp: `NormalizePublicKeyToEccBlob`.
pub mod Encodings
use pc_unlock_project.Common.{
  ℕ, ◌≡◌, Bool, true, false, ◌&&◌, ◌==◌, if◌then◌else◌, List, [], ◌∷◌, ◌++◌, Option, none, some,
  Bytes, length, get_or, take, drop, le_bytes, from_le,
}
use pc_unlock_project.Crypto.Der.{Der, rejected, out_of_bounds, parsed, parse_spki_der}

abbrev pub bcrypt_ecdsa_public_p256_magic : ℕ
bcrypt_ecdsa_public_p256_magic = 0x3153_4345

abbrev pub p256_raw_coords_size : ℕ
p256_raw_coords_size = 64

abbrev pub p256_raw_point_size : ℕ
p256_raw_point_size = 65

abbrev pub bcrypt_ecc_blob_size : ℕ
bcrypt_ecc_blob_size = 72

-- BCRYPT_ECCKEY_BLOB: dwMagic and cbKey, in the host's order.
unfoldable pub blob_header : Bytes
blob_header = le_bytes 4 bcrypt_ecdsa_public_p256_magic ++ le_bytes 4 32

abbrev pub is_blob : Bytes → Bool
is_blob key =
    length key == bcrypt_ecc_blob_size
    && (from_le (take 4 key) == bcrypt_ecdsa_public_p256_magic
        && from_le (take 4 (drop 4 key)) == 32)

abbrev pub of_spki : Der (Bytes × Bytes) → Der Bytes
of_spki rejected = rejected
of_spki out_of_bounds = out_of_bounds
of_spki (parsed (x, y)) = parsed (blob_header ++ (x ++ y))

-- `rejected` is the answer false.
unfoldable pub normalize_public_key_to_ecc_blob : Bytes → Der Bytes
normalize_public_key_to_ecc_blob [] = rejected
normalize_public_key_to_ecc_blob (b ∷ bs) =
    if is_blob (b ∷ bs)
    then parsed (b ∷ bs)
    else if length (b ∷ bs) == p256_raw_coords_size
    then parsed (blob_header ++ (b ∷ bs))
    else if length (b ∷ bs) == p256_raw_point_size && b == 0x04
    then parsed (blob_header ++ take 64 bs)
    else if b == 0x30
    then of_spki (parse_spki_der (b ∷ bs))
    else rejected
