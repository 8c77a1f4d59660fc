-- ===== src/Pairing/Identity.antt =====
-- windows/pairing/DeviceIdentity.cpp: device identities, as 16 bytes and as text.
pub mod RoundTrip
pub mod Alias
use pc_unlock_project.Common.{
  ℕ, ◌+◌, ◌%◌, ◌≡◌, Bool, true, false, not, ◌||◌, ◌&&◌, ◌==◌, if◌then◌else◌, List, [], ◌∷◌, ◌++◌,
  Option, none, some, Bytes, bytes_eq, length, get_or, take, drop,
}
use pc_unlock_project.Text.Hex.{byte_hex, bytes_to_hex, sscanf_02x}
use Prim.Native.Nat.{bit_and, bit_or}

-- `std::array<uint8_t, 16>`
abbrev pub DeviceId : Type 0
DeviceId = Bytes

abbrev piece : ℕ → ℕ → DeviceId → Bytes
piece i n id = bytes_to_hex (take n (drop i id))

-- Groups of 4, 2, 2, 2 and 6 bytes, each byte by "%02x".
unfoldable pub device_id_to_string : DeviceId → Bytes
device_id_to_string id =
    piece 0 4 id
    ++ (b'-'
        ∷ (piece 4 2 id
            ++ (b'-' ∷ (piece 6 2 id ++ (b'-' ∷ (piece 8 2 id ++ (b'-' ∷ piece 10 6 id)))))))

unfoldable pub strip_dashes : Bytes → Bytes
strip_dashes [] = []
strip_dashes (c ∷ cs) = let rest = strip_dashes cs in if c == b'-' then rest else c ∷ rest

-- The loop over the bytes of `outId`, given as they were; it stops at the first failure.
unfoldable pub scan_bytes : Bytes → DeviceId → Bool × DeviceId
scan_bytes hex [] = (true, [])
scan_bytes hex (o ∷ os) =
    let (ok, rest) = scan_bytes (drop 2 hex) os in
    elim (sscanf_02x hex) [ none ↦ (false, o ∷ os) | some byte ↦ (ok, (byte % 256) ∷ rest) ]

abbrev pub has_dashes : Bytes → Bool
has_dashes s =
    get_or s 8 0 == b'-'
    && (get_or s 13 0 == b'-' && (get_or s 18 0 == b'-' && get_or s 23 0 == b'-'))

-- The answer, and `outId` afterwards.
unfoldable pub device_id_from_string : Bytes → DeviceId → Bool × DeviceId
device_id_from_string s out =
    if not (length s == 36)
    then (false, out)
    else if not (has_dashes s)
    then (false, out)
    else let hex = strip_dashes s in
      if not (length hex == 32) then (false, out) else scan_bytes hex out

-- The bytes that the random generator left in `id` (all zero if it is not available) are marked as
-- version 4, variant 1.
unfoldable pub generate_device_id : DeviceId → DeviceId
generate_device_id random =
    take 6 random
    ++ (bit_or (bit_and (get_or random 6 0) 0x0F) 0x40
        ∷ (take 1 (drop 7 random)
            ++ (bit_or (bit_and (get_or random 8 0) 0x3F) 0x80 ∷ drop 9 random)))

unfoldable pub device_id_equal : DeviceId → DeviceId → Bool
device_id_equal = bytes_eq

unfoldable pub device_id_is_empty : DeviceId → Bool
device_id_is_empty [] = true
device_id_is_empty (b ∷ bs) =
    let rest = device_id_is_empty bs in if not (b == 0) then false else rest
