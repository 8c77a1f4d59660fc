-- ===== src/Registry/Values.antt =====
-- windows/pairing/DeviceRegistry.cpp: names and values of a record, between the program's types and
-- the registry's.
pub mod Laws
use pc_unlock_project.Common.{
  ℕ, ◌+◌, ◌*◌, ◌/◌, ◌%◌, ◌^◌, ltb, ◌==◌, if◌then◌else◌, List, [], ◌∷◌, ◌++◌, Bytes, codes, map,
  drop, length, le_bytes, from_le,
}
use pc_unlock_project.Pairing.SasPin.{FileTime, to_u64}
use pc_unlock_project.Registry.Win32.{Wide}

abbrev pub device_registry_root : Wide
device_registry_root = codes "SOFTWARE\\MobileFingerprintUnlock\\Devices"

abbrev pub reg_val_pair_status : Wide
reg_val_pair_status = codes "PairStatus"

abbrev pub reg_val_device_name : Wide
reg_val_device_name = codes "DeviceName"

abbrev pub reg_val_account_sid : Wide
reg_val_account_sid = codes "AccountSID"

abbrev pub reg_val_public_key : Wide
reg_val_public_key = codes "PublicKey"

abbrev pub reg_val_paired_time : Wide
reg_val_paired_time = codes "PairedTime"

abbrev pub reg_val_last_seen : Wide
reg_val_last_seen = codes "LastSeen"

-- A char is signed: its conversion to wchar_t extends the sign.
abbrev pub widen : ℕ → ℕ
widen c = if ltb c 128 then c else c + 0xFF00

unfoldable pub to_wide : Bytes → Wide
to_wide [] = []
to_wide (c ∷ cs) = widen c ∷ to_wide cs

unfoldable pub to_narrow : Wide → Bytes
to_narrow [] = []
to_narrow (w ∷ ws) = (w % 256) ∷ to_narrow ws

unfoldable pub build_device_key_path : Bytes → Wide
unfolding to_wide
build_device_key_path id = device_registry_root ++ (b'\\' ∷ to_wide id)

-- The memory of a wide string, two bytes a unit, without its end.
unfoldable pub wide_memory : Wide → Bytes
unfolding le_bytes
wide_memory [] = []
wide_memory (w ∷ ws) = le_bytes 2 w ++ wide_memory ws

-- `c_str()` with its end.
unfoldable pub text_value : Bytes → Bytes
unfolding to_wide wide_memory
text_value s = wide_memory (to_wide s) ++ (0 ∷ 0 ∷ [])

-- The wide string that a zero-terminated buffer holds. A buffer without an end is taken whole here; the
-- code would read on behind it.
unfoldable pub wide_of_memory : Bytes → Wide
wide_of_memory [] = []
wide_of_memory (b ∷ []) = []
wide_of_memory (a ∷ b ∷ rest) =
    let more = wide_of_memory rest in if a + 256 * b == 0 then [] else (a + 256 * b) ∷ more

-- What a query writes over the front of a buffer.
abbrev pub over : Bytes → Bytes → Bytes
over written buffer = written ++ drop (length written) buffer

abbrev pub file_time_of : ℕ → FileTime
file_time_of u = record { high = u / 2 ^ 32; low = u % 2 ^ 32 }

unfoldable pub time_value : FileTime → Bytes
unfolding le_bytes
time_value t = le_bytes 8 (to_u64 t)
