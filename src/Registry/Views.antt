-- ===== src/Registry/Views.antt =====
-- windows/pairing/DeviceRegistry.cpp: what a read gives, as a function of the values of the key alone.
use pc_unlock_project.Common.{
  ℕ, ◌≡◌, refl, ap, ◌∙◌, not, ◌&&◌, ltb, ◌==◌, if◌then◌else◌, Option, none, some, Bytes, length,
  replicate, arith,
}
use pc_unlock_project.Pairing.Identity.{device_id_from_string}
use pc_unlock_project.Pairing.Record.{DeviceRecord}
use pc_unlock_project.Registry.Win32.{WinRegistry, Wide, Documented, found}
use pc_unlock_project.Registry.Values.{
  build_device_key_path, over, reg_val_pair_status, reg_val_device_name, reg_val_account_sid,
  reg_val_public_key, reg_val_paired_time, reg_val_last_seen,
}
use pc_unlock_project.Registry.Records.{
  RegistryState, read_values, queried, queried_key, status_of, text_of, key_of, time_of,
}
use pc_unlock_project.Registry.Laws.{held}

-- A value in a buffer of `size` bytes.
abbrev fetched : ℕ → Option Bytes → Option Bytes
fetched size none = none
fetched size (some b) = if ltb size (length b) then none else some (over b (replicate size 0))

abbrev fetched_key : Option Bytes → Option Bytes
fetched_key none = none
fetched_key (some b) = if not (ltb 256 (length b)) && ltb 0 (length b) then some b else none

-- The record that the values of a key say.
abbrev pub record_of : Bytes → DeviceRecord → (Wide → Option Bytes) → DeviceRecord
record_of id out f = record {
  device_id = (device_id_from_string id out.device_id).1;
  device_name = text_of out.device_name (fetched 512 (f reg_val_device_name));
  account_sid = text_of out.account_sid (fetched 512 (f reg_val_account_sid));
  public_key = key_of out.public_key (fetched_key (f reg_val_public_key));
  pair_status = status_of (fetched 4 (f reg_val_pair_status));
  paired_time = time_of out.paired_time (fetched 8 (f reg_val_paired_time));
  last_seen = time_of out.last_seen (fetched 8 (f reg_val_last_seen));
}

fetched_lem :
    (size : ℕ) (o : Option Bytes)
    → (if (found size o).0 == 0 then some (over (found size o).1 (replicate size 0)) else none)
      ≡ fetched size o
fetched_lem size none = refl
fetched_lem size (some b) = ground arith

fetched_key_lem :
    (o : Option Bytes)
    → (if (found 256 o).0 == 0 && ltb 0 (length (found 256 o).1)
        then some (found 256 o).1
        else none)
      ≡ fetched_key o
fetched_key_lem none = refl
fetched_key_lem (some b) = ground arith

module _ (R : WinRegistry) (L : Documented R) where
  queried-held :
      (path : Wide) (size : ℕ) (name : Wide) (s : RegistryState R)
      → queried R path size name s ≡ fetched size (held R L path name s)
  unfolding queried
  queried-held path size name s =
      ap (λ p. if p.0 == 0 then some (over p.1 (replicate size 0)) else none)
        (L.query_lem s.root path name size s.store)
      ∙ fetched_lem size (held R L path name s)

  queried_key-held :
      (path : Wide) (s : RegistryState R)
      → queried_key R path s ≡ fetched_key (held R L path reg_val_public_key s)
  unfolding queried_key
  queried_key-held path s =
      ap (λ p. if p.0 == 0 && ltb 0 (length p.1) then some p.1 else none)
        (L.query_lem s.root path reg_val_public_key 256 s.store)
      ∙ fetched_key_lem (held R L path reg_val_public_key s)

  pub read_values-record_of :
      (id : Bytes) (out : DeviceRecord) (s : RegistryState R)
      → read_values R id out s ≡ record_of id out (λ n. held R L (build_device_key_path id) n s)
  unfolding read_values
  read_values-record_of id out s =
      let path = build_device_key_path id in
      rw
        (
          queried-held path 512 reg_val_device_name s,
          queried-held path 512 reg_val_account_sid s,
          queried_key-held path s,
          queried-held path 4 reg_val_pair_status s,
          queried-held path 8 reg_val_paired_time s,
          queried-held path 8 reg_val_last_seen s,
        )
        refl
