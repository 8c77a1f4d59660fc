-- ===== src/Registry/Laws.antt =====
-- windows/pairing/DeviceRegistry.cpp: what is written is read.
use pc_unlock_project.Common.{
  ℕ, ◌≤◌, ◌≡◌, refl, ◌∙◌, false, ltb, if◌then◌else◌, ◌∷◌, Option, some, Bytes, length, replicate,
  le_bytes, bytes_eq, arith,
}
use pc_unlock_project.Pairing.Record.{DeviceRecord}
use pc_unlock_project.Registry.Win32.{WinRegistry, Wide, Documented, same, same_refl}
use pc_unlock_project.Registry.Values.{
  reg_val_pair_status, reg_val_device_name, reg_val_account_sid, reg_val_public_key,
  reg_val_paired_time, reg_val_last_seen, text_value, time_value, over,
}
use pc_unlock_project.Registry.Records.{RegistryState, put, write_values, queried, queried_key}

module _ (R : WinRegistry) (L : Documented R) where
  -- The value `n` of a key.
  abbrev pub held : Wide → Wide → RegistryState R → Option Bytes
  held path n s = L.value s.root path n s.store

  pub held-put :
      (path n m : Wide) (b : Bytes) (s : RegistryState R)
      → held path m (put R path n b s) ≡ (if same n m then some b else held path m s)
  held-put path n m b s = L.set_lem s.root path path n m b s.store ∙ rw (same_refl path) refl

  module _ (path : Wide) (r : DeviceRecord) (k : ℕ) (ks : Bytes) (keyed : r.public_key ≡ k ∷ ks)
      (s : RegistryState R) where
    pub held_status :
        held path reg_val_pair_status (write_values R path r s) ≡ some (le_bytes 4 r.pair_status)
    unfolding write_values bytes_eq
    held_status = rw keyed (simp (L.set_lem, same_refl))

    pub held_name :
        held path reg_val_device_name (write_values R path r s) ≡ some (text_value r.device_name)
    unfolding write_values bytes_eq
    held_name = rw keyed (simp (L.set_lem, same_refl))

    pub held_sid :
        held path reg_val_account_sid (write_values R path r s) ≡ some (text_value r.account_sid)
    unfolding write_values bytes_eq
    held_sid = rw keyed (simp (L.set_lem, same_refl))

    pub held_key : held path reg_val_public_key (write_values R path r s) ≡ some (k ∷ ks)
    unfolding write_values bytes_eq
    held_key = rw keyed (simp (L.set_lem, same_refl))

    pub held_paired :
        held path reg_val_paired_time (write_values R path r s) ≡ some (time_value r.paired_time)
    unfolding write_values bytes_eq
    held_paired = rw keyed (simp (L.set_lem, same_refl))

    pub held_seen :
        held path reg_val_last_seen (write_values R path r s) ≡ some (time_value r.last_seen)
    unfolding write_values bytes_eq
    held_seen = rw keyed (simp (L.set_lem, same_refl))

  pub queried_lem :
      (path : Wide) (size : ℕ) (name : Wide) (b : Bytes) (s : RegistryState R)
      → held path name s ≡ some b
      → length b ≤ size
      → queried R path size name s ≡ some (over b (replicate size 0))
  unfolding queried
  queried_lem path size name b s e fits =
      let short : ltb size (length b) ≡ false = ground arith in
      rw (L.query_lem s.root path name size s.store, e, short) refl

  pub queried_key_lem :
      (path : Wide) (k : ℕ) (ks : Bytes) (s : RegistryState R)
      → held path reg_val_public_key s ≡ some (k ∷ ks)
      → length (k ∷ ks) ≤ 256
      → queried_key R path s ≡ some (k ∷ ks)
  unfolding queried_key
  queried_key_lem path k ks s e fits =
      let short : ltb 256 (length (k ∷ ks)) ≡ false = ground arith in
      rw (L.query_lem s.root path reg_val_public_key 256 s.store, e, short) (ground arith)
