-- ===== src/Registry/Enumeration.antt =====
-- windows/pairing/DeviceRegistry.cpp: EnumerateDeviceIds and CountActiveDevicesForAccount. The loop
-- runs on fuel, and gives nothing when the fuel does not suffice.
use pc_unlock_project.Common.{
  ℕ, zero, suc, ◌+◌, ◌%◌, ◌^◌, ◌<◌, ◌≡◌, ◌≢◌, refl, ap, ◌∙◌, Bool, false, not, ◌&&◌, ltb, ◌==◌,
  if◌then◌else◌, List, [], ◌∷◌, Option, none, some, Bytes, length, bytes_eq, arith,
}
use mathlib.Core.Option.{map as map_option}
use pc_unlock_project.Pairing.Record.{DeviceRecord, status_active}
use pc_unlock_project.Registry.Win32.{
  WinRegistry, Wide, Documented, listed, nth, error_success, error_no_more_items,
}
use pc_unlock_project.Registry.Values.{device_registry_root, to_narrow}
use pc_unlock_project.Registry.Records.{RegistryState, read_device_record, empty_record}

-- `subkeyName[64]`
abbrev name_capacity : ℕ
name_capacity = 64

module _ (R : WinRegistry) where
  unfoldable pub enumerate_from : ℕ → ℕ → RegistryState R → Option (List Bytes)
  enumerate_from zero index s = none
  enumerate_from (suc fuel) index s =
      let rest = enumerate_from fuel ((index + 1) % 2 ^ 32) s in
      let (res, name) = R.enum_key s.root device_registry_root index name_capacity s.store in
      if res == error_no_more_items
      then some []
      else if res == error_success
      then map_option (◌∷◌ (to_narrow name)) rest
      else rest

  unfoldable pub enumerate_device_ids : ℕ → RegistryState R → Option (List Bytes)
  enumerate_device_ids fuel s =
      if not (R.open_key s.root device_registry_root s.store == error_success)
      then some []
      else enumerate_from fuel 0 s

  abbrev counts : Bytes → ℕ × DeviceRecord → Bool
  counts account_sid (code, rec) =
      code == error_success
      && (rec.pair_status == status_active && bytes_eq rec.account_sid account_sid)

  unfoldable pub count_active : Bytes → List Bytes → RegistryState R → ℕ
  count_active account_sid [] s = 0
  count_active account_sid (id ∷ ids) s =
      let count = count_active account_sid ids s in
      if counts account_sid (read_device_record R id empty_record s) then count + 1 else count

  unfoldable pub count_active_devices_for_account : ℕ → Bytes → RegistryState R → Option ℕ
  count_active_devices_for_account fuel account_sid s =
      map_option (λ ids. count_active account_sid ids s) (enumerate_device_ids fuel s)

-- The texts of the names that fit the buffer.
abbrev pub fitting : List Wide → List Bytes
fitting [] = []
fitting (name ∷ names) =
    let rest = fitting names in
    if ltb (length name) name_capacity then to_narrow name ∷ rest else rest

module _ (R : WinRegistry) (L : Documented R) where
  abbrev subkeys_of : RegistryState R → List Wide
  subkeys_of s = L.subkeys s.root device_registry_root s.store

  enumerate_from_lem :
      (fuel index : ℕ) (names : List Wide) (s : RegistryState R)
      → ((k : ℕ) → nth (subkeys_of s) (index + k) ≡ nth names k)
      → length names < fuel
      → index + length names < 2 ^ 32
      → enumerate_from R fuel index s ≡ some (fitting names)
  unfolding enumerate_from
  enumerate_from_lem zero index names s h enough small = absurd (omega arith)
  enumerate_from_lem (suc fuel) index [] s h enough small =
      let end : R.enum_key s.root device_registry_root index name_capacity s.store ≡ (259, []) =
        L.enum_lem s.root device_registry_root index name_capacity s.store
        ∙ ap (listed name_capacity) (ap (nth (subkeys_of s)) (omega arith) ∙ h 0) in
      rw end refl
  enumerate_from_lem (suc fuel) index (name ∷ names) s h enough small =
      let next : (index + 1) % 2 ^ 32 ≡ index + 1 = omega arith in
      let rest : enumerate_from R fuel (index + 1) s ≡ some (fitting names) =
        enumerate_from_lem fuel (index + 1) names s
          (λ k. ap (nth (subkeys_of s)) (omega arith) ∙ h (suc k)) (omega arith) (omega arith) in
      let here : R.enum_key s.root device_registry_root index name_capacity s.store
          ≡ listed name_capacity (some name) =
        L.enum_lem s.root device_registry_root index name_capacity s.store
        ∙ ap (listed name_capacity) (ap (nth (subkeys_of s)) (omega arith) ∙ h 0) in
      rw (here, next, rest) (ground arith)

  -- The loop ends, with one step more than there are subkeys, and gives the names of less than 64
  -- characters in order; fewer than 2^32 subkeys.
  pub enumerate_device_ids_lem :
      (fuel : ℕ) (s : RegistryState R)
      → length (subkeys_of s) < fuel
      → length (subkeys_of s) < 2 ^ 32
      → enumerate_device_ids R fuel s
        ≡ some
            (if L.has_key s.root device_registry_root s.store then fitting (subkeys_of s) else [])
  unfolding enumerate_device_ids
  enumerate_device_ids_lem fuel s enough small =
      let ids =
        enumerate_from_lem fuel 0 (subkeys_of s) s (λ k. ap (nth (subkeys_of s)) (omega arith))
          enough (omega arith) in
      rw (L.open_lem s.root device_registry_root s.store, ids) (ground arith)

module _ (R : WinRegistry) where
  -- While each call answers one error that is not the end of the list, the loop does not end, whatever
  -- the fuel.
  pub enumerate_from-failing :
      (fuel index error : ℕ) (s : RegistryState R)
      → error ≢ 0
      → error ≢ 259
      → ((i : ℕ) → R.enum_key s.root device_registry_root i name_capacity s.store ≡ (error, []))
      → enumerate_from R fuel index s ≡ none
  unfolding enumerate_from
  enumerate_from-failing zero index error s e f h = refl
  enumerate_from-failing (suc fuel) index error s e f h =
      let rest = enumerate_from-failing fuel ((index + 1) % 2 ^ 32) error s e f h in
      let going : (error == 259) ≡ false = ground arith in
      let bad : (error == 0) ≡ false = ground arith in rw (h index, rest, going, bad) refl
