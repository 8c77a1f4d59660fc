-- ===== src/Registry/Changes.antt =====
-- windows/pairing/DeviceRegistry.cpp: what changes in the records when a status or a time is set, when
-- another record is written, and when a record is deleted.
use pc_unlock_project.Common.{
  ℕ, ◌^◌, ◌<◌, ◌≡◌, refl, sym, ap, ◌∙◌, Bool, true, if◌then◌else◌, some, Bytes, replicate, le_bytes,
  from_le, bytes_eq, from_le-le_bytes, length-le_bytes,
}
use pc_unlock_project.Pairing.Record.{DeviceRecord}
use pc_unlock_project.Pairing.SasPin.{FileTime}
use pc_unlock_project.Registry.Win32.{WinRegistry, Wide, Documented, same}
use pc_unlock_project.Registry.Values.{
  build_device_key_path, over, file_time_of, time_value, reg_val_pair_status, reg_val_last_seen,
}
use pc_unlock_project.Registry.Values.Laws.{over_full, time_read, length-time_value}
use pc_unlock_project.Registry.Records.{
  RegistryState, put, read_device_record, set_device_status, update_last_seen,
}
use pc_unlock_project.Registry.Laws.{held, held-put}
use pc_unlock_project.Registry.Writes.{there}
use pc_unlock_project.Registry.Views.{record_of, read_values-record_of}

module _ (R : WinRegistry) (L : Documented R) where
  abbrev pub registered : Bytes → RegistryState R → Bool
  registered id s = there R L (build_device_key_path id) s

  opened_lem :
      (path : Wide) (s : RegistryState R)
      → there R L path s ≡ true
      → R.open_key s.root path s.store ≡ 0
  opened_lem path s h = L.open_lem s.root path s.store ∙ rw h refl

  pub read_lem :
      (id : Bytes) (out : DeviceRecord) (s : RegistryState R)
      → registered id s ≡ true
      → read_device_record R id out s
        ≡ (0, record_of id out (λ n. held R L (build_device_key_path id) n s))
  unfolding read_device_record
  read_lem id out s h =
      rw (opened_lem (build_device_key_path id) s h, read_values-record_of R L id out s) refl

  put-registered :
      (path m : Wide) (b : Bytes) (id : Bytes) (s : RegistryState R)
      → registered id (put R path m b s) ≡ registered id s
  put-registered path m b id s = L.set_key s.root path (build_device_key_path id) m b s.store

  read-put :
      (id : Bytes) (m : Wide) (b : Bytes) (out : DeviceRecord) (s : RegistryState R)
      → registered id s ≡ true
      → read_device_record R id out (put R (build_device_key_path id) m b s) ≡ (
        0,
        record_of id out
            (λ n. if same m n then some b else held R L (build_device_key_path id) n s),
      )
  read-put id m b out s h =
      let path = build_device_key_path id in
      read_lem id out (put R path m b s) (put-registered path m b id s ∙ h)
      ∙ ap (λ f. (0, record_of id out f)) (λ i n. held-put R L path m n b s i)

  read_device_record-set_device_status :
      (id : Bytes) (status : ℕ) (out : DeviceRecord) (s : RegistryState R)
      → registered id s ≡ true
      → status < 2 ^ 32
      → read_device_record R id out (set_device_status R id status s).1
        ≡ (0, record (read_device_record R id out s).1 { pair_status = status })
  unfolding set_device_status bytes_eq le_bytes
  read_device_record-set_device_status id status out s h small =
      let path = build_device_key_path id in
      let done : (set_device_status R id status s).1
          ≡ put R path reg_val_pair_status (le_bytes 4 status) s =
        rw (opened_lem path s h) refl in
      let told : from_le (over (le_bytes 4 status) (replicate 4 0)) ≡ status =
        ap from_le (over_full (le_bytes 4 status) 4 (length-le_bytes 4 status))
        ∙ from_le-le_bytes 4 status small in
      ap (λ t. read_device_record R id out t) done
      ∙ read-put id reg_val_pair_status (le_bytes 4 status) out s h
      ∙ (λ i. (0, record (record_of id out (λ n. held R L path n s)) { pair_status = told i }))
      ∙ ap (λ p. (0, record p.1 { pair_status = status })) (sym (read_lem id out s h))

  read_device_record-update_last_seen :
      (now : FileTime) (id : Bytes) (out : DeviceRecord) (s : RegistryState R)
      → registered id s ≡ true
      → now.high < 2 ^ 32
      → now.low < 2 ^ 32
      → read_device_record R id out (update_last_seen R now id s).1
        ≡ (0, record (read_device_record R id out s).1 { last_seen = now })
  unfolding update_last_seen bytes_eq le_bytes time_value
  read_device_record-update_last_seen now id out s h high low =
      let path = build_device_key_path id in
      let done : (update_last_seen R now id s).1 ≡ put R path reg_val_last_seen (time_value now) s =
        rw (opened_lem path s h) refl in
      let told : file_time_of (from_le (over (time_value now) (replicate 8 0))) ≡ now =
        ap (λ b. file_time_of (from_le b)) (over_full (time_value now) 8 (length-time_value now))
        ∙ time_read now high low in
      ap (λ t. read_device_record R id out t) done
      ∙ read-put id reg_val_last_seen (time_value now) out s h
      ∙ (λ i. (0, record (record_of id out (λ n. held R L path n s)) { last_seen = told i }))
      ∙ ap (λ p. (0, record p.1 { last_seen = now })) (sym (read_lem id out s h))

  -- Setting the status of a registered device, and noting a contact, change that member of its record
  -- and no other.
  pub read_device_record-changes :
      (id : Bytes) (status : ℕ) (now : FileTime) (out : DeviceRecord) (s : RegistryState R)
      → registered id s ≡ true
      → status < 2 ^ 32
      → now.high < 2 ^ 32
      → now.low < 2 ^ 32
      → (read_device_record R id out (set_device_status R id status s).1
          ≡ (0, record (read_device_record R id out s).1 { pair_status = status }))
        × (read_device_record R id out (update_last_seen R now id s).1
            ≡ (0, record (read_device_record R id out s).1 { last_seen = now }))
  read_device_record-changes id status now out s h small high low = (
    read_device_record-set_device_status id status out s h small,
    read_device_record-update_last_seen now id out s h high low,
  )
