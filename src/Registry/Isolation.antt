-- ===== src/Registry/Isolation.antt =====
-- windows/pairing/DeviceRegistry.cpp: the records of the other devices, when one is written.
use pc_unlock_project.Common.{◌≡◌, sym, ap, ◌∙◌, true, false, Bytes}
use pc_unlock_project.Pairing.Identity.{device_id_to_string}
use pc_unlock_project.Pairing.Record.{DeviceRecord}
use pc_unlock_project.Registry.Win32.{WinRegistry, Documented, same}
use pc_unlock_project.Registry.Values.{build_device_key_path}
use pc_unlock_project.Registry.Records.{
  RegistryState, AclCalls, write_values, read_device_record, write_device_record,
}
use pc_unlock_project.Registry.Writes.{
  there-write_values, held-write_values_other, write_device_record_lem,
}
use pc_unlock_project.Registry.Views.{record_of}
use pc_unlock_project.Registry.Changes.{registered, read_lem}

module _ (R : WinRegistry) (L : Documented R) where
  -- Writing a record changes nothing that is read of another registered device: its key is told from
  -- the written one without regard to case.
  pub read_device_record-write_device_record_other :
      (calls : AclCalls) (r : DeviceRecord) (id : Bytes) (out : DeviceRecord) (s : RegistryState R)
      → same (build_device_key_path (device_id_to_string r.device_id)) (build_device_key_path id)
        ≡ false
      → registered R L id s ≡ true
      → read_device_record R id out (write_device_record R calls r s).1
        ≡ read_device_record R id out s
  read_device_record-write_device_record_other calls r id out s d h =
      let path = build_device_key_path (device_id_to_string r.device_id) in
      let q = build_device_key_path id in
      let (t, e, f) = write_device_record_lem R L calls r s in
      let w = write_values R path r t in
      ap (λ p. read_device_record R id out p.1) e
      ∙ read_lem R L id out w (there-write_values R L path q r t ∙ f.kept q h)
      ∙ (λ i. (
        0,
        record_of id out (λ n. (held-write_values_other R L path q n r t d ∙ f.values q n) i),
      ))
      ∙ sym (read_lem R L id out s h)
