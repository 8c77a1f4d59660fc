-- ===== src/Registry/RoundTrip.antt =====
-- windows/pairing/DeviceRegistry.cpp: a record that is written is read, as it was written.
use pc_unlock_project.Common.{
  ℕ, ◌^◌, ◌≤◌, ◌<◌, ◌≡◌, ◌≢◌, refl, sym, ap, ◌∙◌, true, [], ◌∷◌, some, Bytes, IsByte, All, length,
  replicate, le_bytes, from_le, arith, from_le-le_bytes, length-le_bytes,
}
use pc_unlock_project.Pairing.Identity.{device_id_to_string}
use pc_unlock_project.Pairing.Identity.RoundTrip.{device_id_from_string-to_string}
use pc_unlock_project.Pairing.Record.{DeviceRecord}
use pc_unlock_project.Registry.Win32.{WinRegistry, Documented}
use pc_unlock_project.Registry.Values.{
  build_device_key_path, text_value, time_value, file_time_of, over, reg_val_pair_status,
  reg_val_device_name, reg_val_account_sid, reg_val_paired_time, reg_val_last_seen,
}
use pc_unlock_project.Registry.Values.Laws.{
  IsTextByte, over_full, text_read, length-text_value, time_read, length-time_value,
}
use pc_unlock_project.Registry.Records.{
  RegistryState, AclCalls, write_values, write_device_record, read_values, read_device_record,
  queried, queried_key, status_of, text_of, key_of, time_of,
}
use pc_unlock_project.Registry.Writes.{there, there-write_values, write_device_record_lem}
use pc_unlock_project.Registry.Laws.{
  held_status, held_name, held_sid, held_key, held_paired, held_seen, queried_lem, queried_key_lem,
}

-- What fits the buffers that ReadDeviceRecord reads with.
pub record IsStorable (r : DeviceRecord) : Type 0 where
  pub id_length : length r.device_id ≡ 16
  pub id_bytes : All IsByte r.device_id
  pub name_bytes : All IsTextByte r.device_name
  pub name_length : length r.device_name ≤ 255
  pub sid_bytes : All IsTextByte r.account_sid
  pub sid_length : length r.account_sid ≤ 255
  pub keyed : r.public_key ≢ []
  pub key_length : length r.public_key ≤ 256
  pub status : r.pair_status < 2 ^ 32
  pub paired_high : r.paired_time.high < 2 ^ 32
  pub paired_low : r.paired_time.low < 2 ^ 32
  pub seen_high : r.last_seen.high < 2 ^ 32
  pub seen_low : r.last_seen.low < 2 ^ 32

first_of : (b : Bytes) → b ≢ [] → (k : ℕ) × (ks : Bytes) × (b ≡ k ∷ ks)
first_of [] h = absurd (h refl)
first_of (k ∷ ks) h = (k, ks, refl)

module _ (R : WinRegistry) (L : Documented R) where
  read-write_keyed :
      (r out : DeviceRecord) (k : ℕ) (ks : Bytes) (s : RegistryState R)
      → r.public_key ≡ k ∷ ks
      → IsStorable r
      → length out.device_id ≡ 16
      → read_values R
          (device_id_to_string r.device_id)
          out
          (write_values R (build_device_key_path (device_id_to_string r.device_id)) r s)
        ≡ r
  unfolding read_values
  read-write_keyed r out k ks s keyed f o =
      let path = build_device_key_path (device_id_to_string r.device_id) in
      let w = write_values R path r s in
      let status : queried R path 4 reg_val_pair_status w
          ≡ some (over (le_bytes 4 r.pair_status) (replicate 4 0)) =
        queried_lem R L path 4 reg_val_pair_status (le_bytes 4 r.pair_status) w
          (held_status R L path r k ks keyed s) (omega (arith, length-le_bytes 4 r.pair_status)) in
      let name : queried R path 512 reg_val_device_name w
          ≡ some (over (text_value r.device_name) (replicate 512 0)) =
        queried_lem R L path 512 reg_val_device_name (text_value r.device_name) w
          (held_name R L path r k ks keyed s)
          (omega (arith, length-text_value r.device_name, f.name_length)) in
      let sid : queried R path 512 reg_val_account_sid w
          ≡ some (over (text_value r.account_sid) (replicate 512 0)) =
        queried_lem R L path 512 reg_val_account_sid (text_value r.account_sid) w
          (held_sid R L path r k ks keyed s)
          (omega (arith, length-text_value r.account_sid, f.sid_length)) in
      let key : queried_key R path w ≡ some (k ∷ ks) =
        queried_key_lem R L path k ks w (held_key R L path r k ks keyed s)
          (omega (arith, f.key_length, ap length keyed)) in
      let paired : queried R path 8 reg_val_paired_time w
          ≡ some (over (time_value r.paired_time) (replicate 8 0)) =
        queried_lem R L path 8 reg_val_paired_time (time_value r.paired_time) w
          (held_paired R L path r k ks keyed s) (omega (arith, length-time_value r.paired_time)) in
      let seen : queried R path 8 reg_val_last_seen w
          ≡ some (over (time_value r.last_seen) (replicate 8 0)) =
        queried_lem R L path 8 reg_val_last_seen (time_value r.last_seen) w
          (held_seen R L path r k ks keyed s) (omega (arith, length-time_value r.last_seen)) in
      λ i. record {
        device_id =
            (ap (λ p. p.1)
                (device_id_from_string-to_string r.device_id out.device_id f.id_length o
                  f.id_bytes))
              i;
        device_name =
            (ap (text_of out.device_name) name
                ∙ text_read r.device_name (replicate 512 0) f.name_bytes)
              i;
        account_sid =
            (ap (text_of out.account_sid) sid
                ∙ text_read r.account_sid (replicate 512 0) f.sid_bytes)
              i;
        public_key = (ap (key_of out.public_key) key ∙ sym keyed) i;
        pair_status =
            (ap status_of status
                ∙ ap from_le
                    (over_full (le_bytes 4 r.pair_status) 4 (length-le_bytes 4 r.pair_status))
                ∙ from_le-le_bytes 4 r.pair_status f.status)
              i;
        paired_time =
            (ap (time_of out.paired_time) paired
                ∙ ap (λ b. file_time_of (from_le b))
                    (over_full (time_value r.paired_time) 8 (length-time_value r.paired_time))
                ∙ time_read r.paired_time f.paired_high f.paired_low)
              i;
        last_seen =
            (ap (time_of out.last_seen) seen
                ∙ ap (λ b. file_time_of (from_le b))
                    (over_full (time_value r.last_seen) 8 (length-time_value r.last_seen))
                ∙ time_read r.last_seen f.seen_high f.seen_low)
              i;
      }

  read-write_values :
      (r out : DeviceRecord) (s : RegistryState R)
      → IsStorable r
      → length out.device_id ≡ 16
      → read_values R
          (device_id_to_string r.device_id)
          out
          (write_values R (build_device_key_path (device_id_to_string r.device_id)) r s)
        ≡ r
  read-write_values r out s f o =
      let (k, ks, keyed) = first_of r.public_key f.keyed in read-write_keyed r out k ks s keyed f o

  -- A record is read, after it was written, as it was, and the write and the read report success,
  -- whatever the key and the members of the result held before. The record has an identity of 16 bytes,
  -- a public key of at least one and at most 256 bytes (of an empty one nothing is written, and the
  -- key's old value stays), a name and an SID of at most 255 bytes without a zero byte, and numbers
  -- below 2^32; the registry works as documented, and the result has an identity of 16 bytes.
  pub read_device_record-write_device_record :
      (calls : AclCalls) (r out : DeviceRecord) (s : RegistryState R)
      → IsStorable r
      → length out.device_id ≡ 16
      → ((write_device_record R calls r s).0 ≡ 0)
        × (read_device_record R
              (device_id_to_string r.device_id)
              out
              (write_device_record R calls r s).1
            ≡ (0, r))
  unfolding read_device_record
  read_device_record-write_device_record calls r out s f o =
      let path = build_device_key_path (device_id_to_string r.device_id) in
      let (t, e, h) = write_device_record_lem R L calls r s in
      let w = write_values R path r t in
      let here : there R L path w ≡ true = there-write_values R L path path r t ∙ h.created in
      let opened : R.open_key w.root path w.store ≡ 0 =
        L.open_lem w.root path w.store ∙ rw here refl in
      let back : read_device_record R (device_id_to_string r.device_id) out w ≡ (0, r) =
        rw (opened, read-write_values r out t f o) refl in
      (
        ap (λ p. p.0) e,
        ap (λ p. read_device_record R (device_id_to_string r.device_id) out p.1) e ∙ back,
      )
