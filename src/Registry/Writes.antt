-- ===== src/Registry/Writes.antt =====
-- windows/pairing/DeviceRegistry.cpp: the key of a record is there once the record is written.
use pc_unlock_project.Common.{
  ℕ, ◌≡◌, refl, ◌∙◌, Bool, true, false, not, ◌&&◌, ◌==◌, [], ◌∷◌, Bytes, le_bytes, arith, if_cases,
}
use pc_unlock_project.Pairing.Identity.{device_id_to_string}
use pc_unlock_project.Pairing.Record.{DeviceRecord}
use pc_unlock_project.Registry.Win32.{WinRegistry, Wide, Documented, same, hkey_local_machine}
use pc_unlock_project.Registry.Values.{
  build_device_key_path, device_registry_root, text_value, time_value, reg_val_pair_status,
  reg_val_device_name, reg_val_account_sid, reg_val_paired_time, reg_val_last_seen,
}
use pc_unlock_project.Registry.Records.{
  RegistryState, AclCalls, no_library, no_function, converted, not_converted, apply_registry_acl,
  secure_key, put, put_key, write_values, ensure_root, write_device_key, write_device_record,
}
use pc_unlock_project.Registry.Laws.{held}

module _ (R : WinRegistry) (L : Documented R) where
  -- Whether a key is there.
  abbrev pub there : Wide → RegistryState R → Bool
  there path s = L.has_key s.root path s.store

  pub there-apply_registry_acl :
      (calls : AclCalls) (path q : Wide) (s : RegistryState R)
      → there q (apply_registry_acl R calls path s).1 ≡ there q s
  unfolding apply_registry_acl
  there-apply_registry_acl calls path q s =
      if_cases {A = ℕ × RegistryState R} (λ p. there q p.1 ≡ there q s)
        (not (s.root == hkey_local_machine)) _ _ (λ e. refl)
        (λ e. elim calls as (λ c. there q (secure_key R c path s).1 ≡ there q s) [
          | no_library ↦ refl
          | no_function ↦ refl
          | not_converted code ↦ refl
          | converted ↦ L.secured_key s.root path q s.store
        ])

  pub there-create :
      (path : Wide) (s : RegistryState R)
      → there path (record s { store = (R.create_key s.root path s.store).1 }) ≡ true
  there-create path s = (L.create_lem s.root path s.store).1

  held-apply_registry_acl :
      (calls : AclCalls) (path q n : Wide) (s : RegistryState R)
      → held R L q n (apply_registry_acl R calls path s).1 ≡ held R L q n s
  unfolding apply_registry_acl
  held-apply_registry_acl calls path q n s =
      if_cases {A = ℕ × RegistryState R} (λ p. held R L q n p.1 ≡ held R L q n s)
        (not (s.root == hkey_local_machine)) _ _ (λ e. refl)
        (λ e. elim calls as (λ c. held R L q n (secure_key R c path s).1 ≡ held R L q n s) [
          | no_library ↦ refl
          | no_function ↦ refl
          | not_converted code ↦ refl
          | converted ↦ L.secured_value s.root path q n s.store
        ])

  keeps_true : (a b : Bool) → (a && not b) ≡ false → a ≡ true → b ≡ true
  keeps_true a b e f = ground arith

  there-create_other :
      (path q : Wide) (s : RegistryState R)
      → there q s ≡ true
      → there q (record s { store = (R.create_key s.root path s.store).1 }) ≡ true
  there-create_other path q s h = keeps_true _ _ (L.create_keeps s.root path q s.store) h

  -- The registry `t` has what `s` has, and the key `path`.
  pub record IsReady (path : Wide) (s t : RegistryState R) : Type 0 where
    pub created : there path t ≡ true
    pub kept : (q : Wide) → there q s ≡ true → there q t ≡ true
    pub values : (q n : Wide) → held R L q n t ≡ held R L q n s

  write_device_key_lem :
      (calls : AclCalls) (r : DeviceRecord) (s : RegistryState R)
      → (t : RegistryState R) × (write_device_key R calls r s
          ≡ (0, write_values R (build_device_key_path (device_id_to_string r.device_id)) r t))
        × IsReady (build_device_key_path (device_id_to_string r.device_id)) s t
  unfolding write_device_key
  write_device_key_lem calls r s =
      let path = build_device_key_path (device_id_to_string r.device_id) in
      let s1 : RegistryState R = record s { store = (R.create_key s.root path s.store).1 } in
      let done = (L.create_lem s.root path s.store).0 in
      (
        (apply_registry_acl R calls path s1).1,
        rw done refl,
        record {
          created = there-apply_registry_acl calls path path s1 ∙ there-create path s;
          kept = λ q h. there-apply_registry_acl calls path q s1 ∙ there-create_other path q s h;
          values = λ q n.
              held-apply_registry_acl calls path q n s1 ∙ L.create_value s.root path q n s.store;
        },
      )

  pub write_device_record_lem :
      (calls : AclCalls) (r : DeviceRecord) (s : RegistryState R)
      → (t : RegistryState R) × (write_device_record R calls r s
          ≡ (0, write_values R (build_device_key_path (device_id_to_string r.device_id)) r t))
        × IsReady (build_device_key_path (device_id_to_string r.device_id)) s t
  unfolding write_device_record ensure_root
  write_device_record_lem calls r s =
      let done = (L.create_lem s.root device_registry_root s.store).0 in
      let s1 : RegistryState R = record s {
        store = (R.create_key s.root device_registry_root s.store).1;
      } in
      let (t, e, f) = write_device_key_lem calls r s1 in
      (
        t,
        rw done e,
        record {
          created = f.created;
          kept = λ q h. f.kept q (there-create_other device_registry_root q s h);
          values = λ q n. f.values q n ∙ L.create_value s.root device_registry_root q n s.store;
        },
      )

  values_other :
      (path q m n : Wide) (b : Bytes) (s : RegistryState R)
      → same path q ≡ false
      → held R L q n (put R path m b s) ≡ held R L q n s
  values_other path q m n b s d = L.set_lem s.root path q m n b s.store ∙ rw d refl

  -- Writing the values of one key leaves those of the others.
  pub held-write_values_other :
      (path q n : Wide) (r : DeviceRecord) (s : RegistryState R)
      → same path q ≡ false
      → held R L q n (write_values R path r s) ≡ held R L q n s
  unfolding write_values
  held-write_values_other path q n r s d =
      elim r.public_key
        as (λ key.
          held R L q n (
            put R path reg_val_last_seen (time_value r.last_seen) (
              put R path reg_val_paired_time (time_value r.paired_time) (
                put_key R path key (
                  put R path reg_val_account_sid (text_value r.account_sid) (
                    put R path reg_val_device_name (text_value r.device_name)
                      (put R path reg_val_pair_status (le_bytes 4 r.pair_status) s))))))
          ≡ held R L q n s) [ [] ↦ simp (L.set_lem, d) | k ∷ ks ↦ simp (L.set_lem, d) ]

  pub there-write_values :
      (path q : Wide) (r : DeviceRecord) (s : RegistryState R)
      → there q (write_values R path r s) ≡ there q s
  unfolding write_values
  there-write_values path q r s =
      elim r.public_key
        as (λ key.
          there q (
            put R path reg_val_last_seen (time_value r.last_seen) (
              put R path reg_val_paired_time (time_value r.paired_time) (
                put_key R path key (
                  put R path reg_val_account_sid (text_value r.account_sid) (
                    put R path reg_val_device_name (text_value r.device_name)
                      (put R path reg_val_pair_status (le_bytes 4 r.pair_status) s))))))
          ≡ there q s) [ [] ↦ simp L.set_key | k ∷ ks ↦ simp L.set_key ]
