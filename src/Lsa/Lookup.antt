-- ===== src/Lsa/Lookup.antt =====
-- windows/authentication/LsaPackageLookup.cpp: the number of the authentication package.
use pc_unlock_project.Common.{
  ℕ, ◌%◌, ◌^◌, Bool, not, ◌&&◌, ◌||◌, ◌==◌, if◌then◌else◌, Bytes, length, take,
}
use pc_unlock_project.Lsa.Package.{status_success}

abbrev pub status_unsuccessful : ℕ
status_unsuccessful = 0xC000_0001

abbrev pub status_not_supported : ℕ
status_not_supported = 0xC000_00BB

-- How far the calls get: secur32.dll, its functions, the connection (its status, and whether there is a
-- handle), and what the LSA answers for a name (status and number); the length of the name is narrowed to 16 bits.
pub record LookupCalls : Type 0 where
  pub has_library : Bool
  pub has_functions : Bool
  pub connect_status : ℕ
  pub has_handle : Bool
  pub lookup : Bytes → ℕ × ℕ

abbrev looked_up : ℕ × ℕ → ℕ × ℕ
looked_up (status, id) = (status, if status == status_success then id else 0)

-- The status, and the number of the package.
unfoldable pub get_authentication_package_id : LookupCalls → Bytes → ℕ × ℕ
get_authentication_package_id calls name =
    if not calls.has_library
    then (status_unsuccessful, 0)
    else if not calls.has_functions
    then (status_not_supported, 0)
    else if not (calls.connect_status == status_success) || not calls.has_handle
    then (calls.connect_status, 0)
    else looked_up (calls.lookup (take (length name % 2 ^ 16) name))

unfoldable pub is_package_registered : LookupCalls → Bytes → Bool
is_package_registered calls name =
    let (status, id) = get_authentication_package_id calls name in
    status == status_success && not (id == 0)
