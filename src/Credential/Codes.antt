-- ===== src/Credential/Codes.antt =====
-- windows/credential_provider/CredentialProviderCompat.h and ProviderGuid.h: results and field numbers.
use pc_unlock_project.Common.{ℕ}

abbrev pub s_ok : ℕ
s_ok = 0

abbrev pub s_false : ℕ
s_false = 1

abbrev pub e_not_impl : ℕ
e_not_impl = 0x8000_4001

abbrev pub e_pointer : ℕ
e_pointer = 0x8000_4003

abbrev pub e_out_of_memory : ℕ
e_out_of_memory = 0x8007_000E

abbrev pub e_invalid_arg : ℕ
e_invalid_arg = 0x8007_0057

abbrev pub field_name : ℕ
field_name = 0

abbrev pub field_status : ℕ
field_status = 1

abbrev pub field_count : ℕ
field_count = 2

-- CPGSR_NO_CREDENTIAL_FINISHED and CPGSR_RETURN_CREDENTIAL_FINISHED.
abbrev pub no_credential_finished : ℕ
no_credential_finished = 1

abbrev pub return_credential_finished : ℕ
return_credential_finished = 2
