-- ===== src/Credential/Provider.antt =====
-- windows/credential_provider/CredentialProvider.cpp: the provider, which has one tile.
use pc_unlock_project.Common.{
  ℕ, ◌^◌, ◌-◌, Bool, true, false, not, ◌||◌, leb, ◌==◌, if◌then◌else◌, Option, none, some, Bytes,
  codes,
}
use pc_unlock_project.Credential.Codes.{
  s_ok, e_not_impl, e_pointer, e_out_of_memory, e_invalid_arg, field_name, field_count,
}

pub data UsageScenario : Type 0 where
  invalid logon unlock_workstation change_password cred_ui plap : UsageScenario

pub record CredentialProvider : Type 0 where
  pub cpus : UsageScenario
  pub usage_scenario_set : Bool
  pub has_credential : Bool
  pub has_events : Bool
  pub advise_context : ℕ

abbrev pub new_provider : CredentialProvider
new_provider = record {
  cpus = invalid;
  usage_scenario_set = false;
  has_credential = false;
  has_events = false;
  advise_context = 0;
}

-- The scenario is one of the two that are served.
abbrev serve : Bool → UsageScenario → CredentialProvider → ℕ × CredentialProvider
serve allocated cpus p =
    let set : CredentialProvider = record p { cpus = cpus; usage_scenario_set = true } in
    if p.has_credential
    then (s_ok, set)
    else if not allocated
    then (e_out_of_memory, set)
    else (s_ok, record set { has_credential = true })

abbrev refuse : CredentialProvider → ℕ × CredentialProvider
refuse p = (e_not_impl, record p { usage_scenario_set = false })

-- `allocated` tells whether a new tile could be created.
unfoldable pub set_usage_scenario :
    Bool → UsageScenario → CredentialProvider → ℕ × CredentialProvider
set_usage_scenario allocated logon p = serve allocated logon p
set_usage_scenario allocated unlock_workstation p = serve allocated unlock_workstation p
set_usage_scenario allocated invalid p = refuse p
set_usage_scenario allocated change_password p = refuse p
set_usage_scenario allocated cred_ui p = refuse p
set_usage_scenario allocated plap p = refuse p

unfoldable pub provider_advise : Bool → ℕ → CredentialProvider → CredentialProvider
provider_advise pointer context p = record p { has_events = pointer; advise_context = context }

unfoldable pub provider_un_advise : CredentialProvider → CredentialProvider
provider_un_advise p = record p { has_events = false; advise_context = 0 }

abbrev no_default : ℕ
no_default = 2 ^ 32 - 1

-- The count, the default, and whether to log on at once.
pub record CredentialCount : Type 0 where
  pub count : ℕ
  pub default : ℕ
  pub auto_logon : Bool

unfoldable pub get_credential_count : Bool → CredentialProvider → ℕ × Option CredentialCount
get_credential_count pointers p =
    if not pointers
    then (e_pointer, none)
    else if not p.usage_scenario_set || not p.has_credential
    then (s_ok, some (record { count = 0; default = no_default; auto_logon = false }))
    else (s_ok, some (record { count = 1; default = no_default; auto_logon = false }))

-- Whether the tile is handed out.
unfoldable pub get_credential_at : Bool → ℕ → CredentialProvider → ℕ × Bool
get_credential_at pointer index p =
    if not pointer
    then (e_pointer, false)
    else if not (index == 0) || not p.has_credential
    then (e_invalid_arg, false)
    else (s_ok, true)

abbrev label_of : ℕ → Bytes
label_of field = if field == field_name then codes "Display Name" else codes "Status"

-- The number and the label of a field.
unfoldable pub get_field_descriptor_at : Bool → ℕ → Bool → Bool → ℕ × Option (ℕ × Bytes)
get_field_descriptor_at pointer index allocated label_allocated =
    if not pointer
    then (e_pointer, none)
    else if leb field_count index
    then (e_invalid_arg, none)
    else if not allocated || not label_allocated
    then (e_out_of_memory, none)
    else (s_ok, some (index, label_of index))
