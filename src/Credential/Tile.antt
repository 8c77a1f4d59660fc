-- ===== src/Credential/Tile.antt =====
-- windows/credential_provider/MobileUnlockCredential.cpp: the tile. Each call, and each turn of the
-- status thread, is one step under the lock; pointers are tested by a Bool, true for one that is not
-- null.
use pc_unlock_project.Common.{
  is_empty, ℕ, Bool, true, false, not, ◌||◌, ltb, leb, ◌==◌, if◌then◌else◌, List, [], ◌∷◌, Option,
  none, some, Bytes, codes, length, take, replicate,
}
use pc_unlock_project.Lsa.Package.{status_success}
use pc_unlock_project.Lsa.Logon.{
  logon_buffer_of_memory, logon_buffer_size, lsa_submit_buffer_magic, lsa_submit_buffer_version,
}
use pc_unlock_project.Credential.Codes.{
  s_ok, s_false, e_pointer, e_out_of_memory, e_invalid_arg, field_name, field_count,
  no_credential_finished, return_credential_finished,
}

-- The question that is put to the service.
abbrev pub probe : Bytes
probe = codes "{\"type\":\"AUTH_REQUEST\",\"source\":\"CredentialProvider\"}"

-- What is made of the bytes of an answer.
abbrev pub accept_answer : Bytes → Option Bytes
accept_answer answer =
    let b = logon_buffer_of_memory (take logon_buffer_size answer) in
    if is_empty answer || ltb (length answer) logon_buffer_size
    then none
    else if not (b.magic == lsa_submit_buffer_magic) || not (b.version == lsa_submit_buffer_version)
    then none
    else some (take logon_buffer_size answer)

abbrev read_answer : Option Bytes → Option Bytes
read_answer none = none
read_answer (some answer) = accept_answer answer

-- The bytes of the token's buffer, if the token is valid; `answer` is what is read from the service.
unfoldable pub fetch_auth_state : Bool → Bool → Option Bytes → Option Bytes
fetch_auth_state connected sent answer =
    if not connected then none else if not sent then none else read_answer answer

-- `told` are the texts that Winlogon is told to show, the latest first.
pub record MobileUnlockCredential : Type 0 where
  pub has_events : Bool
  pub status_text : Bytes
  pub auth_state_ready : Bool
  pub internal_auth_buffer : Bytes
  pub has_thread : Bool
  pub stop_thread : Bool
  pub has_stop_event : Bool
  pub has_ipc_factory : Bool
  pub told : List Bytes

abbrev pub empty_buffer : Bytes
empty_buffer = replicate logon_buffer_size 0

abbrev pub waiting_text : Bytes
waiting_text = codes "Waiting for phone..."

abbrev pub ready_text : Bytes
ready_text = codes "Authentication ready"

-- The constructor, with a factory or none.
abbrev pub new_credential : Bool → MobileUnlockCredential
new_credential factory = record {
  has_events = false;
  status_text = waiting_text;
  auth_state_ready = false;
  internal_auth_buffer = empty_buffer;
  has_thread = false;
  stop_thread = false;
  has_stop_event = false;
  has_ipc_factory = factory;
  told = [];
}

abbrev pub clear_internal_auth_state : MobileUnlockCredential → MobileUnlockCredential
clear_internal_auth_state c = record c {
  internal_auth_buffer = empty_buffer;
  auth_state_ready = false;
}

abbrev pub update_status_field : Bytes → MobileUnlockCredential → MobileUnlockCredential
update_status_field text c = record c {
  status_text = text;
  told = if c.has_events then text ∷ c.told else c.told;
}

-- `created` tells whether the thread could be created.
unfoldable pub advise : Bool → Bool → MobileUnlockCredential → ℕ × MobileUnlockCredential
advise pointer created c = if not pointer then (e_pointer, c) else (
  s_ok,
  record c {
    has_events = true;
    stop_thread = if c.has_thread then c.stop_thread else false;
    has_stop_event = if c.has_thread then c.has_stop_event else true;
    has_thread = if c.has_thread then true else created;
  },
)

-- The thread sees the flag in its next turn, which is not waited for longer than three seconds.
unfoldable pub un_advise : MobileUnlockCredential → MobileUnlockCredential
un_advise c = record c {
  stop_thread = true;
  has_stop_event = false;
  has_thread = false;
  has_events = false;
}

abbrev pub take_token : Option Bytes → MobileUnlockCredential → MobileUnlockCredential
take_token none c = update_status_field waiting_text (record c { auth_state_ready = false })
take_token (some buffer) c =
    update_status_field ready_text
      (record c { internal_auth_buffer = buffer; auth_state_ready = true })

-- One turn of StatusThreadFunc, with the token that was fetched, or its end.
unfoldable pub thread_turn : Option Bytes → MobileUnlockCredential → MobileUnlockCredential
thread_turn token c =
    if c.stop_thread
    then clear_internal_auth_state c
    else if not c.has_ipc_factory
    then update_status_field (codes "Internal error") c
    else take_token token c

-- The result, and the value of `*pbAutoLogonWithDefault`.
unfoldable pub set_selected : Bool → Bool → ℕ × Bool
set_selected pointer auto_logon = if not pointer then (e_pointer, auto_logon) else (s_ok, false)

unfoldable pub set_deselected : MobileUnlockCredential → MobileUnlockCredential
set_deselected c = update_status_field waiting_text (clear_internal_auth_state c)

-- CPFS_DISPLAY_IN_SELECTED_TILE and CPFS_DISPLAY_IN_DESELECTED_TILE.
unfoldable pub get_field_state : Bool → ℕ → ℕ × Option ℕ
get_field_state pointers field =
    if not pointers
    then (e_pointer, none)
    else if leb field_count field
    then (e_invalid_arg, none)
    else (s_ok, some 3)

abbrev field_text : ℕ → MobileUnlockCredential → Bytes
field_text field c = if field == field_name then codes "MobileFingerprintUnlock" else c.status_text

unfoldable pub get_string_value : Bool → ℕ → Bool → MobileUnlockCredential → ℕ × Option Bytes
get_string_value pointer field allocated c =
    if not pointer
    then (e_pointer, none)
    else if leb field_count field
    then (e_invalid_arg, none)
    else if not allocated
    then (e_out_of_memory, none)
    else (s_ok, some (field_text field c))

-- What GetSerialization gives: the result, `*pcpgsr`, the package, and the bytes.
pub record Serialization : Type 0 where
  pub result : ℕ
  pub response : ℕ
  pub authentication_package : ℕ
  pub bytes : Option Bytes

abbrev pub without_credential : ℕ → Serialization
without_credential result = record {
  result = result;
  response = no_credential_finished;
  authentication_package = 0;
  bytes = none;
}

abbrev pub package_id : ℕ → ℕ → ℕ
package_id status id = if not (status == status_success) || id == 0 then 100 else id

-- `status` and `id` are what LsaPackageLookup gives.
unfoldable pub get_serialization : ℕ → ℕ → Bool → MobileUnlockCredential → Serialization
get_serialization status id allocated c =
    if not c.auth_state_ready
    then without_credential s_false
    else if not allocated
    then without_credential e_out_of_memory
    else record {
      result = s_ok;
      response = return_credential_finished;
      authentication_package = package_id status id;
      bytes = some c.internal_auth_buffer;
    }
