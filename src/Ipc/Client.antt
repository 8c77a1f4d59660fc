-- ===== src/Ipc/Client.antt =====
-- windows/ipc/SecureIPC.cpp: NamedPipeClient. The loops that wait run on fuel, and give nothing when the
-- fuel does not suffice; `clock i` is what the i-th call of GetTickCount gives.
pub mod Laws
use pc_unlock_project.Common.{
  is_empty, ℕ, zero, suc, ◌+◌, ◌-◌, ◌%◌, ◌^◌, Bool, true, false, not, ◌&&◌, ◌||◌, ltb, leb, ◌==◌,
  if◌then◌else◌, List, [], ◌∷◌, Option, none, some, Bytes, length,
}

pub record NamedPipeClient : Type 0 where
  pub has_pipe : Bool

abbrev pub new_client : NamedPipeClient
new_client = record { has_pipe = false }

-- `GetTickCount() - startTime`, of 32 bits.
abbrev pub elapsed : ℕ → ℕ → ℕ
elapsed start now = (now + 2 ^ 32 - start) % 2 ^ 32

-- The loop of Connect; `opens i` tells whether the i-th CreateFileW gives a pipe.
unfoldable pub try_open : (ℕ → ℕ) → (ℕ → Bool) → ℕ → ℕ → ℕ → Option Bool
try_open clock opens timeout_ms zero i = none
try_open clock opens timeout_ms (suc fuel) i =
    let later = try_open clock opens timeout_ms fuel (i + 1) in
    if not (ltb (elapsed (clock 0) (clock (i + 1))) timeout_ms)
    then some false
    else if opens i
    then some true
    else later

abbrev opened : Bool → Option Bool → Option (Bool × NamedPipeClient)
opened mode_set none = none
opened mode_set (some false) = some (false, record { has_pipe = false })
opened mode_set (some true) = some (mode_set, record { has_pipe = mode_set })

-- `mode_set` is the result of SetNamedPipeHandleState.
unfoldable pub connect :
    (ℕ → ℕ) → (ℕ → Bool) → Bool → ℕ → ℕ → NamedPipeClient → Option (Bool × NamedPipeClient)
connect clock opens mode_set fuel timeout_ms c =
    if c.has_pipe then some (true, c) else opened mode_set (try_open clock opens timeout_ms fuel 0)

abbrev pub disconnect : NamedPipeClient → NamedPipeClient
disconnect c = record { has_pipe = false }

unfoldable pub send_message_to_server : Bool → ℕ → Bytes → NamedPipeClient → Bool
send_message_to_server success written message c =
    if not c.has_pipe || is_empty message then false else success && written == length message

-- Whether PeekNamedPipe succeeds and finds bytes.
abbrev pub is_available : Option ℕ → Bool
is_available none = false
is_available (some bytes) = ltb 0 bytes

-- The loop of ReadMessageFromServer; `peeks i` is what the i-th PeekNamedPipe finds. The result tells
-- whether there are bytes.
unfoldable pub await : (ℕ → ℕ) → (ℕ → Option ℕ) → ℕ → ℕ → ℕ → Option Bool
await clock peeks timeout_ms zero i = none
await clock peeks timeout_ms (suc fuel) i =
    let later = await clock peeks timeout_ms fuel (i + 1) in
    if is_available (peeks i)
    then some true
    else if leb timeout_ms (elapsed (clock 0) (clock (i + 1)))
    then some false
    else later

-- What ReadFile gives, if it gives something.
abbrev pub received : Option Bytes → Option Bytes
received none = none
received (some data_read) = if is_empty data_read then none else some data_read

abbrev pub finish_read : Option Bytes → Option Bool → Option (Option Bytes)
finish_read file none = none
finish_read file (some false) = some none
finish_read file (some true) = some (received file)

-- The message, if there is one: the inner `none` is a ReadResult that is not valid.
unfoldable pub read_message_from_server :
    (ℕ → ℕ) → (ℕ → Option ℕ) → Option Bytes → ℕ → ℕ → NamedPipeClient → Option (Option Bytes)
read_message_from_server clock peeks file fuel timeout_ms c =
    if not c.has_pipe then some none else finish_read file (await clock peeks timeout_ms fuel 0)
