-- ===== src/Ipc/Server.antt =====
-- windows/ipc/SecureIPC.cpp: NamedPipeServer. The handler's calls are the messages, in order.
use pc_unlock_project.Common.{
  is_empty, ℕ, Bool, true, false, not, ◌&&◌, ◌||◌, ◌==◌, if◌then◌else◌, List, [], ◌∷◌, Bytes,
  length,
}

pub record NamedPipeServer : Type 0 where
  pub has_pipe : Bool
  pub has_thread : Bool
  pub is_running : Bool
  pub is_connected : Bool

abbrev pub new_server : NamedPipeServer
new_server = record {
  has_pipe = false;
  has_thread = false;
  is_running = false;
  is_connected = false;
}

-- `created` tells whether the thread could be created.
unfoldable pub server_start : Bool → NamedPipeServer → Bool × NamedPipeServer
server_start created s =
    if s.is_running
    then (false, s)
    else (created, record s { is_running = true; has_thread = created })

abbrev pub server_stop : NamedPipeServer → NamedPipeServer
server_stop s = new_server

-- A turn of the inner loop of ServerWorkerThread: the pipe is broken, nothing is there, ReadFile fails
-- (as it does when the buffer of 4096 bytes is too small), or it gives bytes.
pub data Arrival : Type 0 where
  broken nothing read_failed : Arrival
  read : Bytes → Arrival

-- The messages that one client's connection hands to the handler.
unfoldable pub serve_client : List Arrival → List Bytes
serve_client [] = []
serve_client (broken ∷ rest) = []
serve_client (nothing ∷ rest) = serve_client rest
serve_client (read_failed ∷ rest) = []
serve_client (read message ∷ rest) =
    let more = serve_client rest in if is_empty message then [] else message ∷ more

-- `written` is the result of WriteFile and the count that it gives.
unfoldable pub send_message_to_client : Bool → ℕ → Bytes → NamedPipeServer → Bool
send_message_to_client success written message s =
    if not s.is_connected || (not s.has_pipe || is_empty message)
    then false
    else success && written == length message
