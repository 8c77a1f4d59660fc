-- ===== src/Ipc.antt =====
-- windows/ipc/SecureIPC.cpp: the pipe between the service and its clients.
pub mod Server
pub mod Client
