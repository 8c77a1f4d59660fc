-- ===== src/Discovery.antt =====
-- windows/network/MdnsResponder.cpp: the PC answers the phones that look for it.
pub mod Numbers
pub mod Payload
pub mod Listener
