-- ===== src/Sock.antt =====
-- The socket layer: include/sock.h and src/sock.c.
pub mod State
pub mod Machine
pub mod Chain
pub mod Api
pub mod Release
pub mod Instance
pub mod Listenner
pub mod Reader
pub mod Messenger
pub mod Sender
