-- ===== src/Axon.antt =====
-- The messaging layer: include/axon.h and src/axon.c, over the socket layer.
pub mod State
pub mod Amp
pub mod Create
pub mod Subs
pub mod Send
pub mod Message
pub mod Delivery
