-- ===== src/Tests.antt =====
-- The theorems at concrete inputs, and runs of the model.
mod Worlds
mod Chain
mod Sender
mod Codec
mod Api
mod Threads
mod Instance
mod Axon
mod Requests
mod Delivery
mod Programs
