-- ===== src/Request.antt =====
-- src/infertwin/request: what a request is before replay.
pub mod Block
pub mod Simulation
pub mod Arrival
pub mod Hasher
