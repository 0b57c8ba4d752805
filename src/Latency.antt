-- ===== src/Latency.antt =====
-- src/infertwin/latency: how long an iteration takes.
pub mod Schema
pub mod Memo
