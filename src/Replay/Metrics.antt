-- ===== src/Replay/Metrics.antt =====
-- src/infertwin/replay/metrics.py: what a replay reports of a request and of an iteration. Times and
-- rates are natural numbers.
pub mod Lookup
pub mod Latency
pub mod Build
