-- ===== src/Replay.antt =====
-- src/infertwin/replay: what a replay keeps of its time.
pub mod Timeline
pub mod KvTransfer
pub mod Iteration
pub mod Ttft
pub mod Metrics
pub mod EventLoop
