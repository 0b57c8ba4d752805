-- ===== src/Scheduler.antt =====
-- src/infertwin/scheduler: which request computes how many tokens in an iteration.
pub mod State
pub mod Config
pub mod Queue
pub mod BatchShape
pub mod VllmLike
