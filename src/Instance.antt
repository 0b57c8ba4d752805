-- ===== src/Instance.antt =====
-- src/infertwin/instance
pub mod Replay
