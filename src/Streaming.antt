-- ===== src/Streaming.antt =====
-- src/infertwin/streaming
pub mod Json
pub mod Fields
pub mod Codec
pub mod Aggregate
pub mod Scopes
pub mod Source
