-- ===== src/Cache.antt =====
-- src/infertwin/cache: the prefix caches, their events, and the accounting of cached tokens.
pub mod Events
pub mod Materialization
pub mod EventSink
pub mod Results
pub mod Eviction
pub mod Store
pub mod Infinite
pub mod Ddr
pub mod Tiered
pub mod BlockSize
pub mod Conversion
pub mod Accounting
pub mod Interface
