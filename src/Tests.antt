-- ===== src/Tests.antt =====
-- The theorems applied to small concrete inputs.
mod Samples
mod CacheRuns
mod TokenRuns
mod SchedulerRuns
mod RequestSamples
mod RequestRuns
mod ReplayRuns
mod SweepRuns
mod InstanceRuns
mod LoopRuns
