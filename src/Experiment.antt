-- ===== src/Experiment.antt =====
-- src/infertwin/experiment
pub mod Rows
