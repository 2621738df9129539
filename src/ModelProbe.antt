-- ===== src/ModelProbe.antt =====
-- src/model_probe.c: what a model file declares, and whether the evaluator can execute it.
pub mod Meta
pub mod Checks
pub mod Layers
pub mod Run
pub mod Rules
pub mod Shapes
pub mod Supported
pub mod Accepted
pub mod Passed
pub mod Reported
