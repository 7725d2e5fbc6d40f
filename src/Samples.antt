-- ===== src/Samples.antt =====
-- Concrete inputs, runs of the model on them, and the theorems at them.
pub mod Program
pub mod World
pub mod Runs
pub mod Witnesses
pub mod Server
