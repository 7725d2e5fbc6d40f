-- ===== src/Evaluation.antt =====
-- internal/rules/evaluation.go: the evaluation of one entity.
pub mod Operations
pub mod Modifiers
pub mod Evaluator
pub mod Entity
pub mod Plain
pub mod Measure
pub mod Total
pub mod Terminates
pub mod Complete
pub mod Kinds
