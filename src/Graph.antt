-- ===== src/Graph.antt =====
-- internal/rules/expressions.go: the mechanic graph.
pub mod Infer
pub mod Cycles
pub mod Terminates
pub mod Ordered
pub mod Total
pub mod Compile
