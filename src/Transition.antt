-- ===== src/Transition.antt =====
-- internal/rules/runtime_transitions.go: runtime transitions of a snapshot.
pub mod Plan
pub mod Instances
pub mod Apply
pub mod Run
pub mod Orders
pub mod Accepted
pub mod Loop
pub mod Validity
pub mod Untouched
pub mod Lifecycle
pub mod Checks
