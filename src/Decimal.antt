-- ===== src/Decimal.antt =====
-- Exact decimals: internal/rules/decimal.go.
pub mod Rat
pub mod Parse
pub mod Ops
pub mod Digits
pub mod Written
pub mod Range
pub mod Arithmetic
mod Samples
