-- ===== src/App.antt =====
-- internal/app: the parts of the server round the engine that decide something of their own.
pub mod Failures
pub mod Lifecycle
pub mod Throttle
pub mod Base64
pub mod Passwords
pub mod Dependents
