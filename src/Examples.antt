-- ===== src/Examples.antt =====
-- Concrete instances of the interfaces, tests on them, and the theorems applied to them.
pub mod Setting
pub mod Arguments
pub mod Policies
pub mod Sessions
pub mod Calls
pub mod Children
pub mod Helpers
pub mod StrictCalls
pub mod NativeSessions
pub mod Connections
pub mod Crypto
pub mod Records
pub mod Threads
pub mod Repeated
