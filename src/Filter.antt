-- ===== src/Filter.antt =====
-- src/filter.rs, in parts: the files and paths that strict mode trusts, the policy texts, and the
-- filter with its constructor.
pub mod Paths
pub mod Files
pub mod Policy
pub mod Identities
