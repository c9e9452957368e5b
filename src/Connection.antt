-- ===== src/Connection.antt =====
-- src/agent_connection.rs: the connection to the agent's socket under a deadline, over the calls of
-- the system.
pub mod Socket
pub mod Deadline
