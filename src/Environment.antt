-- ===== src/Environment.antt =====
-- src/environment.rs and the trait of src/pamext.rs: what the program asks of its surroundings.
pub mod Unix
use pam_ssh_agent.Common.{ℕ, Bytes, Option, Result}

-- The trait `Environment`.
pub record Environment : Type 0 where
  pub get_homedir : Bytes → Result Bytes
  pub get_hostname : Result Bytes
  pub get_fqdn : Result Bytes
  pub get_uid : Bytes → Result ℕ
  pub get_env : Bytes → Option Bytes

-- The trait `PamHandleExt`.
pub record PamHandleExt : Type 0 where
  pub get_calling_user : Result Bytes
  pub get_service : Result Bytes
