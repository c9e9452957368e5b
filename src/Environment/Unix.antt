-- ===== src/Environment/Unix.antt =====
-- src/environment.rs: `UnixEnvironment`, over the user database, `gethostname(3)` and the process
-- environment. src/pamext.rs: the items of a PAM handle.
use pam_ssh_agent.Common.{
  ℕ, Bytes, [], ◌∷◌, Option, none, some, ◌==◌, if◌then◌else◌, Result, ok, err, ◌>>=◌, ok_or,
  unknown_user, no_hostname, missing_item, from_utf8,
}
use pam_ssh_agent.Environment.{Environment}

-- What the program reads of a `uzers::User`.
pub record User : Type 0 where
  pub name : Bytes
  pub uid : ℕ
  pub home_dir : Bytes

pub record Host : Type 0 where
  pub get_user_by_name : Bytes → Option User
  pub hostname : Option Bytes
  pub env_var : Bytes → Option Bytes
  -- What the standard library makes of a text that is not UTF-8.
  pub replace_invalid : Bytes → Bytes

-- `to_string_lossy`: a text that is UTF-8 stays as it is.
unfoldable pub to_string_lossy : Host → Bytes → Bytes
to_string_lossy host s = elim (from_utf8 s) [ ok text ↦ text | err _ ↦ host.replace_invalid s ]

-- The text before the first `.`: `hostname.split('.').next()`.
abbrev first_label : Bytes → Bytes
first_label [] = []
first_label (c ∷ s) = if c == b'.' then [] else c ∷ first_label s

unfoldable pub get_hostname : Host → Result Bytes
get_hostname host = do name ← ok_or host.hostname no_hostname; ok (to_string_lossy host name)

unfoldable pub get_uid : Host → Bytes → Result ℕ
get_uid host name = do user ← ok_or (host.get_user_by_name name) unknown_user; ok user.uid

pub get_homedir : Host → Bytes → Result Bytes
get_homedir host name = do
  user ← ok_or (host.get_user_by_name name) unknown_user
  ok (to_string_lossy host user.home_dir)

pub get_env : Host → Bytes → Option Bytes
get_env host name = elim (host.env_var name) [
  | none ↦ none
  | some value ↦ elim (from_utf8 value) [ ok text ↦ some text | err _ ↦ none ]
]

unfoldable pub unix_environment : Host → Environment
unfolding get_hostname get_uid get_homedir get_env
unix_environment host = record {
  get_homedir = get_homedir host;
  get_hostname = (do name ← get_hostname host; ok (first_label name));
  get_fqdn = get_hostname host;
  get_uid = get_uid host;
  get_env = get_env host;
}

-- `get_item!`: an item that is set, as UTF-8.
abbrev get_item : Result (Option Bytes) → Result Bytes
get_item item = do found ← item; bytes ← ok_or found missing_item; from_utf8 bytes
