-- ===== src/Args/Settings.antt =====
-- A description of `Args::parse` in two phases: what each argument says by itself, and, for each
-- field, the last argument that says something about it.
pub mod Last
use pam_ssh_agent.Common.{
  ℕ, Bytes, codes, bytes_eq, List, [], ◌∷◌, Bool, true, false, not, ◌||◌, Option, none, some, any,
  if◌then◌else◌, contains, strip_prefix, split_once, Result, ok, ◌>>=◌, ◌>>◌, bail, could_not_split,
  unknown_parameter, from_utf8,
}
use pam_ssh_agent.Environment.{Environment, PamHandleExt}
use pam_ssh_agent.Expansions.{expand_vars}
use pam_ssh_agent.Args.{
  Args, Locals, default_authorized_keys_path, parse_timeout, validate_trust_source_argument,
}

-- The fields that hold a text.
pub data TextField : Type 0 where
  file_field default_ssh_auth_sock_field ca_keys_file_field : TextField
  authorized_keys_command_field authorized_keys_command_user_field : TextField

-- What an argument says.
pub data Setting : Type 0 where
  debug_on strict_on shortcut_on : Setting
  text : TextField → Bytes → Setting
  timeout : ℕ → Setting

-- With it, whether an argument that begins with `file=`, as it is written, has `%u` behind that.
pub record Reading : Type 0 where
  pub per_user : Option Bool
  pub setting : Setting

pub read_parameter : Bytes → Bytes → Result Setting
read_parameter key value =
    if bytes_eq key (codes "file")
    then ok (text file_field value)
    else if bytes_eq key (codes "default_ssh_auth_sock")
    then ok (text default_ssh_auth_sock_field value)
    else if bytes_eq key (codes "ca_keys_file")
    then ok (text ca_keys_file_field value)
    else if bytes_eq key (codes "authorized_keys_command")
    then ok (text authorized_keys_command_field value)
    else if bytes_eq key (codes "authorized_keys_command_user")
    then ok (text authorized_keys_command_user_field value)
    else if bytes_eq key (codes "agent_timeout")
    then (do seconds ← parse_timeout value; ok (timeout seconds))
    else bail (unknown_parameter key)

pub read_expanded : Bytes → Result Setting
read_expanded expanded = elim (split_once expanded b'=') [
  | none ↦ bail (could_not_split expanded)
  | some (key, value) ↦ read_parameter key value
]

pub read_per_user : Bytes → Option Bool
read_per_user argument = elim (strip_prefix argument (codes "file=")) [
  | none ↦ none
  | some value ↦ some (contains value (codes "%u"))
]

module _ (strict : Bool) (env : Environment) (handle : PamHandleExt) where
  pub read_assignment : Bytes → Result Reading
  read_assignment argument = do
    if strict then validate_trust_source_argument argument else ok tt
    expanded ← expand_vars argument env handle
    setting ← read_expanded expanded
    ok (record { per_user = read_per_user argument; setting = setting })

  pub read_argument : Bytes → Result Reading
  read_argument argument =
      if bytes_eq argument (codes "debug")
      then ok (record { per_user = none; setting = debug_on })
      else if bytes_eq argument (codes "strict")
      then ok (record { per_user = none; setting = strict_on })
      else if bytes_eq argument (codes "sshd_shortcut")
      then ok (record { per_user = none; setting = shortcut_on })
      else read_assignment argument

  -- The arguments one by one, up to the first that cannot be read.
  pub read_arguments : List Bytes → Result (List Reading)
  read_arguments [] = ok []
  read_arguments (bytes ∷ rest) = do
    argument ← from_utf8 bytes
    reading ← read_argument argument
    others ← read_arguments rest
    ok (reading ∷ others)

-- The last of the readings that says something.
abbrev pub last_of : {A : Type 0} → (Reading → Option A) → List Reading → Option A
last_of says [] = none
last_of says (r ∷ rest) = elim (last_of says rest) [ some a ↦ some a | none ↦ says r ]

abbrev pub or_default : {A : Type 0} → Option A → A → A
or_default none a = a
or_default (some b) a = b

abbrev pub or_before : {A : Type 0} → Option A → Option A → Option A
or_before none before = before
or_before (some b) before = some b

abbrev pub same_field : TextField → TextField → Bool
same_field file_field file_field = true
same_field default_ssh_auth_sock_field default_ssh_auth_sock_field = true
same_field ca_keys_file_field ca_keys_file_field = true
same_field authorized_keys_command_field authorized_keys_command_field = true
same_field authorized_keys_command_user_field authorized_keys_command_user_field = true
same_field _ _ = false

abbrev pub text_of : TextField → Reading → Option Bytes
text_of field r = elim r.setting [
  | text other value ↦ if same_field field other then some value else none
  | debug_on ↦ none
  | strict_on ↦ none
  | shortcut_on ↦ none
  | timeout _ ↦ none
]

abbrev pub timeout_of : Reading → Option ℕ
timeout_of r = elim r.setting [
  | timeout seconds ↦ some seconds
  | debug_on ↦ none
  | strict_on ↦ none
  | shortcut_on ↦ none
  | text _ _ ↦ none
]

abbrev pub is_debug : Reading → Bool
is_debug r = elim r.setting [
  | debug_on ↦ true
  | strict_on ↦ false
  | shortcut_on ↦ false
  | text _ _ ↦ false
  | timeout _ ↦ false
]

abbrev pub is_shortcut : Reading → Bool
is_shortcut r = elim r.setting [
  | shortcut_on ↦ true
  | debug_on ↦ false
  | strict_on ↦ false
  | text _ _ ↦ false
  | timeout _ ↦ false
]

-- The locals behind some readings, from the locals before them.
pub chosen : Locals → List Reading → Locals
chosen l readings = record {
  args = record {
    debug = any is_debug readings || l.debug;
    file = or_default (last_of (text_of file_field) readings) l.file;
    default_ssh_auth_sock =
        or_before (last_of (text_of default_ssh_auth_sock_field) readings) l.default_ssh_auth_sock;
    ca_keys_file = or_before (last_of (text_of ca_keys_file_field) readings) l.ca_keys_file;
    authorized_keys_command =
        or_before (last_of (text_of authorized_keys_command_field) readings)
          l.authorized_keys_command;
    authorized_keys_command_user =
        or_before (last_of (text_of authorized_keys_command_user_field) readings)
          l.authorized_keys_command_user;
    strict = l.strict;
    sshd_shortcut = any is_shortcut readings || l.sshd_shortcut;
    agent_timeout = or_before (last_of timeout_of readings) l.agent_timeout;
  };
  file_is_per_user = or_default (last_of (λ r. r.per_user) readings) l.file_is_per_user;
}
