-- ===== src/Args.antt =====
-- src/args.rs: `Args::parse` over the module's arguments, and `validate_trust_source_argument`.
-- The mutable locals of `parse` are one record; each round of its loop is a step on it.
pub mod Loop
pub mod Settings
pub mod Outcome
pub mod Profile
pub mod Trust
use pam_ssh_agent.Common.{
  ℕ, Bytes, codes, bytes_eq, List, [], ◌∷◌, Bool, true, false, not, ◌&&◌, ◌||◌, Option, none, some,
  ◌==◌, leb, any, if◌then◌else◌, is_some, strip_prefix, contains, starts_with, split_once, Result,
  ok, err, ◌>>=◌, ◌>>◌, bail, could_not_split, unknown_parameter, home_expanded,
  timeout_out_of_range, file_not_per_user, relative_helper, expanded_helper, from_utf8, parse_u64,
}
use pam_ssh_agent.Environment.{Environment, PamHandleExt}
use pam_ssh_agent.Expansions.{expand_vars}

abbrev pub default_authorized_keys_path : Bytes
default_authorized_keys_path = codes "/etc/security/authorized_keys"

-- Durations are whole seconds.
pub record Args : Type 0 where
  pub debug : Bool
  pub file : Bytes
  pub default_ssh_auth_sock : Option Bytes
  pub ca_keys_file : Option Bytes
  pub authorized_keys_command : Option Bytes
  pub authorized_keys_command_user : Option Bytes
  pub strict : Bool
  pub sshd_shortcut : Bool
  pub agent_timeout : Option ℕ

-- `Args::default`
abbrev pub default_args : Args
default_args = record {
  debug = false;
  file = default_authorized_keys_path;
  default_ssh_auth_sock = none;
  ca_keys_file = none;
  authorized_keys_command = none;
  authorized_keys_command_user = none;
  strict = false;
  sshd_shortcut = true;
  agent_timeout = none;
}

-- The locals of `parse`: the fields of the result, and `file_is_per_user`.
pub record Locals : Type 0 where
  pub args : Args
  pub open args use *
  pub file_is_per_user : Bool

abbrev pub is_trust_source : Bytes → Bool
is_trust_source key =
    bytes_eq key (codes "file")
    || bytes_eq key (codes "ca_keys_file")
    || bytes_eq key (codes "authorized_keys_command")

unfoldable pub check_trust_source : Bytes → Bytes → Result (Unit {0})
check_trust_source key value =
    if not (is_trust_source key)
    then ok tt
    else if contains value (codes "~") || contains value (codes "%h")
    then bail (home_expanded key)
    else if bytes_eq key (codes "authorized_keys_command")
        && any (λ pattern. contains value pattern)
            (codes "%u" ∷ codes "%U" ∷ codes "%H" ∷ codes "%f" ∷ [])
    then bail expanded_helper
    else ok tt

unfoldable pub validate_trust_source_argument : Bytes → Result (Unit {0})
validate_trust_source_argument argument = elim (split_once argument b'=') [
  | none ↦ ok tt
  | some (key, value) ↦ check_trust_source key value
]

-- `agent_timeout=`
unfoldable pub parse_timeout : Bytes → Result ℕ
parse_timeout value = do
  seconds ← parse_u64 value
  if leb 1 seconds && leb seconds 300 then ok seconds else bail timeout_out_of_range

-- The inner `match key`.
unfoldable pub set_parameter : Bytes → Bytes → Args → Result Args
set_parameter key value a =
    if bytes_eq key (codes "file")
    then ok (record a { file = value })
    else if bytes_eq key (codes "default_ssh_auth_sock")
    then ok (record a { default_ssh_auth_sock = some value })
    else if bytes_eq key (codes "ca_keys_file")
    then ok (record a { ca_keys_file = some value })
    else if bytes_eq key (codes "authorized_keys_command")
    then ok (record a { authorized_keys_command = some value })
    else if bytes_eq key (codes "authorized_keys_command_user")
    then ok (record a { authorized_keys_command_user = some value })
    else if bytes_eq key (codes "agent_timeout")
    then (do seconds ← parse_timeout value; ok (record a { agent_timeout = some seconds }))
    else bail (unknown_parameter key)

-- `file_is_per_user` follows the last argument that begins with `file=`, before expansion.
unfoldable pub note_per_user : Bytes → Bool → Bool
note_per_user argument before = elim (strip_prefix argument (codes "file=")) [
  | none ↦ before
  | some value ↦ contains value (codes "%u")
]

module _ (env : Environment) (handle : PamHandleExt) where
  -- The part of the loop's body from the expansion on.
  unfoldable pub expand_and_set : Bytes → Args → Result Args
  expand_and_set argument a = do
    expanded ← expand_vars argument env handle
    elim (split_once expanded b'=') [
      | none ↦ bail (could_not_split expanded)
      | some (key, value) ↦ set_parameter key value a
    ]

  -- The arm `any` of the outer `match`.
  unfoldable pub assign : Bytes → Locals → Result Locals
  assign argument l = do
    if l.strict then validate_trust_source_argument argument else ok tt
    a ← expand_and_set argument l.args
    ok (record { args = a; file_is_per_user = note_per_user argument l.file_is_per_user })

  -- The outer `match`.
  unfoldable pub interpret : Bytes → Locals → Result Locals
  interpret argument l =
      if bytes_eq argument (codes "debug")
      then ok (record l { args = record l.args { debug = true } })
      else if bytes_eq argument (codes "strict")
      then ok l
      else if bytes_eq argument (codes "sshd_shortcut")
      then ok (record l { args = record l.args { sshd_shortcut = true } })
      else assign argument l

  -- One round of the loop.
  unfoldable pub step : Bytes → Locals → Result Locals
  step bytes l = do argument ← from_utf8 bytes; interpret argument l

  unfoldable pub parse_loop : List Bytes → Locals → Result Locals
  parse_loop [] l = ok l
  parse_loop (argument ∷ rest) l = do l' ← step argument l; parse_loop rest l'

-- `Path::is_absolute`
abbrev pub is_absolute : Bytes → Bool
is_absolute path = starts_with path (codes "/")

-- The tests behind the loop.
unfoldable pub check_strict : Locals → Result Args
check_strict l =
    if l.strict && not l.file_is_per_user
    then bail file_not_per_user
    else elim l.authorized_keys_command [
      | none ↦ ok l.args
      | some command ↦
          if l.strict && not (is_absolute command) then bail relative_helper else ok l.args
    ]

abbrev pub strict_flag : List Bytes → Bool
strict_flag args = any (λ arg. bytes_eq arg (codes "strict")) args

-- The locals before the loop.
abbrev pub initial : Bool → Locals
initial strict = record {
  args = record default_args {
    strict = strict;
    sshd_shortcut = not strict;
    agent_timeout = if strict then some 30 else none;
  };
  file_is_per_user = false;
}

unfoldable pub parse : List Bytes → Environment → PamHandleExt → Result Args
parse args env handle = do
  l ← parse_loop env handle args (initial (strict_flag args))
  check_strict l
