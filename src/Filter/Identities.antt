-- ===== src/Filter/Identities.antt =====
-- src/filter.rs: `IdentityFilter`, its constructor and its test. A `HashSet` is the list of its
-- members; log lines are left out.
pub mod Membership
pub mod Sources
pub mod Sets
pub mod Strict
pub mod Built
use pam_ssh_agent.Common.{
  ℕ, Bytes, List, [], ◌∷◌, ◌++◌, Bool, true, false, not, ◌&&◌, ◌||◌, Option, none, some, any,
  if◌then◌else◌, Result, ok, err, Error, io, not_found, ◌>>=◌, ◌>>◌, bail, invalid_path, valid_utf8,
}
use pam_ssh_agent.SshKeys.{SshKeys, Identity, public_key, certificate}
use pam_ssh_agent.Filter.Files.{read_to_string, read_strict_file}
use pam_ssh_agent.Filter.Paths.{FileSystem, validate_trust_path}
use pam_ssh_agent.Filter.Policy.{PolicyMode, Authorized, key, ca_key, parse_policy}

pub record IdentityFilter (K : Type 0) : Type 0 where
  pub keys : List K
  pub ca_keys : List K
  pub strict : Bool

abbrev pub is_strict : PolicyMode → Bool
is_strict PolicyMode.strict = true
is_strict PolicyMode.legacy = false

-- `error.downcast_ref::<io::Error>()` of kind `NotFound`.
abbrev pub is_not_found : Error → Bool
is_not_found (io not_found) = true
is_not_found _ = false

-- What the filter's constructor calls outside of this file: the file system, the user database and
-- `cmd::run`, by whether the child may have descendants, the command line, the timeout in seconds
-- and the user.
pub record Outside : Type 0 where
  pub fs : FileSystem
  pub get_uid : Bytes → Result ℕ
  pub run : Bool → List Bytes → ℕ → ℕ → Result Bytes

-- `MAX_DURATION`, in seconds.
abbrev pub max_duration : ℕ
max_duration = 10

-- `Path::to_str`
unfoldable pub to_str : Bytes → Result Bytes
to_str path = if valid_utf8 path then ok path else bail invalid_path

module _ (C : SshKeys) where
  open C use {KeyData}

  -- `HashSet::contains` and `HashSet::insert`
  unfoldable pub member : KeyData → List KeyData → Bool
  member k set = any (λ other. C.key_eq k other) set

  unfoldable pub insert : KeyData → List KeyData → List KeyData
  insert k set = if member k set then set else k ∷ set

  -- The loop of `from`.
  unfoldable pub collect :
      List (Authorized KeyData) → IdentityFilter KeyData → IdentityFilter KeyData
  collect [] f = f
  collect (key k ∷ rest) f = collect rest (record f { keys = insert k f.keys })
  collect (ca_key k ∷ rest) f = collect rest (record f { ca_keys = insert k f.ca_keys })

  -- `IdentityFilter::from`
  unfoldable pub from : List (Authorized KeyData) → Bool → IdentityFilter KeyData
  from authorized strict = collect authorized (record { keys = []; ca_keys = []; strict = strict })

  unfoldable pub filter : IdentityFilter KeyData → Identity KeyData C.Certificate → Bool
  filter f (public_key k) = member k f.keys
  filter f (certificate cert) = member (C.signature_key cert) f.ca_keys

  unfoldable pub from_file :
      FileSystem → Bytes → Bool → PolicyMode → Result (List (Authorized KeyData))
  from_file fs filename ca_keys mode = do
    contents ← if is_strict mode then read_strict_file fs filename 0 else read_to_string fs filename
    _ ← to_str filename
    parse_policy C contents ca_keys mode

  unfoldable pub from_command :
      Outside → Bytes → ℕ → Bytes → PolicyMode → Result (List (Authorized KeyData))
  from_command s command uid calling_user mode = do
    command' ←
        if is_strict mode
        then (do canonical ← validate_trust_path s.fs command 0; to_str canonical)
        else ok command
    buf ← s.run (is_strict mode) (command' ∷ calling_user ∷ []) max_duration uid
    parse_policy C buf false mode

  -- The first `match` of `new_with_mode`: in legacy mode a missing file has no keys.
  unfoldable pub authorized_keys_part :
      FileSystem → Bytes → PolicyMode → Result (List (Authorized KeyData))
  authorized_keys_part fs file mode = elim (from_file fs file false mode) [
    | ok keys ↦ ok keys
    | err error ↦ if not (is_strict mode) && is_not_found error then ok [] else err error
  ]

  unfoldable pub ca_keys_part :
      FileSystem → Option Bytes → PolicyMode → Result (List (Authorized KeyData))
  ca_keys_part fs none mode = ok []
  ca_keys_part fs (some file) mode = from_file fs file true mode

  unfoldable pub command_part :
      Outside
      → Option Bytes
      → Option Bytes
      → Bytes
      → PolicyMode
      → Result (List (Authorized KeyData))
  command_part s none command_user calling_user mode = ok []
  command_part s (some cmd) command_user calling_user mode = do
    uid ← s.get_uid (elim command_user [ none ↦ calling_user | some user ↦ user ])
    from_command s cmd uid calling_user mode

  unfoldable pub new_with_mode :
      Outside
      → Bytes
      → Option Bytes
      → Option Bytes
      → Option Bytes
      → Bytes
      → PolicyMode
      → Result (IdentityFilter KeyData)
  new_with_mode s authorized_keys_file ca_keys_file command command_user calling_user mode = do
    keys ← authorized_keys_part s.fs authorized_keys_file mode
    authorities ← ca_keys_part s.fs ca_keys_file mode
    commanded ← command_part s command command_user calling_user mode
    ok (from (keys ++ (authorities ++ commanded)) (is_strict mode))

  -- `IdentityFilter::new` and `IdentityFilter::new_strict`
  abbrev pub new :
      Outside
      → Bytes
      → Option Bytes
      → Option Bytes
      → Option Bytes
      → Bytes
      → Result (IdentityFilter KeyData)
  new s authorized_keys_file ca_keys_file command command_user calling_user =
      new_with_mode s authorized_keys_file ca_keys_file command command_user calling_user
        PolicyMode.legacy

  unfoldable pub new_strict :
      Outside
      → Bytes
      → Option Bytes
      → Option Bytes
      → Option Bytes
      → Bytes
      → Result (IdentityFilter KeyData)
  new_strict s authorized_keys_file ca_keys_file command command_user calling_user =
      new_with_mode s authorized_keys_file ca_keys_file command command_user calling_user
        PolicyMode.strict

  -- `IdentityFilter::from_authorized_file`
  abbrev from_authorized_file : Outside → Bytes → Result (IdentityFilter KeyData)
  from_authorized_file s authorized_keys_file = new s authorized_keys_file none none none []
