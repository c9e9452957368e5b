-- ===== src/Filter/Identities/Strict/Exact.antt =====
-- In strict mode a filter is built from trusted policies, whenever they are as they have to be.
use pam_ssh_agent.Common.{
  ℕ, Bytes, List, ◌++◌, Bool, true, false, sym, Option, none, some, ok, ◌≡◌, ◌⊎◌, ◌↔◌, refl, ap,
}
use pam_ssh_agent.SshKeys.{SshKeys, Identity}
use pam_ssh_agent.Filter.Files.Bounds.{read_strict_file_iff}
use pam_ssh_agent.Filter.Paths.{FileSystem}
use pam_ssh_agent.Filter.Paths.Trusted.{validate_trust_path_iff}
use pam_ssh_agent.Filter.Policy.{PolicyMode, Authorized, parse_policy}
use pam_ssh_agent.Filter.Policy.Strict.{from_str_strict_iff}
use pam_ssh_agent.Filter.Identities.{
  IdentityFilter, Outside, to_str, filter, from, from_file, from_command, authorized_keys_part,
  ca_keys_part, command_part, new_with_mode,
}
use pam_ssh_agent.Filter.Identities.Membership.{IsAuthorized}
use pam_ssh_agent.Filter.Identities.Sources.{filter-joined}
use pam_ssh_agent.Filter.Identities.Strict.{
  IsStrictFile, IsStrictOutput, StrictAuthorities, StrictCommand, new_with_mode-strict,
}

module _ (C : SshKeys) where
  open C use {KeyData}

  IsStrictFile-from_file :
      (fs : FileSystem) (file : Bytes) (ca_keys : Bool) (keys : List (Authorized KeyData))
      → IsStrictFile C fs file ca_keys keys
      → from_file C fs file ca_keys PolicyMode.strict ≡ ok keys
  unfolding from_file parse_policy to_str
  IsStrictFile-from_file fs file ca_keys keys t =
      rw ((read_strict_file_iff fs file 0).1 t.read, t.named)
        ((from_str_strict_iff C t.text ca_keys keys).1 (t.admitted, t.few))

  IsStrictOutput-from_command :
      (s : Outside) (command : Bytes) (uid : ℕ) (user : Bytes) (keys : List (Authorized KeyData))
      → IsStrictOutput C s command uid user keys
      → from_command C s command uid user PolicyMode.strict ≡ ok keys
  unfolding from_command parse_policy to_str
  IsStrictOutput-from_command s command uid user keys t =
      rw ((validate_trust_path_iff s.fs command 0 t.canonical).1 t.trusted, t.named, t.ran)
        ((from_str_strict_iff C t.output false keys).1 (t.admitted, t.few))

  IsStrictFile-authorized_keys_part :
      (fs : FileSystem) (file : Bytes) (keys : List (Authorized KeyData))
      → IsStrictFile C fs file false keys
      → authorized_keys_part C fs file PolicyMode.strict ≡ ok keys
  unfolding authorized_keys_part
  IsStrictFile-authorized_keys_part fs file keys t =
      rw (IsStrictFile-from_file fs file false keys t, authorized_keys_part) refl

  StrictAuthorities-ca_keys_part :
      (fs : FileSystem) (file : Option Bytes) (keys : List (Authorized KeyData))
      → StrictAuthorities C fs file keys
      → ca_keys_part C fs file PolicyMode.strict ≡ ok keys
  unfolding ca_keys_part
  StrictAuthorities-ca_keys_part fs none keys e = ap ok (sym e)
  StrictAuthorities-ca_keys_part fs (some file) keys t = IsStrictFile-from_file fs file true keys t

  StrictCommand-command_part :
      (s : Outside) (command command_user : Option Bytes) (user : Bytes)
      (keys : List (Authorized KeyData))
      → StrictCommand C s command command_user user keys
      → command_part C s command command_user user PolicyMode.strict ≡ ok keys
  unfolding command_part
  StrictCommand-command_part s none command_user user keys e = ap ok (sym e)
  StrictCommand-command_part s (some command) none user keys (uid, known, t) =
      rw known (IsStrictOutput-from_command s command uid user keys t)
  StrictCommand-command_part s (some command) (some other) user keys (uid, known, t) =
      rw known (IsStrictOutput-from_command s command uid user keys t)

  -- What authorizes an identity in strict mode.
  pub record IsStrictlyAuthorized (s : Outside) (file : Bytes)
      (ca_file command command_user : Option Bytes) (user : Bytes)
      (identity : Identity KeyData C.Certificate) : Type 0 where
    pub keys : List (Authorized KeyData)
    pub authorities : List (Authorized KeyData)
    pub commanded : List (Authorized KeyData)
    pub keys_file : IsStrictFile C s.fs file false keys
    pub authorities_file : StrictAuthorities C s.fs ca_file authorities
    pub helper : StrictCommand C s command command_user user commanded
    pub authorized :
        IsAuthorized C keys identity
        ⊎ IsAuthorized C authorities identity
        ⊎ IsAuthorized C commanded identity

  -- In strict mode a filter that accepts an identity is built exactly if the keys file, the file of
  -- authorities and the output of the helper, as far as they are configured, can all be had by the
  -- strict rules (trusted paths, bounded files, at most 1024 entries each, every entry admitted), and
  -- one of them authorizes the identity in its role.
  pub new_with_mode-strict_iff :
      (s : Outside) (file : Bytes) (ca_file command command_user : Option Bytes) (user : Bytes)
      (identity : Identity KeyData C.Certificate)
      → ((f : IdentityFilter KeyData) × (new_with_mode C s file ca_file command command_user user
              PolicyMode.strict
            ≡ ok f)
          × (filter C f identity ≡ true))
        ↔ IsStrictlyAuthorized s file ca_file command command_user user identity
  unfolding new_with_mode
  new_with_mode-strict_iff s file ca_file command command_user user identity = (
    λ (f, built, accepted).
        let (keys, authorities, commanded, keys_file, authorities_file, helper, authorized) =
          new_with_mode-strict C s file ca_file command command_user user built identity accepted in
        record {
          keys = keys;
          authorities = authorities;
          commanded = commanded;
          keys_file = keys_file;
          authorities_file = authorities_file;
          helper = helper;
          authorized = authorized;
        },
    λ t. (
      from C (t.keys ++ (t.authorities ++ t.commanded)) true,
      rw
          (
            IsStrictFile-authorized_keys_part s.fs file t.keys t.keys_file,
            StrictAuthorities-ca_keys_part s.fs ca_file t.authorities t.authorities_file,
            StrictCommand-command_part s command command_user user t.commanded t.helper,
          )
          refl,
      (filter-joined C t.keys t.authorities t.commanded true identity).1 t.authorized,
    ),
  )
