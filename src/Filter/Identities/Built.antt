-- ===== src/Filter/Identities/Built.antt =====
-- When a filter that accepts an identity is built, in both modes.
use pam_ssh_agent.Common.{
  ℕ, Bytes, List, [], ◌++◌, true, false, not, Option, none, some, ok, err, Error, io, not_found,
  >>=-eq-ok, ◌≡◌, ◌↔◌, ◌⊎◌, inl, inr, refl, sym, ap, arith, ok_injective, Result-cases,
}
use pam_ssh_agent.SshKeys.{SshKeys, Identity}
use pam_ssh_agent.Filter.Paths.{FileSystem}
use pam_ssh_agent.Filter.Policy.{PolicyMode, Authorized}
use pam_ssh_agent.Filter.Identities.{
  IdentityFilter, Outside, is_strict, is_not_found, from, filter, from_file, from_command,
  authorized_keys_part, ca_keys_part, command_part, new_with_mode,
}
use pam_ssh_agent.Filter.Identities.Membership.{IsAuthorized}
use pam_ssh_agent.Filter.Identities.Sources.{
  filter-joined, new_with_mode-ok, authorized_keys_part-err,
}
use pam_ssh_agent.Filter.Identities.Strict.{helper_user}

is_not_found_iff : (e : Error) → (is_not_found e ≡ true) ↔ (e ≡ io not_found)
is_not_found_iff (io not_found) = (λ _. refl, λ _. refl)
is_not_found_iff (io kind) = (λ h. cc, λ h. cc)
is_not_found_iff e = (λ h. cc, λ h. cc)

legacy_iff : (mode : PolicyMode) → (not (is_strict mode) ≡ true) ↔ (mode ≡ PolicyMode.legacy)
legacy_iff PolicyMode.legacy = (λ _. refl, λ _. refl)
legacy_iff PolicyMode.strict = (λ h. cc, λ h. cc)

module _ (C : SshKeys) where
  open C use {KeyData}

  -- What the keys file yields: its keys, or none where legacy mode finds no such file.
  abbrev pub HasKeys : FileSystem → Bytes → PolicyMode → List (Authorized KeyData) → Type 0
  HasKeys fs file mode keys =
      (from_file C fs file false mode ≡ ok keys)
      ⊎ ((mode ≡ PolicyMode.legacy)
          × (from_file C fs file false mode ≡ err (io not_found))
          × (keys ≡ []))

  abbrev pub HasAuthorities :
      FileSystem → Option Bytes → PolicyMode → List (Authorized KeyData) → Type 0
  HasAuthorities fs none mode keys = keys ≡ []
  HasAuthorities fs (some file) mode keys = from_file C fs file true mode ≡ ok keys

  abbrev pub HasOutput :
      Outside
      → Option Bytes
      → Option Bytes
      → Bytes
      → PolicyMode
      → List (Authorized KeyData)
      → Type 0
  HasOutput s none command_user user mode keys = keys ≡ []
  HasOutput s (some command) command_user user mode keys =
      (uid : ℕ) × (s.get_uid (helper_user C command_user user) ≡ ok uid)
      × (from_command C s command uid user mode ≡ ok keys)

  authorized_keys_part_iff :
      (fs : FileSystem) (file : Bytes) (mode : PolicyMode) (keys : List (Authorized KeyData))
      → (authorized_keys_part C fs file mode ≡ ok keys) ↔ HasKeys fs file mode keys
  unfolding authorized_keys_part
  authorized_keys_part_iff fs file mode keys =
      elim (Result-cases (from_file C fs file false mode)) [
        | inl (found, e) ↦ rw (e, authorized_keys_part) (ground arith)
        | inr (error, e) ↦
            rw (authorized_keys_part-err C fs file mode e, e)
              (ground (arith, is_not_found_iff error, legacy_iff mode))
      ]

  ca_keys_part_iff :
      (fs : FileSystem) (file : Option Bytes) (mode : PolicyMode) (keys : List (Authorized KeyData))
      → (ca_keys_part C fs file mode ≡ ok keys) ↔ HasAuthorities fs file mode keys
  unfolding ca_keys_part
  ca_keys_part_iff fs none mode keys = (λ h. sym (ok_injective _ _ h), λ e. ap ok (sym e))
  ca_keys_part_iff fs (some file) mode keys = (λ h. h, λ h. h)

  command_part_iff :
      (s : Outside) (command command_user : Option Bytes) (user : Bytes) (mode : PolicyMode)
      (keys : List (Authorized KeyData))
      → (command_part C s command command_user user mode ≡ ok keys)
        ↔ HasOutput s command command_user user mode keys
  unfolding command_part
  command_part_iff s none command_user user mode keys =
      (λ h. sym (ok_injective _ _ h), λ e. ap ok (sym e))
  command_part_iff s (some command) none user mode keys =
      (λ h. >>=-eq-ok (s.get_uid user) _ h, λ (uid, known, ran). rw known ran)
  command_part_iff s (some command) (some other) user mode keys =
      (λ h. >>=-eq-ok (s.get_uid other) _ h, λ (uid, known, ran). rw known ran)

  -- The three sources, of which one authorizes an identity.
  pub record IsAuthorizedBy (s : Outside) (file : Bytes)
      (ca_file command command_user : Option Bytes) (user : Bytes) (mode : PolicyMode)
      (identity : Identity KeyData C.Certificate) : Type 0 where
    pub keys : List (Authorized KeyData)
    pub authorities : List (Authorized KeyData)
    pub commanded : List (Authorized KeyData)
    pub has_keys : HasKeys s.fs file mode keys
    pub has_authorities : HasAuthorities s.fs ca_file mode authorities
    pub has_output : HasOutput s command command_user user mode commanded
    pub authorized :
        IsAuthorized C keys identity
        ⊎ IsAuthorized C authorities identity
        ⊎ IsAuthorized C commanded identity

  -- A filter that accepts an identity is built exactly if the keys file is read in the mode, or, in
  -- legacy mode and in no other, the reading fails because the file does not exist, which stands for
  -- no keys; the file of authorities and the output of the helper are read where they are configured,
  -- the latter for the uid of the helper's user; and one of the three authorizes the identity in its
  -- role. So every other failure to read a source leaves no filter.
  pub new_with_mode_iff :
      (s : Outside) (file : Bytes) (ca_file command command_user : Option Bytes) (user : Bytes)
      (mode : PolicyMode) (identity : Identity KeyData C.Certificate)
      → ((f : IdentityFilter KeyData) × (new_with_mode C s file ca_file command command_user user
              mode
            ≡ ok f)
          × (filter C f identity ≡ true))
        ↔ IsAuthorizedBy s file ca_file command command_user user mode identity
  unfolding new_with_mode
  new_with_mode_iff s file ca_file command command_user user mode identity = (
    λ (f, built, accepted).
        let (p, _, who) =
          new_with_mode-ok C s file ca_file command command_user user mode {f = f} built in
        record {
          keys = p.keys;
          authorities = p.authorities;
          commanded = p.commanded;
          has_keys = (authorized_keys_part_iff s.fs file mode p.keys).0 p.from_keys;
          has_authorities = (ca_keys_part_iff s.fs ca_file mode p.authorities).0 p.from_authorities;
          has_output =
              (command_part_iff s command command_user user mode p.commanded).0 p.from_commanded;
          authorized = (who identity).0 accepted;
        },
    λ t. (
      from C (t.keys ++ (t.authorities ++ t.commanded)) (is_strict mode),
      rw
          (
            (authorized_keys_part_iff s.fs file mode t.keys).1 t.has_keys,
            (ca_keys_part_iff s.fs ca_file mode t.authorities).1 t.has_authorities,
            (command_part_iff s command command_user user mode t.commanded).1 t.has_output,
          )
          refl,
      (filter-joined C t.keys t.authorities t.commanded (is_strict mode) identity).1 t.authorized,
    ),
  )
