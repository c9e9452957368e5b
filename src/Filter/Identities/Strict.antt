-- ===== src/Filter/Identities/Strict.antt =====
-- Where the keys of a filter come from in strict mode.
pub mod Exact
use pam_ssh_agent.Common.{
  length, ◌≤◌, valid_utf8, ℕ, Bytes, List, [], ◌∷◌, Bool, true, false, Option, none, some, ok,
  ◌>>=◌, ◌≡◌, ◌⊎◌, sym, subst, arith, >>=-eq-ok, ok_injective,
}
use pam_ssh_agent.SshKeys.{SshKeys, Identity}
use pam_ssh_agent.Filter.Files.{read_strict_file}
use pam_ssh_agent.Filter.Files.Bounds.{IsStrictText, read_strict_file_iff}
use pam_ssh_agent.Filter.Paths.{FileSystem, validate_trust_path}
use pam_ssh_agent.Filter.Paths.Trusted.{IsTrustedPath, validate_trust_path_iff}
use pam_ssh_agent.Filter.Policy.{max_policy_entries, PolicyMode, Authorized, parse_policy}
use pam_ssh_agent.Filter.Policy.Strict.{AllAdmitted, from_str_strict_iff}
use pam_ssh_agent.Filter.Identities.{
  IdentityFilter, Outside, max_duration, to_str, filter, from_file, from_command,
  authorized_keys_part, ca_keys_part, command_part, new_with_mode,
}
use pam_ssh_agent.Filter.Identities.Membership.{IsAuthorized}
use pam_ssh_agent.Filter.Identities.Sources.{new_with_mode-ok}

module _ (C : SshKeys) where
  open C use {KeyData}

  -- A list of keys that strict mode takes from a trusted file, item by item.
  pub record IsStrictFile (fs : FileSystem) (file : Bytes) (ca_keys : Bool)
      (keys : List (Authorized KeyData)) : Type 0 where
    pub text : Bytes
    pub read : IsStrictText fs file 0 text
    pub named : valid_utf8 file ≡ true
    pub admitted : AllAdmitted ca_keys (C.authorized_keys text) keys
    pub few : length keys ≤ max_policy_entries

  -- In strict mode keys come from a file that root controls, and from nowhere else.
  from_file-strict :
      (fs : FileSystem) (file : Bytes) (ca_keys : Bool) {keys : List (Authorized KeyData)}
      → from_file C fs file ca_keys PolicyMode.strict ≡ ok keys
      → IsStrictFile fs file ca_keys keys
  unfolding from_file parse_policy to_str
  from_file-strict fs file ca_keys {keys} h =
      let (text, e, k) = >>=-eq-ok (read_strict_file fs file 0) _ h in
      let (_, named, k') = >>=-eq-ok (to_str file) _ k in
      let (admitted, few) = (from_str_strict_iff C text ca_keys keys).0 k' in
      record {
        text = text;
        read = (read_strict_file_iff fs file 0).0 e;
        named = ground arith;
        admitted = admitted;
        few = few;
      }

  -- What strict mode takes from the helper: the output of an executable that root controls, run
  -- for the calling user without descendants.
  pub record IsStrictOutput (s : Outside) (command : Bytes) (uid : ℕ) (user : Bytes)
      (keys : List (Authorized KeyData)) : Type 0 where
    pub canonical : Bytes
    pub trusted : IsTrustedPath s.fs command 0 canonical
    pub named : valid_utf8 canonical ≡ true
    pub output : Bytes
    pub ran : s.run true (canonical ∷ user ∷ []) max_duration uid ≡ ok output
    pub admitted : AllAdmitted false (C.authorized_keys output) keys
    pub few : length keys ≤ max_policy_entries

  from_command-strict :
      (s : Outside) (command : Bytes) (uid : ℕ) (user : Bytes) {keys : List (Authorized KeyData)}
      → from_command C s command uid user PolicyMode.strict ≡ ok keys
      → IsStrictOutput s command uid user keys
  unfolding from_command parse_policy to_str
  from_command-strict s command uid user {keys} h =
      let (canonical, e, k) =
        >>=-eq-ok (do canonical ← validate_trust_path s.fs command 0; to_str canonical) _ h in
      let (resolved, e', k') = >>=-eq-ok (validate_trust_path s.fs command 0) _ e in
      let same : resolved ≡ canonical = ground arith in
      let (output, e'', k'') =
        >>=-eq-ok (s.run true (canonical ∷ user ∷ []) max_duration uid) _ k in
      let (admitted, few) = (from_str_strict_iff C output false keys).0 k'' in
      record {
        canonical = canonical;
        trusted =
            (validate_trust_path_iff s.fs command 0 canonical).0
              (subst (λ d. validate_trust_path s.fs command 0 ≡ ok d) same e');
        named = ground arith;
        output = output;
        ran = e'';
        admitted = admitted;
        few = few;
      }

  authorized_keys_part-strict :
      (fs : FileSystem) (file : Bytes) {keys : List (Authorized KeyData)}
      → authorized_keys_part C fs file PolicyMode.strict ≡ ok keys
      → from_file C fs file false PolicyMode.strict ≡ ok keys
  unfolding authorized_keys_part
  authorized_keys_part-strict fs file h = ground arith

  abbrev pub StrictAuthorities : FileSystem → Option Bytes → List (Authorized KeyData) → Type 0
  StrictAuthorities fs none keys = keys ≡ []
  StrictAuthorities fs (some file) keys = IsStrictFile fs file true keys

  -- The user of the helper: the one that is named, or else the calling user.
  abbrev pub helper_user : Option Bytes → Bytes → Bytes
  helper_user none calling_user = calling_user
  helper_user (some user) calling_user = user

  abbrev pub StrictCommand :
      Outside → Option Bytes → Option Bytes → Bytes → List (Authorized KeyData) → Type 0
  StrictCommand s none command_user user keys = keys ≡ []
  StrictCommand s (some command) command_user user keys =
      (uid : ℕ) × (s.get_uid (helper_user command_user user) ≡ ok uid)
      × IsStrictOutput s command uid user keys

  ca_keys_part-strict :
      (fs : FileSystem) (file : Option Bytes) {keys : List (Authorized KeyData)}
      → ca_keys_part C fs file PolicyMode.strict ≡ ok keys
      → StrictAuthorities fs file keys
  unfolding ca_keys_part
  ca_keys_part-strict fs none h = sym (ok_injective _ _ h)
  ca_keys_part-strict fs (some file) h = from_file-strict fs file true h

  command_part-strict :
      (s : Outside) (command command_user : Option Bytes) (user : Bytes)
      {keys : List (Authorized KeyData)}
      → command_part C s command command_user user PolicyMode.strict ≡ ok keys
      → StrictCommand s command command_user user keys
  unfolding command_part
  command_part-strict s none command_user user h = sym (ok_injective _ _ h)
  command_part-strict s (some command) none user h =
      let (uid, e, k) = >>=-eq-ok (s.get_uid user) _ h in
      (uid, e, from_command-strict s command uid user k)
  command_part-strict s (some command) (some other) user h =
      let (uid, e, k) = >>=-eq-ok (s.get_uid other) _ h in
      (uid, e, from_command-strict s command uid user k)

  -- In strict mode a filter accepts an identity only if a policy that root controls authorizes it:
  -- the keys file, the file of authorities, or the output of the helper. All of these were read
  -- by the strict rules.
  pub new_with_mode-strict :
      (s : Outside) (file : Bytes) (ca_file command command_user : Option Bytes) (user : Bytes)
      {f : IdentityFilter KeyData}
      → new_with_mode C s file ca_file command command_user user PolicyMode.strict ≡ ok f
      → (identity : Identity KeyData C.Certificate) → filter C f identity ≡ true
      → (keys authorities commanded : List (Authorized KeyData)) × IsStrictFile s.fs file false keys
        × StrictAuthorities s.fs ca_file authorities
        × StrictCommand s command command_user user commanded
        × (IsAuthorized C keys identity
            ⊎ IsAuthorized C authorities identity
            ⊎ IsAuthorized C commanded identity)
  new_with_mode-strict s file ca_file command command_user user h identity accepted =
      let (p, _, who) =
        new_with_mode-ok C s file ca_file command command_user user PolicyMode.strict h in
      (
        p.keys,
        p.authorities,
        p.commanded,
        from_file-strict s.fs file false (authorized_keys_part-strict s.fs file p.from_keys),
        ca_keys_part-strict s.fs ca_file p.from_authorities,
        command_part-strict s command command_user user p.from_commanded,
        (who identity).0 accepted,
      )
