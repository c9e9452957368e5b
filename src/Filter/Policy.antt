-- ===== src/Filter/Policy.antt =====
-- src/filter.rs: `parse_policy` and `from_str_strict`, over the items that ssh-key's
-- `AuthorizedKeys` reads from a text. The name of the source (`what`) is for messages only.
pub mod Strict
use pam_ssh_agent.Common.{
  ℕ, Bytes, codes, bytes_eq, List, [], ◌∷◌, ◌++◌, Bool, true, false, not, ◌&&◌, ◌||◌, leb, any,
  is_empty, if◌then◌else◌, length, Result, ok, err, ◌>>=◌, ◌>>◌, bail, malformed_entry,
  unsupported_options, too_many_entries,
}
use pam_ssh_agent.SshKeys.{SshKeys, Entry}

pub data PolicyMode : Type 0 where
  legacy strict : PolicyMode

pub data Authorized (K : Type 0) : Type 0 where
  key : K → Authorized K
  ca_key : K → Authorized K

abbrev pub max_policy_entries : ℕ
max_policy_entries = 1024

-- `options.as_slice() == ["cert-authority"]`
unfoldable pub only_cert_authority : List Bytes → Bool
only_cert_authority (option ∷ []) = bytes_eq option (codes "cert-authority")
only_cert_authority _ = false

-- `options.any(|o| o == "cert-authority")`
unfoldable pub has_cert_authority : List Bytes → Bool
has_cert_authority options = any (λ option. bytes_eq option (codes "cert-authority")) options

module _ {K : Type 0} where
  -- `entry.map_err(…)`
  unfoldable pub parsed : Result (Entry K) → Result (Entry K)
  parsed (ok entry) = ok entry
  parsed (err _) = bail malformed_entry

  -- One round of the loop of `from_str_strict`.
  unfoldable pub admit :
      Bool → Result (Entry K) → List (Authorized K) → Result (List (Authorized K))
  admit ca_keys item authorized = do
    entry ← parsed item
    let options = entry.config_opts
    let is_ca = ca_keys || only_cert_authority options
    if (not is_ca && not (is_empty options))
          || (is_ca && (not (is_empty options) && not (only_cert_authority options)))
        then bail unsupported_options
        else if leb max_policy_entries (length authorized)
        then bail too_many_entries
        else ok (authorized ++ (if is_ca then ca_key entry.key_data else key entry.key_data) ∷ [])

  unfoldable pub strict_loop :
      Bool → List (Result (Entry K)) → List (Authorized K) → Result (List (Authorized K))
  strict_loop ca_keys [] authorized = ok authorized
  strict_loop ca_keys (item ∷ rest) authorized = do
    authorized' ← admit ca_keys item authorized
    strict_loop ca_keys rest authorized'

  -- The closure of the lenient `filter_map`.
  unfoldable pub classify : Bool → Entry K → Authorized K
  classify ca_keys entry =
      if not ca_keys && not (has_cert_authority entry.config_opts)
      then key entry.key_data
      else ca_key entry.key_data

  unfoldable pub lenient : Bool → List (Result (Entry K)) → List (Authorized K)
  lenient ca_keys [] = []
  lenient ca_keys (ok entry ∷ rest) = classify ca_keys entry ∷ lenient ca_keys rest
  lenient ca_keys (err _ ∷ rest) = lenient ca_keys rest

module _ (C : SshKeys) where
  unfoldable pub from_str_strict : Bytes → Bool → Result (List (Authorized C.KeyData))
  from_str_strict buf ca_keys = strict_loop ca_keys (C.authorized_keys buf) []

  unfoldable pub parse_policy : Bytes → Bool → PolicyMode → Result (List (Authorized C.KeyData))
  parse_policy buf ca_keys PolicyMode.strict = from_str_strict buf ca_keys
  parse_policy buf ca_keys PolicyMode.legacy = ok (lenient ca_keys (C.authorized_keys buf))
