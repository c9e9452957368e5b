-- ===== src/Examples/Policies.antt =====
-- Policies: the keys of a caller read by both modes, and the theorems at them.
use pam_ssh_agent.Common.{
  inr, ℕ, ◌≤◌, codes, bytes_eq, List, [], ◌∷◌, true, false, ◌⊎◌, ◌↔◌, none, some, any, length,
  arith, ok, err, io, not_found, bail, path_not_normalized, malformed_entry, strip_prefix,
  from_utf8, ◌≡◌, refl,
}
use pam_ssh_agent.SshKeys.{Identity, public_key}
use pam_ssh_agent.Filter.Paths.{
  Reader, split_slash, body, components, needs_separator, push, validate_mode, is_dotted,
  validate_prefix, validate_loop, validate_components, resolve_trust_path, validate_trust_path,
  extend,
}
use pam_ssh_agent.Filter.Paths.Components.{is_dotted_absolute}
use pam_ssh_agent.Filter.Paths.Trusted.{IsTrustedPath, validate_trust_path_iff}
use pam_ssh_agent.Filter.Files.{read_at_most, read_bounded, read_to_string, read_strict_file}
use pam_ssh_agent.Filter.Files.Bounds.{IsStrictText, read_strict_file_iff}
use pam_ssh_agent.Filter.Policy.{
  PolicyMode, Authorized, key, ca_key, max_policy_entries, only_cert_authority, has_cert_authority,
  parsed, admit, strict_loop, classify, lenient, from_str_strict, parse_policy,
}
use pam_ssh_agent.Filter.Policy.Strict.{AllAdmitted, from_str_strict_iff, parse_policy-legacy}
use pam_ssh_agent.Filter.Identities.{
  IdentityFilter, to_str, member, insert, collect, from, filter, from_file, from_command,
  authorized_keys_part, ca_keys_part, command_part, new_with_mode,
}
use pam_ssh_agent.Filter.Identities.Membership.{IsAuthorized}
use pam_ssh_agent.Filter.Identities.Sets.{view, accepts, include_all, nobody, from_without_order}
use pam_ssh_agent.Filter.Identities.Built.{HasKeys, IsAuthorizedBy, new_with_mode_iff}
use pam_ssh_agent.Filter.Identities.Sources.{Parts, new_with_mode-ok}
use pam_ssh_agent.Filter.Identities.Strict.Exact.{IsStrictlyAuthorized, new_with_mode-strict_iff}
use pam_ssh_agent.Examples.Setting.{samples, files_with, sample_outside, SampleCertificate}

is_dotted_absolute_example :
    any is_dotted (components (codes "/etc/../k"))
    ≡ any (λ segment. bytes_eq segment (codes "..")) (split_slash (codes "etc/../k"))
is_dotted_absolute_example = is_dotted_absolute (codes "etc/../k")

validate_trust_path_iff_example :
    (validate_trust_path (files_with (codes "aB")) (codes "/etc/k") 0 ≡ ok (codes "/etc/k"))
    ↔ IsTrustedPath (files_with (codes "aB")) (codes "/etc/k") 0 (codes "/etc/k")
validate_trust_path_iff_example =
    validate_trust_path_iff (files_with (codes "aB")) (codes "/etc/k") 0 (codes "/etc/k")

trusted : validate_trust_path (files_with (codes "aB")) (codes "/etc/k") 0 ≡ ok (codes "/etc/k")
unfolding validate_trust_path resolve_trust_path validate_components validate_loop validate_prefix
    validate_mode components body split_slash extend push needs_separator is_dotted strip_prefix
    bytes_eq
trusted = refl

dotted_refused :
    validate_trust_path (files_with (codes "aB")) (codes "/etc/../k") 0 ≡ bail path_not_normalized
unfolding validate_trust_path components body split_slash extend is_dotted strip_prefix bytes_eq
dotted_refused = refl

-- A `.` segment is no component.
dot_accepted :
    validate_trust_path (files_with (codes "aB")) (codes "/etc/./k") 0 ≡ ok (codes "/etc/./k")
unfolding validate_trust_path resolve_trust_path validate_components validate_loop validate_prefix
    validate_mode components body split_slash extend push needs_separator is_dotted strip_prefix
    bytes_eq
dot_accepted = refl

abbrev short : Reader
short = record { contents = codes "aB"; ending = ok tt }

read_short : read_bounded short ≡ ok (codes "aB")
unfolding read_bounded read_at_most from_utf8
read_short = refl

read_strict : read_strict_file (files_with (codes "aB")) (codes "/etc/k") 0 ≡ ok (codes "aB")
unfolding read_strict_file read_bounded read_at_most from_utf8
read_strict = rw trusted refl

read_strict_file_iff_example :
    (read_strict_file (files_with (codes "aB")) (codes "/etc/k") 0 ≡ ok (codes "aB"))
    ↔ IsStrictText (files_with (codes "aB")) (codes "/etc/k") 0 (codes "aB")
read_strict_file_iff_example =
    read_strict_file_iff (files_with (codes "aB")) (codes "/etc/k") 0 {text = codes "aB"}

from_str_strict_iff_example :
    (from_str_strict samples (codes "aB") false ≡ ok (key b'a' ∷ ca_key b'B' ∷ [])) ↔ (
      AllAdmitted false (samples.authorized_keys (codes "aB")) (key b'a' ∷ ca_key b'B' ∷ [])
      × (length {A = Authorized ℕ} (key b'a' ∷ ca_key b'B' ∷ []) ≤ max_policy_entries))
from_str_strict_iff_example =
    from_str_strict_iff samples (codes "aB") false (key b'a' ∷ ca_key b'B' ∷ [])

strict_parsed :
    parse_policy samples (codes "aB") false PolicyMode.strict ≡ ok (key b'a' ∷ ca_key b'B' ∷ [])
unfolding parse_policy from_str_strict strict_loop admit parsed only_cert_authority bytes_eq
strict_parsed = refl

-- Strict mode refuses what the lenient reading passes over.
malformed_refused :
    (parse_policy samples (codes "a!") false PolicyMode.strict ≡ bail malformed_entry)
    × (parse_policy samples (codes "a!") false PolicyMode.legacy ≡ ok (key b'a' ∷ []))
unfolding parse_policy from_str_strict strict_loop admit parsed only_cert_authority lenient classify
    has_cert_authority bytes_eq
malformed_refused = (refl, refl)

parse_policy-legacy_example :
    parse_policy samples (codes "aB") false PolicyMode.legacy ≡ ok (key b'a' ∷ ca_key b'B' ∷ [])
parse_policy-legacy_example =
    parse_policy-legacy samples (codes "aB") false (key b'a' ∷ ca_key b'B' ∷ []) strict_parsed

abbrev twice : List (Authorized ℕ)
twice = key b'a' ∷ ca_key b'B' ∷ key b'a' ∷ []

abbrev once : List (Authorized ℕ)
once = ca_key b'B' ∷ key b'a' ∷ []

from_without_order_example :
    (view samples (from samples twice true) ≡ include_all samples once (nobody samples true))
    × ((identity : Identity ℕ SampleCertificate)
        → filter samples (from samples twice true) identity
          ≡ accepts samples (include_all samples once (nobody samples true)) identity)
from_without_order_example = from_without_order samples twice once true (λ a. ground arith)

-- The helper's output is the key `c`.
abbrev whole : PolicyMode → IdentityFilter ℕ
whole PolicyMode.strict = record { keys = b'c' ∷ b'a' ∷ []; ca_keys = b'B' ∷ []; strict = true }
whole PolicyMode.legacy = record { keys = b'c' ∷ b'a' ∷ []; ca_keys = b'B' ∷ []; strict = false }

built_strict :
    new_with_mode samples sample_outside
      (codes "/etc/k")
      none
      (some (codes "/bin/h"))
      none
      (codes "eve")
      PolicyMode.strict
    ≡ ok (whole PolicyMode.strict)
unfolding new_with_mode authorized_keys_part from_file read_strict_file read_bounded read_at_most
    from_utf8 validate_trust_path resolve_trust_path validate_components validate_loop
    validate_prefix validate_mode components body split_slash extend push needs_separator is_dotted
    strip_prefix bytes_eq to_str parse_policy from_str_strict strict_loop admit parsed
    only_cert_authority ca_keys_part command_part from_command from collect insert member
built_strict = refl

built_legacy :
    new_with_mode samples sample_outside
      (codes "/etc/k")
      none
      (some (codes "/bin/h"))
      none
      (codes "eve")
      PolicyMode.legacy
    ≡ ok (whole PolicyMode.legacy)
unfolding new_with_mode authorized_keys_part from_file read_to_string from_utf8 bytes_eq to_str
    parse_policy lenient classify has_cert_authority ca_keys_part command_part from_command from
    collect insert member
built_legacy = refl

new_with_mode-ok_example :
    (p : Parts samples sample_outside
      (codes "/etc/k")
      none
      (some (codes "/bin/h"))
      none
      (codes "eve")
      PolicyMode.legacy)
    × (false ≡ false)
    × ((identity : Identity ℕ SampleCertificate)
        → (filter samples (whole PolicyMode.legacy) identity ≡ true) ↔ (
            IsAuthorized samples p.keys identity
            ⊎ IsAuthorized samples p.authorities identity
            ⊎ IsAuthorized samples p.commanded identity))
new_with_mode-ok_example =
    new_with_mode-ok samples sample_outside (codes "/etc/k") none (some (codes "/bin/h")) none
      (codes "eve") PolicyMode.legacy built_legacy

missing :
    from_file samples (files_with (codes "aB")) (codes "/none") false PolicyMode.legacy
    ≡ err (io not_found)
unfolding from_file read_to_string bytes_eq
missing = refl

new_with_mode_iff_example :
    ((f : IdentityFilter ℕ) × (new_with_mode samples sample_outside
          (codes "/none")
          none
          (some (codes "/bin/h"))
          none
          (codes "eve")
          PolicyMode.legacy
        ≡ ok f)
      × (filter samples f (public_key b'c') ≡ true))
    ↔ IsAuthorizedBy samples sample_outside
        (codes "/none")
        none
        (some (codes "/bin/h"))
        none
        (codes "eve")
        PolicyMode.legacy
        (public_key b'c')
new_with_mode_iff_example =
    new_with_mode_iff samples sample_outside (codes "/none") none (some (codes "/bin/h")) none
      (codes "eve") PolicyMode.legacy (public_key b'c')

-- No keys file in legacy mode.
no_keys_file : HasKeys samples sample_outside.fs (codes "/none") PolicyMode.legacy []
no_keys_file = inr (refl, missing, refl)

new_with_mode-strict_iff_example :
    ((f : IdentityFilter ℕ) × (new_with_mode samples sample_outside
          (codes "/etc/k")
          none
          (some (codes "/bin/h"))
          none
          (codes "eve")
          PolicyMode.strict
        ≡ ok f)
      × (filter samples f (public_key b'c') ≡ true))
    ↔ IsStrictlyAuthorized samples sample_outside
        (codes "/etc/k")
        none
        (some (codes "/bin/h"))
        none
        (codes "eve")
        (public_key b'c')
new_with_mode-strict_iff_example =
    new_with_mode-strict_iff samples sample_outside (codes "/etc/k") none (some (codes "/bin/h"))
      none (codes "eve") (public_key b'c')

-- The helper's key is accepted.
helper_key_authorized :
    IsStrictlyAuthorized samples sample_outside
      (codes "/etc/k")
      none
      (some (codes "/bin/h"))
      none
      (codes "eve")
      (public_key b'c')
unfolding filter member
helper_key_authorized =
    (new_with_mode-strict_iff samples sample_outside (codes "/etc/k") none (some (codes "/bin/h"))
        none (codes "eve") (public_key b'c')).0
      (whole PolicyMode.strict, built_strict, refl)
