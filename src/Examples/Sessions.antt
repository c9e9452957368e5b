-- ===== src/Examples/Sessions.antt =====
-- Sessions with an agent, and the theorems on `authenticate` at them.
use pam_ssh_agent.Common.{
  ℕ, ◌+◌, ◌≤◌, codes, bytes_eq, List, [], ◌∷◌, true, false, ◌↔◌, ok, err, signature_error, ◌≡◌, ◌↔◌,
  refl, arith,
}
use pam_ssh_agent.SshKeys.{Identity, public_key, certificate}
use pam_ssh_agent.Filter.Identities.{IdentityFilter, filter, member}
use pam_ssh_agent.Auth.{
  after_epoch, decide_outcome, proceed, subject_key, verify, expected_algorithm, check_sk_signature,
  validate_sk_signature, validate_cert, is_eligible, check_signature, answer_challenge,
  sign_and_verify, attempt, try_identities, try_listed, authenticate,
}
use pam_ssh_agent.Auth.Certificates.{IsValid, validate_cert_iff}
use pam_ssh_agent.Auth.SecurityKeys.{IsPermitted, validate_sk_signature_iff}
use pam_ssh_agent.Auth.Session.{Run, exhausted, passed_over, try_identities_iff}
use pam_ssh_agent.Auth.Session.Sound.{Accepted}
use pam_ssh_agent.Auth.Session.Complete.{authenticate_iff}
use pam_ssh_agent.Auth.Session.Refusals.{
  IsExhausted, eligible, try_identities-eligible, authenticate-false_iff,
  try_identities-bad_signature,
}
use pam_ssh_agent.Auth.Session.Requests.{authenticate_keeps}
use pam_ssh_agent.Examples.Setting.{samples, SampleCertificate, sign_with, agent_with, numbered}

-- The certificate of the key `s`, by the authority `B`, for eve, until the second 100.
abbrev pass : SampleCertificate
pass = record {
  authority = b'B';
  subject = b's';
  until = 100;
  principals = codes "adam" ∷ codes "eve" ∷ [];
}

abbrev pub policy : IdentityFilter ℕ
policy = record { keys = b'a' ∷ b'r' ∷ b'w' ∷ b'z' ∷ []; ca_keys = b'B' ∷ []; strict = true }

abbrev pub offered : List (Identity ℕ SampleCertificate)
offered = public_key b'u' ∷ public_key b'r' ∷ certificate pass ∷ public_key b'w' ∷ []

validate_cert_iff_example :
    (validate_cert samples pass (after_epoch 5) (codes "eve") ≡ true)
    ↔ IsValid samples pass (codes "eve") (after_epoch 5)
validate_cert_iff_example = validate_cert_iff samples pass (codes "eve") (after_epoch 5)

cert_times :
    (validate_cert samples pass (after_epoch 99) (codes "eve") ≡ true)
    × (validate_cert samples pass (after_epoch 100) (codes "eve") ≡ false)
    × (validate_cert samples pass (after_epoch 99) (codes "mallory") ≡ false)
unfolding validate_cert bytes_eq
cert_times = (refl, refl, refl)

validate_sk_signature_iff_example :
    (validate_sk_signature samples (public_key b'z') (sign_with 1 b'z' []) ≡ ok tt)
    ↔ IsPermitted samples (public_key b'z') (sign_with 1 b'z' [])
validate_sk_signature_iff_example =
    validate_sk_signature_iff samples (public_key b'z') (sign_with 1 b'z' [])

-- The key `u` is unknown and `r` is refused by the agent; the certificate passes, and `w` is not
-- tried. The agent has been asked twice.
accepted :
    authenticate samples (agent_with offered) numbered policy (after_epoch 5) (codes "eve") (7, 0)
    ≡ (ok true, (9, 2))
unfolding authenticate try_listed try_identities proceed attempt is_eligible filter member
    validate_cert sign_and_verify answer_challenge check_signature decide_outcome
    validate_sk_signature check_sk_signature expected_algorithm subject_key verify bytes_eq
accepted = refl

-- Of the keys `u` and `r` alone none is accepted, and there is no error.
not_accepted :
    (authenticate samples
      (agent_with (public_key b'u' ∷ public_key b'r' ∷ []))
      numbered
      policy
      (after_epoch 5)
      (codes "eve")
      (7, 0)).0
    ≡ ok false
unfolding authenticate try_listed try_identities proceed attempt is_eligible filter member
    sign_and_verify answer_challenge check_signature decide_outcome
not_accepted = refl

pub accepted_answer :
    (authenticate samples
      (agent_with offered)
      numbered
      policy
      (after_epoch 5)
      (codes "eve")
      (7, 0)).0
    ≡ ok true
accepted_answer i = (accepted i).0

authenticate_iff_example :
    ((authenticate samples
        (agent_with offered)
        numbered
        policy
        (after_epoch 5)
        (codes "eve")
        (7, 0)).0
      ≡ ok true)
    ↔ ((identities : List (Identity ℕ SampleCertificate)) × (((agent_with offered).list_identities
            7).0
          ≡ ok identities)
        × Accepted samples
            (agent_with offered)
            numbered
            policy
            (after_epoch 5)
            (codes "eve")
            identities
            (7, 0))
authenticate_iff_example =
    authenticate_iff samples (agent_with offered) numbered policy (after_epoch 5) (codes "eve")
      (7, 0)

-- One identity that the filter does not know, and none behind it.
passing :
    Run samples
      (agent_with offered)
      numbered
      policy
      (after_epoch 5)
      (codes "eve")
      (public_key b'u' ∷ [])
      (7, 0)
      (ok false)
      (7, 0)
unfolding is_eligible filter member
passing = passed_over refl (exhausted (7, 0))

try_identities_iff_example :
    (try_identities samples
        (agent_with offered)
        numbered
        policy
        (after_epoch 5)
        (codes "eve")
        (public_key b'u' ∷ [])
        (7, 0)
      ≡ (ok false, (7, 0)))
    ↔ Run samples
        (agent_with offered)
        numbered
        policy
        (after_epoch 5)
        (codes "eve")
        (public_key b'u' ∷ [])
        (7, 0)
        (ok false)
        (7, 0)
try_identities_iff_example =
    try_identities_iff samples (agent_with offered) numbered policy (after_epoch 5) (codes "eve")
      (public_key b'u' ∷ []) (7, 0) (7, 0) (ok false)

try_identities-eligible_example :
    try_identities samples
      (agent_with offered)
      numbered
      policy
      (after_epoch 5)
      (codes "eve")
      (eligible samples (agent_with offered) numbered policy (after_epoch 5) (codes "eve") offered)
      (7, 0)
    ≡ try_identities samples
        (agent_with offered)
        numbered
        policy
        (after_epoch 5)
        (codes "eve")
        offered
        (7, 0)
try_identities-eligible_example =
    try_identities-eligible samples (agent_with offered) numbered policy (after_epoch 5)
      (codes "eve") offered (7, 0)

authenticate-false_iff_example :
    (authenticate samples
        (agent_with (public_key b'u' ∷ public_key b'r' ∷ []))
        numbered
        policy
        (after_epoch 5)
        (codes "eve")
        (7, 0)
      ≡ (ok false, (8, 1)))
    ↔ ((identities : List (Identity ℕ SampleCertificate)) × (((agent_with
              (public_key b'u' ∷ public_key b'r' ∷ [])).list_identities
            7).0
          ≡ ok identities)
        × IsExhausted samples
            (agent_with (public_key b'u' ∷ public_key b'r' ∷ []))
            numbered
            policy
            (after_epoch 5)
            (codes "eve")
            identities
            (7, 0)
            (8, 1))
authenticate-false_iff_example =
    authenticate-false_iff samples (agent_with (public_key b'u' ∷ public_key b'r' ∷ [])) numbered
      policy (after_epoch 5) (codes "eve") (7, 0) (8, 1)

authenticate_keeps_example :
    7
    ≤ (authenticate samples
        (agent_with offered)
        numbered
        policy
        (after_epoch 5)
        (codes "eve")
        (7, 0)).1.0
authenticate_keeps_example =
    authenticate_keeps samples (agent_with offered) numbered policy (after_epoch 5) (codes "eve")
      (λ n. 7 ≤ n) (λ n identity challenge e h. omega arith) (7, 0) (omega arith)

try_identities-bad_signature_example :
    (try_identities samples
      (agent_with offered)
      numbered
      policy
      (after_epoch 5)
      (codes "eve")
      (public_key b'u' ∷ public_key b'w' ∷ public_key b'a' ∷ [])
      (7, 0)).0
    ≡ err signature_error
unfolding is_eligible filter member validate_sk_signature expected_algorithm subject_key
try_identities-bad_signature_example =
    try_identities-bad_signature samples (agent_with offered) numbered policy (after_epoch 5)
      (codes "eve") (public_key b'u' ∷ []) (public_key b'a' ∷ []) (public_key b'w') (7, 0)
      (0 ∷ 32 ∷ []) (sign_with 1 (b'w' + 1) (0 ∷ 32 ∷ [])) (refl, tt) refl refl refl refl refl
