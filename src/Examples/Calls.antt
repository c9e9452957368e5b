-- ===== src/Examples/Calls.antt =====
-- Calls of the module, from the arguments to the result.
use pam_ssh_agent.Common.{
  ℕ, Bytes, codes, bytes_eq, List, [], ◌∷◌, true, false, some, ok, ◌≡◌, ◌↔◌, refl, ap, arith,
  from_utf8, strip_prefix,
}
use pam_ssh_agent.Environment.Unix.{unix_environment, get_hostname, to_string_lossy}
use pam_ssh_agent.Args.{Args, default_args, parse, strict_flag}
use pam_ssh_agent.Args.Profile.{per_user_file, parse_profile}
use pam_ssh_agent.SshKeys.{Identity, public_key}
use pam_ssh_agent.Filter.Paths.{
  split_slash, body, components, needs_separator, push, validate_mode, is_dotted, validate_prefix,
  validate_loop, validate_components, resolve_trust_path, validate_trust_path, extend,
}
use pam_ssh_agent.Filter.Files.{read_at_most, read_bounded, read_strict_file}
use pam_ssh_agent.Filter.Policy.{
  only_cert_authority, parsed, admit, strict_loop, from_str_strict, parse_policy,
}
use pam_ssh_agent.Filter.Identities.{
  to_str, member, insert, collect, from, filter, from_file, authorized_keys_part, ca_keys_part,
  command_part, new_with_mode, new_strict,
}
use pam_ssh_agent.Auth.{
  after_epoch, decide_outcome, proceed, subject_key, verify, expected_algorithm, check_sk_signature,
  validate_sk_signature, is_eligible, check_signature, answer_challenge, sign_and_verify, attempt,
  try_identities, try_listed, authenticate,
}
use pam_ssh_agent.Logging.{settle, init_logging}
use pam_ssh_agent.Pam.Logs.{started_log, sm_authenticate_log}
use pam_ssh_agent.Pam.{
  pam_success, PamContext, Process, State, new_context, is_ascii_alphanumeric, is_plain,
  resolve_strict_user, validate_strict_user, validate_strict_users, check_helper, get_path,
  build_filter, conclude, open_agent, ask_agent, shortcut, prepare, answer_prepared,
  do_authenticate, with_debug, accept_arguments, run_accepted, run_started, run_in, run,
  result_code, sm_authenticate,
}
use pam_ssh_agent.Pam.Users.{IsLocalUser, validate_strict_user-IsLocalUser}
use pam_ssh_agent.Pam.Decision.{IsGranted, sm_authenticate_iff}
use pam_ssh_agent.Pam.Decision.Strict.{IsStrictlyGranted, sm_authenticate-strict}
use pam_ssh_agent.Examples.Setting.{
  samples, SampleCertificate, agent_with, numbered, files_with, sample_host, handle_for,
}

-- The agent holds the key `a`, which the policy names.
abbrev held : List (Identity ℕ SampleCertificate)
held = public_key b'u' ∷ public_key b'a' ∷ []

abbrev process : Process samples (agent_with held) numbered
process = record {
  host = sample_host;
  fs = files_with (codes "aB");
  run_command = λ _ _ _ _. ok [];
  connect = λ _ _. ok 0;
  open_log = λ _. ok tt;
  now = after_epoch 5;
}

abbrev fresh : State samples (agent_with held) numbered
fresh = record { log = record { initialised = false; request_debug = false }; source = 0 }

abbrev given : List Bytes
given = codes "strict" ∷ per_user_file (codes "/etc/keys/") [] ∷ []

given_utf8 :
    from_utf8 (per_user_file (codes "/etc/keys/") []) ≡ ok (per_user_file (codes "/etc/keys/") [])
unfolding from_utf8
given_utf8 = refl

given_parsed :
    (service : Bytes)
    → parse given (unix_environment sample_host) (handle_for (codes "eve") service)
      ≡ ok (record default_args {
        file = codes "/etc/keys/eve";
        strict = true;
        sshd_shortcut = false;
        agent_timeout = some 30;
      })
given_parsed service =
    parse_profile (codes "/etc/keys/") [] (codes "eve") (unix_environment sample_host)
      (handle_for (codes "eve") service) (omega arith) (omega arith) (omega arith) (omega arith)
      refl given_utf8

eve_known : validate_strict_user sample_host (codes "eve") ≡ ok 1000
unfolding validate_strict_user resolve_strict_user is_plain is_ascii_alphanumeric bytes_eq
eve_known = refl

validate_strict_user-IsLocalUser_example : IsLocalUser sample_host (codes "eve") 1000
validate_strict_user-IsLocalUser_example =
    validate_strict_user-IsLocalUser sample_host (codes "eve") eve_known

abbrev context : PamContext
context = record { calling_user = codes "eve"; service = codes "sudo" }

abbrev strict_args : Args
strict_args = record default_args {
  file = codes "/etc/keys/eve";
  strict = true;
  sshd_shortcut = false;
  agent_timeout = some 30;
}

arguments_accepted :
    accept_arguments samples (agent_with held) numbered process given context ≡ ok strict_args
unfolding accept_arguments validate_strict_users check_helper
arguments_accepted = rw (given_parsed (codes "sudo"), eve_known) refl

built :
    build_filter samples (agent_with held) numbered process strict_args context
    ≡ ok (record { keys = b'a' ∷ []; ca_keys = b'B' ∷ []; strict = true })
unfolding build_filter new_strict new_with_mode authorized_keys_part from_file read_strict_file
    read_bounded read_at_most from_utf8 validate_trust_path resolve_trust_path validate_components
    validate_loop validate_prefix validate_mode components body split_slash extend push
    needs_separator is_dotted strip_prefix bytes_eq to_str parse_policy from_str_strict strict_loop
    admit parsed only_cert_authority ca_keys_part command_part from collect insert member
built = refl

granted :
    sm_authenticate samples
      (agent_with held)
      numbered
      process
      given
      (handle_for (codes "eve") (codes "sudo"))
      fresh
    ≡ (
      pam_success,
      record { log = record { initialised = true; request_debug = false }; source = 1 },
    )
unfolding sm_authenticate run new_context run_in init_logging settle run_started run_accepted
    with_debug do_authenticate prepare shortcut answer_prepared ask_agent open_agent get_path
    from_utf8 conclude result_code authenticate try_listed try_identities proceed attempt
    is_eligible filter member sign_and_verify answer_challenge check_signature decide_outcome
    validate_sk_signature check_sk_signature expected_algorithm subject_key verify bytes_eq
granted = rw (arguments_accepted, built) refl

granted_code :
    (sm_authenticate samples
      (agent_with held)
      numbered
      process
      given
      (handle_for (codes "eve") (codes "sudo"))
      fresh).0
    ≡ pam_success
granted_code = ap (λ p. p.0) granted

sm_authenticate_iff_example :
    ((sm_authenticate samples
        (agent_with held)
        numbered
        process
        given
        (handle_for (codes "eve") (codes "sudo"))
        fresh).0
      ≡ pam_success)
    ↔ IsGranted samples
        (agent_with held)
        numbered
        process
        given
        (handle_for (codes "eve") (codes "sudo"))
        fresh
sm_authenticate_iff_example =
    sm_authenticate_iff samples (agent_with held) numbered process given
      (handle_for (codes "eve") (codes "sudo")) fresh

flag_given : strict_flag given ≡ true
unfolding bytes_eq
flag_given = refl

sm_authenticate-strict_example :
    IsStrictlyGranted samples
      (agent_with held)
      numbered
      process
      given
      (handle_for (codes "eve") (codes "sudo"))
      fresh
sm_authenticate-strict_example =
    sm_authenticate-strict samples (agent_with held) numbered process given
      (handle_for (codes "eve") (codes "sudo")) fresh flag_given granted_code

sm_authenticate_log_example :
    (sm_authenticate samples
      (agent_with held)
      numbered
      process
      (codes "debug" ∷ given)
      (handle_for (codes "eve") (codes "sudo"))
      fresh).1.log
    ≡ started_log samples
        (agent_with held)
        numbered
        process
        (new_context (handle_for (codes "eve") (codes "sudo")))
        fresh.log
sm_authenticate_log_example =
    sm_authenticate_log samples (agent_with held) numbered process (codes "debug" ∷ given)
      (handle_for (codes "eve") (codes "sudo")) fresh

-- The host name is cut at its first dot, the qualified one is not.
host_names :
    ((unix_environment sample_host).get_hostname ≡ ok (codes "web"))
    × ((unix_environment sample_host).get_fqdn ≡ ok (codes "web.example"))
unfolding unix_environment get_hostname to_string_lossy from_utf8
host_names = (refl, refl)
