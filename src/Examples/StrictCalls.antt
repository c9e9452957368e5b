-- ===== src/Examples/StrictCalls.antt =====
-- A strict call in which only the helper knows the agent's key, with a helper and a connection that
-- are run by the models of src/cmd.rs and src/agent_connection.rs.
use pam_ssh_agent.Common.{
  ℕ, Bytes, codes, bytes_eq, List, [], ◌∷◌, Bool, true, false, Option, none, some, Result, ok, bail,
  missing_status, ◌≡◌, refl, ap, Option-cases, inl, inr, from_utf8, strip_prefix, split_once, find,
  contains, trim_end, is_white, first_answer, err,
}
use pam_ssh_agent.Environment.Unix.{unix_environment, get_uid}
use pam_ssh_agent.Args.{
  Args, default_args, parse, strict_flag, parse_loop, step, interpret, assign, expand_and_set,
  set_parameter, note_per_user, check_strict, validate_trust_source_argument, check_trust_source,
}
use pam_ssh_agent.Expansions.{expand_vars, expand_var, expand_homedir}
use pam_ssh_agent.SshKeys.{Identity, public_key}
use pam_ssh_agent.Filter.Paths.{
  split_slash, body, components, needs_separator, push, validate_mode, is_dotted, validate_prefix,
  validate_loop, validate_components, resolve_trust_path, validate_trust_path, extend,
}
use pam_ssh_agent.Filter.Files.{read_at_most, read_bounded, read_strict_file}
use pam_ssh_agent.Filter.Policy.{
  only_cert_authority, parsed, admit, strict_loop, from_str_strict, parse_policy,
}
use pam_ssh_agent.Filter.Identities.{
  max_duration, from_command, to_str, member, insert, collect, from, filter, from_file,
  authorized_keys_part, ca_keys_part, command_part, new_with_mode, new_strict,
}
use pam_ssh_agent.Auth.{
  after_epoch, decide_outcome, proceed, subject_key, verify, expected_algorithm, check_sk_signature,
  validate_sk_signature, is_eligible, check_signature, answer_challenge, sign_and_verify, attempt,
  try_identities, try_listed, authenticate,
}
use pam_ssh_agent.Logging.{settle, init_logging}
use pam_ssh_agent.Pam.{
  pam_success, PamContext, Process, State, new_context, is_ascii_alphanumeric, is_plain,
  resolve_strict_user, validate_strict_user, validate_strict_users, check_helper, get_path,
  build_filter, conclude, open_agent, ask_agent, shortcut, prepare, answer_prepared,
  do_authenticate, with_debug, accept_arguments, run_accepted, run_started, run_in, run,
  result_code, sm_authenticate,
}
use pam_ssh_agent.Pam.Decision.Strict.{IsStrictlyGranted}
use pam_ssh_agent.Cmd.{drain_output}
use pam_ssh_agent.Cmd.Waiting.{wait_for_output}
use pam_ssh_agent.Cmd.Supervision.{
  check_time, collect_status, await_child, check_end, take_stderr, take_stdout, run_round, after,
  supervise, started,
}
use pam_ssh_agent.Cmd.Run.{
  Outcome, default_low_privilege_gid, call, pre_exec, set_nonblocking, prepare_pipes, check_stderr,
  conclude as conclude_run, follow, follow_spawn, choose_gid, start, run_inner,
}
use pam_ssh_agent.Pam.Decision.Helper.{RunsOn, HelperRan, sm_authenticate-helper}
use pam_ssh_agent.Examples.Setting.{
  samples, SampleCertificate, agent_with, numbered, files_with, sample_host, handle_for,
}
use pam_ssh_agent.Connection.Socket.{
  is_invalid_path, address_len, check_sun_len, check_socket_error, after_poll, poll_once,
  wait_for_connect, finish_connecting, open_socket, restore, connect_opened, connect_unix,
}
use pam_ssh_agent.Connection.Deadline.{Client, connect_by, connect}
use pam_ssh_agent.Pam.Decision.Stream.{
  Meeting, connect_in, ConnectsIn, IsReached, sm_authenticate-stream,
}
use pam_ssh_agent.Examples.Helpers.{system}
use pam_ssh_agent.Examples.Connections.{sockets, waits}

-- Commands are run on the system; what has no result there is an error here.
abbrev result_of : Option Outcome → Result Bytes
result_of none = bail missing_status
result_of (some o) = o.result

abbrev run_command : Bool → List Bytes → ℕ → ℕ → Result Bytes
run_command prevent command timeout uid =
    result_of (run_inner system command timeout uid none prevent)

runs_on : RunsOn run_command system
runs_on prevent command timeout uid text h =
    elim (Option-cases (run_inner system command timeout uid none prevent)) [
      | inl waiting ↦ absurd (cc (ap result_of waiting))
      | inr (o, e) ↦ (o, e, cc (ap result_of e))
    ]

-- The system at the time of the connection.
abbrev meeting : Meeting
meeting = record { client_connect = λ _. ok tt; sockets = sockets; now = 0; polls = waits }

-- The agent's first state, where there is a client.
abbrev agent_of : Option (Result Client) → Result ℕ
agent_of (some (ok c)) = ok 0
agent_of _ = bail missing_status

abbrev reach : Bytes → Option ℕ → Result ℕ
reach path timeout = agent_of (connect_in meeting path timeout)

agent_of-ok :
    (o : Option (Result Client)) {n : ℕ} → agent_of o ≡ ok n → (c : Client) × (o ≡ some (ok c))
agent_of-ok none h = cc
agent_of-ok (some (ok c)) h = (c, refl)
agent_of-ok (some (err e)) h = cc

connects_in : ConnectsIn reach meeting
connects_in path timeout agent h = agent_of-ok (connect_in meeting path timeout) h

abbrev held : List (Identity ℕ SampleCertificate)
held = public_key b'u' ∷ public_key b'k' ∷ []

abbrev process : Process samples (agent_with held) numbered
process = record {
  host = sample_host;
  fs = files_with (codes "aB");
  run_command = run_command;
  connect = reach;
  open_log = λ _. ok tt;
  now = after_epoch 5;
}

abbrev fresh : State samples (agent_with held) numbered
fresh = record { log = record { initialised = false; request_debug = false }; source = 0 }

abbrev given : List Bytes
given = codes "strict" ∷ codes "file=/etc/keys/%u" ∷ codes "authorized_keys_command=/bin/keys" ∷ []

abbrev context : PamContext
context = record { calling_user = codes "eve"; service = codes "sudo" }

abbrev strict_args : Args
strict_args = record default_args {
  file = codes "/etc/keys/eve";
  strict = true;
  authorized_keys_command = some (codes "/bin/keys");
  sshd_shortcut = false;
  agent_timeout = some 30;
}

given_parsed :
    parse given (unix_environment sample_host) (handle_for (codes "eve") (codes "sudo"))
    ≡ ok strict_args
unfolding parse parse_loop step interpret assign expand_and_set set_parameter note_per_user
    check_strict validate_trust_source_argument check_trust_source expand_vars expand_var
    expand_homedir bytes_eq strip_prefix split_once find contains from_utf8 unix_environment
given_parsed = refl

eve_known : validate_strict_user sample_host (codes "eve") ≡ ok 1000
unfolding validate_strict_user resolve_strict_user is_plain is_ascii_alphanumeric bytes_eq
eve_known = refl

arguments_accepted :
    accept_arguments samples (agent_with held) numbered process given context ≡ ok strict_args
unfolding accept_arguments validate_strict_users check_helper
arguments_accepted = rw (given_parsed, eve_known) refl

helper_keys :
    run_command true (codes "/bin/keys" ∷ codes "eve" ∷ []) max_duration 1000 ≡ ok (codes "key")
unfolding run_inner follow_spawn follow start choose_gid pre_exec call prepare_pipes set_nonblocking
    conclude_run check_stderr supervise after run_round take_stdout take_stderr check_end
    await_child collect_status check_time drain_output started wait_for_output from_utf8
    strip_prefix trim_end is_white default_low_privilege_gid
helper_keys = refl

built :
    build_filter samples (agent_with held) numbered process strict_args context
    ≡ ok (record { keys = b'y' ∷ b'e' ∷ b'k' ∷ b'a' ∷ []; ca_keys = b'B' ∷ []; strict = true })
unfolding build_filter new_strict new_with_mode authorized_keys_part from_file read_strict_file
    read_bounded read_at_most from_utf8 validate_trust_path resolve_trust_path validate_components
    validate_loop validate_prefix validate_mode components body split_slash extend push
    needs_separator is_dotted strip_prefix bytes_eq to_str parse_policy from_str_strict strict_loop
    admit parsed only_cert_authority ca_keys_part command_part from collect insert member get_uid
    from_command
built = rw helper_keys refl

granted :
    (sm_authenticate samples
      (agent_with held)
      numbered
      process
      given
      (handle_for (codes "eve") (codes "sudo"))
      fresh).0
    ≡ pam_success
unfolding sm_authenticate run new_context run_in init_logging settle run_started run_accepted
    with_debug do_authenticate prepare shortcut answer_prepared ask_agent open_agent get_path
    from_utf8 conclude result_code authenticate try_listed try_identities proceed attempt
    is_eligible filter member sign_and_verify answer_challenge check_signature decide_outcome
    validate_sk_signature check_sk_signature expected_algorithm subject_key verify bytes_eq connect
    connect_by connect_unix is_invalid_path address_len check_sun_len open_socket connect_opened
    restore finish_connecting wait_for_connect poll_once after_poll check_socket_error first_answer
granted = rw (arguments_accepted, built) refl

strict_given : strict_flag given ≡ true
unfolding bytes_eq
strict_given = refl

sm_authenticate-helper_example :
    (g : IsStrictlyGranted samples
      (agent_with held)
      numbered
      process
      given
      (handle_for (codes "eve") (codes "sudo"))
      fresh)
    × HelperRan samples system sample_host
        (files_with (codes "aB"))
        g.granted.args.authorized_keys_command
        g.granted.args.authorized_keys_command_user
        g.granted.context.calling_user
        g.commanded
sm_authenticate-helper_example =
    sm_authenticate-helper samples (agent_with held) numbered process system runs_on given
      (handle_for (codes "eve") (codes "sudo")) fresh strict_given granted

sm_authenticate-stream_example :
    (g : IsStrictlyGranted samples
      (agent_with held)
      numbered
      process
      given
      (handle_for (codes "eve") (codes "sudo"))
      fresh)
    × IsReached samples
        (agent_with held)
        numbered
        process
        meeting
        connects_in
        g.granted.args
        g.granted.context
        g.granted.f
sm_authenticate-stream_example =
    sm_authenticate-stream samples (agent_with held) numbered process meeting connects_in given
      (handle_for (codes "eve") (codes "sudo")) fresh strict_given granted
