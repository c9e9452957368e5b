-- ===== src/Pam.antt =====
-- src/lib.rs: `sm_authenticate` and what it calls. The calls that leave the module's own code (the
-- file system, the helper process, the connection to the agent, syslog) are fields of `Process`.
pub mod Users
pub mod Shortcut
pub mod Answer
pub mod Decision
pub mod Logs
use pam_ssh_agent.Common.{
  ℕ, Bytes, codes, bytes_eq, List, [], ◌∷◌, Bool, true, false, not, ◌&&◌, ◌||◌, Option, none, some,
  ◌==◌, leb, all, is_empty, if◌then◌else◌, Result, ok, err, Error, ◌>>=◌, ◌>>◌, bail, ok_or,
  from_utf8, not_plain_user, unknown_local_user, user_mismatch, root_helper, no_key_matched,
  no_agent_socket, bad_agent_variable,
}
use pam_ssh_agent.Environment.{Environment, PamHandleExt}
use pam_ssh_agent.Environment.Unix.{Host, unix_environment, get_uid}
use pam_ssh_agent.Args.{Args, parse}
use pam_ssh_agent.SshKeys.{SshKeys, public_key}
use pam_ssh_agent.Filter.Paths.{FileSystem}
use pam_ssh_agent.Filter.Policy.{PolicyMode}
use pam_ssh_agent.Filter.Identities.{IdentityFilter, Outside, filter, new, new_strict}
use pam_ssh_agent.Auth.{SystemTime, Agent, Random, authenticate}
use pam_ssh_agent.Logging.{LogState, init_logging}

-- The results that the module returns.
pub data PamResultCode : Type 0 where
  pam_success pam_auth_err : PamResultCode

pub record PamContext : Type 0 where
  pub calling_user : Bytes
  pub service : Bytes

-- `PamContext::new`
unfoldable pub new_context : PamHandleExt → Result PamContext
new_context handle = do
  calling_user ← handle.get_calling_user
  service ← handle.get_service
  ok (record { calling_user = calling_user; service = service })

-- `impl PamHandleExt for PamContext`
abbrev pub context_handle : PamContext → PamHandleExt
context_handle context = record {
  get_calling_user = ok context.calling_user;
  get_service = ok context.service;
}

unfoldable pub is_ascii_alphanumeric : ℕ → Bool
is_ascii_alphanumeric c =
    (leb b'a' c && leb c b'z') || (leb b'A' c && leb c b'Z') || (leb b'0' c && leb c b'9')

unfoldable pub is_plain : ℕ → Bool
is_plain c = is_ascii_alphanumeric c || c == b'_' || c == b'-'

-- `validate_strict_user` behind the test of the name.
unfoldable pub resolve_strict_user : Host → Bytes → Result ℕ
resolve_strict_user host name = do
  user ← ok_or (host.get_user_by_name name) unknown_local_user
  if not (bytes_eq user.name name) then bail user_mismatch else ok user.uid

unfoldable pub validate_strict_user : Host → Bytes → Result ℕ
validate_strict_user host name =
    if is_empty name || not (all (λ c. is_plain c) name)
    then bail not_plain_user
    else resolve_strict_user host name

-- The test of the helper's user: the one that is named, or else the calling user.
unfoldable pub check_helper : Host → Option Bytes → Option Bytes → ℕ → Result (Unit {0})
check_helper host none command_user calling_uid = ok tt
check_helper host (some _) command_user calling_uid = do
  helper_uid ← elim command_user [
    | none ↦ ok calling_uid
    | some user ↦ validate_strict_user host user
  ]
  if helper_uid == 0 then bail root_helper else ok tt

-- The part of `run` that strict mode adds.
unfoldable pub validate_strict_users : Host → Args → PamContext → Result (Unit {0})
validate_strict_users host args context = do
  calling_uid ← validate_strict_user host context.calling_user
  check_helper host args.authorized_keys_command args.authorized_keys_command_user calling_uid

unfoldable pub get_path : Host → Args → Result Bytes
get_path host args = elim (host.env_var (codes "SSH_AUTH_SOCK")) [
  | none ↦ ok_or args.default_ssh_auth_sock no_agent_socket
  | some path ↦ elim (from_utf8 path) [ ok text ↦ ok text | err _ ↦ bail bad_agent_variable ]
]

module _ (C : SshKeys) where
  -- The part of `check_sshd_special_case` on the value of SSH_AUTH_INFO_0.
  pub check_auth_info : Option Bytes → IdentityFilter C.KeyData → Result Bool
  check_auth_info none f = ok false
  check_auth_info (some text) f = do k ← C.from_openssh text; ok (filter C f (public_key k))

  pub check_sshd_special_case : Option Bytes → IdentityFilter C.KeyData → Environment → Result Bool
  check_sshd_special_case none f env = ok false
  check_sshd_special_case (some service) f env =
      if not (bytes_eq service (codes "sshd"))
      then ok false
      else check_auth_info (env.get_env (codes "SSH_AUTH_INFO_0")) f

  module _ (A : Agent C) (R : Random C) where
    pub record Process : Type 0 where
      pub host : Host
      pub fs : FileSystem
      -- `cmd::run` and `cmd::run_without_descendants`
      pub run_command : Bool → List Bytes → ℕ → ℕ → Result Bytes
      -- `agent_connection::connect`, with a timeout in seconds
      pub connect : Bytes → Option ℕ → Result A.State
      -- `logging::init_impl`, for the name of the service
      pub open_log : Bytes → Result (Unit {0})
      pub now : SystemTime

    -- What outlives a call: the logger and the source of randomness.
    pub record State : Type 0 where
      pub log : LogState
      pub source : R.Source

    module _ (p : Process) where
      abbrev pub outside : Outside
      outside = record { fs = p.fs; get_uid = get_uid p.host; run = p.run_command }

      -- The filter of `do_authenticate`.
      unfoldable pub build_filter : Args → PamContext → Result (IdentityFilter C.KeyData)
      build_filter args context =
          if args.strict
          then new_strict C outside args.file args.ca_keys_file args.authorized_keys_command
              args.authorized_keys_command_user context.calling_user
          else new C outside args.file args.ca_keys_file args.authorized_keys_command
              args.authorized_keys_command_user context.calling_user

      -- The last `match` of `do_authenticate`.
      unfoldable pub conclude : Result Bool → Result (Unit {0})
      conclude (ok true) = ok tt
      conclude (ok false) = bail no_key_matched
      conclude (err e) = err e

      -- The connection to the agent.
      unfoldable pub open_agent : Args → Result A.State
      open_agent args = do path ← get_path p.host args; p.connect path args.agent_timeout

      unfoldable pub ask_agent :
          PamContext
          → IdentityFilter C.KeyData
          → Result A.State
          → R.Source
          → Result (Unit {0}) × R.Source
      ask_agent context f (err e) source = (err e, source)
      ask_agent context f (ok agent) source =
          let (answer, (_, source')) =
            authenticate C A R f p.now context.calling_user (agent, source) in
          (conclude answer, source')

      -- The shortcut is looked at only where it is enabled.
      unfoldable pub shortcut : Args → PamContext → IdentityFilter C.KeyData → Result Bool
      shortcut args context f =
          if args.sshd_shortcut
          then check_sshd_special_case (some context.service) f (unix_environment p.host)
          else ok false

      -- The filter, and whether the shortcut is taken.
      unfoldable pub prepare : Args → PamContext → Result (IdentityFilter C.KeyData × Bool)
      prepare args context = do
        f ← build_filter args context
        taken ← shortcut args context f
        ok (f, taken)

      unfoldable pub answer_prepared :
          Args
          → PamContext
          → Result (IdentityFilter C.KeyData × Bool)
          → R.Source
          → Result (Unit {0}) × R.Source
      answer_prepared args context (err e) source = (err e, source)
      answer_prepared args context (ok (f, true)) source = (ok tt, source)
      answer_prepared args context (ok (f, false)) source =
          ask_agent context f (open_agent args) source

      unfoldable pub do_authenticate : Args → PamContext → R.Source → Result (Unit {0}) × R.Source
      do_authenticate args context source =
          answer_prepared args context (prepare args context) source

      -- `with_debug`: the flag is set for the call, and then as it was before.
      unfoldable pub with_debug :
          Bool → (R.Source → Result (Unit {0}) × R.Source) → State → Result (Unit {0}) × State
      with_debug debug call s =
          let previous = s.log.request_debug in
          let set = record s.log { request_debug = debug } in
          let (r, source') = call s.source in
          (r, record { log = record set { request_debug = previous }; source = source' })

      -- The arguments, and the accounts that strict mode checks.
      unfoldable pub accept_arguments : List Bytes → PamContext → Result Args
      accept_arguments arguments context = do
        args ← parse arguments (unix_environment p.host) (context_handle context)
        if args.strict then validate_strict_users p.host args context else ok tt
        ok args

      unfoldable pub run_accepted : PamContext → Result Args → State → Result (Unit {0}) × State
      run_accepted context (err e) s = (err e, s)
      run_accepted context (ok args) s = with_debug args.debug (do_authenticate args context) s

      unfoldable pub run_started :
          List Bytes → PamContext → Result (Unit {0}) → State → Result (Unit {0}) × State
      run_started arguments context (err e) s = (err e, s)
      run_started arguments context (ok _) s =
          run_accepted context (accept_arguments arguments context) s

      unfoldable pub run_in : List Bytes → Result PamContext → State → Result (Unit {0}) × State
      run_in arguments (err e) s = (err e, s)
      run_in arguments (ok context) s =
          let (started, log') = init_logging (p.open_log context.service) s.log in
          run_started arguments context started (record s { log = log' })

      unfoldable pub run : List Bytes → PamHandleExt → State → Result (Unit {0}) × State
      run arguments handle s = run_in arguments (new_context handle) s

      unfoldable pub result_code : Result (Unit {0}) → PamResultCode
      result_code (ok _) = pam_success
      result_code (err _) = pam_auth_err

      unfoldable pub sm_authenticate : List Bytes → PamHandleExt → State → PamResultCode × State
      sm_authenticate arguments handle s =
          let (r, s') = run arguments handle s in (result_code r, s')

-- `sm_setcred`
abbrev sm_setcred : PamResultCode
sm_setcred = pam_success
