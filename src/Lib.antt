-- ===== src/Lib.antt =====
-- pam-ssh-agent, a PAM module that lets a user in who can sign with a trusted key of an ssh-agent.
--
-- The program. `sm_authenticate` (src/lib.rs) takes the user and the service from PAM, starts the
-- logger, parses its arguments (src/args.rs, with the variables of src/expansions.rs), in strict
-- mode checks the accounts, and builds a filter of trusted keys and authorities (src/filter.rs)
-- from a keys file, a file of authorities and the output of a helper. For sshd, a key that sshd
-- has accepted may be enough. Otherwise it connects to the agent and tries the agent's
-- identities one by one (src/auth.rs): one that the filter accepts has to sign a random challenge.
--
-- The files.
--   Common        texts as lists of bytes, searches, UTF-8, decimal numbers, bits, `Result`
--   Environment   src/environment.rs and src/pamext.rs; Environment/Unix is `UnixEnvironment` and
--                 the reading of PAM items
--   Expansions    src/expansions.rs: expand_vars, expand_var, expand_homedir, get_username
--   Args          src/args.rs: `Args`, `Args::parse` (its loop is parse_loop over `Locals`) and
--                 validate_trust_source_argument; Args/Settings describes the parser in two
--                 phases, each argument by itself and then the last one for each field, and
--                 Args/Profile is the strict profile of README.md
--   SshKeys       the interface of the crate ssh-key: keys, signatures, certificates
--   Filter        src/filter.rs. Filter/Paths: validate_trust_path, validate_components,
--                 validate_mode; Filter/Files: read_strict_file, read_bounded; Filter/Policy:
--                 parse_policy, from_str_strict; Filter/Identities: `IdentityFilter`, its
--                 constructors, from_file, from_command; Filter/Identities/Built has when it is
--                 built, Filter/Identities/Sets is the filter as two sets, a quotient of its lists
--   Auth          src/auth.rs, src/agent.rs, src/verify.rs: authenticate (its loop is
--                 try_identities), sign_and_verify, validate_sk_signature, validate_cert;
--                 Auth/Eligible states which identities are tried and which signatures do,
--                 without the code's own tests; Auth/Session and Auth/Session/Complete have its
--                 runs as a step relation and what an accepted one is; Auth/Session/Native puts
--                 NativeCrypto in the place of ssh-key's verification
--   Logging       src/logging.rs: init_logging, the level filter and escape_log_value;
--                 Logging/Threads: init_logging and init_impl by several threads, as steps on
--                 the lock, its flag and the logger of the crate log;
--                 Logging/Records: `PrefixFormatter` and `PrefixWrappingLogger::log`;
--                 Logging/Unescape: a reader of the escapes
--   Cmd           src/cmd.rs: drain_output; Cmd/Supervision: the loop of run_inner, over what the
--                 reads, `try_wait` and the clock return in each round, and in
--                 Cmd/Supervision/Good the rounds of one that ends well as a step relation;
--                 Cmd/Waiting: wait_for_output; Cmd/Run: run, run_without_descendants and run_inner
--   Connection    src/agent_connection.rs: Connection/Socket is connect_unix and
--                 wait_for_connect, Connection/Deadline is `DeadlineStream` and connect;
--                 Connection/Deadline/Transfers has series of reads, writes and flushes, over what
--                 each meets, with the socket's two timeouts as the state between them
--   NativeCrypto  src/nativecrypto.rs: `PublicKeyVerifier::verify`, get_key_and_digest and
--                 convert_signature
--   Pam           src/lib.rs: run, do_authenticate, validate_strict_user,
--                 check_sshd_special_case, get_path, and with_debug of src/logging.rs;
--                 Pam/Answer and Pam/Decision say what a granted call is;
--                 Pam/Decision/Helper and Pam/Decision/Stream put Cmd and Connection in the place
--                 of the parameters that run helpers and reach the agent
--   Examples      instances of the interfaces, tests, and the theorems at concrete inputs
--
-- State. The agent and the source of randomness are states that authenticate passes on (`World`);
-- the logger and the randomness are the state of a call (`State`). What threads share in
-- init_logging is `Shared`, and a run of them is a sequence of steps in any order. Failures are
-- values of `Result`; an error keeps what the code tests of it, the messages are constructors.
--
-- Bounds. All loops are structural recursion over the list that the code goes through, so none
-- needs fuel; the supervision of a helper and the waits with `poll` go over the rounds that they are
-- given, each with the time of the clock in it, and have no result (`none`) where these run out;
-- they end where one of the rounds sees the deadline. Times of the clock are nanoseconds in
-- src/cmd.rs and src/agent_connection.rs, the timeouts of the arguments whole seconds. Sizes, uids
-- and times are natural numbers: the code adds 1 to a constant, adds the lengths of two buffers in
-- memory, adds a timeout of at most 300 seconds to the clock, clamps milliseconds to an `i32`, and
-- subtracts 5 behind a test that the length is at least 5, and does nothing else on which a width
-- could matter. `u64` is parsed with its overflow as an error.
--
-- Parameters. ssh-key (parsing of keys, signatures, the checks of `validate_at`) is the record
-- `SshKeys`, of which only the soundness and completeness of `==` on keys and algorithms are
-- assumed. The agent's client is `Agent`, getrandom is `Random`, the user database and the
-- environment are `Host`, with what the standard library makes of a text that is not UTF-8, the
-- file system is `FileSystem`, and the connection to the agent, the helper process, syslog and
-- the clock are fields of `Process`. The calls of the system behind a helper are `System`, those
-- behind a connection `Sockets`; OpenSSL and the conversion of signatures to DER are `OpenSsl`.
-- The crate log is `LogCrate`: its logger can be set while there is none, and nobody else in the
-- process sets it. In one call the file system and the host answer the same question in the same
-- way, so that a file that is swapped between two calls of the system is seen only where the
-- code asks differently, through the open file.
-- The source ignores what the calls that kill a helper and wait for it return. The model does too, and
-- takes a child that has been waited for as reaped, which it is unless the system refuses the wait.
--
-- Not modelled. The texts of error messages, and which messages are logged where; the bytes of a
-- `sockaddr_un` and of the descriptors of `poll`; the number, the order and the timing of the calls
-- that the kernel makes of its own. In src/logging.rs the connection to syslog as such, the name of
-- the process and the flush of its backend; vendor/pam-bindings; the tests, benches and examples of
-- the repository.
pub mod Common
pub mod Environment
pub mod Expansions
pub mod Args
pub mod SshKeys
pub mod Filter
pub mod Auth
pub mod Logging
pub mod Cmd
pub mod Connection
pub mod NativeCrypto
pub mod Pam
pub mod Examples
