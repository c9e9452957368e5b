-- ===== src/Cmd/Run.antt =====
-- src/cmd.rs: `run`, `run_without_descendants` and `run_inner`, over the calls of the system.
pub mod Rights
pub mod Laws
pub mod Starting
pub mod Success
pub mod Reaping
pub mod Ending
use Prim.Native.Nat.{bit_or}
use pam_ssh_agent.Common.{
  ℕ, ◌+◌, Bytes, codes, List, [], ◌∷◌, ◌++◌, Bool, true, false, not, ◌==◌, Option, none, some,
  if◌then◌else◌, is_empty, starts_with, trim_end, from_utf8, Result, ok, err, ◌>>=◌, ◌>>◌, bail,
  ok_or, empty_command, relative_executable, no_nobody_group, missing_pipe, missing_status,
  nonzero_exit, nanoseconds,
}
use pam_ssh_agent.Cmd.Supervision.{
  ExitStatus, Child, Progress, Round, terminate_and_reap, supervise, started,
}

-- The target that the code is built for, where it makes a difference.
pub data Target : Type 0 where
  macos other_target : Target

-- The calls of `pre_exec`, which the child makes before it becomes the helper.
pub data Syscall : Type 0 where
  set_process_limit : ℕ → Syscall
  set_groups : List ℕ → Syscall
  set_gid set_uid : ℕ → Syscall

-- An end of a pipe: `fcntl` for its flags.
pub record Pipe : Type 0 where
  pub get_flags : Result ℕ
  pub set_flags : ℕ → Result (Unit {0})

-- What the child is started as.
pub record Command : Type 0 where
  pub program : Bytes
  pub arguments : List Bytes
  pub environment : List (Bytes × Bytes)
  pub process_group : ℕ
  -- the calls that it has made
  pub calls : List Syscall

-- A child that was started, its pipes, and what the rounds of its supervision see.
pub record Spawned : Type 0 where
  pub stdout : Option Pipe
  pub stderr : Option Pipe
  pub rounds : List Round

pub record System : Type 0 where
  pub target : Target
  pub gid_by_name : Bytes → Option ℕ
  pub effective_uid : ℕ
  pub now : ℕ
  pub nonblocking : ℕ
  -- the answer to a call, behind the calls that were made before
  pub answer : List Syscall → Syscall → Result (Unit {0})
  pub spawn : Command → Result Spawned

-- How a call ends: its result, and the child, if there was one.
pub record Outcome : Type 0 where
  pub result : Result Bytes
  pub child : Option Child

unfoldable pub default_low_privilege_gid : System → Result ℕ
default_low_privilege_gid s = elim s.target [
  | macos ↦ ok_or (s.gid_by_name (codes "nobody")) no_nobody_group
  | other_target ↦ ok 65534
]

-- The child's calls so far, or the failure of one of them.
unfoldable pub call : System → Syscall → List Syscall → Result (List Syscall)
call s c before = do s.answer before c; ok (before ++ c ∷ [])

unfoldable pub pre_exec : System → Bool → Bool → ℕ → ℕ → Result (List Syscall)
pre_exec s prevent_descendants clear_groups gid uid = do
  limited ← if prevent_descendants then call s (set_process_limit 0) [] else ok []
  cleared ← if clear_groups then call s (set_groups []) limited else ok limited
  grouped ← call s (set_gid gid) cleared
  call s (set_uid uid) grouped

-- The variables that the helper sees: `env_clear` leaves no other.
abbrev pub environment : List (Bytes × Bytes)
environment =
    (codes "LANG", codes "C")
    ∷ (codes "LC_ALL", codes "C")
    ∷ (codes "PATH", codes "/usr/bin:/bin")
    ∷ []

unfoldable pub set_nonblocking : System → Pipe → Result (Unit {0})
set_nonblocking s pipe = do flags ← pipe.get_flags; pipe.set_flags (bit_or flags s.nonblocking)

-- The closure that takes both pipes.
unfoldable pub prepare_pipes : System → Spawned → Result (Unit {0})
prepare_pipes s c = do
  stdout ← ok_or c.stdout missing_pipe
  stderr ← ok_or c.stderr missing_pipe
  set_nonblocking s stdout
  set_nonblocking s stderr

abbrev pub succeeded : ExitStatus → Bool
succeeded status = elim status.code [ some code ↦ code == 0 | none ↦ false ]

-- The lines of a standard error that is not empty are logged, and have to be text.
unfoldable pub check_stderr : Bytes → Result (Unit {0})
check_stderr bytes = if is_empty bytes then ok tt else (do _ ← from_utf8 bytes; ok tt)

-- What follows the loop.
unfoldable pub conclude : Result (Unit {0}) → Progress → Result Bytes
conclude result p = do
  result
  status ← ok_or p.status missing_status
  if not (succeeded status) then bail (nonzero_exit status.code) else ok tt
  check_stderr p.stderr_bytes
  text ← from_utf8 p.stdout_bytes
  ok (trim_end text)

abbrev pub conclude_supervision : Option (Result (Unit {0}) × Progress) → Option Outcome
conclude_supervision none = none
conclude_supervision (some (result, p)) =
    some (record { result = conclude result p; child = some p.child })

-- From the closure on: a child whose pipes are not to be had is killed.
unfoldable pub follow : ℕ → Spawned → Result (Unit {0}) → Option Outcome
follow deadline c (err e) =
    some (record { result = err e; child = some (terminate_and_reap started).child })
follow deadline c (ok _) = conclude_supervision (supervise deadline c.rounds started)

-- From `spawn` on. Without a child nothing has to be ended.
unfoldable pub follow_spawn : System → ℕ → Result Spawned → Option Outcome
follow_spawn s deadline (err e) = some (record { result = err e; child = none })
follow_spawn s deadline (ok c) = follow deadline c (prepare_pipes s c)

-- The group of the child: the one that is given, or one without privileges.
unfoldable pub choose_gid : System → Option ℕ → Result ℕ
choose_gid s (some gid) = ok gid
choose_gid s none = default_low_privilege_gid s

unfoldable pub start : System → Bytes → List Bytes → ℕ → Option ℕ → Bool → Result Spawned
start s program arguments uid effective_gid prevent_descendants = do
  gid ← choose_gid s effective_gid
  calls ← pre_exec s prevent_descendants (s.effective_uid == 0) gid uid
  s.spawn (record {
    program = program;
    arguments = arguments;
    environment = environment;
    process_group = 0;
    calls = calls;
  })

unfoldable pub run_inner : System → List Bytes → ℕ → ℕ → Option ℕ → Bool → Option Outcome
run_inner s [] timeout uid gid prevent_descendants =
    some (record { result = bail empty_command; child = none })
run_inner s (program ∷ arguments) timeout uid gid prevent_descendants =
    if not (starts_with program (codes "/"))
    then some (record { result = bail relative_executable; child = none })
    else follow_spawn s (s.now + nanoseconds timeout)
        (start s program arguments uid gid prevent_descendants)

pub run : System → List Bytes → ℕ → ℕ → Option ℕ → Option Outcome
run s command timeout uid gid = run_inner s command timeout uid gid false

pub run_without_descendants : System → List Bytes → ℕ → ℕ → Option ℕ → Option Outcome
run_without_descendants s command timeout uid gid = run_inner s command timeout uid gid true
