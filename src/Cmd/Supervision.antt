-- ===== src/Cmd/Supervision.antt =====
-- src/cmd.rs: the loop of `run_inner` that supervises the child, over what each of its rounds sees.
pub mod Ends
pub mod Deadline
pub mod Payload
pub mod Good
use pam_ssh_agent.Common.{
  ℕ, Bytes, Poll, List, [], ◌∷◌, Bool, true, false, ◌&&◌, leb, Option, none, some, is_some,
  if◌then◌else◌, Result, ok, err, Error, bail, failed_stdout, failed_stderr, command_timed_out,
}
use pam_ssh_agent.Cmd.Waiting.{wait_for_output}
use pam_ssh_agent.Cmd.{Stream, Collected, drain_output}

-- An exit status: the code, or none behind a signal.
pub record ExitStatus : Type 0 where
  pub code : Option ℕ

-- The child: whether its group was killed, and whether its status was collected.
pub record Child : Type 0 where
  pub killed : Bool
  pub reaped : Bool

-- The locals of the loop, and the child.
pub record Progress : Type 0 where
  pub stdout_bytes : Bytes
  pub stderr_bytes : Bytes
  pub stdout_eof : Bool
  pub stderr_eof : Bool
  pub status : Option ExitStatus
  pub child : Child

-- What one round sees: the reads of both pipes, the answer of `try_wait`, the clock, and what the
-- rounds of `wait_for_output` see.
pub record Round : Type 0 where
  pub stdout : Stream
  pub stderr : Stream
  pub waited : Result (Option ExitStatus)
  pub now : ℕ
  pub polls : List Poll

-- A round goes on to the next one, or ends the loop; or its wait has not come to an end.
pub data Step : Type 0 where
  continues : Progress → Step
  waits : Step
  ends : Result (Unit {0}) → Progress → Step

-- The whole group is killed, and the child waited for. The source ignores the results of both calls;
-- `killed` and `reaped` say that they were made.
unfoldable pub terminate_and_reap : Progress → Progress
terminate_and_reap p = record p { child = record { killed = true; reaped = true } }

unfoldable pub abort : Error → Progress → Step
abort e p = ends (err e) (terminate_and_reap p)

pub after_wait : Option (Result (Unit {0})) → Progress → Step
after_wait none p = waits
after_wait (some (ok _)) p = continues p
after_wait (some (err e)) p = abort e p

-- The end of a round: the clock, and the wait for output.
unfoldable pub check_time : ℕ → Round → Progress → Step
unfolding after_wait
check_time deadline r p =
    if leb deadline r.now
    then abort (Error.message command_timed_out) p
    else after_wait (wait_for_output p.stdout_eof p.stderr_eof deadline r.polls) p

-- `try_wait` reaps a child that has ended.
unfoldable pub collect_status : ℕ → Round → Result (Option ExitStatus) → Progress → Step
collect_status deadline r (err e) p = abort e p
collect_status deadline r (ok none) p = check_time deadline r p
collect_status deadline r (ok (some status)) p =
    check_time deadline r
      (record p { status = some status; child = record p.child { reaped = true } })

unfoldable pub await_child : ℕ → Round → Progress → Step
await_child deadline r p =
    if is_some p.status then check_time deadline r p else collect_status deadline r r.waited p

-- The round behind both reads.
unfoldable pub check_end : ℕ → Round → Progress → Step
check_end deadline r p =
    if is_some p.status && (p.stdout_eof && p.stderr_eof)
    then ends (ok tt) p
    else await_child deadline r p

unfoldable pub take_stderr : ℕ → Round → Result (Unit {0}) × Collected → Progress → Step
take_stderr deadline r (err e, c) p =
    abort (Error.message failed_stderr) (record p { stderr_bytes = c.output; stderr_eof = c.eof })
take_stderr deadline r (ok _, c) p =
    check_end deadline r (record p { stderr_bytes = c.output; stderr_eof = c.eof })

unfoldable pub take_stdout : ℕ → Round → Result (Unit {0}) × Collected → Progress → Step
take_stdout deadline r (err e, c) p =
    abort (Error.message failed_stdout) (record p { stdout_bytes = c.output; stdout_eof = c.eof })
take_stdout deadline r (ok _, c) p =
    take_stderr deadline r (drain_output r.stderr p.stderr_bytes p.stderr_eof)
      (record p { stdout_bytes = c.output; stdout_eof = c.eof })

unfoldable pub run_round : ℕ → Round → Progress → Step
run_round deadline r p =
    take_stdout deadline r (drain_output r.stdout p.stdout_bytes p.stdout_eof) p

-- The next rounds are entered only behind a round that goes on.
unfoldable pub after :
    Step
    → (Progress → Option (Result (Unit {0}) × Progress))
    → Option (Result (Unit {0}) × Progress)
after (continues p) next = next p
after (ends result p) next = some (result, p)
after waits next = none

-- The loop, over the rounds that it may come to; without an end within them there is no result.
unfoldable pub supervise : ℕ → List Round → Progress → Option (Result (Unit {0}) × Progress)
supervise deadline [] p = none
supervise deadline (r ∷ rest) p = after (run_round deadline r p) (supervise deadline rest)

-- The locals before the loop.
unfoldable pub started : Progress
started = record {
  stdout_bytes = [];
  stderr_bytes = [];
  stdout_eof = false;
  stderr_eof = false;
  status = none;
  child = record { killed = false; reaped = false };
}
