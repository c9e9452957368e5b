-- ===== src/Examples/Children.antt =====
-- Children that are supervised: runs of the loop, and its theorems at them.
use pam_ssh_agent.Common.{
  ◌↔◌, List, ℕ, codes, [], ◌∷◌, true, false, none, some, is_some, would_block, interrupted, Poll,
  returned, poll_failed, ok, err, message, command_timed_out, ◌≡◌, refl,
}
use pam_ssh_agent.Cmd.{received, failed, Stream, drain_output}
use pam_ssh_agent.Cmd.Supervision.{
  Progress, Round, terminate_and_reap, abort, check_time, collect_status, await_child, check_end,
  take_stderr, take_stdout, run_round, after, supervise, started,
}
use pam_ssh_agent.Cmd.Waiting.{wait_for_output}
use pam_ssh_agent.Cmd.Supervision.Good.{IsGoodRun}
use pam_ssh_agent.Cmd.Supervision.Good.Exact.{supervise_iff}
use pam_ssh_agent.Cmd.Supervision.Ends.{IsEnded, supervise-IsEnded}
use pam_ssh_agent.Cmd.Supervision.Deadline.{supervise_ends}

-- Two chunks with an interruption between them, and a third one that comes later.
abbrev pipe : Stream
pipe =
    received (codes "ab")
    ∷ failed interrupted
    ∷ received (codes "c")
    ∷ failed would_block
    ∷ received (codes "d")
    ∷ []

drained :
    drain_output pipe (codes "x") false
    ≡ (ok tt, record { stream = received (codes "d") ∷ []; output = codes "xabc"; eof = false })
unfolding drain_output
drained = refl

-- A wait that is interrupted, and then sees output.
abbrev soon : List Poll
soon =
    record { now = 1; answer = λ _. poll_failed interrupted }
    ∷ record { now = 2; answer = λ _. returned 1 }
    ∷ record { now = 10; answer = λ _. returned 0 }
    ∷ []

-- A child that writes, and then ends.
abbrev writing : Round
writing = record {
  stdout = received (codes "key") ∷ [];
  stderr = [];
  waited = ok none;
  now = 1;
  polls = soon;
}

abbrev ended : Round
ended = record {
  stdout = received [] ∷ [];
  stderr = received [] ∷ [];
  waited = ok (some (record { code = some 0 }));
  now = 2;
  polls = soon;
}

-- A child that never ends.
abbrev hanging : ℕ → Round
hanging now = record { stdout = []; stderr = []; waited = ok none; now = now; polls = soon }

abbrev good_end : Progress
good_end = record {
  stdout_bytes = codes "key";
  stderr_bytes = [];
  stdout_eof = true;
  stderr_eof = true;
  status = some (record { code = some 0 });
  child = record { killed = false; reaped = true };
}

supervised : supervise 10 (writing ∷ ended ∷ ended ∷ []) started ≡ some (ok tt, good_end)
unfolding supervise after run_round take_stdout take_stderr check_end await_child collect_status
    check_time drain_output started wait_for_output
supervised = refl

-- At the deadline the child is killed.
killed_late :
    supervise 10 (hanging 4 ∷ hanging 10 ∷ []) started
    ≡ some (
      err (message command_timed_out),
      record started { child = record { killed = true; reaped = true } },
    )
unfolding supervise after run_round take_stdout take_stderr check_end await_child collect_status
    check_time abort terminate_and_reap drain_output started wait_for_output
killed_late = refl

supervise_iff_example :
    (supervise 10 (writing ∷ ended ∷ ended ∷ []) started ≡ some (ok tt, good_end))
    ↔ IsGoodRun 10 (writing ∷ ended ∷ ended ∷ []) started good_end
supervise_iff_example = supervise_iff 10 (writing ∷ ended ∷ ended ∷ []) started good_end

good_run : IsGoodRun 10 (writing ∷ ended ∷ ended ∷ []) started good_end
good_run = (supervise_iff 10 (writing ∷ ended ∷ ended ∷ []) started good_end).0 supervised

supervise-IsEnded_example : IsEnded (ok tt) good_end
supervise-IsEnded_example = supervise-IsEnded 10 (writing ∷ ended ∷ ended ∷ []) supervised

hanging_ends : is_some (supervise 10 (hanging 4 ∷ hanging 10 ∷ []) started) ≡ true
hanging_ends = supervise_ends 10 (hanging 4 ∷ hanging 10 ∷ []) started (refl, (refl, tt)) refl
