-- ===== src/Cmd/Waiting/Laws.antt =====
-- `wait_for_output`: the timeouts that it asks for, and its end.
use pam_ssh_agent.Common.{
  ℕ, ◌+◌, ◌*◌, ◌≤◌, List, Bool, true, false, ◌&&◌, leb, any, is_some, some, if◌then◌else◌, ok,
  i32_max, clamp_millis, first_answer_ends, Poll, ◌≡◌, arith,
}
use pam_ssh_agent.Cmd.Waiting.{poll_timeout, poll_once, wait_for_output}

-- The timeout of every call of `poll` is positive, fits an `i32`, is at most ten milliseconds when
-- no pipe is open, and passes the deadline by no more than a millisecond.
pub poll_timeout_bounds :
    (no_open_streams : Bool) (left : ℕ)
    → (1 ≤ poll_timeout no_open_streams left)
      × (poll_timeout no_open_streams left ≤ (if no_open_streams then 10 else i32_max))
      × (poll_timeout no_open_streams left * 1000000 ≤ left + 1000000)
unfolding poll_timeout
poll_timeout_bounds true left = clamp_millis 10 left (omega arith)
poll_timeout_bounds false left = clamp_millis i32_max left (omega arith)

poll_once_late :
    (idle : Bool) (deadline : ℕ) (p : Poll)
    → leb deadline p.now ≡ true
    → poll_once idle deadline p ≡ some (ok tt)
unfolding poll_once
poll_once_late idle deadline p late = ground arith

-- The wait ends: where one of the rounds that it may come to is at the deadline, it has a result.
pub wait_for_output_ends :
    (stdout_eof stderr_eof : Bool) (deadline : ℕ) (polls : List Poll)
    → any (λ p. leb deadline p.now) polls ≡ true
    → is_some (wait_for_output stdout_eof stderr_eof deadline polls) ≡ true
unfolding wait_for_output
wait_for_output_ends stdout_eof stderr_eof deadline polls h =
    first_answer_ends (λ p. poll_once (stdout_eof && stderr_eof) deadline p)
      (λ p. leb deadline p.now) polls
      (λ p late. rw (poll_once_late (stdout_eof && stderr_eof) deadline p late, is_some)) h
