-- ===== src/Cmd/Waiting.antt =====
-- src/cmd.rs: `wait_for_output`, over the rounds of its loop.
pub mod Laws
use pam_ssh_agent.Common.{
  ℕ, List, [], ◌∷◌, Bool, true, false, ◌&&◌, ◌==◌, Option, none, some, if◌then◌else◌, Result, ok,
  err, io, IoKind, interrupted, time_left, as_millis, i32_max, clamp, first_answer, PollResult,
  returned, poll_failed, Poll,
}

-- With both pipes at their end there is nothing to wait for but the child's status, which is looked
-- at every ten milliseconds.
pub poll_timeout : Bool → ℕ → ℕ
poll_timeout no_open_streams left =
    clamp 1 (if no_open_streams then 10 else i32_max) (as_millis left)

-- What a call of `poll` leads to: `none` goes on.
pub after_poll : PollResult → Option (Result (Unit {0}))
after_poll (returned _) = some (ok tt)
after_poll (poll_failed interrupted) = none
after_poll (poll_failed kind) = some (err (io kind))

-- The answer of one round of the loop, if it ends there.
pub poll_once : Bool → ℕ → Poll → Option (Result (Unit {0}))
poll_once no_open_streams deadline p =
    let left = time_left deadline p.now in
    if left == 0 then some (ok tt) else after_poll (p.answer (poll_timeout no_open_streams left))

unfoldable pub wait_for_output : Bool → Bool → ℕ → List Poll → Option (Result (Unit {0}))
unfolding first_answer poll_once after_poll poll_timeout
wait_for_output stdout_eof stderr_eof deadline polls =
    first_answer (λ p. poll_once (stdout_eof && stderr_eof) deadline p) polls
