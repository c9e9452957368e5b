-- ===== src/Examples/Threads.antt =====
-- Threads that call `init_logging` at once, and the theorem of their order at them.
use native.Mathlib.Decide.{ℕ_discrete}
use pam_ssh_agent.Common.{
  ℕ, Bool, true, false, none, some, ok, err, foreign, Result, ◌≡◌, ◌≢◌, refl,
}
use pam_ssh_agent.Logging.Threads.{
  LogCrate, update, Pc, outside, locked, connected, registered, lock, return_early, connect, panic,
  register, unlock, System, Step, pick, Reach, start, later,
}
use pam_ssh_agent.Logging.Threads.Invariant.{init_logging_once}

abbrev set_once : Bool → Result (Unit {0}) × Bool
set_once false = (ok tt, true)
set_once true = (err (foreign 7), true)

first_set_lem : (s : Bool) → s ≡ false → ((set_once s).0 ≡ ok tt) × ((set_once s).1 ≡ true)
first_set_lem false e = (refl, refl)
first_set_lem true e = absurd (cc)

-- The crate log, of which only whether its logger is set is kept.
abbrev flagged : LogCrate
flagged = record {
  State = Bool;
  empty = false;
  is_set = λ s. s;
  set_boxed_logger = set_once;
  set_max_level = λ s. s;
  is_set-empty = refl;
  first_set = first_set_lem;
  is_set-set_max_level = λ s. refl;
}

-- Thread 0 panics behind its connection, and thread 1 takes the lock over.
abbrev taken : ℕ → Pc
taken = update (update (update (update (λ _. outside) 0 locked) 0 connected) 0 outside) 1 locked

-- Thread 1 sets the logger, and thread 0 comes back and is about to return early.
abbrev back : System flagged
back = record {
  shared = record { owner = some 0; initialised = true; log = true };
  pc = update (update (update (update taken 1 connected) 1 registered) 1 outside) 0 locked;
}

back_reached : Reach flagged back
unfolding ℕ_discrete
back_reached =
    later
      (later
        (later
          (later
            (later
              (later (later (later start (pick 0 (lock refl))) (pick 0 (connect refl)))
                (pick 0 panic))
              (pick 1 (lock refl)))
            (pick 1 (connect refl)))
          (pick 1 (register refl)))
        (pick 1 unlock))
      (pick 0 (lock refl))

-- Thread 0 is refused nothing, and finds its flag.
back_returns : Step flagged back (record {
  shared = record { owner = none; initialised = true; log = true };
  pc = update back.pc 0 outside;
})
unfolding ℕ_discrete
back_returns = pick 0 (return_early refl)

init_logging_once_example :
    ((i j : ℕ) → back.pc i ≢ outside → back.pc j ≢ outside → i ≡ j)
    × ((i : ℕ) → back.pc i ≡ connected → (set_once true).0 ≡ ok tt)
    × (back.shared.owner ≡ none → true ≡ true)
init_logging_once_example = init_logging_once flagged back_reached
