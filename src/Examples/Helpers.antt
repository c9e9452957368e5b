-- ===== src/Examples/Helpers.antt =====
-- Helpers that are run: whole runs, and the theorems of Cmd/Run at them.
use pam_ssh_agent.Common.{
  ◌↔◌, ℕ, Bytes, codes, List, [], ◌∷◌, true, false, Option, none, some, is_some, ok, Poll, returned,
  ◌≡◌, refl, subst, ok_injective, nanoseconds, ◌+◌, from_utf8, strip_prefix, trim_end, is_white,
}
use pam_ssh_agent.Cmd.{received, drain_output}
use pam_ssh_agent.Cmd.Waiting.{wait_for_output}
use pam_ssh_agent.Cmd.Supervision.{
  Round, check_time, collect_status, await_child, check_end, take_stderr, take_stdout, run_round,
  after, supervise, started,
}
use pam_ssh_agent.Cmd.Run.{
  Pipe, Spawned, System, Outcome, other_target, default_low_privilege_gid, call, pre_exec,
  set_nonblocking, prepare_pipes, check_stderr, conclude, follow, follow_spawn, choose_gid, start,
  run_inner,
}
use pam_ssh_agent.Cmd.Run.Success.{IsHelperRun, run_inner_iff}
use pam_ssh_agent.Cmd.Run.Reaping.{IsReaped, run_inner-IsReaped}
use pam_ssh_agent.Cmd.Run.Ending.{IsTimed, run_inner_ends}

-- A wait that comes to any deadline below a year.
abbrev patient : List Poll
patient =
    record { now = 2; answer = λ _. returned 1 }
    ∷ record { now = 40000000000000000; answer = λ _. returned 0 }
    ∷ []

abbrev round : Bytes → Bytes → Option ℕ → ℕ → Round
round out end code now = record {
  stdout = received out ∷ received end ∷ [];
  stderr = received [] ∷ [];
  waited = ok (elim code [ none ↦ none | some c ↦ some (record { code = some c }) ]);
  now = now;
  polls = patient;
}

abbrev pipe : Pipe
pipe = record { get_flags = ok 2; set_flags = λ _. ok tt }

-- A helper that writes a line and leaves, and is looked at again much later.
abbrev helper : Spawned
helper = record {
  stdout = some pipe;
  stderr = some pipe;
  rounds =
      round (codes "key \n") [] (some 0) 3
      ∷ round [] [] none 4
      ∷ round [] [] none 40000000000000000
      ∷ [];
}

abbrev pub system : System
system = record {
  target = other_target;
  gid_by_name = λ _. none;
  effective_uid = 0;
  now = 1;
  nonblocking = 2048;
  answer = λ _ _. ok tt;
  spawn = λ _. ok helper;
}

abbrev command : List Bytes
command = codes "/bin/keys" ∷ codes "eve" ∷ []

abbrev finished : Outcome
finished = record {
  result = ok (codes "key");
  child = some (record { killed = false; reaped = true });
}

ran : run_inner system command 10 1000 none true ≡ some finished
unfolding run_inner follow_spawn follow start choose_gid pre_exec call prepare_pipes set_nonblocking
    conclude check_stderr supervise after run_round take_stdout take_stderr check_end await_child
    collect_status check_time drain_output started wait_for_output from_utf8 strip_prefix trim_end
    is_white default_low_privilege_gid
ran = refl

run_inner_iff_example :
    ((o : Outcome) × (run_inner system command 10 1000 none true ≡ some o)
      × (o.result ≡ ok (codes "key")))
    ↔ IsHelperRun system command 10 1000 none true (codes "key")
run_inner_iff_example = run_inner_iff system command 10 1000 none true (codes "key")

key_printed : IsHelperRun system command 10 1000 none true (codes "key")
key_printed = (run_inner_iff system command 10 1000 none true (codes "key")).0 (finished, ran, refl)

run_inner-IsReaped_example : IsReaped finished.child
run_inner-IsReaped_example = run_inner-IsReaped system command 10 1000 none true ran

run_inner_ends_example : is_some (run_inner system command 10 1000 none true) ≡ true
run_inner_ends_example = run_inner_ends system command 10 1000 none true (λ cmd c begun.
    subst (IsTimed (1 + nanoseconds 10)) (ok_injective helper c begun)
      ((refl, (refl, (refl, tt))), refl))
