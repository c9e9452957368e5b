-- ===== src/Cmd/Supervision/Ends.antt =====
-- How the supervision of the child ends.
use pam_ssh_agent.Common.{
  ℕ, ◌≤◌, List, [], ◌∷◌, true, ◌&&◌, leb, length, Option, none, some, is_some, Result, ok, err,
  Error, Bool-cases, ◌≡◌, inl, inr, refl, subst, arith,
}
use pam_ssh_agent.Cmd.Waiting.{wait_for_output}
use pam_ssh_agent.Cmd.{Collected, max_output_bytes}
use pam_ssh_agent.Cmd.Output.{drain_output_bounded}
use pam_ssh_agent.Cmd.Supervision.{
  ExitStatus, Progress, Round, Step, continues, waits, ends, after_wait, terminate_and_reap, abort,
  check_time, collect_status, await_child, check_end, take_stderr, take_stdout, run_round, after,
  supervise, started,
}

-- A status that is known was collected from the child, and both outputs are within the limit.
pub record IsSupervised (p : Progress) : Type 0 where
  pub collected : is_some p.status ≡ true → p.child.reaped ≡ true
  pub stdout_bounded : length p.stdout_bytes ≤ max_output_bytes
  pub stderr_bounded : length p.stderr_bytes ≤ max_output_bytes

-- A success has seen the end of both pipes and the child's own status.
abbrev pub IsComplete : Result (Unit {0}) → Progress → Type 0
IsComplete (ok _) p = (p.stdout_eof ≡ true) × (p.stderr_eof ≡ true) × (is_some p.status ≡ true)
IsComplete (err _) p = Unit

-- What is known behind the loop: the child was reaped, both outputs are within the limit, and a
-- success is complete.
pub record IsEnded (result : Result (Unit {0})) (p : Progress) : Type 0 where
  pub reaped : p.child.reaped ≡ true
  pub stdout_bounded : length p.stdout_bytes ≤ max_output_bytes
  pub stderr_bounded : length p.stderr_bytes ≤ max_output_bytes
  pub complete : IsComplete result p

abbrev IsGood : Step → Type 0
IsGood (continues p) = IsSupervised p
IsGood waits = Unit
IsGood (ends result p) = IsEnded result p

abort-IsGood : (e : Error) (p : Progress) → IsSupervised p → IsGood (abort e p)
unfolding abort terminate_and_reap
abort-IsGood e p w = record {
  reaped = refl;
  stdout_bounded = w.stdout_bounded;
  stderr_bounded = w.stderr_bounded;
  complete = tt;
}

after_wait-IsGood :
    (answer : Option (Result (Unit {0}))) (p : Progress)
    → IsSupervised p
    → IsGood (after_wait answer p)
unfolding after_wait
after_wait-IsGood none p w = tt
after_wait-IsGood (some (ok _)) p w = w
after_wait-IsGood (some (err e)) p w = abort-IsGood e p w

check_time-IsGood :
    (deadline : ℕ) (r : Round) (p : Progress) → IsSupervised p → IsGood (check_time deadline r p)
unfolding check_time
check_time-IsGood deadline r p w = elim (Bool-cases (leb deadline r.now)) [
  | inl late ↦ rw late (abort-IsGood _ p w)
  | inr early ↦
      rw early (after_wait-IsGood (wait_for_output p.stdout_eof p.stderr_eof deadline r.polls) p w)
]

collect_status-IsGood :
    (deadline : ℕ) (r : Round) (waited : Result (Option ExitStatus)) (p : Progress)
    → IsSupervised p
    → IsGood (collect_status deadline r waited p)
unfolding collect_status
collect_status-IsGood deadline r (err e) p w = abort-IsGood e p w
collect_status-IsGood deadline r (ok none) p w = check_time-IsGood deadline r p w
collect_status-IsGood deadline r (ok (some status)) p w = check_time-IsGood deadline r _ (record {
  collected = λ _. refl;
  stdout_bounded = w.stdout_bounded;
  stderr_bounded = w.stderr_bounded;
})

check_end-IsGood :
    (deadline : ℕ) (r : Round) (p : Progress) → IsSupervised p → IsGood (check_end deadline r p)
unfolding check_end await_child
check_end-IsGood deadline r p w =
    elim (Bool-cases (is_some p.status && (p.stdout_eof && p.stderr_eof))) [
      | inl done ↦ rw done (record {
        reaped = w.collected (ground arith);
        stdout_bounded = w.stdout_bounded;
        stderr_bounded = w.stderr_bounded;
        complete = (ground arith, ground arith, ground arith);
      })
      | inr open_ ↦ elim (Bool-cases (is_some p.status)) [
        | inl known ↦ rw (open_, known) (check_time-IsGood deadline r p w)
        | inr unknown ↦ rw (open_, unknown) (collect_status-IsGood deadline r r.waited p w)
      ]
    ]

take_stderr-IsGood :
    (deadline : ℕ) (r : Round) (read : Result (Unit {0}) × Collected) (p : Progress)
    → IsSupervised p
    → length read.1.output ≤ max_output_bytes
    → IsGood (take_stderr deadline r read p)
unfolding take_stderr
take_stderr-IsGood deadline r (err e, c) p w b =
    abort-IsGood _ _
      (record { collected = w.collected; stdout_bounded = w.stdout_bounded; stderr_bounded = b })
take_stderr-IsGood deadline r (ok _, c) p w b =
    check_end-IsGood deadline r _
      (record { collected = w.collected; stdout_bounded = w.stdout_bounded; stderr_bounded = b })

take_stdout-IsGood :
    (deadline : ℕ) (r : Round) (read : Result (Unit {0}) × Collected) (p : Progress)
    → IsSupervised p
    → length read.1.output ≤ max_output_bytes
    → IsGood (take_stdout deadline r read p)
unfolding take_stdout
take_stdout-IsGood deadline r (err e, c) p w b =
    abort-IsGood _ _
      (record { collected = w.collected; stdout_bounded = b; stderr_bounded = w.stderr_bounded })
take_stdout-IsGood deadline r (ok _, c) p w b =
    take_stderr-IsGood deadline r _ _
      (record { collected = w.collected; stdout_bounded = b; stderr_bounded = w.stderr_bounded })
      (drain_output_bounded r.stderr p.stderr_bytes p.stderr_eof w.stderr_bounded)

run_round-IsGood :
    (deadline : ℕ) (r : Round) (p : Progress) → IsSupervised p → IsGood (run_round deadline r p)
unfolding run_round
run_round-IsGood deadline r p w =
    take_stdout-IsGood deadline r _ p w
      (drain_output_bounded r.stdout p.stdout_bytes p.stdout_eof w.stdout_bounded)

after-IsEnded :
    (deadline : ℕ) (s : Step) (rest : List Round) {result : Result (Unit {0})} {p' : Progress}
    → IsGood s
    → ((p : Progress)
        → IsSupervised p
        → supervise deadline rest p ≡ some (result, p')
        → IsEnded result p')
    → after s (supervise deadline rest) ≡ some (result, p')
    → IsEnded result p'
unfolding after
after-IsEnded deadline (continues p) rest good later h = later p good h
after-IsEnded deadline waits rest good later h = absurd (cc)
after-IsEnded deadline (ends result p) rest {result = r} {p' = q} good later h =
    let same : ◌≡◌ {A = Result (Unit {0}) × Progress} (result, p) (r, q) = cc in
    subst (λ s. IsEnded s.0 s.1) same good

supervise-IsEnded_from :
    (deadline : ℕ) (rounds : List Round) (p : Progress) {result : Result (Unit {0})} {p' : Progress}
    → IsSupervised p
    → supervise deadline rounds p ≡ some (result, p')
    → IsEnded result p'
unfolding supervise
supervise-IsEnded_from deadline [] p w h = absurd (cc)
supervise-IsEnded_from deadline (r ∷ rest) p w h =
    after-IsEnded deadline (run_round deadline r p) rest (run_round-IsGood deadline r p w)
      (λ q good e. supervise-IsEnded_from deadline rest q good e) h

started-IsSupervised : IsSupervised started
unfolding started
started-IsSupervised = record {
  collected = λ h. absurd (cc);
  stdout_bounded = omega arith;
  stderr_bounded = omega arith;
}

-- However the supervision ends, the child has been reaped and no more than 1 MiB is kept of either
-- output. It ends well only when both pipes have ended and the child's status was collected.
pub supervise-IsEnded :
    (deadline : ℕ) (rounds : List Round) {result : Result (Unit {0})} {p' : Progress}
    → supervise deadline rounds started ≡ some (result, p')
    → IsEnded result p'
supervise-IsEnded deadline rounds h =
    supervise-IsEnded_from deadline rounds started started-IsSupervised h
