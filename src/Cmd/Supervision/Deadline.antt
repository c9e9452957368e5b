-- ===== src/Cmd/Supervision/Deadline.antt =====
-- The supervision of the child ends when its time is over.
use pam_ssh_agent.Common.{
  All, ℕ, List, [], ◌∷◌, true, ◌&&◌, leb, any, Option, none, some, is_some, Result, ok, err,
  Bool-cases, ◌≡◌, inl, inr, refl, arith,
}
use pam_ssh_agent.Cmd.Waiting.{wait_for_output}
use pam_ssh_agent.Cmd.Waiting.Laws.{wait_for_output_ends}
use pam_ssh_agent.Cmd.{Collected}
use pam_ssh_agent.Cmd.Supervision.{
  ExitStatus, Progress, Round, Step, continues, waits, ends, after_wait, abort, check_time,
  collect_status, await_child, check_end, take_stderr, take_stdout, run_round, after, supervise,
}

abbrev IsEnd : Step → Type 0
IsEnd (continues p) = ⊥
IsEnd waits = ⊥
IsEnd (ends result p) = Unit

module _ (deadline : ℕ) (r : Round) (late : leb deadline r.now ≡ true) where
  check_time-IsEnd : (p : Progress) → IsEnd (check_time deadline r p)
  unfolding check_time abort
  check_time-IsEnd p = rw late tt

  collect_status-IsEnd :
      (waited : Result (Option ExitStatus)) (p : Progress)
      → IsEnd (collect_status deadline r waited p)
  unfolding collect_status abort
  collect_status-IsEnd (err e) p = tt
  collect_status-IsEnd (ok none) p = check_time-IsEnd p
  collect_status-IsEnd (ok (some status)) p = check_time-IsEnd _

  check_end-IsEnd : (p : Progress) → IsEnd (check_end deadline r p)
  unfolding check_end await_child
  check_end-IsEnd p = elim (Bool-cases (is_some p.status && (p.stdout_eof && p.stderr_eof))) [
    | inl done ↦ rw done tt
    | inr more ↦ elim (Bool-cases (is_some p.status)) [
      | inl known ↦ rw (more, known) (check_time-IsEnd p)
      | inr unknown ↦ rw (more, unknown) (collect_status-IsEnd r.waited p)
    ]
  ]

  take_stderr-IsEnd :
      (read : Result (Unit {0}) × Collected) (p : Progress) → IsEnd (take_stderr deadline r read p)
  unfolding take_stderr abort
  take_stderr-IsEnd (err e, c) p = tt
  take_stderr-IsEnd (ok _, c) p = check_end-IsEnd _

  take_stdout-IsEnd :
      (read : Result (Unit {0}) × Collected) (p : Progress) → IsEnd (take_stdout deadline r read p)
  unfolding take_stdout abort
  take_stdout-IsEnd (err e, c) p = tt
  take_stdout-IsEnd (ok _, c) p = take_stderr-IsEnd _ _

  run_round-IsEnd : (p : Progress) → IsEnd (run_round deadline r p)
  unfolding run_round
  run_round-IsEnd p = take_stdout-IsEnd _ p

after_end :
    (s : Step) (next : Progress → Option (Result (Unit {0}) × Progress))
    → IsEnd s
    → is_some (after s next) ≡ true
unfolding after
after_end (continues p) next e = absurd e
after_end waits next e = absurd e
after_end (ends result p) next e = refl

-- A round that goes on, or ends.
abbrev HasMoved : Step → Type 0
HasMoved waits = ⊥
HasMoved _ = Unit

-- The wait of every round may come to the deadline.
abbrev pub AllSettle : ℕ → List Round → Type 0
AllSettle deadline rounds = All (λ r. any (λ p. leb deadline p.now) r.polls ≡ true) rounds

after_some :
    (s : Step) (next : Progress → Option (Result (Unit {0}) × Progress))
    → HasMoved s
    → ((p : Progress) → is_some (next p) ≡ true)
    → is_some (after s next) ≡ true
unfolding after
after_some (continues p) next m later = later p
after_some waits next m later = absurd m
after_some (ends result p) next m later = refl

module _ (deadline : ℕ) (r : Round) (settles : any (λ p. leb deadline p.now) r.polls ≡ true) where
  after_wait-HasMoved :
      (answer : Option (Result (Unit {0}))) (p : Progress)
      → is_some answer ≡ true
      → HasMoved (after_wait answer p)
  unfolding after_wait abort
  after_wait-HasMoved none p h = absurd (cc)
  after_wait-HasMoved (some (ok _)) p h = tt
  after_wait-HasMoved (some (err e)) p h = tt

  check_time-HasMoved : (p : Progress) → HasMoved (check_time deadline r p)
  unfolding check_time abort
  check_time-HasMoved p = elim (Bool-cases (leb deadline r.now)) [
    | inl late ↦ rw late tt
    | inr early ↦ rw early (
        after_wait-HasMoved (wait_for_output p.stdout_eof p.stderr_eof deadline r.polls) p
          (wait_for_output_ends p.stdout_eof p.stderr_eof deadline r.polls settles))
  ]

  collect_status-HasMoved :
      (waited : Result (Option ExitStatus)) (p : Progress)
      → HasMoved (collect_status deadline r waited p)
  unfolding collect_status abort
  collect_status-HasMoved (err e) p = tt
  collect_status-HasMoved (ok none) p = check_time-HasMoved p
  collect_status-HasMoved (ok (some status)) p = check_time-HasMoved _

  check_end-HasMoved : (p : Progress) → HasMoved (check_end deadline r p)
  unfolding check_end await_child
  check_end-HasMoved p = elim (Bool-cases (is_some p.status && (p.stdout_eof && p.stderr_eof))) [
    | inl done ↦ rw done tt
    | inr more ↦ elim (Bool-cases (is_some p.status)) [
      | inl known ↦ rw (more, known) (check_time-HasMoved p)
      | inr unknown ↦ rw (more, unknown) (collect_status-HasMoved r.waited p)
    ]
  ]

  take_stderr-HasMoved :
      (read : Result (Unit {0}) × Collected) (p : Progress)
      → HasMoved (take_stderr deadline r read p)
  unfolding take_stderr abort
  take_stderr-HasMoved (err e, c) p = tt
  take_stderr-HasMoved (ok _, c) p = check_end-HasMoved _

  take_stdout-HasMoved :
      (read : Result (Unit {0}) × Collected) (p : Progress)
      → HasMoved (take_stdout deadline r read p)
  unfolding take_stdout abort
  take_stdout-HasMoved (err e, c) p = tt
  take_stdout-HasMoved (ok _, c) p = take_stderr-HasMoved _ _

  run_round-HasMoved : (p : Progress) → HasMoved (run_round deadline r p)
  unfolding run_round
  run_round-HasMoved p = take_stdout-HasMoved _ p

-- The loop ends: where every round's own wait may come to the deadline, and one of the rounds finds
-- the deadline reached at its check of the clock, the loop has a result, whatever the rounds see.
pub supervise_ends :
    (deadline : ℕ) (rounds : List Round) (p : Progress)
    → AllSettle deadline rounds
    → any (λ r. leb deadline r.now) rounds ≡ true
    → is_some (supervise deadline rounds p) ≡ true
unfolding supervise
supervise_ends deadline [] p settle h = absurd (cc)
supervise_ends deadline (r ∷ rest) p (here, others) h = elim (Bool-cases (leb deadline r.now)) [
  | inl late ↦
      after_end (run_round deadline r p) (supervise deadline rest)
        (run_round-IsEnd deadline r late p)
  | inr early ↦
      after_some (run_round deadline r p) (supervise deadline rest)
        (run_round-HasMoved deadline r here p)
        (λ q. supervise_ends deadline rest q others (ground arith))
]
