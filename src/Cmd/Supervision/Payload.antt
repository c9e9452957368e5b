-- ===== src/Cmd/Supervision/Payload.antt =====
-- What the supervision collects: the bytes that the reads of the rounds have received.
use pam_ssh_agent.Common.{
  ℕ, Bytes, List, [], ◌∷◌, ◌++◌, ◌&&◌, leb, Option, none, some, is_some, Result, ok, err,
  Bool-cases, ◌≡◌, inl, inr, refl, subst,
}
use pam_ssh_agent.Cmd.Waiting.{wait_for_output}
use pam_ssh_agent.Cmd.{Stream, Collected, drain_output}
use pam_ssh_agent.Cmd.Output.{payload, drain_output-IsDrained}
use pam_ssh_agent.Cmd.Supervision.{
  ExitStatus, Progress, Round, Step, continues, waits, ends, after_wait, abort, check_time,
  collect_status, await_child, check_end, take_stderr, take_stdout, run_round, after, supervise,
  started,
}

-- A text goes on, over some first rounds, with the payload of a first part of each one's reads.
pub data IsCollected : List Round → Bytes → Bytes → Type 0 where
  finished : {rounds : List Round} (text : Bytes) → IsCollected rounds text text
  next :
      {r : Round} {rest : List Round} {text last : Bytes} (taken left : Stream)
      → r.stdout ≡ taken ++ left
      → IsCollected rest (text ++ payload taken) last
      → IsCollected (r ∷ rest) text last

-- The standard output behind a step that does not fail.
abbrev HasOutput : (Bytes → Type 0) → Step → Type 0
HasOutput P (continues p) = P p.stdout_bytes
HasOutput P waits = Unit
HasOutput P (ends (ok _) p) = P p.stdout_bytes
HasOutput P (ends (err _) p) = Unit

module _ (P : Bytes → Type 0) (deadline : ℕ) (r : Round) where
  after_wait-HasOutput :
      (answer : Option (Result (Unit {0}))) (p : Progress)
      → P p.stdout_bytes
      → HasOutput P (after_wait answer p)
  unfolding after_wait abort
  after_wait-HasOutput none p h = tt
  after_wait-HasOutput (some (ok _)) p h = h
  after_wait-HasOutput (some (err e)) p h = tt

  check_time-HasOutput : (p : Progress) → P p.stdout_bytes → HasOutput P (check_time deadline r p)
  unfolding check_time abort
  check_time-HasOutput p h = elim (Bool-cases (leb deadline r.now)) [
    | inl late ↦ rw late tt
    | inr early ↦
        rw early
          (after_wait-HasOutput (wait_for_output p.stdout_eof p.stderr_eof deadline r.polls) p h)
  ]

  collect_status-HasOutput :
      (waited : Result (Option ExitStatus)) (p : Progress)
      → P p.stdout_bytes
      → HasOutput P (collect_status deadline r waited p)
  unfolding collect_status abort
  collect_status-HasOutput (err e) p h = tt
  collect_status-HasOutput (ok none) p h = check_time-HasOutput p h
  collect_status-HasOutput (ok (some status)) p h = check_time-HasOutput _ h

  check_end-HasOutput : (p : Progress) → P p.stdout_bytes → HasOutput P (check_end deadline r p)
  unfolding check_end await_child
  check_end-HasOutput p h = elim (Bool-cases (is_some p.status && (p.stdout_eof && p.stderr_eof))) [
    | inl done ↦ rw done h
    | inr more ↦ elim (Bool-cases (is_some p.status)) [
      | inl known ↦ rw (more, known) (check_time-HasOutput p h)
      | inr unknown ↦ rw (more, unknown) (collect_status-HasOutput r.waited p h)
    ]
  ]

  take_stderr-HasOutput :
      (read : Result (Unit {0}) × Collected) (p : Progress)
      → P p.stdout_bytes
      → HasOutput P (take_stderr deadline r read p)
  unfolding take_stderr abort
  take_stderr-HasOutput (err e, c) p h = tt
  take_stderr-HasOutput (ok _, c) p h = check_end-HasOutput _ h

  take_stdout-HasOutput :
      (read : Result (Unit {0}) × Collected) (p : Progress)
      → (read.0 ≡ ok tt → P read.1.output)
      → HasOutput P (take_stdout deadline r read p)
  unfolding take_stdout abort
  take_stdout-HasOutput (err e, c) p h = tt
  take_stdout-HasOutput (ok _, c) p h = take_stderr-HasOutput _ _ (h refl)

-- The text behind one round.
abbrev IsNext : Round → Bytes → Bytes → Type 0
IsNext r before text =
    (taken : Stream) × (left : Stream) × (r.stdout ≡ taken ++ left)
    × (text ≡ before ++ payload taken)

run_round-IsNext :
    (deadline : ℕ) (r : Round) (p : Progress)
    → HasOutput (IsNext r p.stdout_bytes) (run_round deadline r p)
unfolding run_round
run_round-IsNext deadline r p =
    take_stdout-HasOutput (IsNext r p.stdout_bytes) deadline r
      (drain_output r.stdout p.stdout_bytes p.stdout_eof) p
      (λ h.
        let d = drain_output-IsDrained r.stdout p.stdout_bytes p.stdout_eof h in
        (d.taken, _, d.split, d.kept))

after-IsCollected :
    (P : Bytes → Type 0) (deadline : ℕ) (s : Step) (rest : List Round) {p' : Progress}
    → HasOutput P s
    → ((p : Progress)
        → supervise deadline rest p ≡ some (ok tt, p')
        → IsCollected rest p.stdout_bytes p'.stdout_bytes)
    → after s (supervise deadline rest) ≡ some (ok tt, p')
    → (text : Bytes) × P text × IsCollected rest text p'.stdout_bytes
unfolding after
after-IsCollected P deadline (continues p) rest fits later h = (p.stdout_bytes, fits, later p h)
after-IsCollected P deadline waits rest fits later h = absurd (cc)
after-IsCollected P deadline (ends (ok _) p) rest {p'} fits later h =
    let same : p ≡ p' = cc in
    (
      p.stdout_bytes,
      fits,
      subst (λ q. IsCollected rest p.stdout_bytes q.stdout_bytes) same (finished p.stdout_bytes),
    )
after-IsCollected P deadline (ends (err e) p) rest fits later h = absurd (cc)

-- A supervision that ends well has collected, behind what was there before, the payload of a first
-- part of each round's reads, round by round, for some first rounds.
supervise-IsCollected :
    (deadline : ℕ) (rounds : List Round) (p : Progress) {p' : Progress}
    → supervise deadline rounds p ≡ some (ok tt, p')
    → IsCollected rounds p.stdout_bytes p'.stdout_bytes
unfolding supervise
supervise-IsCollected deadline [] p h = absurd (cc)
supervise-IsCollected deadline (r ∷ rest) p {p'} h =
    let (text, (taken, left, split, same), others) =
      after-IsCollected (IsNext r p.stdout_bytes) deadline (run_round deadline r p) rest
        (run_round-IsNext deadline r p) (λ q e. supervise-IsCollected deadline rest q e) h in
    next taken left split (subst (λ t. IsCollected rest t p'.stdout_bytes) same others)

-- The same from the locals before the loop on: nothing but what was read is in the output.
pub started-IsCollected :
    (deadline : ℕ) (rounds : List Round) {final : Progress}
    → supervise deadline rounds started ≡ some (ok tt, final)
    → IsCollected rounds [] final.stdout_bytes
unfolding started
started-IsCollected deadline rounds h = supervise-IsCollected deadline rounds started h
