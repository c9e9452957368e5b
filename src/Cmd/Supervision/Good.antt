-- ===== src/Cmd/Supervision/Good.antt =====
-- The supervision that ends well, as a step relation.
pub mod Exact
use pam_ssh_agent.Common.{
  ℕ, ◌<◌, List, [], ◌∷◌, Bool, true, false, ◌&&◌, leb, Option, none, some, is_some, Result, ok, err,
  Bool-cases, ◌≡◌, ◌↔◌, inl, inr, refl, sym, ap, ◌∙◌, subst, arith,
}
use pam_ssh_agent.Cmd.Waiting.{wait_for_output}
use pam_ssh_agent.Cmd.{Collected, drain_output}
use pam_ssh_agent.Cmd.Supervision.{
  ExitStatus, Progress, Round, Step, continues, waits, ends, after_wait, abort, check_time,
  collect_status, await_child, check_end, take_stderr, take_stdout, run_round, after, supervise,
}

-- The locals behind both reads of a round.
abbrev pub taken : Progress → Collected → Collected → Progress
taken p out error = record p {
  stdout_bytes = out.output;
  stdout_eof = out.eof;
  stderr_bytes = error.output;
  stderr_eof = error.eof;
}

-- Both pipes are read as far as they go, without an error.
abbrev pub Drains : Round → Progress → Collected → Collected → Type 0
Drains r p out error =
    (drain_output r.stdout p.stdout_bytes p.stdout_eof ≡ (ok tt, out))
    × (drain_output r.stderr p.stderr_bytes p.stderr_eof ≡ (ok tt, error))

abbrev pub is_done : Progress → Bool
is_done p = is_some p.status && (p.stdout_eof && p.stderr_eof)

-- What `try_wait` tells, where the status is not known.
pub data Learns (r : Round) (p : Progress) : Progress → Type 0 where
  known_before : is_some p.status ≡ true → Learns r p p
  still_running : is_some p.status ≡ false → r.waited ≡ ok none → Learns r p p
  has_ended :
      {status : ExitStatus}
      → is_some p.status ≡ false
      → r.waited ≡ ok (some status)
      → Learns r p (record p { status = some status; child = record p.child { reaped = true } })

-- Time is left, and the wait for output ends without an error.
abbrev pub Goes : ℕ → Round → Progress → Type 0
Goes deadline r q =
    (r.now < deadline) × (wait_for_output q.stdout_eof q.stderr_eof deadline r.polls ≡ some (ok tt))

-- Rounds that read, learn and wait, up to one behind whose reads all is done.
pub data IsGoodRun (deadline : ℕ) : List Round → Progress → Progress → Type 0 where
  completes :
      {r : Round} {rest : List Round} {p : Progress} {out error : Collected}
      → Drains r p out error
      → is_done (taken p out error) ≡ true
      → IsGoodRun deadline (r ∷ rest) p (taken p out error)
  goes_on :
      {r : Round} {rest : List Round} {p q last : Progress} {out error : Collected}
      → Drains r p out error
      → is_done (taken p out error) ≡ false
      → Learns r (taken p out error) q
      → Goes deadline r q
      → IsGoodRun deadline rest q last
      → IsGoodRun deadline (r ∷ rest) p last

-- What holds of the locals behind a step that goes on, and behind one that ends well.
abbrev On : (Progress → Type 0) → (Progress → Type 0) → Step → Type 0
On K E (continues p) = K p
On K E waits = Unit
On K E (ends (ok _) p) = E p
On K E (ends (err _) p) = Unit

module _ (deadline : ℕ) (r : Round) where
  after_wait-On :
      (answer : Option (Result (Unit {0}))) (p : Progress)
      → On (λ q. (q ≡ p) × (answer ≡ some (ok tt))) (λ _. ⊥) (after_wait answer p)
  unfolding after_wait abort
  after_wait-On none p = tt
  after_wait-On (some (ok _)) p = (refl, refl)
  after_wait-On (some (err e)) p = tt

  On-map :
      {K K' E E' : Progress → Type 0} (s : Step)
      → ((q : Progress) → K q → K' q)
      → ((q : Progress) → E q → E' q)
      → On K E s
      → On K' E' s
  On-map (continues q) f g h = f q h
  On-map waits f g h = tt
  On-map (ends (ok _) q) f g h = g q h
  On-map (ends (err _) q) f g h = tt

  check_time-On :
      (p : Progress) → On (λ q. (q ≡ p) × Goes deadline r q) (λ _. ⊥) (check_time deadline r p)
  unfolding check_time abort
  check_time-On p = elim (Bool-cases (leb deadline r.now)) [
    | inl late ↦ rw late tt
    | inr early ↦
        let answer = wait_for_output p.stdout_eof p.stderr_eof deadline r.polls in
        let soon : r.now < deadline = ground arith in
        rw early (
          On-map (after_wait answer p)
            (λ q (same, done). (same, subst (λ q. Goes deadline r q) (sym same) (soon, done)))
            (λ q h. h) (after_wait-On answer p))
  ]

  collect_status-On :
      (waited : Result (Option ExitStatus)) (p : Progress)
      → r.waited ≡ waited
      → is_some p.status ≡ false
      → On (λ q. Learns r p q × Goes deadline r q) (λ _. ⊥) (collect_status deadline r waited p)
  unfolding collect_status abort
  collect_status-On (err e) p same unknown = tt
  collect_status-On (ok none) p same unknown =
      On-map (check_time deadline r p)
        (λ q (e, goes). (subst (λ q. Learns r p q) (sym e) (still_running unknown same), goes))
        (λ q h. h) (check_time-On p)
  collect_status-On (ok (some status)) p same unknown =
      On-map (check_time deadline r _)
        (λ q (e, goes). (subst (λ q. Learns r p q) (sym e) (has_ended unknown same), goes))
        (λ q h. h) (check_time-On _)

  check_end-On :
      (p : Progress)
      → On
          (λ q. (is_done p ≡ false) × Learns r p q × Goes deadline r q)
          (λ q. (is_done p ≡ true) × (q ≡ p))
          (check_end deadline r p)
  unfolding check_end await_child
  check_end-On p = elim (Bool-cases (is_done p)) [
    | inl done ↦ rw done (refl, refl)
    | inr more ↦ elim (Bool-cases (is_some p.status)) [
      | inl known ↦
          rw (more, known)
            (On-map (check_time deadline r p)
              (λ q (e, goes). (refl, subst (λ q. Learns r p q) (sym e) (known_before known), goes))
              (λ q h. absurd h) (check_time-On p))
      | inr unknown ↦
          rw (more, unknown)
            (On-map (collect_status deadline r r.waited p)
              (λ q (learns, goes). (refl, learns, goes)) (λ q h. absurd h)
              (collect_status-On r.waited p refl unknown))
    ]
  ]

  abbrev IsMiddle : Progress → Progress → Type 0
  IsMiddle p q =
      (out error : Collected) × Drains r p out error
      × (is_done (taken p out error) ≡ false)
      × Learns r (taken p out error) q
      × Goes deadline r q

  abbrev IsLast : Progress → Progress → Type 0
  IsLast p q =
      (out error : Collected) × Drains r p out error
      × (is_done (taken p out error) ≡ true)
      × (q ≡ taken p out error)

  take_stderr-On :
      (p : Progress) (out : Collected) (read : Result (Unit {0}) × Collected)
      → drain_output r.stdout p.stdout_bytes p.stdout_eof ≡ (ok tt, out)
      → drain_output r.stderr p.stderr_bytes p.stderr_eof ≡ read
      → On (IsMiddle p) (IsLast p) (
          take_stderr deadline r read
            (record p { stdout_bytes = out.output; stdout_eof = out.eof }))
  unfolding take_stderr abort
  take_stderr-On p out (err e, error) h h' = tt
  take_stderr-On p out (ok _, error) h h' =
      On-map (check_end deadline r (taken p out error))
        (λ q (more, learns, goes). (out, error, (h, h'), more, learns, goes))
        (λ q (done, same). (out, error, (h, h'), done, same)) (check_end-On (taken p out error))

  take_stdout-On :
      (p : Progress) (read : Result (Unit {0}) × Collected)
      → drain_output r.stdout p.stdout_bytes p.stdout_eof ≡ read
      → On (IsMiddle p) (IsLast p) (take_stdout deadline r read p)
  unfolding take_stdout abort
  take_stdout-On p (err e, out) h = tt
  take_stdout-On p (ok _, out) h =
      take_stderr-On p out (drain_output r.stderr p.stderr_bytes p.stderr_eof) h refl

  run_round-On : (p : Progress) → On (IsMiddle p) (IsLast p) (run_round deadline r p)
  unfolding run_round
  run_round-On p = take_stdout-On p (drain_output r.stdout p.stdout_bytes p.stdout_eof) refl

after-IsGoodRun :
    (deadline : ℕ) (r : Round) (rest : List Round) (p : Progress) (s : Step) {last : Progress}
    → run_round deadline r p ≡ s
    → ((q : Progress)
        → supervise deadline rest q ≡ some (ok tt, last)
        → IsGoodRun deadline rest q last)
    → after s (supervise deadline rest) ≡ some (ok tt, last)
    → IsGoodRun deadline (r ∷ rest) p last
unfolding after
after-IsGoodRun deadline r rest p (continues q) same later h =
    let (out, error, drains, more, learns, goes) =
      subst (On (IsMiddle deadline r p) (IsLast deadline r p)) same (run_round-On deadline r p) in
    goes_on drains more learns goes (later q h)
after-IsGoodRun deadline r rest p waits same later h = absurd (cc)
after-IsGoodRun deadline r rest p (ends (ok _) q) {last} same later h =
    let (out, error, drains, done, e) =
      subst (On (IsMiddle deadline r p) (IsLast deadline r p)) same (run_round-On deadline r p) in
    let here : q ≡ last = cc in
    subst (λ l. IsGoodRun deadline (r ∷ rest) p l) (sym e ∙ here) (completes drains done)
after-IsGoodRun deadline r rest p (ends (err e) q) same later h = absurd (cc)

pub supervise-IsGoodRun :
    (deadline : ℕ) (rounds : List Round) (p : Progress) {last : Progress}
    → supervise deadline rounds p ≡ some (ok tt, last)
    → IsGoodRun deadline rounds p last
unfolding supervise
supervise-IsGoodRun deadline [] p h = absurd (cc)
supervise-IsGoodRun deadline (r ∷ rest) p h =
    after-IsGoodRun deadline r rest p (run_round deadline r p) refl
      (λ q k. supervise-IsGoodRun deadline rest q k) h
