-- ===== src/Cmd/Supervision/Good/Exact.antt =====
-- The supervision ends well exactly with the runs of its step relation.
use pam_ssh_agent.Common.{ℕ, List, false, leb, some, ok, ◌≡◌, ◌↔◌, refl, ap, ◌∙◌, arith}
use pam_ssh_agent.Cmd.{Collected}
use pam_ssh_agent.Cmd.Supervision.{
  Progress, Round, continues, after_wait, check_time, collect_status, await_child, check_end,
  take_stderr, take_stdout, run_round, after, supervise,
}
use pam_ssh_agent.Cmd.Supervision.Good.{
  taken, Drains, is_done, Learns, known_before, still_running, has_ended, Goes, IsGoodRun,
  completes, goes_on, supervise-IsGoodRun,
}

module _ (deadline : ℕ) (r : Round) where
  Drains-run_round :
      (p : Progress) (out error : Collected)
      → Drains r p out error
      → run_round deadline r p ≡ check_end deadline r (taken p out error)
  unfolding run_round take_stdout take_stderr
  Drains-run_round p out error (h, h') = rw (h, h') refl

  Goes-check_time : (q : Progress) → Goes deadline r q → check_time deadline r q ≡ continues q
  unfolding check_time after_wait
  Goes-check_time q (early, done) = rw (still_early, done) refl
    where
      still_early : leb deadline r.now ≡ false
      still_early = ground arith

  Learns-check_end :
      (p q : Progress)
      → is_done p ≡ false
      → Learns r p q
      → Goes deadline r q
      → check_end deadline r p ≡ continues q
  unfolding check_end await_child collect_status check_time
  Learns-check_end p q more (known_before known) goes = rw (more, known) (Goes-check_time p goes)
  Learns-check_end p q more (still_running unknown waited) goes =
      rw (more, unknown, waited) (Goes-check_time p goes)
  Learns-check_end p q more (has_ended unknown waited) goes =
      rw (more, unknown, waited) (Goes-check_time _ goes)

IsGoodRun-supervise :
    (deadline : ℕ) {rounds : List Round} {p last : Progress}
    → IsGoodRun deadline rounds p last
    → supervise deadline rounds p ≡ some (ok tt, last)
unfolding supervise check_end after
IsGoodRun-supervise deadline (completes {r} {rest} {p} {out} {error} drains done) =
    ap (λ s. after s (supervise deadline rest)) (Drains-run_round deadline r p out error drains)
    ∙ rw done refl
IsGoodRun-supervise deadline
      (goes_on {r} {rest} {p} {q} {last} {out} {error} drains more learns goes run) =
    ap (λ s. after s (supervise deadline rest))
      (Drains-run_round deadline r p out error drains
        ∙ Learns-check_end deadline r (taken p out error) q more learns goes)
    ∙ IsGoodRun-supervise deadline run

-- The supervision ends well with some locals exactly if these are the end of a run of rounds that
-- read both pipes without an error, learn the child's status from `try_wait` where it is not known,
-- and wait while time is left, up to a round behind whose reads both pipes have ended and the status
-- is known.
pub supervise_iff :
    (deadline : ℕ) (rounds : List Round) (p last : Progress)
    → (supervise deadline rounds p ≡ some (ok tt, last)) ↔ IsGoodRun deadline rounds p last
supervise_iff deadline rounds p last =
    (λ h. supervise-IsGoodRun deadline rounds p h, λ run. IsGoodRun-supervise deadline run)
