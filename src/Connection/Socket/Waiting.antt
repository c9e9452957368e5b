-- ===== src/Connection/Socket/Waiting.antt =====
-- How `wait_for_connect` succeeds.
use pam_ssh_agent.Common.{
  ℕ, ◌<◌, List, [], ◌∷◌, false, ◌==◌, Option, none, some, Result, ok, err, interrupted, time_left,
  as_millis, i32_max, clamp, first_answer-nil, first_answer-done, first_answer-more, sym, io,
  timed_out, PollResult, returned, poll_failed, Poll, Bool-cases, Option-cases, ◌≡◌, ◌≢◌, inl, inr,
  refl, ◌∙◌, arith,
}
use pam_ssh_agent.Connection.Socket.{
  Sockets, check_socket_error, after_poll, poll_once, wait_for_connect,
}

-- A wait that finds the socket ready, before the deadline and without an error, behind calls of
-- `poll` that were interrupted before the deadline.
pub data IsReady (s : Sockets) (deadline : ℕ) : List Poll → Type 0 where
  found_ready :
      {p : Poll} {rest : List Poll} {ready : ℕ}
      → p.now < deadline
      → p.answer (clamp 1 i32_max (as_millis (time_left deadline p.now))) ≡ returned ready
      → ready ≢ 0
      → s.socket_error ≡ ok none
      → IsReady s deadline (p ∷ rest)
  asked_again :
      {p : Poll} {rest : List Poll}
      → p.now < deadline
      → p.answer (clamp 1 i32_max (as_millis (time_left deadline p.now))) ≡ poll_failed interrupted
      → IsReady s deadline rest
      → IsReady s deadline (p ∷ rest)

check_socket_error-ok : (s : Sockets) → check_socket_error s ≡ ok tt → s.socket_error ≡ ok none
unfolding check_socket_error
check_socket_error-ok s h = ground arith

after_poll-ok :
    (s : Sockets) (r : PollResult)
    → after_poll s r ≡ some (ok tt)
    → (n : ℕ) × (r ≡ returned n) × (n ≢ 0) × (check_socket_error s ≡ ok tt)
unfolding after_poll
after_poll-ok s (returned n) h = (n, refl, ground arith, ground arith)
after_poll-ok s (poll_failed interrupted) h = absurd (cc)
after_poll-ok s (poll_failed kind) h = absurd (cc)

after_poll-none :
    (s : Sockets) (r : PollResult) → after_poll s r ≡ none → r ≡ poll_failed interrupted
unfolding after_poll
after_poll-none s (returned n) h = absurd (cc)
after_poll-none s (poll_failed interrupted) h = refl
after_poll-none s (poll_failed kind) h = absurd (cc)

module _ (s : Sockets) (deadline : ℕ) where
  early-poll_once :
      (p : Poll)
      → p.now < deadline
      → poll_once s deadline p
        ≡ after_poll s (p.answer (clamp 1 i32_max (as_millis (time_left deadline p.now))))
  unfolding poll_once
  early-poll_once p early = rw (positive) refl
    where
      positive : (time_left deadline p.now == 0) ≡ false
      positive = ground arith

  poll_once-early :
      (p : Poll) (answer : Option (Result (Unit {0})))
      → poll_once s deadline p ≡ answer
      → answer ≢ some (err (io timed_out))
      → p.now < deadline
  unfolding poll_once
  poll_once-early p answer h other = elim (Bool-cases (time_left deadline p.now == 0)) [
    | inl over ↦ absurd (other (sym h ∙ (rw over refl)))
    | inr more ↦ ground arith
  ]

  poll_once-found :
      (p : Poll) (rest : List Poll)
      → poll_once s deadline p ≡ some (ok tt)
      → IsReady s deadline (p ∷ rest)
  poll_once-found p rest h =
      let early = poll_once-early p _ h (λ e. cc) in
      let (n, found, some_ready, sound) =
        after_poll-ok s (p.answer (clamp 1 i32_max (as_millis (time_left deadline p.now))))
          (sym (early-poll_once p early) ∙ h) in
      found_ready early found some_ready (check_socket_error-ok s sound)

  pub wait_for_connect-IsReady :
      (polls : List Poll)
      → wait_for_connect s deadline polls ≡ some (ok tt)
      → IsReady s deadline polls
  unfolding wait_for_connect
  wait_for_connect-IsReady [] h = absurd (cc (first_answer-nil (λ p. poll_once s deadline p)))
  wait_for_connect-IsReady (p ∷ rest) h = elim (Option-cases (poll_once s deadline p)) [
    | inl more ↦
        let early = poll_once-early p _ more (λ e. cc) in
        asked_again early
          (after_poll-none s (p.answer (clamp 1 i32_max (as_millis (time_left deadline p.now))))
            (sym (early-poll_once p early) ∙ more))
          (wait_for_connect-IsReady rest
            (sym (first_answer-more (λ p. poll_once s deadline p) p rest more) ∙ h))
    | inr (answer, done) ↦
        poll_once-found p rest
          (done ∙ sym (first_answer-done (λ p. poll_once s deadline p) p rest done) ∙ h)
  ]

  pub IsReady-wait_for_connect :
      {polls : List Poll}
      → IsReady s deadline polls
      → wait_for_connect s deadline polls ≡ some (ok tt)
  unfolding wait_for_connect after_poll check_socket_error
  IsReady-wait_for_connect (found_ready {p} {rest} {ready} early found some_ready sound) =
      first_answer-done (λ p. poll_once s deadline p) p rest
        (early-poll_once p early ∙ rw (found, sound) (ground arith))
  IsReady-wait_for_connect (asked_again {p} {rest} early again ready) =
      first_answer-more (λ p. poll_once s deadline p) p rest
        (early-poll_once p early ∙ rw again refl)
      ∙ IsReady-wait_for_connect ready
