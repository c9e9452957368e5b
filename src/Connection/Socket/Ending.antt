-- ===== src/Connection/Socket/Ending.antt =====
-- `connect_unix` ends by its deadline.
use pam_ssh_agent.Common.{
  ℕ, Bytes, List, true, leb, any, Option, none, some, is_some, Result, ok, err, ◌>>◌,
  first_answer_ends, Poll, Bool-cases, ◌≡◌, inl, inr, refl, arith,
}
use pam_ssh_agent.Connection.Socket.{
  Connecting, connected, in_progress, refused, Sockets, is_invalid_path, check_sun_len, poll_once,
  wait_for_connect, finish_connecting, open_socket, restore, connect_opened, connect_unix,
}

poll_once_late :
    (s : Sockets) (deadline : ℕ) (p : Poll)
    → leb deadline p.now ≡ true
    → is_some (poll_once s deadline p) ≡ true
unfolding poll_once
poll_once_late s deadline p late = ground arith

module _ (s : Sockets) (path : Bytes) (deadline : ℕ) (polls : List Poll)
    (late : any (λ p. leb deadline p.now) polls ≡ true) where
  finish_connecting_ends : (c : Connecting) → is_some (finish_connecting s deadline polls c) ≡ true
  unfolding finish_connecting wait_for_connect
  finish_connecting_ends connected = refl
  finish_connecting_ends in_progress =
      first_answer_ends (λ p. poll_once s deadline p) (λ p. leb deadline p.now) polls
        (λ p h. poll_once_late s deadline p h) late
  finish_connecting_ends (refused kind) = refl

  restore_some :
      (flags : ℕ) (answer : Option (Result (Unit {0})))
      → is_some answer ≡ true
      → is_some (restore s path flags answer) ≡ true
  unfolding restore
  restore_some flags none h = cc
  restore_some flags (some answer) h = refl

  connect_opened_ends :
      (socket : Result ℕ) → is_some (connect_opened s path deadline polls socket) ≡ true
  unfolding connect_opened
  connect_opened_ends (err e) = refl
  connect_opened_ends (ok flags) = restore_some flags _ (finish_connecting_ends _)

  -- A connection is not waited for past the deadline: where one of the rounds that the wait may come
  -- to is at the deadline, `connect_unix` has a result.
  pub connect_unix_ends : is_some (connect_unix s path deadline polls) ≡ true
  unfolding connect_unix
  connect_unix_ends = elim (Bool-cases (is_invalid_path s path)) [
    | inl bad ↦ rw (bad, is_some)
    | inr good ↦ rw (good, is_some) (connect_opened_ends (check_sun_len s path >> open_socket s))
  ]
