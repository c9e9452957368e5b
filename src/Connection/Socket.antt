-- ===== src/Connection/Socket.antt =====
-- src/agent_connection.rs: `connect_unix` and `wait_for_connect`.
pub mod Waiting
pub mod Established
pub mod Ending
use Prim.Native.Nat.{bit_or}
use pam_ssh_agent.Common.{
  ℕ, ◌+◌, Bytes, List, Bool, true, false, ◌&&◌, ◌||◌, ◌==◌, leb, ltb, any, is_empty, length, Option,
  none, some, if◌then◌else◌, Result, ok, err, io, IoKind, interrupted, invalid_input, timed_out,
  ◌>>=◌, ◌>>◌, time_left, as_millis, i32_max, clamp, first_answer, PollResult, returned,
  poll_failed, Poll,
}

-- What `connect(2)` answers on a socket that does not block.
pub data Connecting : Type 0 where
  connected in_progress : Connecting
  refused : IoKind → Connecting

-- The target and the calls of the system, for one connection.
pub record Sockets : Type 0 where
  -- the length of `sun_path`, its offset, and whether the address has a length of one byte
  pub sun_path_len : ℕ
  pub sun_path_offset : ℕ
  pub has_sun_len : Bool
  pub nonblocking : ℕ
  pub socket : Result (Unit {0})
  pub set_close_on_exec : Result (Unit {0})
  pub get_flags : Result ℕ
  pub set_flags : ℕ → Result (Unit {0})
  -- for the path and the length of the address
  pub connect : Bytes → ℕ → Connecting
  -- `getsockopt`, and the error that it reads
  pub socket_error : Result (Option IoKind)

-- An open stream: its flags, whether `exec` closes it, and its peer.
pub record UnixStream : Type 0 where
  pub flags : ℕ
  pub close_on_exec : Bool
  pub peer : Bytes

unfoldable pub is_invalid_path : Sockets → Bytes → Bool
is_invalid_path s path = is_empty path || any (λ c. c == 0) path || leb s.sun_path_len (length path)

unfoldable pub address_len : Sockets → Bytes → ℕ
address_len s path = s.sun_path_offset + length path + 1

-- The part on `sun_len`, on the targets that have it.
unfoldable pub check_sun_len : Sockets → Bytes → Result (Unit {0})
unfolding address_len
check_sun_len s path =
    if s.has_sun_len && ltb 255 (address_len s path) then err (io invalid_input) else ok tt

-- From the answer of `poll` on that has found the socket ready.
unfoldable pub check_socket_error : Sockets → Result (Unit {0})
check_socket_error s = do
  found ← s.socket_error
  elim found [ none ↦ ok tt | some kind ↦ err (io kind) ]

-- What a call of `poll` leads to: `none` goes on.
unfoldable pub after_poll : Sockets → PollResult → Option (Result (Unit {0}))
after_poll s (returned n) = some (if n == 0 then err (io timed_out) else check_socket_error s)
after_poll s (poll_failed interrupted) = none
after_poll s (poll_failed kind) = some (err (io kind))

-- One round of the loop of `wait_for_connect`.
unfoldable pub poll_once : Sockets → ℕ → Poll → Option (Result (Unit {0}))
poll_once s deadline p =
    let left = time_left deadline p.now in
    if left == 0
    then some (err (io timed_out))
    else after_poll s (p.answer (clamp 1 i32_max (as_millis left)))

unfoldable pub wait_for_connect : Sockets → ℕ → List Poll → Option (Result (Unit {0}))
unfolding first_answer
wait_for_connect s deadline polls = first_answer (λ p. poll_once s deadline p) polls

-- `connect`, and the wait for a connection that is in progress.
unfoldable pub finish_connecting : Sockets → ℕ → List Poll → Connecting → Option (Result (Unit {0}))
finish_connecting s deadline polls connected = some (ok tt)
finish_connecting s deadline polls in_progress = wait_for_connect s deadline polls
finish_connecting s deadline polls (refused kind) = some (err (io kind))

-- A socket that does not block: its flags before.
unfoldable pub open_socket : Sockets → Result ℕ
open_socket s = do
  s.socket
  s.set_close_on_exec
  flags ← s.get_flags
  s.set_flags (bit_or flags s.nonblocking)
  ok flags

-- The end: the flags are as they were.
unfoldable pub restore :
    Sockets → Bytes → ℕ → Option (Result (Unit {0})) → Option (Result UnixStream)
restore s path flags none = none
restore s path flags (some answer) =
    some (do
      answer
      s.set_flags flags
      ok (record { flags = flags; close_on_exec = true; peer = path }))

unfoldable pub connect_opened :
    Sockets → Bytes → ℕ → List Poll → Result ℕ → Option (Result UnixStream)
unfolding address_len
connect_opened s path deadline polls (err e) = some (err e)
connect_opened s path deadline polls (ok flags) =
    restore s path flags (finish_connecting s deadline polls (s.connect path (address_len s path)))

unfoldable pub connect_unix : Sockets → Bytes → ℕ → List Poll → Option (Result UnixStream)
connect_unix s path deadline polls =
    if is_invalid_path s path
    then some (err (io invalid_input))
    else connect_opened s path deadline polls (check_sun_len s path >> open_socket s)
