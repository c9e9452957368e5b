-- ===== src/Examples/Connections.antt =====
-- Connections to an agent: one that needs a wait, and the theorems of Connection at it.
use pam_ssh_agent.Common.{
  Result, err, ◌↔◌, Bytes, codes, List, [], ◌∷◌, map, true, false, none, some, is_some, ok, Error,
  would_block, All, ℕ, Option, interrupted, timed_out, Poll, returned, poll_failed, first_answer,
  ◌↔◌, inl, inr, ◌≡◌, refl,
}
use pam_ssh_agent.Connection.Socket.{
  Sockets, UnixStream, in_progress, is_invalid_path, address_len, check_sun_len, check_socket_error,
  after_poll, poll_once, wait_for_connect, finish_connecting, open_socket, restore, connect_opened,
  connect_unix,
}
use pam_ssh_agent.Connection.Socket.Ending.{connect_unix_ends}
use pam_ssh_agent.Connection.Deadline.{
  DeadlineStream, Timeouts, Io, remaining, map_result, perform, limit_read, limit_write, read,
  write, with_read_write, connect_by, connect,
}
use pam_ssh_agent.Connection.Deadline.Transfers
use pam_ssh_agent.Connection.Deadline.Transfers.{
  Operation, Output, received, reads, writes, session, session-IsLimited,
}
use pam_ssh_agent.Connection.Deadline.Clients.{IsLimited, connect_iff}

abbrev pub sockets : Sockets
sockets = record {
  sun_path_len = 108;
  sun_path_offset = 2;
  has_sun_len = false;
  nonblocking = 2048;
  socket = ok tt;
  set_close_on_exec = ok tt;
  get_flags = ok 2;
  set_flags = λ _. ok tt;
  connect = λ _ _. in_progress;
  socket_error = ok none;
}

-- A wait that is interrupted, and then finds the socket ready.
abbrev pub waits : List Poll
waits =
    record { now = 1; answer = λ _. poll_failed interrupted }
    ∷ record { now = 2; answer = λ _. returned 1 }
    ∷ record { now = 2000000000; answer = λ _. returned 0 }
    ∷ []

abbrev socket_path : Bytes
socket_path = codes "/run/agent"

abbrev stream : UnixStream
stream = record { flags = 2; close_on_exec = true; peer = socket_path }

abbrev deadline_stream : DeadlineStream
deadline_stream = record { stream = stream; deadline = 1000000000 }

connected :
    connect (λ _. ok tt) sockets 0 socket_path (some 1) waits
    ≡ some (ok (with_read_write deadline_stream))
unfolding connect connect_by connect_unix is_invalid_path address_len check_sun_len open_socket
    connect_opened restore finish_connecting wait_for_connect poll_once after_poll
    check_socket_error first_answer
connected = refl

connect_iff_example :
    (connect (λ _. ok tt) sockets 0 socket_path (some 1) waits
      ≡ some (ok (with_read_write deadline_stream)))
    ↔ IsLimited sockets socket_path 1000000000 waits (with_read_write deadline_stream)
connect_iff_example =
    connect_iff (λ _. ok tt) sockets 0 socket_path 1 waits (with_read_write deadline_stream)

limited : IsLimited sockets socket_path 1000000000 waits (with_read_write deadline_stream)
limited =
    (connect_iff (λ _. ok tt) sockets 0 socket_path 1 waits (with_read_write deadline_stream)).0
      connected

connect_unix_ends_example : is_some (connect_unix sockets socket_path 1000000000 waits) ≡ true
connect_unix_ends_example = connect_unix_ends sockets socket_path 1000000000 waits refl

-- A read in time, a write that the system stops, and a read behind the deadline.
abbrev meets : ℕ → Io
meets time = record {
  now = time;
  set_read_timeout = λ _. ok tt;
  set_write_timeout = λ _. ok tt;
  read = λ _. inl (codes "ok");
  write = λ _ _. inr would_block;
  flush = λ _. inl tt;
}

abbrev steps : List (Operation × Io)
steps = (reads, meets 7) ∷ (writes (codes "a"), meets 10) ∷ (reads, meets 1000000000) ∷ []

abbrev no_timeouts : Timeouts
no_timeouts = record { read_timeout = none; write_timeout = none }

abbrev timeouts_at : ℕ → Option ℕ → Timeouts
timeouts_at left write = record { read_timeout = some left; write_timeout = write }

session_run :
    map {B = Option Timeouts × Result Output}
      (λ e. (e.asked, e.outcome))
      (session deadline_stream steps no_timeouts)
    ≡ (some (timeouts_at 999999993 none), ok (received (codes "ok")))
      ∷ (some (timeouts_at 999999993 (some 999999990)), err (Error.io timed_out))
      ∷ (none, err (Error.io timed_out))
      ∷ []
unfolding session read write limit_read limit_write perform remaining map_result
session_run = refl

session-IsLimited_example :
    All (Transfers.IsLimited deadline_stream) (session deadline_stream steps no_timeouts)
session-IsLimited_example = session-IsLimited deadline_stream steps no_timeouts
