-- ===== src/Connection/Deadline.antt =====
-- src/agent_connection.rs: `DeadlineStream` and `connect`.
pub mod Transfers
pub mod Clients
use pam_ssh_agent.Common.{
  ℕ, ◌+◌, ◌==◌, Bytes, Option, none, some, if◌then◌else◌, Result, ok, err, io, IoKind, timed_out,
  would_block, ◌⊎◌, inl, inr, ◌>>=◌, ◌>>◌, time_left, nanoseconds, List, Poll,
}
use pam_ssh_agent.Connection.Socket.{Sockets, UnixStream, connect_unix}

pub record DeadlineStream : Type 0 where
  pub stream : UnixStream
  pub deadline : ℕ

-- The timeouts of a socket, as `setsockopt` has set them last.
pub record Timeouts : Type 0 where
  pub read_timeout : Option ℕ
  pub write_timeout : Option ℕ

-- What one operation on the stream meets: the clock, the calls that set a timeout, and what the
-- system does under the timeouts that the socket then has.
pub record Io : Type 0 where
  pub now : ℕ
  pub set_read_timeout : ℕ → Result (Unit {0})
  pub set_write_timeout : ℕ → Result (Unit {0})
  pub read : Timeouts → Bytes ⊎ IoKind
  pub write : Timeouts → Bytes → ℕ ⊎ IoKind
  pub flush : Timeouts → Unit {0} ⊎ IoKind

-- How an operation ends: its result, the timeouts of the socket, and those under which the system was
-- asked to do it, if it was.
pub record Attempt (A : Type 0) : Type 0 where
  pub result : Result A
  pub timeouts : Timeouts
  pub asked : Option Timeouts

unfoldable pub remaining : ℕ → ℕ → Result ℕ
remaining deadline now =
    let left = time_left deadline now in if left == 0 then err (io timed_out) else ok left

pub map_timeout : IoKind → IoKind
map_timeout timed_out = timed_out
map_timeout would_block = timed_out
map_timeout kind = kind

-- `map_err(Self::map_timeout)`
unfoldable pub map_result : {A : Type 0} → A ⊎ IoKind → Result A
unfolding map_timeout
map_result (inl a) = ok a
map_result (inr kind) = err (io (map_timeout kind))

-- An operation behind its timeout: without one the system is not asked.
unfoldable pub perform :
    {A : Type 0} → (Timeouts → A ⊎ IoKind) → Timeouts → Result Timeouts → Attempt A
perform operation before (err e) = record { result = err e; timeouts = before; asked = none }
perform operation before (ok set) = record {
  result = map_result (operation set);
  timeouts = set;
  asked = some set;
}

-- `set_read_timeout(Some(self.remaining()?))?`
unfoldable pub limit_read : DeadlineStream → Io → Timeouts → Result Timeouts
limit_read d call timeouts = do
  left ← remaining d.deadline call.now
  call.set_read_timeout left
  ok (record timeouts { read_timeout = some left })

-- `set_write_timeout(Some(self.remaining()?))?`
unfoldable pub limit_write : DeadlineStream → Io → Timeouts → Result Timeouts
limit_write d call timeouts = do
  left ← remaining d.deadline call.now
  call.set_write_timeout left
  ok (record timeouts { write_timeout = some left })

unfoldable pub read : DeadlineStream → Io → Timeouts → Attempt Bytes
read d call timeouts = perform call.read timeouts (limit_read d call timeouts)

unfoldable pub write : DeadlineStream → Io → Bytes → Timeouts → Attempt ℕ
write d call buffer timeouts =
    perform (λ t. call.write t buffer) timeouts (limit_write d call timeouts)

unfoldable pub flush : DeadlineStream → Io → Timeouts → Attempt (Unit {0})
flush d call timeouts = perform call.flush timeouts (limit_write d call timeouts)

-- A client over a stream, or one that the crate ssh-agent-client-rs connects by itself.
pub data Client : Type 0 where
  with_read_write : DeadlineStream → Client
  unlimited : Client

unfoldable pub connect_by : Sockets → Bytes → ℕ → List Poll → Option (Result Client)
connect_by s path deadline polls = elim (connect_unix s path deadline polls) [
  | none ↦ none
  | some answer ↦
      some
        (do stream ← answer; ok (with_read_write (record { stream = stream; deadline = deadline })))
]

-- `connect`, with the crate's own connection as a parameter, at a time of the clock.
unfoldable pub connect :
    (Bytes → Result (Unit {0}))
    → Sockets
    → ℕ
    → Bytes
    → Option ℕ
    → List Poll
    → Option (Result Client)
connect client_connect s now path none polls = some (do client_connect path; ok unlimited)
connect client_connect s now path (some timeout) polls =
    connect_by s path (now + nanoseconds timeout) polls
