-- ===== src/Connection/Deadline/Clients.antt =====
-- `connect`: a client with a timeout is limited by a deadline.
use pam_ssh_agent.Common.{
  ◌↔◌, sym, ap, ◌∙◌, refl, ℕ, ◌+◌, Bytes, List, some, Result, ok, err, ◌>>=◌, nanoseconds, Poll,
  Option-cases, ◌≡◌, inl, inr,
}
use pam_ssh_agent.Connection.Socket.{Sockets, UnixStream, connect_unix}
use pam_ssh_agent.Connection.Socket.Established.{
  IsConnected, connect_unix-IsConnected, IsConnected-connect_unix,
}
use pam_ssh_agent.Connection.Deadline.{Client, with_read_write, connect_by, connect}

-- A client over a stream that is connected under a deadline, and that has the same deadline.
abbrev pub IsLimited : Sockets → Bytes → ℕ → List Poll → Client → Type 0
IsLimited s path deadline polls c =
    (u : UnixStream) × (c ≡ with_read_write (record { stream = u; deadline = deadline }))
    × IsConnected s path deadline polls u

pub connect-IsConnected :
    (client_connect : Bytes → Result (Unit {0})) (s : Sockets) (now : ℕ) (path : Bytes)
    (timeout : ℕ) (polls : List Poll) {c : Client}
    → connect client_connect s now path (some timeout) polls ≡ some (ok c)
    → IsLimited s path (now + nanoseconds timeout) polls c
unfolding connect connect_by
connect-IsConnected client_connect s now path timeout polls {c} h =
    elim (Option-cases (connect_unix s path (now + nanoseconds timeout) polls)) [
      | inl waiting ↦ absurd (cc (rw (waiting, connect_by) at h))
      | inr (answer, e) ↦ opened answer e (rw (e, connect_by) at h)
    ]
  where
    opened :
        (answer : Result UnixStream)
        → connect_unix s path (now + nanoseconds timeout) polls ≡ some answer
        → some (
            answer >>= λ stream.
            ok (with_read_write (record { stream = stream; deadline = now + nanoseconds timeout })))
          ≡ some (ok c)
        → IsLimited s path (now + nanoseconds timeout) polls c
    opened (err e) same h = absurd (cc)
    opened (ok u) same h =
        (u, cc, connect_unix-IsConnected s path (now + nanoseconds timeout) polls same)

connect_by_ok :
    (s : Sockets) (path : Bytes) (deadline : ℕ) (polls : List Poll) {u : UnixStream}
    → connect_unix s path deadline polls ≡ some (ok u)
    → connect_by s path deadline polls
      ≡ some (ok (with_read_write (record { stream = u; deadline = deadline })))
unfolding connect_by
connect_by_ok s path deadline polls h = rw (h, connect_by) refl

IsLimited-connect :
    (client_connect : Bytes → Result (Unit {0})) (s : Sockets) (now : ℕ) (path : Bytes)
    (timeout : ℕ) (polls : List Poll) {c : Client}
    → IsLimited s path (now + nanoseconds timeout) polls c
    → connect client_connect s now path (some timeout) polls ≡ some (ok c)
unfolding connect
IsLimited-connect client_connect s now path timeout polls (u, same, established) =
    connect_by_ok s path (now + nanoseconds timeout) polls
      (IsConnected-connect_unix s path (now + nanoseconds timeout) polls established)
    ∙ ap (λ c. some (ok c)) (sym same)

-- With a timeout, `connect` returns a client exactly if it works over a stream whose deadline is
-- that many seconds away, and which is connected under the same deadline to the path that was asked
-- for: one that is not empty, has no NUL and fits, over a socket that is closed on `exec` and has
-- its flags again, which the system has connected at once or has found ready, before the deadline
-- and without an error, behind waits that were interrupted.
pub connect_iff :
    (client_connect : Bytes → Result (Unit {0})) (s : Sockets) (now : ℕ) (path : Bytes)
    (timeout : ℕ) (polls : List Poll) (c : Client)
    → (connect client_connect s now path (some timeout) polls ≡ some (ok c))
      ↔ IsLimited s path (now + nanoseconds timeout) polls c
connect_iff client_connect s now path timeout polls c = (
  λ h. connect-IsConnected client_connect s now path timeout polls h,
  λ l. IsLimited-connect client_connect s now path timeout polls l,
)
