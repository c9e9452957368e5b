-- ===== src/Connection/Socket/Established.antt =====
-- What a connection that `connect_unix` returns has gone through.
use Prim.Native.Nat.{bit_or}
use pam_ssh_agent.Common.{
  ℕ, ◌+◌, ◌≤◌, Bytes, List, [], ◌∷◌, true, false, ◌==◌, any, is_empty, length, Lacks, Option, none,
  some, Result, ok, err, ◌>>◌, >>=-eq-ok, ok_injective, sym, Poll, Bool-cases, ◌≡◌, ◌≢◌, ◌⊎◌, inl,
  inr, refl, ap, ◌∙◌, subst, arith,
}
use pam_ssh_agent.Connection.Socket.{
  Connecting, connected, in_progress, refused, Sockets, UnixStream, is_invalid_path, address_len,
  check_sun_len, finish_connecting, open_socket, restore, connect_opened, connect_unix,
}
use pam_ssh_agent.Connection.Socket.Waiting.{
  IsReady, wait_for_connect-IsReady, IsReady-wait_for_connect,
}

any-Lacks : (b : ℕ) (s : Bytes) → any (λ c. c == b) s ≡ false → Lacks b s
any-Lacks b [] h = tt
any-Lacks b (c ∷ s) h = ground (arith, any-Lacks b s)

Lacks-any : (b : ℕ) (s : Bytes) → Lacks b s → any (λ c. c == b) s ≡ false
Lacks-any b [] h = refl
Lacks-any b (c ∷ s) h = ground (arith, Lacks-any b s h.1, h.0)

ne-nil-is_empty : (s : Bytes) → s ≢ [] → is_empty s ≡ false
ne-nil-is_empty [] h = absurd (h refl)
ne-nil-is_empty (c ∷ s) h = refl

is_empty-ne-nil : (s : Bytes) → is_empty s ≡ false → s ≢ []
is_empty-ne-nil [] h e = cc
is_empty-ne-nil (c ∷ s) h e = cc

-- What stands behind a connection: the path is not empty, has no NUL, leaves room for one, and its
-- address has a length of one byte where the target has a field for it; the
-- socket is closed on `exec`, was made not to block and has its own flags again; and the system has
-- connected it at once, or has said before the deadline that it is connected.
pub record IsConnected (s : Sockets) (path : Bytes) (deadline : ℕ) (polls : List Poll)
    (u : UnixStream) : Type 0 where
  pub named : path ≢ []
  pub no_nul : Lacks 0 path
  pub room : length path + 1 ≤ s.sun_path_len
  pub short : s.has_sun_len ≡ true → s.sun_path_offset + length path + 1 ≤ 255
  pub peer : u.peer ≡ path
  pub opened : s.socket ≡ ok tt
  pub closed : s.set_close_on_exec ≡ ok tt
  pub closing : u.close_on_exec ≡ true
  pub own_flags : s.get_flags ≡ ok u.flags
  pub unblocked : s.set_flags (bit_or u.flags s.nonblocking) ≡ ok tt
  pub restored : s.set_flags u.flags ≡ ok tt
  pub answered :
      (s.connect path (s.sun_path_offset + length path + 1) ≡ connected)
      ⊎ ((s.connect path (s.sun_path_offset + length path + 1) ≡ in_progress)
          × IsReady s deadline polls)

some_injective {ℓ} : {A : Type ℓ} (a b : A) → some a ≡ some b → a ≡ b
some_injective a b h = cc

finish_connecting-ok :
    (s : Sockets) (deadline : ℕ) (polls : List Poll) (c : Connecting)
    → finish_connecting s deadline polls c ≡ some (ok tt)
    → (c ≡ connected) ⊎ ((c ≡ in_progress) × IsReady s deadline polls)
unfolding finish_connecting
finish_connecting-ok s deadline polls connected h = inl refl
finish_connecting-ok s deadline polls in_progress h =
    inr (refl, wait_for_connect-IsReady s deadline polls h)
finish_connecting-ok s deadline polls (refused kind) h = absurd (cc)

check_sun_len-ok :
    (s : Sockets) (path : Bytes)
    → check_sun_len s path ≡ ok tt
    → s.has_sun_len ≡ true
    → s.sun_path_offset + length path + 1 ≤ 255
unfolding check_sun_len address_len
check_sun_len-ok s path h has = ground arith

open_socket-ok :
    (s : Sockets) {flags : ℕ}
    → open_socket s ≡ ok flags
    → (s.socket ≡ ok tt)
      × (s.set_close_on_exec ≡ ok tt)
      × (s.get_flags ≡ ok flags)
      × (s.set_flags (bit_or flags s.nonblocking) ≡ ok tt)
unfolding open_socket
open_socket-ok s {flags} h =
    let (_, opened, h1) = >>=-eq-ok s.socket _ h in
    let (_, closed, h2) = >>=-eq-ok s.set_close_on_exec _ h1 in
    let (own, got, h3) = >>=-eq-ok s.get_flags _ h2 in
    let (_, unblocked, h4) = >>=-eq-ok (s.set_flags (bit_or own s.nonblocking)) _ h3 in
    let same : own ≡ flags = ok_injective _ _ h4 in
    (
      opened,
      closed,
      got ∙ ap ok same,
      subst (λ f. s.set_flags (bit_or f s.nonblocking) ≡ ok tt) same unblocked,
    )

restore-ok :
    (s : Sockets) (path : Bytes) (flags : ℕ) (answer : Option (Result (Unit {0}))) {u : UnixStream}
    → restore s path flags answer ≡ some (ok u)
    → (answer ≡ some (ok tt))
      × (s.set_flags flags ≡ ok tt)
      × (record { flags = flags; close_on_exec = true; peer = path } ≡ u)
unfolding restore
restore-ok s path flags none h = absurd (cc)
restore-ok s path flags (some answer) {u} h =
    let (_, good, h1) = >>=-eq-ok answer _ (some_injective _ _ h) in
    let (_, again, h2) = >>=-eq-ok (s.set_flags flags) _ h1 in
    (ap some good, again, ok_injective _ _ h2)

-- Every connection that `connect_unix` returns has a good path, has its own flags again, and was
-- connected at once or found ready before the deadline.
pub connect_unix-IsConnected :
    (s : Sockets) (path : Bytes) (deadline : ℕ) (polls : List Poll) {u : UnixStream}
    → connect_unix s path deadline polls ≡ some (ok u)
    → IsConnected s path deadline polls u
unfolding connect_unix is_invalid_path connect_opened address_len
connect_unix-IsConnected s path deadline polls {u} h = elim (Bool-cases (is_invalid_path s path)) [
  | inl bad ↦ absurd (cc (rw bad at h))
  | inr good ↦ begun (check_sun_len s path >> open_socket s) refl good (rw good at h)
]
  where
    begun :
        (socket : Result ℕ)
        → (check_sun_len s path >> open_socket s) ≡ socket
        → is_invalid_path s path ≡ false
        → connect_opened s path deadline polls socket ≡ some (ok u)
        → IsConnected s path deadline polls u
    begun (err e) same good h = absurd (cc)
    begun (ok flags) same good h =
        let (_, fits, opened_) = >>=-eq-ok (check_sun_len s path) _ same in
        let (opened, closed, got, unblocked) = open_socket-ok s opened_ in
        let (answer, again, shown) = restore-ok s path flags _ h in
        let done = finish_connecting-ok s deadline polls _ answer in
        subst (λ u. IsConnected s path deadline polls u) shown
          (record {
            named = is_empty-ne-nil path (ground arith);
            no_nul = any-Lacks 0 path (ground arith);
            room = ground arith;
            short = check_sun_len-ok s path fits;
            peer = refl;
            opened = opened;
            closed = closed;
            closing = refl;
            own_flags = got;
            unblocked = unblocked;
            restored = again;
            answered = done;
          })

valid_path :
    (s : Sockets) (path : Bytes)
    → path ≢ []
    → Lacks 0 path
    → length path + 1 ≤ s.sun_path_len
    → is_invalid_path s path ≡ false
unfolding is_invalid_path
valid_path s path named no_nul room =
    let some_byte = ne-nil-is_empty path named in
    let no_zero = Lacks-any 0 path no_nul in ground arith

check_sun_len_ok :
    (s : Sockets) (path : Bytes)
    → (s.has_sun_len ≡ true → s.sun_path_offset + length path + 1 ≤ 255)
    → check_sun_len s path ≡ ok tt
unfolding check_sun_len address_len
check_sun_len_ok s path short = elim (Bool-cases s.has_sun_len) [
  | inl has ↦ let bound = short has in ground arith
  | inr lacks ↦ ground arith
]

finish_connecting_ok :
    (s : Sockets) (deadline : ℕ) (polls : List Poll) (c : Connecting)
    → (c ≡ connected) ⊎ ((c ≡ in_progress) × IsReady s deadline polls)
    → finish_connecting s deadline polls c ≡ some (ok tt)
unfolding finish_connecting
finish_connecting_ok s deadline polls c (inl e) = rw e refl
finish_connecting_ok s deadline polls c (inr (e, ready)) =
    rw e (IsReady-wait_for_connect s deadline ready)

open_socket_ok :
    (s : Sockets) (flags : ℕ)
    → s.socket ≡ ok tt
    → s.set_close_on_exec ≡ ok tt
    → s.get_flags ≡ ok flags
    → s.set_flags (bit_or flags s.nonblocking) ≡ ok tt
    → open_socket s ≡ ok flags
unfolding open_socket
open_socket_ok s flags opened closed got unblocked = simp (opened, closed, got, unblocked)

restore_ok :
    (s : Sockets) (path : Bytes) (flags : ℕ) (answer : Option (Result (Unit {0})))
    → answer ≡ some (ok tt)
    → s.set_flags flags ≡ ok tt
    → restore s path flags answer
      ≡ some (ok (record { flags = flags; close_on_exec = true; peer = path }))
unfolding restore
restore_ok s path flags answer done restored = rw (done, restored) refl

pub IsConnected-connect_unix :
    (s : Sockets) (path : Bytes) (deadline : ℕ) (polls : List Poll) {u : UnixStream}
    → IsConnected s path deadline polls u
    → connect_unix s path deadline polls ≡ some (ok u)
unfolding connect_unix connect_opened address_len
IsConnected-connect_unix s path deadline polls {u} c =
    rw
      (
        valid_path s path c.named c.no_nul c.room,
        check_sun_len_ok s path c.short,
        open_socket_ok s u.flags c.opened c.closed c.own_flags c.unblocked,
      )
      (restore_ok s path u.flags _ (finish_connecting_ok s deadline polls _ c.answered) c.restored
        ∙ ap (λ v. some (ok v)) same)
  where
    same : record { flags = u.flags; close_on_exec = true; peer = path } ≡ u
    same i = record { flags = u.flags; close_on_exec = sym c.closing i; peer = sym c.peer i }
