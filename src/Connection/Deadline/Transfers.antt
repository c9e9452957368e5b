-- ===== src/Connection/Deadline/Transfers.antt =====
-- Operations on the stream to the agent, one behind the other: none is asked of the system past the
-- deadline, or without a timeout that ends at it.
use pam_ssh_agent.Common.{
  ℕ, ◌-◌, ◌≤◌, ◌<◌, Bytes, List, [], ◌∷◌, Option, none, some, Result, ok, err, Error, io, IoKind,
  timed_out, would_block, ◌⊎◌, ◌≢◌, inl, inr, ◌>>=◌, ◌>>◌, ◌≡◌, refl, arith, All, leb, Bool-cases,
  Result-cases,
}
use pam_ssh_agent.Connection.Deadline.{
  DeadlineStream, Timeouts, Io, Attempt, remaining, map_timeout, map_result, perform, limit_read,
  limit_write, read, write, flush,
}

-- What a client may do with a stream.
pub data Operation : Type 0 where
  reads flushes : Operation
  writes : Bytes → Operation

-- What an operation yields: the bytes that were read, how many were written, or nothing.
pub data Output : Type 0 where
  received : Bytes → Output
  sent : ℕ → Output
  flushed : Output

-- An operation that was tried: what it met, how it has ended, and the timeouts under which the system
-- was asked to do it, if it was.
pub record Event : Type 0 where
  pub operation : Operation
  pub met : Io
  pub outcome : Result Output
  pub asked : Option Timeouts

abbrev pub outcome_of : {A : Type 0} → (A → Output) → Result A → Result Output
outcome_of output (ok a) = ok (output a)
outcome_of output (err e) = err e

abbrev pub event_of : {A : Type 0} → (A → Output) → Operation → Io → Attempt A → Event
event_of output operation call a = record {
  operation = operation;
  met = call;
  outcome = outcome_of output a.result;
  asked = a.asked;
}

-- Any series of operations, each with what it meets; the socket keeps its timeouts between them.
unfoldable pub session : DeadlineStream → List (Operation × Io) → Timeouts → List Event
session d [] timeouts = []
session d ((reads, call) ∷ rest) timeouts =
    let a = read d call timeouts in event_of received reads call a ∷ session d rest a.timeouts
session d ((writes buffer, call) ∷ rest) timeouts =
    let a = write d call buffer timeouts in
    event_of sent (writes buffer) call a ∷ session d rest a.timeouts
session d ((flushes, call) ∷ rest) timeouts =
    let a = flush d call timeouts in
    event_of (λ _. flushed) flushes call a ∷ session d rest a.timeouts

-- The timeout that counts for an operation, the call that sets it, and what the system says.
abbrev pub own_timeout : Operation → Timeouts → Option ℕ
own_timeout reads t = t.read_timeout
own_timeout (writes _) t = t.write_timeout
own_timeout flushes t = t.write_timeout

abbrev pub set_own : Operation → Io → ℕ → Result (Unit {0})
set_own reads call = call.set_read_timeout
set_own (writes _) call = call.set_write_timeout
set_own flushes call = call.set_write_timeout

abbrev pub answer_of : {A : Type 0} → (A → Output) → A ⊎ IoKind → Output ⊎ IoKind
answer_of output (inl a) = inl (output a)
answer_of output (inr kind) = inr kind

abbrev pub system_answer : Operation → Io → Timeouts → Output ⊎ IoKind
system_answer reads call t = answer_of received (call.read t)
system_answer (writes buffer) call t = answer_of sent (call.write t buffer)
system_answer flushes call t = answer_of (λ _. flushed) (call.flush t)

-- What is told of the system's answer: the same, but that it would block is a timeout.
pub data Tells : Output ⊎ IoKind → Result Output → Type 0 where
  tells_success : (output : Output) → Tells (inl output) (ok output)
  tells_block : Tells (inr would_block) (err (Error.io timed_out))
  tells_other : {kind : IoKind} → kind ≢ would_block → Tells (inr kind) (err (Error.io kind))

-- The ways of an operation: it comes late, its timeout cannot be set, or the system is asked to do it
-- before the deadline, with a timeout of its own that ends there, and its answer is told.
pub data IsLimited (d : DeadlineStream) (e : Event) : Type 0 where
  too_late :
      d.deadline ≤ e.met.now → e.asked ≡ none → e.outcome ≡ err (Error.io timed_out) → IsLimited d e
  not_set :
      {error : Error}
      → e.met.now < d.deadline
      → set_own e.operation e.met (d.deadline - e.met.now) ≡ err error
      → e.asked ≡ none
      → e.outcome ≡ err error
      → IsLimited d e
  limited :
      {t : Timeouts}
      → e.met.now < d.deadline
      → set_own e.operation e.met (d.deadline - e.met.now) ≡ ok tt
      → e.asked ≡ some t
      → own_timeout e.operation t ≡ some (d.deadline - e.met.now)
      → Tells (system_answer e.operation e.met t) e.outcome
      → IsLimited d e

remaining_early : (deadline now : ℕ) → now < deadline → remaining deadline now ≡ ok (deadline - now)
unfolding remaining
remaining_early deadline now h = ground arith

remaining_late : (deadline now : ℕ) → deadline ≤ now → remaining deadline now ≡ err (io timed_out)
unfolding remaining
remaining_late deadline now h = ground arith

map_result-Tells :
    {A : Type 0} (output : A → Output) (r : A ⊎ IoKind)
    → Tells (answer_of output r) (outcome_of output (map_result r))
unfolding map_result map_timeout
map_result-Tells output (inl a) = tells_success (output a)
map_result-Tells output (inr would_block) = tells_block
map_result-Tells output (inr timed_out) = tells_other (λ h. cc)
map_result-Tells output (inr kind) = tells_other (λ h. cc)

-- What comes of setting a timeout, by the call that sets it.
data Limits (d : DeadlineStream) (now : ℕ) (set : Result (Unit {0})) (own : Timeouts → Option ℕ)
    : Result Timeouts → Type 0 where
  comes_late : d.deadline ≤ now → Limits d now set own (err (Error.io timed_out))
  fails : {e : Error} → now < d.deadline → set ≡ err e → Limits d now set own (err e)
  sets :
      {t : Timeouts}
      → now < d.deadline
      → set ≡ ok tt
      → own t ≡ some (d.deadline - now)
      → Limits d now set own (ok t)

module _ (d : DeadlineStream) (now : ℕ) (set : ℕ → Result (Unit {0})) (after : ℕ → Timeouts) where
  set-Limits :
      (own : Timeouts → Option ℕ)
      → own (after (d.deadline - now)) ≡ some (d.deadline - now)
      → now < d.deadline
      → Limits d now
          (set (d.deadline - now))
          own
          (do set (d.deadline - now); ok (after (d.deadline - now)))
  set-Limits own owns early = elim (Result-cases (set (d.deadline - now))) [
    | inl (_, done) ↦ rw done (sets early refl owns)
    | inr (_, failed) ↦ rw failed (fails early refl)
  ]

  limit-Limits :
      (own : Timeouts → Option ℕ)
      → own (after (d.deadline - now)) ≡ some (d.deadline - now)
      → Limits d now
          (set (d.deadline - now))
          own
          (do left ← remaining d.deadline now; set left; ok (after left))
  limit-Limits own owns = elim (Bool-cases (leb d.deadline now)) [
    | inl late ↦ rw (remaining_late d.deadline now (ground arith)) (comes_late (ground arith))
    | inr early ↦
        rw (remaining_early d.deadline now (ground arith)) (set-Limits own owns (ground arith))
  ]

module _ {A : Type 0} (output : A → Output) (d : DeadlineStream) (operation : Operation) (call : Io)
    (system : Timeouts → A ⊎ IoKind) (before : Timeouts)
    (says : (t : Timeouts) → system_answer operation call t ≡ answer_of output (system t)) where
  perform-IsLimited :
      (limit : Result Timeouts)
      → Limits d call.now
          (set_own operation call (d.deadline - call.now))
          (own_timeout operation)
          limit
      → IsLimited d (event_of output operation call (perform system before limit))
  unfolding perform
  perform-IsLimited (err e) (comes_late late) = too_late late refl refl
  perform-IsLimited (err e) (fails early failed) = not_set early failed refl refl
  perform-IsLimited (ok t) (sets early done owns) =
      limited early done refl owns (rw (says t) (map_result-Tells output (system t)))

module _ (d : DeadlineStream) (call : Io) (timeouts : Timeouts) where
  read-IsLimited : IsLimited d (event_of received reads call (read d call timeouts))
  unfolding read limit_read
  read-IsLimited =
      perform-IsLimited received d reads call call.read timeouts (λ t. refl)
        (limit_read d call timeouts)
        (limit-Limits d call.now call.set_read_timeout
          (λ left. record timeouts { read_timeout = some left }) (own_timeout reads) refl)

  write-IsLimited :
      (buffer : Bytes)
      → IsLimited d (event_of sent (writes buffer) call (write d call buffer timeouts))
  unfolding write limit_write
  write-IsLimited buffer =
      perform-IsLimited sent d (writes buffer) call (λ t. call.write t buffer) timeouts (λ t. refl)
        (limit_write d call timeouts)
        (limit-Limits d call.now call.set_write_timeout
          (λ left. record timeouts { write_timeout = some left }) (own_timeout (writes buffer))
          refl)

  flush-IsLimited : IsLimited d (event_of (λ _. flushed) flushes call (flush d call timeouts))
  unfolding flush limit_write
  flush-IsLimited =
      perform-IsLimited (λ _. flushed) d flushes call call.flush timeouts (λ t. refl)
        (limit_write d call timeouts)
        (limit-Limits d call.now call.set_write_timeout
          (λ left. record timeouts { write_timeout = some left }) (own_timeout flushes) refl)

-- In any series of reads, writes and flushes on the stream, every one that comes at or after the
-- deadline fails with a timeout, and the system is not asked to do it. Every earlier one sets the
-- read timeout, for a read, or the write timeout, for a write or a flush, to all the time that is left;
-- if that fails it fails alike and the system is not asked. Otherwise the system is asked to do it under
-- that timeout, and its result is the system's answer (the bytes read, the number written, the failure),
-- or a timeout when the system says that it would block.
pub session-IsLimited :
    (d : DeadlineStream) (steps : List (Operation × Io)) (timeouts : Timeouts)
    → All (IsLimited d) (session d steps timeouts)
unfolding session
session-IsLimited d [] timeouts = tt
session-IsLimited d ((reads, call) ∷ rest) timeouts =
    (read-IsLimited d call timeouts, session-IsLimited d rest _)
session-IsLimited d ((writes buffer, call) ∷ rest) timeouts =
    (write-IsLimited d call timeouts buffer, session-IsLimited d rest _)
session-IsLimited d ((flushes, call) ∷ rest) timeouts =
    (flush-IsLimited d call timeouts, session-IsLimited d rest _)
